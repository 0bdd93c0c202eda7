-- ===== src/Topology/Routing.antt =====
-- Paths over the graph that any course of events has built.
use runos.Base.{ℕ, ◌≡◌, true, List, some}
use runos.Topology.Paths.{MetricsFlag}
use runos.Topology.Graphs.{Graph, vertex}
use runos.Topology.Search.{compute_path, in_ex_path, exclude_all}
use runos.Topology.Shortest.{IsPredecessors, Computed, compute_path-Computed}
use runos.Topology.Reaching.{IsRelaxed, Trail, Connects, search-Connects}
use runos.Topology.Including.{in_ex_path-Computed}
use runos.Topology.Growing.{GraphEvent, run_graph, empty_graph, weighing, run_graph-Graphs}

module _ (dijkstra : Graph → ℕ → MetricsFlag → ℕ → ℕ) (mf : MetricsFlag) (es : List GraphEvent)
    (from to : ℕ) where
  -- In a graph that any sequence of link and switch events built from the empty one, and under a
  -- metric that weighs links, computePath ends within as many rounds as there are vertices, and
  -- returns no ports or a chain of linked ports from the first switch to the second, if the
  -- predecessors are as documented of the Dijkstra search.
  pub compute_path_built :
      weighing mf ≡ true
      → ((e : ℕ)
          → IsPredecessors (run_graph es empty_graph) e (dijkstra (run_graph es empty_graph) e mf))
      → Computed
          (run_graph es empty_graph)
          from
          to
          (compute_path dijkstra from to mf (run_graph es empty_graph))
  compute_path_built w t =
      let (label, h) = run_graph-Graphs mf es w in
      compute_path-Computed dijkstra label mf (run_graph es empty_graph) from to h.sound h.labels t

  -- In such a graph, if the vertices of two known switches are connected by a trail of joined
  -- vertices, computePath returns a chain of linked ports from the one switch to the other, if the
  -- predecessors and the relaxation of edges are as documented of the Dijkstra search.
  pub compute_path-Connects :
      weighing mf ≡ true
      → (v e : ℕ) (ws : List ℕ) → vertex from (run_graph es empty_graph) ≡ some v
      → vertex to (run_graph es empty_graph) ≡ some e
      → Trail (run_graph es empty_graph).edges v ws e
      → IsPredecessors (run_graph es empty_graph) e (dijkstra (run_graph es empty_graph) e mf)
      → IsRelaxed (run_graph es empty_graph) e (dijkstra (run_graph es empty_graph) e mf)
      → Connects
          (run_graph es empty_graph)
          from
          to
          (compute_path dijkstra from to mf (run_graph es empty_graph))
  compute_path-Connects w v e ws here there trail tree relaxed =
      let (label, h) = run_graph-Graphs mf es w in
      search-Connects dijkstra label mf (run_graph es empty_graph) from to v e ws h.sound h.labels
        tree relaxed here there trail

  module _ (include exclude : List ℕ) where
    abbrev pub cleared : Graph
    cleared = exclude_all exclude from to (run_graph es empty_graph)

    -- In such a graph inExPath ends too, and returns no ports or a chain of linked ports from the
    -- first switch to the second in the graph without the excluded switches, if the predecessors
    -- are as documented of the Dijkstra search.
    pub in_ex_path_built :
        weighing mf ≡ true
        → ((e : ℕ) → IsPredecessors cleared e (dijkstra cleared e mf))
        → Computed cleared from to
            (in_ex_path dijkstra include exclude mf from to (run_graph es empty_graph))
    in_ex_path_built w t =
        let (label, h) = run_graph-Graphs mf es w in
        in_ex_path-Computed dijkstra label mf include exclude from to (run_graph es empty_graph)
          h.sound h.labels t
