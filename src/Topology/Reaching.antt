-- ===== src/Topology/Reaching.antt =====
-- Whether the search for a path finds one where the switches are connected.
use runos.Base.{
  ℕ, ◌≡◌, sym, Bool, true, false, not, ◌||◌, Option, none, some, List, [], ◌∷◌, ◌==◌, arith,
}
use runos.SwitchAndPort.{SwitchAndPort}
use runos.Topology.Paths.{MetricsFlag}
use runos.Topology.Graphs.{Edge, Graph, vertex}
use runos.Topology.Search.{compute_path, walk}
use runos.Topology.Shortest.{
  All, Sound, joined, Chain, IsPredecessors, Labelled, Walked, stuck_at, walk-Walked,
}

-- A vertex that is the end, or has another vertex as its predecessor.
abbrev pub reached : ℕ → (ℕ → ℕ) → ℕ → Bool
reached e p v = v == e || not (p v == v)

-- What Dijkstra's algorithm documents of its relaxed edges: a neighbour of a reached vertex is
-- reached.
abbrev pub IsRelaxed : Graph → ℕ → (ℕ → ℕ) → Type 0
IsRelaxed g e p =
    (v w : ℕ) → joined v w g.edges ≡ true → reached e p w ≡ true → reached e p v ≡ true

-- From a vertex by way of others to the last.
abbrev pub Trail : List Edge → ℕ → List ℕ → ℕ → Type 0
Trail edges v [] e = v ≡ e
Trail edges v (w ∷ ws) e = (joined v w edges ≡ true) × Trail edges w ws e

abbrev pub Connects : Graph → ℕ → ℕ → Option (List SwitchAndPort) → Type 0
Connects g from to none = true ≡ false
Connects g from to (some ret) = Chain g.edges from ret to

Trail-reached :
    (g : Graph) (e : ℕ) (p : ℕ → ℕ) (v : ℕ) (ws : List ℕ)
    → IsRelaxed g e p
    → Trail g.edges v ws e
    → reached e p v ≡ true
Trail-reached g e p v [] r t = ground (arith, t)
Trail-reached g e p v (w ∷ ws) r (j, t) = r v w j (Trail-reached g e p w ws r t)

module _ (dijkstra : Graph → ℕ → MetricsFlag → ℕ → ℕ) where
  Walked-Connects :
      (label : ℕ → ℕ) (g : Graph) (from to v e : ℕ) (stuck : Bool) (r : Option (List SwitchAndPort))
      → label e ≡ to
      → stuck ≡ false
      → Walked dijkstra label g.edges e v stuck from r
      → Connects g from to r
  Walked-Connects label g from to v e stuck none h s w = w
  Walked-Connects label g from to v e true (some ret) h s w = absurd (ground (arith, s))
  Walked-Connects label g from to v e false (some ret) h s w = rw (← h) w

  module _ (label : ℕ → ℕ) (mf : MetricsFlag) (g : Graph) (from to v e : ℕ) (ws : List ℕ)
      (sound : All (Sound label mf) g.edges) (labels : Labelled label g)
      (tree : IsPredecessors g e (dijkstra g e mf)) (relaxed : IsRelaxed g e (dijkstra g e mf))
      (here : vertex from g ≡ some v) (there : vertex to g ≡ some e)
      (trail : Trail g.edges v ws e) where
    not_stuck : stuck_at dijkstra label mf g e (dijkstra g e mf) sound tree v ≡ false
    unfolding stuck_at
    not_stuck = ground (arith, Trail-reached g e (dijkstra g e mf) v ws relaxed trail)

    walk-Connects :
        Connects g from to (walk dijkstra g.num_vertices (dijkstra g e mf) mf g.edges e v from)
    walk-Connects = Walked-Connects label g from to v e _ _ (labels to e there) not_stuck (
        walk-Walked dijkstra label mf g e (dijkstra g e mf) sound tree g.num_vertices v from
          (tree.bound v) (sym (labels from v here)))

    some_vertices : (g.num_vertices == 0) ≡ false
    some_vertices = ground (arith, tree.bound v)

    pub search-Connects : Connects g from to (compute_path dijkstra from to mf g)
    unfolding compute_path
    search-Connects = rw (some_vertices, here, there) walk-Connects
