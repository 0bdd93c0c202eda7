-- ===== src/Topology/Examples.antt =====
-- Three switches in a line, and a path with its triggers.
use runos.Base.{
  Option, ℕ, ◌+◌, ◌-◌, ◌≡◌, refl, true, false, ◌||◌, ◌&&◌, some, List, [], ◌∷◌, ltb, leb, ◌==◌,
  if◌then◌else◌, arith, none,
}
use runos.SwitchAndPort.{SwitchAndPort, switch_and_port}
use runos.Topology.{Topology, find_route}
use runos.Topology.Paths.{
  RoutePath, new_path, MetricsFlag, hop, broken, get_trigger, activate_trigger, inactivate_trigger,
  timeout,
}
use runos.Topology.Counting.{
  Counts, link_down, link_up, timer, run_links, run_links_active, all_possible, down_after_all,
  stuck_trigger,
}
use runos.Topology.Routes.{Route, new_route, no_selector, attach_path}
use runos.Topology.Order.{IsNumbered}
use runos.Topology.Numbering.{RouteCall, attach, run_route, run_route-IsNumbered}
use runos.Topology.Sequences.{nth}
use runos.Topology.Graphs.{vertex, Graph, add_link, new_vertex, add_edge}
use runos.Topology.Search.{compute_path}
use runos.Topology.Finding.{PortInfo, select_path, exact_path, exact_steps, oriented, port_to}
use runos.Topology.Exact.{Selected, all_linked, some_step, select_path-Selected}
use runos.Topology.Reaching.{IsRelaxed, Trail, Connects}
use runos.Topology.Shortest.{IsPredecessors, Computed, joined}
use runos.Topology.Growing.{GraphEvent, link_found, run_graph, empty_graph}
use runos.Topology.Routing.{compute_path_built, compute_path-Connects}
use runos.Topology.Identity.{IsFresh}

abbrev port : ℕ → ℕ → SwitchAndPort
port d p = switch_and_port d p

abbrev ends : List SwitchAndPort
ends = port 4 1 ∷ port 5 1 ∷ []

abbrev a_path : RoutePath
a_path = new_path 0 7 ends

abbrev flapping_path : RoutePath
flapping_path = record (new_path 0 7 ends) { flap = 3 }

flapping-Counts : Counts broken 0 flapping_path
unfolding new_path
flapping-Counts = (refl, omega arith, refl, refl)

run_links_active_example :
    get_trigger broken (run_links broken (link_down ∷ link_up ∷ timer ∷ []) flapping_path) ≡ (
      ltb 0 (down_after_all (link_down ∷ link_up ∷ timer ∷ []) 0)
      || (run_links broken (link_down ∷ link_up ∷ timer ∷ []) flapping_path).flapping_timers broken)
unfolding all_possible activate_trigger inactivate_trigger timeout new_path
run_links_active_example =
    run_links_active broken (link_down ∷ link_up ∷ timer ∷ []) flapping_path refl flapping-Counts
      refl

stuck_trigger_example :
    (get_trigger broken (run_links broken (link_up ∷ link_down ∷ link_up ∷ []) a_path) ≡ true)
    × ((run_links broken (link_up ∷ link_down ∷ link_up ∷ []) a_path).broken_links ≡ 255)
unfolding new_path
stuck_trigger_example = stuck_trigger a_path refl refl refl refl

abbrev two_paths : Route
two_paths =
    attach_path ends no_selector
      (attach_path (port 4 2 ∷ port 5 2 ∷ []) no_selector (new_route 7 4 5))

empty-IsNumbered : IsNumbered []
unfolding nth
empty-IsNumbered = record { size = omega arith; numbered = λ i p e. ground (arith, e) }

abbrev two_calls : List RouteCall
two_calls = attach ends no_selector ∷ attach (port 4 2 ∷ port 5 2 ∷ []) no_selector ∷ []

two-IsNumbered : IsNumbered ((run_route two_calls (new_route 7 4 5)).paths)
unfolding new_route
two-IsNumbered = run_route-IsNumbered two_calls (new_route 7 4 5) empty-IsNumbered

abbrev line : List GraphEvent
line =
    link_found (some 1000) (port 4 1) (port 5 1) ∷ link_found (some 1000) (port 5 2) (port 6 1) ∷ []

-- The predecessors in a line of three vertices.
abbrev along : Graph → ℕ → MetricsFlag → ℕ → ℕ
along g e mf v =
    if leb v 2 && leb e 2 then if ltb v e then v + 1 else if ltb e v then v - 1 else v else v

line_size : (run_graph line empty_graph).num_vertices ≡ 3
unfolding run_graph add_link new_vertex
line_size = refl

line-joined :
    (a b : ℕ)
    → joined a b (run_graph line empty_graph).edges
      ≡ ((a == 0 && b == 1 || a == 1 && b == 0) || (a == 1 && b == 2 || a == 2 && b == 1))
unfolding run_graph add_link new_vertex add_edge joined
line-joined a b = ground arith

along-IsPredecessors :
    (e : ℕ)
    → IsPredecessors (run_graph line empty_graph) e (along (run_graph line empty_graph) e hop)
along-IsPredecessors e = record {
  depth = λ v. if leb v 2 && leb e 2 then if ltb v e then e - v else v - e else 0;
  bound = λ v. ground (arith, line_size);
  nearer = λ v h. ground (arith, h);
  edge = λ v h. ground (arith, h, line-joined v (along (run_graph line empty_graph) e hop v));
  root = λ v h k. ground (arith, h, k);
}

compute_path_built_example :
    Computed
      (run_graph line empty_graph)
      4
      6
      (compute_path along 4 6 hop (run_graph line empty_graph))
compute_path_built_example = compute_path_built along hop line 4 6 refl along-IsPredecessors

along-IsRelaxed :
    IsRelaxed (run_graph line empty_graph) 2 (along (run_graph line empty_graph) 2 hop)
along-IsRelaxed v w j r = ground (arith, j, r, line-joined v w)

line-Trail : Trail (run_graph line empty_graph).edges 0 (1 ∷ 2 ∷ []) 2
line-Trail = (ground (arith, line-joined 0 1), (ground (arith, line-joined 1 2), refl))

line_ends :
    (vertex 4 (run_graph line empty_graph) ≡ some 0)
    × (vertex 6 (run_graph line empty_graph) ≡ some 2)
unfolding run_graph add_link new_vertex add_edge vertex
line_ends = (refl, refl)

compute_path-Connects_example :
    Connects
      (run_graph line empty_graph)
      4
      6
      (compute_path along 4 6 hop (run_graph line empty_graph))
compute_path-Connects_example =
    compute_path-Connects along hop line 4 6 refl 0 2 (1 ∷ 2 ∷ []) line_ends.0 line_ends.1
      line-Trail (along-IsPredecessors 2) along-IsRelaxed

computed_run :
    compute_path along 4 6 hop (run_graph line empty_graph)
    ≡ some (port 4 1 ∷ port 5 1 ∷ port 5 2 ∷ port 6 1 ∷ [])
unfolding compute_path run_graph add_link new_vertex add_edge
computed_run = refl

abbrev one_route : Topology
one_route = record {
  graph = run_graph line empty_graph;
  route_map = new_route 1 4 6 ∷ [];
  pending_id = 2;
  ready_timer = false;
}

one_route-IsFresh : IsFresh one_route
unfolding find_route new_route
one_route-IsFresh = record {
  next_pos = omega arith;
  next_small = omega arith;
  below = λ id h. ground (arith, h);
}

-- Port 1 of switch 4 leads to switch 5; the other ports are no core ports.
abbrev next_to : SwitchAndPort → SwitchAndPort
next_to sp = if sp.dpid == 4 && sp.port == 1 then port 5 1 else port 0 0

abbrev edge_ports : ℕ → Option (List PortInfo)
edge_ports d = some (
    record { number = 1; maintenance = false; current_speed = 10; tx_bytes = 0; rx_bytes = 0 } ∷ [])

select_path-Selected_example :
    Selected next_to 4 5 4
      (5 ∷ [])
      (some_step (5 ∷ []) && all_linked next_to edge_ports 4 (5 ∷ []))
      (select_path next_to along edge_ports
        (some (4 ∷ 5 ∷ []))
        no_selector
        (new_route 7 4 5)
        (run_graph line empty_graph))
unfolding new_route
select_path-Selected_example =
    select_path-Selected next_to along edge_ports 4 (5 ∷ []) no_selector (new_route 7 4 5)
      (run_graph line empty_graph)

-- A missing hop is read at its ends.
missing_hop :
    select_path next_to along edge_ports
      (some (4 ∷ 6 ∷ []))
      no_selector
      (new_route 7 4 6)
      (run_graph line empty_graph)
    ≡ none
unfolding select_path exact_path exact_steps oriented port_to
missing_hop = refl
