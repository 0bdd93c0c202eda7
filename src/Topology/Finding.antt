-- ===== src/Topology/Finding.antt =====
-- exactPath, updateMetrics and findPath of src/core/Topology.cc: the graph that a path is searched
-- in. What the switch manager knows of switches and ports, and what link discovery answers for the
-- other end of a link, are arguments. `none` is a walk that ran out, a failed CHECK, `at` out of
-- range, `front` of an empty vector, or a switch that is a null pointer.
use runos.Base.{
  ℕ, ◌+◌, ◌-◌, ◌*◌, ◌/◌, ◌^◌, Bool, true, false, not, ◌||◌, ◌&&◌, Option, none, some, List, [], ◌∷◌,
  ltb, leb, ◌==◌, if◌then◌else◌,
}
use mathlib.Core.List.{reverse}
use runos.SwitchAndPort.{SwitchAndPort, switch_and_port}
use runos.Topology.Paths.{MetricsFlag, hop, RoutePath}
use runos.Topology.Routes.{Route, RouteSelector, has_path, or_else}
use runos.Topology.Graphs.{
  Graph, Edge, vertex, clear_switch, remove_edge_at, max_weight_path, max_weight, at_port, joins,
  u64,
}
use runos.Topology.Search.{◌>>=◌, compute_path, in_ex_path}

pub record PortInfo : Type 0 where
  pub number : ℕ
  pub maintenance : Bool
  pub current_speed : ℕ
  pub tx_bytes : ℕ
  pub rx_bytes : ℕ

pub record SwitchInfo : Type 0 where
  pub dpid : ℕ
  pub maintenance : Bool
  pub ports : List PortInfo

module _ (other : SwitchAndPort → SwitchAndPort) where
  unfoldable pub port_to : ℕ → ℕ → List PortInfo → Option SwitchAndPort
  port_to curr next [] = none
  port_to curr next (p ∷ ps) =
      if (other (switch_and_port curr p.number)).dpid == next
      then some (switch_and_port curr p.number)
      else port_to curr next ps

  -- One round of the loop, before the later ones: the ports of the switch, and what is to come.
  -- `some none` is a step without a port, where the path is empty.
  abbrev pub hop_from :
      SwitchAndPort → Option (Option (List SwitchAndPort)) → Option (Option (List SwitchAndPort))
  hop_from sp none = none
  hop_from sp (some none) = some none
  hop_from sp (some (some rest)) = some (some (sp ∷ other sp ∷ rest))

  abbrev pub hop_over :
      Option SwitchAndPort
      → Option (Option (List SwitchAndPort))
      → Option (Option (List SwitchAndPort))
  hop_over none rest = some none
  hop_over (some sp) rest = hop_from sp rest

  abbrev pub look_up :
      ℕ
      → ℕ
      → Option (List PortInfo)
      → Option (Option (List SwitchAndPort))
      → Option (Option (List SwitchAndPort))
  look_up d e none rest = none
  look_up d e (some ps) rest = hop_over (port_to d e ps) rest

  -- A switch that the manager does not know is a null pointer, which the source dereferences.
  unfoldable pub exact_steps :
      (ℕ → Option (List PortInfo)) → List ℕ → Option (Option (List SwitchAndPort))
  unfolding port_to
  exact_steps ports [] = some (some [])
  exact_steps ports (d ∷ []) = some (some [])
  exact_steps ports (d ∷ e ∷ ds) = look_up d e (ports d) (exact_steps ports (e ∷ ds))

  abbrev pub or_empty : Option (Option (List SwitchAndPort)) → Option (List SwitchAndPort)
  or_empty none = none
  or_empty (some path) = some (or_else path [])

  -- An empty list counts down from 0, and `at` throws.
  unfoldable pub exact_path : (ℕ → Option (List PortInfo)) → List ℕ → Option (List SwitchAndPort)
  unfolding exact_steps
  exact_path ports [] = none
  exact_path ports (d ∷ ds) = or_empty (exact_steps ports (d ∷ ds))

  -- No core port, or a loopback.
  unfoldable pub no_link : SwitchAndPort → Bool
  no_link sp = (other sp).dpid == 0 || sp.dpid == (other sp).dpid

  unfoldable pub overloaded : ℕ → PortInfo → Bool
  unfolding u64
  overloaded util p =
      let allowed = u64 (p.current_speed * util) / 100 in
      ltb 0 util
      && (ltb allowed (u64 (p.tx_bytes * 8) / 1000) || ltb allowed (u64 (p.rx_bytes * 8) / 1000))

  unfoldable pub drop_ports : ℕ → ℕ → List PortInfo → Graph → Graph
  unfolding no_link overloaded remove_edge_at
  drop_ports util dpid [] g = g
  drop_ports util dpid (p ∷ ps) g = drop_ports util dpid ps (
      if not (no_link (switch_and_port dpid p.number)) && (p.maintenance || overloaded util p)
      then remove_edge_at (switch_and_port dpid p.number) g
      else g)

  unfoldable pub drop_links : ℕ → List SwitchInfo → Graph → Graph
  unfolding drop_ports
  drop_links util [] g = g
  drop_links util (s ∷ ss) g =
      drop_links util ss (if s.maintenance then g else drop_ports util s.dpid s.ports g)

  unfoldable pub drop_switches : List SwitchInfo → Graph → Graph
  unfolding clear_switch
  drop_switches [] g = g
  drop_switches (s ∷ ss) g = drop_switches ss (if s.maintenance then clear_switch s.dpid g else g)

  -- updateMetrics: the loading metrics of the links of each port, in wrap-around arithmetic. `rate`
  -- is getSpeedRate.
  unfoldable pub pl_weight : ℕ → ℕ → ℕ
  unfolding u64
  pl_weight max cur =
      let w = u64 (max_weight + 2 ^ 64 - u64 (8 * u64 (max + 2 ^ 64 - cur)) / 1000000) in
      if w == 0 then 1 else w

  unfoldable pub load_edges : ℕ → ℕ → SwitchAndPort → ℕ → List Edge → List Edge
  unfolding joins at_port
  load_edges a b sp w [] = []
  load_edges a b sp w (e ∷ es) =
      (if joins a b e && at_port sp e.link
        then record e { link = record e.link { pl_metrics = w } }
        else e)
      ∷ load_edges a b sp w es

  -- A speed of LLONG_MAX or more counts as none.
  abbrev pub plausible : ℕ → ℕ
  plausible n = if leb (2 ^ 63 - 1) n then 0 else n

  abbrev pub max_of : ℕ → ℕ → ℕ
  max_of a b = if ltb a b then b else a

  abbrev pub load_between : SwitchAndPort → ℕ → Graph → Option ℕ → Option ℕ → Graph
  load_between sp w g (some a) (some b) = record g { edges = load_edges a b sp w g.edges }
  load_between sp w g (some a) none = g
  load_between sp w g none b = g

  module _ (rate : SwitchAndPort → ℕ) where
    unfoldable pub update_ports : ℕ → List PortInfo → Graph → Graph
    unfolding no_link pl_weight load_edges vertex
    update_ports dpid [] g = g
    update_ports dpid (p ∷ ps) g =
        let neighbor = other (switch_and_port dpid p.number) in
        update_ports dpid ps (
          if no_link (switch_and_port dpid p.number)
          then g
          else load_between neighbor
              (pl_weight (rate neighbor) (max_of (plausible p.tx_bytes) (plausible p.rx_bytes))) g
              (vertex dpid g) (vertex neighbor.dpid g))

    unfoldable pub update_metrics : List SwitchInfo → Graph → Graph
    unfolding update_ports
    update_metrics [] g = g
    update_metrics (s ∷ ss) g = update_metrics ss (update_ports s.dpid s.ports g)

  unfoldable pub weigh_paths : List RoutePath → Graph → Option Graph
  unfolding max_weight_path
  weigh_paths [] g = some g
  weigh_paths (p ∷ ps) g = do g' ← max_weight_path p.m_path g; weigh_paths ps g'

  unfoldable pub search_graph : List SwitchInfo → ℕ → Route → Graph → Option Graph
  unfolding weigh_paths drop_switches drop_links
  search_graph switches util r g = do
    g' ← weigh_paths r.paths g
    some (drop_links util switches (drop_switches switches g'))

  abbrev pub last_dpid : SwitchAndPort → List SwitchAndPort → ℕ
  last_dpid x [] = x.dpid
  last_dpid x (y ∷ ys) = last_dpid y ys

  -- A path that was given the other way round.
  abbrev pub backwards : ℕ → ℕ → List SwitchAndPort → Bool
  backwards from to [] = false
  backwards from to (x ∷ []) = false
  backwards from to (x ∷ y ∷ ys) = x.dpid == to && last_dpid y ys == from

  -- The test of the ends reads `front` of an empty path.
  abbrev pub check_ends : ℕ → ℕ → List SwitchAndPort → Option (List SwitchAndPort)
  check_ends from to [] = none
  check_ends from to (x ∷ xs) =
      if not (x.dpid == from) || not (last_dpid x xs == to) then some [] else some (x ∷ xs)

  unfoldable pub oriented : ℕ → ℕ → List SwitchAndPort → Option (List SwitchAndPort)
  oriented from to path = check_ends from to (if backwards from to path then reverse path else path)

  module _ (dijkstra : Graph → ℕ → MetricsFlag → ℕ → ℕ) (ports : ℕ → Option (List PortInfo)) where
    abbrev pub list_or_empty : Option (List ℕ) → List ℕ
    list_or_empty l = or_else l []

    abbrev pub given : Option (List ℕ) → Bool
    given none = false
    given (some l) = true

    unfoldable pub select_path :
        Option (List ℕ) → RouteSelector → Route → Graph → Option (List SwitchAndPort)
    unfolding exact_path oriented in_ex_path compute_path
    select_path (some exact) s r g = do path ← exact_path ports exact; oriented r.from r.to path
    select_path none s r g =
        if given s.include_dpid || given s.exclude_dpid
        then in_ex_path dijkstra (list_or_empty s.include_dpid) (list_or_empty s.exclude_dpid)
            (or_else s.metrics hop) r.from r.to g
        else compute_path dijkstra r.from r.to (or_else s.metrics hop) g

    -- A path that the route has is as good as none.
    unfoldable pub find_path :
        List SwitchInfo → Route → RouteSelector → Graph → Option (List SwitchAndPort)
    unfolding search_graph select_path has_path
    find_path switches r s g = do
      g' ← search_graph switches (or_else s.util_trigger 0) r g
      path ← select_path s.exact_dpid s r g'
      some (if has_path path r then [] else path)
