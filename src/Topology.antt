-- ===== src/Topology.antt =====
-- src/core/Topology.cc, Topology.hpp: the graph of switches and links, the routes with their paths,
-- and the triggers that tell an application that a path is no longer good. Topology.antt has the
-- state and the slots. The mutexes make each slot one step; signals and database writes are a list.
-- reloadStats, the reading and writing of JSON and the getters of speeds are not modelled.
pub mod Paths
pub mod Counting
pub mod Sequences
pub mod Routes
pub mod Order
pub mod Numbering
pub mod Graphs
pub mod Search
pub mod Shortest
pub mod Reaching
pub mod Finding
pub mod Exact
pub mod Including
pub mod Growing
pub mod Routing
mod Examples
pub mod Identity
use runos.Base.{
  ℕ, zero, suc, ◌+◌, ◌-◌, ◌%◌, ◌^◌, ◌≡◌, Bool, true, false, not, ◌||◌, ◌&&◌, Option, none, some,
  List, [], ◌∷◌, ◌++◌, ltb, leb, ◌==◌, if◌then◌else◌, length,
}
use runos.SwitchAndPort.{SwitchAndPort}
use Paths.{
  RoutePath, TriggerFlag, broken, maintenance, contains_port, contains_switch, activate_trigger,
  inactivate_trigger, start_flapping, timeout, u8, MetricsFlag,
}
use Sequences.{nth}
use Routes.{
  Route, RouteSelector, ServiceFlag, new_route, max_path_id, attach_path, delete_path,
  set_used_path, move_path, modify_path, add_dynamic, del_dynamic, get_first_work_path, or_else,
}
use Graphs.{Graph, add_link, remove_edge_at, new_vertex, delete_vertex}
use Search.{no_ports}
use Finding.{SwitchInfo, PortInfo, find_path, update_metrics}

-- `route_map` lists the routes in the order in which the unordered map is walked. `ready_timer` is
-- whether the timer of linkDiscovered runs.
pub record Topology : Type 0 where
  pub graph : Graph
  pub route_map : List Route
  pub pending_id : ℕ
  pub ready_timer : Bool

pub data Signal : Type 0 where
  trigger_active trigger_inactive : ℕ → ℕ → TriggerFlag → Signal
  route_saved route_erased : ℕ → Signal
  ready : Signal

unfoldable pub find_route : ℕ → List Route → Option Route
find_route id [] = none
find_route id (r ∷ rs) = if r.id == id then some r else find_route id rs

-- `route_map[id] = route`, and the writes through the pointer to a route that is found.
unfoldable pub put_route : Route → List Route → List Route
put_route r [] = r ∷ []
put_route r (s ∷ ss) = if s.id == r.id then r ∷ ss else s ∷ put_route r ss

unfoldable pub erase_route : ℕ → List Route → List Route
erase_route id [] = []
erase_route id (r ∷ rs) = if r.id == id then erase_route id rs else r ∷ erase_route id rs

-- addRoute; the identifier 0 asks for the next one.
unfoldable pub add_route : ℕ → ℕ → ℕ → Topology → Topology × Route
unfolding put_route new_route
add_route from to id t =
    let used = if id == 0 then t.pending_id else id in
    let next =
      if id == 0
      then (t.pending_id + 1) % 2 ^ 32
      else if leb t.pending_id id
      then (id + 1) % 2 ^ 32
      else t.pending_id in
    (
      record t { route_map = put_route (new_route used from to) t.route_map; pending_id = next },
      new_route used from to,
    )

-- A change of every path of every route, with the signals in the order of the walk.
unfoldable pub on_paths :
    (RoutePath → RoutePath × List Signal) → List RoutePath → List RoutePath × List Signal
on_paths f [] = ([], [])
on_paths f (p ∷ ps) = let (q, out) = f p in let (qs, outs) = on_paths f ps in (q ∷ qs, out ++ outs)

unfoldable pub on_routes :
    (RoutePath → RoutePath × List Signal) → List Route → List Route × List Signal
unfolding on_paths
on_routes f [] = ([], [])
on_routes f (r ∷ rs) =
    let (ps, out) = on_paths f r.paths in
    let (ss, outs) = on_routes f rs in (record r { paths = ps } ∷ ss, out ++ outs)

-- The activation of a flag, and the signal.
unfoldable pub activated : TriggerFlag → Bool → RoutePath → RoutePath × List Signal
unfolding activate_trigger
activated tf concerned p =
    let (q, need_emit) = activate_trigger tf p in
    if concerned
    then (q, if need_emit then trigger_active q.route_id q.id tf ∷ [] else [])
    else (p, [])

unfoldable pub inactivated : TriggerFlag → Bool → RoutePath → RoutePath × List Signal
unfolding inactivate_trigger start_flapping
inactivated tf concerned p =
    let (q, need_emit) = inactivate_trigger tf p in
    if concerned
    then (if need_emit
        then (if q.flap == 0
            then (q, trigger_inactive q.route_id q.id tf ∷ [])
            else (start_flapping tf q, []))
        else (q, []))
    else (p, [])

abbrev pub with_routes : Topology → List Route × List Signal → Topology × List Signal
with_routes t (rs, out) = (record t { route_map = rs }, out)

pub on_p_maintenance : SwitchAndPort → Topology → Topology × List Signal
unfolding on_routes activated contains_port
on_p_maintenance mnt t =
    with_routes t
      (on_routes (λ p. activated maintenance (contains_port mnt p.m_path) p) t.route_map)

pub on_p_maintenance_off : SwitchAndPort → Topology → Topology × List Signal
unfolding on_routes inactivated contains_port
on_p_maintenance_off mnt t =
    with_routes t
      (on_routes (λ p. inactivated maintenance (contains_port mnt p.m_path) p) t.route_map)

pub on_s_maintenance : ℕ → Topology → Topology × List Signal
unfolding on_routes activated contains_switch
on_s_maintenance dpid t =
    with_routes t
      (on_routes (λ p. activated maintenance (contains_switch dpid p.m_path) p) t.route_map)

pub on_s_maintenance_off : ℕ → Topology → Topology × List Signal
unfolding on_routes inactivated contains_switch
on_s_maintenance_off dpid t =
    with_routes t
      (on_routes (λ p. inactivated maintenance (contains_switch dpid p.m_path) p) t.route_map)

-- `speed` is as for `add_link`.
pub link_discovered : Option ℕ → SwitchAndPort → SwitchAndPort → Topology → Topology × List Signal
unfolding add_link on_routes inactivated contains_port
link_discovered speed from to t =
    with_routes (record t { graph = add_link speed from to t.graph; ready_timer = true })
      (on_routes (λ p. inactivated broken (p.broken_flag && contains_port from p.m_path) p)
        t.route_map)

pub link_broken : SwitchAndPort → SwitchAndPort → Topology → Topology × List Signal
unfolding remove_edge_at on_routes activated contains_port
link_broken from to t =
    with_routes (record t { graph = remove_edge_at from t.graph })
      (on_routes (λ p. activated broken (p.broken_flag && contains_port from p.m_path) p)
        t.route_map)

pub timer_event : Topology → Topology × List Signal
timer_event t = (record t { ready_timer = false }, ready ∷ [])

pub switch_up : ℕ → Topology → Topology
unfolding new_vertex
switch_up dpid t = record t { graph = (new_vertex dpid t.graph).0 }

pub switch_down : ℕ → Topology → Topology
unfolding delete_vertex
switch_down dpid t = record t { graph = delete_vertex dpid t.graph }

-- An operation on one route: where there is none it answers `missing` and changes nothing, and it
-- saves the route where `saves` holds of its answer.
unfoldable pub on_route {ℓ} :
    {A : Type ℓ} → ℕ → A → (A → Bool) → (Route → Route × A) → Topology → Topology × A × List Signal
unfolding find_route put_route
on_route id missing saves f t = elim (find_route id t.route_map) [
  | none ↦ (t, missing, [])
  | some r ↦
      let (s, a) = f r in
      (
        record t { route_map = put_route s t.route_map },
        a,
        if saves a then route_saved id ∷ [] else [],
      )
]

unfoldable pub delete_path_of : ℕ → ℕ → Topology → Topology × Bool × List Signal
unfolding on_route delete_path
delete_path_of id path_id = on_route id false (λ done. done) (delete_path path_id)

unfoldable pub move_path_of : ℕ → ℕ → ℕ → Topology → Topology × Bool × List Signal
unfolding on_route move_path
move_path_of id path_id new_id = on_route id false (λ done. done) (move_path path_id new_id)

unfoldable pub modify_path_of : ℕ → ℕ → RouteSelector → Topology → Topology × Bool × List Signal
unfolding on_route modify_path
modify_path_of id path_id s = on_route id false (λ done. false) (modify_path path_id s)

unfoldable pub set_used_path_of : ℕ → ℕ → Topology → Topology × Bool × List Signal
unfolding on_route set_used_path
set_used_path_of id path_id =
    on_route id false (λ done. done) (λ r. (set_used_path path_id r, not (r.used_path == path_id)))

unfoldable pub add_dynamic_of : ℕ → RouteSelector → Topology → Topology × Bool × List Signal
unfolding on_route add_dynamic
add_dynamic_of id s = on_route id false (λ done. done) (λ r. (add_dynamic s r, true))

unfoldable pub del_dynamic_of : ℕ → Topology → Topology × Bool × List Signal
unfolding on_route del_dynamic
del_dynamic_of id = on_route id false (λ done. done) (λ r. (del_dynamic r, true))

abbrev pub id_or_max : Option RoutePath → ℕ
id_or_max none = max_path_id
id_or_max (some p) = p.id

unfoldable pub get_first_work_path_id : ℕ → Topology → ℕ
unfolding find_route get_first_work_path
get_first_work_path_id id t = elim (find_route id t.route_map) [
  | none ↦ max_path_id
  | some r ↦ id_or_max (get_first_work_path r)
]

pub delete_route : ℕ → Topology → Topology × List Signal
unfolding erase_route
delete_route id t = (record t { route_map = erase_route id t.route_map }, route_erased id ∷ [])

module _ (other : SwitchAndPort → SwitchAndPort) (rate : SwitchAndPort → ℕ)
    (dijkstra : Graph → ℕ → MetricsFlag → ℕ → ℕ) (ports : ℕ → Option (List PortInfo))
    (switches : List SwitchInfo) where
  -- A path that was found is attached; the answer is its identifier.
  abbrev pub attach_found : RouteSelector → Route → List SwitchAndPort → Route × ℕ
  attach_found s r path =
      if no_ports path then (r, max_path_id) else (attach_path path s r, u8 (length r.paths))

  abbrev pub new_path_at :
      ℕ → RouteSelector → Topology → Option Route → Option (Topology × ℕ × List Signal)
  new_path_at id s t none = some (t, max_path_id, [])
  new_path_at id s t (some r) =
      let g = update_metrics other rate switches t.graph in
      elim (find_path other dijkstra ports switches r s g) [
        | none ↦ none
        | some path ↦
            let (r', path_id) = attach_found s r path in
            some (
              record t { graph = g; route_map = put_route r' t.route_map },
              path_id,
              if no_ports path then [] else route_saved id ∷ [],
            )
      ]

  pub new_path_of : ℕ → RouteSelector → Topology → Option (Topology × ℕ × List Signal)
  unfolding find_route put_route update_metrics find_path attach_path u8
  new_path_of id s t = new_path_at id s t (find_route id t.route_map)
