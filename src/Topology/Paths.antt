-- ===== src/Topology/Paths.antt =====
-- The struct RoutePath of src/core/Topology.cc: a path of a route with its triggers. A set of flags is a
-- function into Bool. The counters of links are bytes. What the Qt timers do is not modelled, only
-- which of them run: `timeout` is what the code connects to a timer.
use runos.Base.{ℕ, ◌+◌, ◌%◌, Bool, true, false, not, ◌||◌, List, [], ◌∷◌, ◌==◌, if◌then◌else◌}
use runos.SwitchAndPort.{SwitchAndPort, port_eq}

pub data MetricsFlag : Type 0 where
  hop port_speed port_loading manual no_metrics : MetricsFlag

pub data TriggerFlag : Type 0 where
  broken maintenance drop util no_flag : TriggerFlag

unfoldable pub flag_eq : TriggerFlag → TriggerFlag → Bool
flag_eq broken broken = true
flag_eq maintenance maintenance = true
flag_eq drop drop = true
flag_eq util util = true
flag_eq no_flag no_flag = true
flag_eq _ _ = false

abbrev pub Flags : Type 0
Flags = TriggerFlag → Bool

-- uint8_t
unfoldable pub u8 : ℕ → ℕ
u8 n = n % 256

unfoldable pub dec8 : ℕ → ℕ
dec8 n = (n + 255) % 256

pub record RoutePath : Type 0 where
  pub id : ℕ
  pub route_id : ℕ
  pub m_path : List SwitchAndPort
  pub triggers : Flags
  pub broken_links : ℕ
  pub maintn_links : ℕ
  pub flapping_timers : Flags
  pub flap : ℕ
  pub broken_flag : Bool
  pub drop_threshold : ℕ
  pub util_threshold : ℕ
  pub metrics : MetricsFlag

-- The constructor, with the initialisers of the members.
unfoldable pub new_path : ℕ → ℕ → List SwitchAndPort → RoutePath
unfolding u8
new_path id route_id path = record {
  id = u8 id;
  route_id = route_id;
  m_path = path;
  triggers = λ f. false;
  broken_links = 0;
  maintn_links = 0;
  flapping_timers = λ f. false;
  flap = 0;
  broken_flag = false;
  drop_threshold = 0;
  util_threshold = 0;
  metrics = hop;
}

unfoldable pub contains_switch : ℕ → List SwitchAndPort → Bool
contains_switch dpid [] = false
contains_switch dpid (sp ∷ sps) = sp.dpid == dpid || contains_switch dpid sps

unfoldable pub contains_port : SwitchAndPort → List SwitchAndPort → Bool
unfolding port_eq
contains_port sp [] = false
contains_port sp (x ∷ xs) = port_eq x sp || contains_port sp xs

unfoldable pub get_trigger : TriggerFlag → RoutePath → Bool
get_trigger tf p = p.triggers tf

-- `triggers == 0`
unfoldable pub inactive : RoutePath → Bool
inactive p = not (
    p.triggers broken
    || p.triggers maintenance
    || p.triggers drop
    || p.triggers util
    || p.triggers no_flag)

abbrev pub with_flag : TriggerFlag → Bool → Flags → Flags
with_flag tf b flags f = if flag_eq f tf then b else flags f

unfoldable pub count_up : TriggerFlag → RoutePath → RoutePath
unfolding u8
count_up broken p = record p { broken_links = u8 (p.broken_links + 1) }
count_up maintenance p = record p { maintn_links = u8 (p.maintn_links + 1) }
count_up _ p = p

unfoldable pub set_trigger : TriggerFlag → RoutePath → RoutePath
unfolding count_up flag_eq
set_trigger tf p = count_up tf (record p { triggers = with_flag tf true p.triggers })

abbrev pub clear_if : Bool → TriggerFlag → RoutePath → RoutePath
clear_if b tf p = if b then record p { triggers = with_flag tf false p.triggers } else p

unfoldable pub del_trigger : TriggerFlag → RoutePath → RoutePath
unfolding dec8 flag_eq
del_trigger broken p =
    clear_if (dec8 p.broken_links == 0) broken (record p { broken_links = dec8 p.broken_links })
del_trigger maintenance p =
    clear_if (dec8 p.maintn_links == 0) maintenance
      (record p { maintn_links = dec8 p.maintn_links })
del_trigger tf p = clear_if true tf p

unfoldable pub reset_triggers : RoutePath → RoutePath
reset_triggers p = record p { triggers = λ f. false }

unfoldable pub clear_flapping : TriggerFlag → RoutePath → RoutePath
unfolding flag_eq
clear_flapping tf p = record p { flapping_timers = with_flag tf false p.flapping_timers }

unfoldable pub start_flapping : TriggerFlag → RoutePath → RoutePath
unfolding flag_eq
start_flapping tf p =
    if p.flap == 0 then p else record p { flapping_timers = with_flag tf true p.flapping_timers }

-- The second part is whether the signal is to be emitted.
unfoldable pub activate_trigger : TriggerFlag → RoutePath → RoutePath × Bool
unfolding clear_flapping get_trigger set_trigger
activate_trigger tf p =
    if p.flapping_timers tf
    then (clear_flapping tf p, false)
    else (set_trigger tf p, not (get_trigger tf p))

unfoldable pub inactivate_trigger : TriggerFlag → RoutePath → RoutePath × Bool
unfolding del_trigger start_flapping get_trigger
inactivate_trigger tf p =
    if p.flapping_timers tf
    then (del_trigger tf p, false)
    else if not (p.flap == 0)
    then (start_flapping tf p, false)
    else (del_trigger tf p, not (get_trigger tf (del_trigger tf p)))

unfoldable pub timeout : TriggerFlag → RoutePath → RoutePath × Bool
unfolding del_trigger clear_flapping get_trigger
timeout tf p = (clear_flapping tf (del_trigger tf p), not (get_trigger tf (del_trigger tf p)))
