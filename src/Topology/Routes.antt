-- ===== src/Topology/Routes.antt =====
-- The struct Route of src/core/Topology.cc, and the methods of Topology that change the paths of one
-- route. The vector of paths is a list; a path is a value in it, since no other owner changes it.
use runos.Base.{
  ℕ, zero, suc, ◌+◌, ◌-◌, Bool, true, false, not, ◌||◌, ◌&&◌, Option, none, some, List, [], ◌∷◌,
  ◌++◌, ltb, leb, ◌==◌, if◌then◌else◌, length,
}
use runos.SwitchAndPort.{SwitchAndPort, port_eq}
use runos.Topology.Paths.{
  RoutePath, MetricsFlag, hop, TriggerFlag, new_path, u8, dec8, inactive, reset_triggers,
  get_trigger, broken, drop, util,
}
use runos.Topology.Sequences.{nth, erase_at, insert_at}

pub data ServiceFlag : Type 0 where
  in_band m_cast bbd no_service : ServiceFlag

-- Keyword arguments, each given or not.
pub record RouteSelector : Type 0 where
  pub app : Option ServiceFlag
  pub metrics : Option MetricsFlag
  pub flapping : Option ℕ
  pub broken_trigger : Option Bool
  pub drop_trigger : Option ℕ
  pub util_trigger : Option ℕ
  pub configured_count : Option ℕ
  pub include_dpid : Option (List ℕ)
  pub exclude_dpid : Option (List ℕ)
  pub exact_dpid : Option (List ℕ)

abbrev pub no_selector : RouteSelector
no_selector = record {
  app = none;
  metrics = none;
  flapping = none;
  broken_trigger = none;
  drop_trigger = none;
  util_trigger = none;
  configured_count = none;
  include_dpid = none;
  exclude_dpid = none;
  exact_dpid = none;
}

abbrev pub max_path_id : ℕ
max_path_id = 255

pub record Route : Type 0 where
  pub id : ℕ
  pub from : ℕ
  pub to : ℕ
  pub owner : ServiceFlag
  pub used_path : ℕ
  pub paths : List RoutePath
  pub allowed_dynamic : Bool
  pub dynamic : RouteSelector

unfoldable pub new_route : ℕ → ℕ → ℕ → Route
new_route id from to = record {
  id = id;
  from = from;
  to = to;
  owner = no_service;
  used_path = 0;
  paths = [];
  allowed_dynamic = false;
  dynamic = no_selector;
}

abbrev pub or_else {ℓ} : {A : Type ℓ} → Option A → A → A
or_else none a = a
or_else (some b) a = b

-- What newPath sets of the selector.
unfoldable pub with_selector : RouteSelector → RoutePath → RoutePath
with_selector s p = record p {
  flap = or_else s.flapping p.flap;
  broken_flag = or_else s.broken_trigger p.broken_flag;
  drop_threshold = or_else s.drop_trigger p.drop_threshold;
  util_threshold = or_else s.util_trigger p.util_threshold;
  metrics = or_else s.metrics hop;
}

-- attachPath, with the selector's values written into the new path.
unfoldable pub attach_path : List SwitchAndPort → RouteSelector → Route → Route
unfolding new_path with_selector
attach_path path s r = record r {
  paths = r.paths ++ with_selector s (new_path (length r.paths) r.id path) ∷ [];
}

-- The loop that counts down the identifiers behind `path_id`.
unfoldable pub count_down_from : ℕ → List RoutePath → List RoutePath
unfolding dec8
count_down_from n [] = []
count_down_from zero (p ∷ ps) = record p { id = dec8 p.id } ∷ count_down_from zero ps
count_down_from (suc n) (p ∷ ps) = p ∷ count_down_from n ps

unfoldable pub detach_path : ℕ → Route → Route
unfolding count_down_from erase_at
detach_path path_id r =
    if ltb path_id (length r.paths)
    then record r {
      paths = erase_at path_id (count_down_from (suc path_id) r.paths);
      used_path = if ltb path_id r.used_path then r.used_path - 1 else r.used_path;
    }
    else r

unfoldable pub get_path : ℕ → Route → Option RoutePath
unfolding nth
get_path path_id r = nth path_id r.paths

unfoldable pub first_work : List RoutePath → Option RoutePath
unfolding inactive
first_work [] = none
first_work (p ∷ ps) = if inactive p then some p else first_work ps

unfoldable pub get_first_work_path : Route → Option RoutePath
unfolding first_work
get_first_work_path r = first_work r.paths

unfoldable pub ports_eq : List SwitchAndPort → List SwitchAndPort → Bool
unfolding port_eq
ports_eq [] [] = true
ports_eq (x ∷ xs) (y ∷ ys) = port_eq x y && ports_eq xs ys
ports_eq _ _ = false

unfoldable pub any_path : List SwitchAndPort → List RoutePath → Bool
unfolding ports_eq
any_path path [] = false
any_path path (p ∷ ps) = ports_eq path p.m_path || any_path path ps

unfoldable pub has_path : List SwitchAndPort → Route → Bool
unfolding any_path
has_path path r = any_path path r.paths

-- deletePath on the route: `false` changes nothing.
unfoldable pub delete_path : ℕ → Route → Route × Bool
unfolding detach_path
delete_path path_id r =
    if ltb 1 (length r.paths) && not (r.used_path == path_id) && ltb path_id (length r.paths)
    then (detach_path path_id r, true)
    else (r, false)

unfoldable pub reset_at : ℕ → List RoutePath → List RoutePath
unfolding reset_triggers
reset_at n [] = []
reset_at zero (p ∷ ps) = reset_triggers p ∷ ps
reset_at (suc n) (p ∷ ps) = p ∷ reset_at n ps

unfoldable pub set_used_path : ℕ → Route → Route
unfolding reset_at
set_used_path path_id r =
    if r.used_path == path_id
    then r
    else record r { used_path = path_id; paths = reset_at path_id r.paths }

-- Where a position goes when the path at `path_id` moves to `new_id`; movePath writes it out for
-- `used_path`.
unfoldable pub moved : ℕ → ℕ → ℕ → ℕ
moved path_id new_id used =
    if path_id == used
    then new_id
    else if ltb path_id new_id && ltb path_id used && leb used new_id
    then used - 1
    else if ltb new_id path_id && leb new_id used && ltb used path_id
    then used + 1
    else used

unfoldable pub renumber : ℕ → List RoutePath → List RoutePath
unfolding u8
renumber n [] = []
renumber n (p ∷ ps) = record p { id = u8 n } ∷ renumber (suc n) ps

abbrev pub insert_found : ℕ → Option RoutePath → List RoutePath → List RoutePath
insert_found k none ps = ps
insert_found k (some p) ps = insert_at k p ps

unfoldable pub move_path : ℕ → ℕ → Route → Route × Bool
unfolding moved renumber nth erase_at insert_at u8
move_path path_id new_id r =
    if path_id == new_id || leb (u8 (length r.paths)) path_id || leb (u8 (length r.paths)) new_id
    then (r, false)
    else (
      record r {
        paths = renumber 0 (insert_found new_id (nth path_id r.paths) (erase_at path_id r.paths));
        used_path = moved path_id new_id r.used_path;
      },
      true,
    )

unfoldable pub modify_at : ℕ → RouteSelector → List RoutePath → List RoutePath
modify_at n s [] = []
modify_at zero s (p ∷ ps) =
    record p {
      flap = or_else s.flapping p.flap;
      broken_flag = or_else s.broken_trigger p.broken_flag;
      drop_threshold = or_else s.drop_trigger p.drop_threshold;
      util_threshold = or_else s.util_trigger p.util_threshold;
    }
    ∷ ps
modify_at (suc n) s (p ∷ ps) = p ∷ modify_at n s ps

unfoldable pub modify_path : ℕ → RouteSelector → Route → Route × Bool
unfolding modify_at
modify_path path_id s r =
    if ltb path_id (length r.paths)
    then (record r { paths = modify_at path_id s r.paths }, true)
    else (r, false)

unfoldable pub add_dynamic : RouteSelector → Route → Route
add_dynamic s r = record r { dynamic = s; allowed_dynamic = true }

unfoldable pub del_dynamic : Route → Route
del_dynamic r = record r { dynamic = no_selector; allowed_dynamic = false }

-- out_of_range is caught and answered with 0.
abbrev pub threshold_of : TriggerFlag → RoutePath → ℕ
threshold_of broken p = if p.broken_flag then 1 else 0
threshold_of drop p = p.drop_threshold
threshold_of util p = p.util_threshold
threshold_of _ p = 0

unfoldable pub get_trigger_threshold : ℕ → TriggerFlag → Route → ℕ
unfolding nth
get_trigger_threshold path_id tf r = elim (nth path_id r.paths) [
  | none ↦ 0
  | some p ↦ threshold_of tf p
]

unfoldable pub get_status : ℕ → TriggerFlag → Route → Bool
unfolding nth get_trigger
get_status path_id tf r = elim (nth path_id r.paths) [ none ↦ false | some p ↦ get_trigger tf p ]
