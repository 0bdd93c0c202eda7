-- ===== src/Recovery/SwitchViews.antt =====
-- The class SwitchView of src/core/Recovery.cc: the role that a switch gives this controller. What the
-- switch answers to the role requests is a list, an empty list being a timeout; an exception is the
-- `error` of an exchange, with what was changed before it.
use runos.Base.{
  ℕ, zero, suc, ◌+◌, Bool, true, false, ◌||◌, ◌&&◌, Option, none, some, List, [], ◌∷◌, ◌++◌,
  if◌then◌else◌, leb,
}
use runos.DpidChecker.{DpidChecker, Result, ok, err, ◌>>=◌, Error, Signal, role, remove_switch}

-- fluid_msg::ofp_controller_role
pub data ControllerRole : Type 0 where
  role_nochange role_equal role_master role_slave : ControllerRole

unfoldable pub role_eq : ControllerRole → ControllerRole → Bool
role_eq role_nochange role_nochange = true
role_eq role_equal role_equal = true
role_eq role_master role_master = true
role_eq role_slave role_slave = true
role_eq _ _ = false

-- A role with a generation, nothing in time, or an error message.
pub data Reply : Type 0 where
  replied : ControllerRole → ℕ → Reply
  late refused : Reply

pub data RoleError : Type 0 where
  switch_equal_error switch_timeout_error openflow_error check_failed out_of_fuel : RoleError

pub record SwitchView : Type 0 where
  pub dpid : ℕ
  pub generation_id : ℕ
  pub role : ControllerRole

-- `slaved` counts the signal roleMasterToSlaveChanged, `sent` is the requests with their generation.
pub record Exchange : Type 0 where
  pub view : SwitchView
  pub replies : List Reply
  pub sent : List (ControllerRole × ℕ)
  pub slaved : ℕ
  pub error : Option RoleError

abbrev pub done : SwitchView → List Reply → Exchange
done v rs = record { view = v; replies = rs; sent = []; slaved = 0; error = none }

abbrev pub failed : RoleError → SwitchView → List Reply → Exchange
failed e v rs = record { view = v; replies = rs; sent = []; slaved = 0; error = some e }

abbrev pub is_none {ℓ} : {A : Type ℓ} → Option A → Bool
is_none none = true
is_none (some a) = false

-- What comes after an exchange, unless it threw.
abbrev pub and_then : Exchange → (SwitchView → List Reply → Exchange) → Exchange
and_then x f =
    let y = f x.view x.replies in
    if is_none x.error
    then record y { sent = x.sent ++ y.sent; slaved = x.slaved + y.slaved }
    else x

abbrev pub takes : ControllerRole → SwitchView → List Reply → Exchange
takes r v rs = done (record v { role = r }) rs

-- The switch on the role that came back, with `retry` for handle_equal_error.
unfoldable pub accept_role :
    ControllerRole → (SwitchView → List Reply → Exchange) → SwitchView → List Reply → Exchange
unfolding role_eq
accept_role role_master retry v rs = takes role_master v rs
accept_role role_slave retry v rs =
    if role_eq v.role role_slave then done v rs else record (takes role_slave v rs) { slaved = 1 }
accept_role role_equal retry v rs =
    if role_eq v.role role_equal
    then done v rs
    else and_then
        (if role_eq v.role role_master || role_eq v.role role_slave then retry v rs else done v rs)
        (takes role_equal)
accept_role role_nochange retry v rs =
    if role_eq v.role role_nochange then done v rs else failed check_failed v rs

-- process_role_reply behind the generation.
unfoldable pub process_role :
    ControllerRole
    → ControllerRole
    → (SwitchView → List Reply → Exchange)
    → SwitchView
    → List Reply
    → Exchange
unfolding role_eq accept_role
process_role sending returned retry v rs =
    and_then
      (if role_eq v.role role_equal && role_eq returned role_equal
        then (if role_eq sending role_nochange then failed switch_equal_error v rs else retry v rs)
        else done v rs)
      (accept_role returned retry)

abbrev pub asked : ControllerRole → SwitchView → Exchange → Exchange
asked sending v x = record x { sent = (sending, v.generation_id) ∷ x.sent }

-- One request and its answer; `retry` is handle_equal_error.
unfoldable pub request_role :
    ControllerRole
    → Bool
    → (SwitchView → List Reply → Exchange)
    → SwitchView
    → List Reply
    → Exchange
unfolding role_eq process_role
request_role sending only_generation retry v [] = asked sending v (failed switch_timeout_error v [])
request_role sending only_generation retry v (late ∷ rs) =
    asked sending v (failed switch_timeout_error v rs)
request_role sending only_generation retry v (refused ∷ rs) =
    asked sending v (failed openflow_error v rs)
request_role sending only_generation retry v (replied returned generation ∷ rs) =
    let v1 = record v { generation_id = generation } in
    asked sending v (
      if role_eq returned role_nochange
      then failed check_failed v rs
      else if only_generation
      then done v1 rs
      else process_role sending returned retry v1 rs)

abbrev pub max_times_meet_equal : ℕ
max_times_meet_equal = 1

-- How often EQUAL was met, after one more; `none` is the role_request_times of -1.
abbrev pub times_met : Option ℕ → ℕ
times_met none = 0
times_met (some n) = n + 1

-- `again` is change_switch_role with the new role_request_times.
abbrev pub handle_equal_error :
    Option ℕ → (SwitchView → List Reply → Exchange) → SwitchView → List Reply → Exchange
handle_equal_error times again v rs =
    if leb max_times_meet_equal (times_met times)
    then failed switch_equal_error v rs
    else again v rs

-- change_switch_role, on fuel: the code calls itself through handle_equal_error.
unfoldable pub change_role :
    ℕ → ControllerRole → Bool → Option ℕ → SwitchView → List Reply → Exchange
unfolding request_role
change_role zero sending only_generation times v rs = failed out_of_fuel v rs
change_role (suc fuel) sending only_generation times v rs =
    request_role sending only_generation
      (handle_equal_error times (change_role fuel sending false (some (times_met times)))) v rs

-- The first request and one for each time that EQUAL may be met.
abbrev pub role_fuel : ℕ
role_fuel = max_times_meet_equal + 1

-- changeSwitchRole: an EQUAL that stays detaches the switch, other exceptions are logged. A failed
-- CHECK in front, or of the checker, goes to the caller.
unfoldable pub detach_if :
    Exchange → DpidChecker → Option RoleError → Result (Exchange × DpidChecker × List Signal)
detach_if x c (some switch_equal_error) = do
  (c', signals) ← remove_switch x.view.dpid (role x.view.dpid c) c
  ok (x, c', signals)
detach_if x c _ = ok (x, c, [])

unfoldable pub change_switch_role :
    ControllerRole
    → Bool
    → SwitchView
    → List Reply
    → DpidChecker
    → Result (Exchange × DpidChecker × List Signal)
unfolding role_eq change_role detach_if
change_switch_role sending only_generation v rs c =
    if role_eq sending role_equal
    then err Error.check_failed
    else detach_if (change_role role_fuel sending only_generation none v rs) c
        (change_role role_fuel sending only_generation none v rs).error
