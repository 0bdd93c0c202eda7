-- ===== src/Recovery/Asking.antt =====
-- How often a switch is asked for a role, and what a switch that answers EQUAL leaves behind.
use mathlib.Core.Path.{subst}
use runos.Base.{
  ℕ, zero, suc, ◌+◌, ◌≤◌, ◌≡◌, refl, sym, Bool, true, false, not, ◌||◌, ◌&&◌, Option, none, some,
  List, [], ◌∷◌, ◌==◌, if◌then◌else◌, arith, length, length-append,
}
use runos.DpidChecker.{
  DpidChecker, Result, ok, err, ◌>>=◌, Signal, role, remove_switch, SwitchRole, undefined,
  is_registered,
}
use runos.DpidChecker.Roles.{IsUnique, Removed, remove_switch-Removed, registered_role}
use runos.Recovery.SwitchViews.{
  ControllerRole, role_nochange, role_equal, role_master, role_slave, role_eq, Reply, replied, late,
  refused, RoleError, switch_equal_error, SwitchView, Exchange, done, failed, and_then, takes,
  accept_role, process_role, request_role, role_fuel, handle_equal_error, change_role,
  change_switch_role, detach_if,
}

abbrev pub is_out : Option RoleError → Bool
is_out (some RoleError.out_of_fuel) = true
is_out _ = false

-- So many requests at most, and fuel left.
abbrev pub Sends : ℕ → Exchange → Type 0
Sends n x = (length x.sent ≤ n) × (is_out x.error ≡ false)

abbrev Retries : ℕ → (SwitchView → List Reply → Exchange) → Type 0
Retries n f = (v : SwitchView) (rs : List Reply) → Sends n (f v rs)

then_sent :
    (x : Exchange) (f : SwitchView → List Reply → Exchange) (m n : ℕ)
    → Retries n f
    → Sends m x
    → Sends (m + n) (and_then x f)
then_sent x f m n h (l, e) = (
  ground (arith, h x.view x.replies, l, length-append x.sent (f x.view x.replies).sent),
  ground (arith, h x.view x.replies, e),
)

takes_sent : (r : ControllerRole) → Retries 0 (takes r)
takes_sent r v rs = (omega arith, refl)

accept_sent :
    (r : ControllerRole) (n : ℕ) (f : SwitchView → List Reply → Exchange) (v : SwitchView)
    (rs : List Reply)
    → Retries n f
    → Sends n (accept_role r f v rs)
unfolding accept_role
accept_sent role_nochange n f v rs h = ground arith
accept_sent role_master n f v rs h = ground arith
accept_sent role_slave n f v rs h = ground arith
accept_sent role_equal n f v rs h =
    let x = if role_eq v.role role_master || role_eq v.role role_slave then f v rs else done v rs in
    let k : Sends n x = ground (arith, h v rs) in
    ground (arith, then_sent x (takes role_equal) n 0 (takes_sent role_equal) k)

process_sent :
    (s r : ControllerRole) (n : ℕ) (f : SwitchView → List Reply → Exchange) (v : SwitchView)
    (rs : List Reply)
    → Retries n f
    → Sends (n + n) (process_role s r f v rs)
unfolding process_role
process_sent s r n f v rs h =
    let x =
      if role_eq v.role role_equal && role_eq r role_equal
      then (if role_eq s role_nochange then failed switch_equal_error v rs else f v rs)
      else done v rs in
    let k : Sends n x = ground (arith, h v rs) in
    then_sent x (accept_role r f) n n (λ w qs. accept_sent r n f w qs h) k

request_sent :
    (s : ControllerRole) (og : Bool) (n : ℕ) (f : SwitchView → List Reply → Exchange)
    → Retries n f
    → Retries (n + n + 1) (request_role s og f)
unfolding request_role
request_sent s og n f h v [] = (omega arith, refl)
request_sent s og n f h v (late ∷ rs) = (omega arith, refl)
request_sent s og n f h v (refused ∷ rs) = (omega arith, refl)
request_sent s og n f h v (replied r g ∷ rs) =
    ground (arith, process_sent s r n f (record v { generation_id = g }) rs h)

-- Whatever a switch answers, changing its role asks at most three times, and the fuel of one
-- request more than EQUAL may be met is never used up: the calls of change_switch_role through
-- handle_equal_error end.
pub change_role_ends :
    (fuel : ℕ) (s : ControllerRole) (og : Bool) (v : SwitchView) (rs : List Reply)
    → role_fuel ≤ fuel
    → Sends 3 (change_role fuel s og none v rs)
unfolding change_role
change_role_ends zero s og v rs l = absurd (omega (arith, l))
change_role_ends (suc zero) s og v rs l = absurd (omega (arith, l))
change_role_ends (suc (suc fuel)) s og v rs l =
    request_sent s og 1 (handle_equal_error none (change_role (suc fuel) s false (some 0)))
      (request_sent s false 0 (handle_equal_error (some 0) (change_role fuel s false (some 1)))
        (λ w qs. (omega arith, refl)))
      v rs

-- A first answer that is neither EQUAL nor NOCHANGE.
abbrev pub firm : ControllerRole → Bool
firm role_master = true
firm role_slave = true
firm _ = false

role_eq→eq : (a b : ControllerRole) → role_eq a b ≡ true → a ≡ b
unfolding role_eq
role_eq→eq role_nochange role_nochange h = refl
role_eq→eq role_equal role_equal h = refl
role_eq→eq role_master role_master h = refl
role_eq→eq role_slave role_slave h = refl
role_eq→eq _ _ h = absurd (ground (arith, h))

pub change_role-firm :
    (s r : ControllerRole) (v : SwitchView) (g : ℕ) (rs : List Reply)
    → firm r ≡ true
    → change_role role_fuel s false none v (replied r g ∷ rs) ≡ record {
      view = record v { generation_id = g; role = r };
      replies = rs;
      sent = (s, v.generation_id) ∷ [];
      slaved = if role_eq r role_slave && not (role_eq v.role role_slave) then 1 else 0;
      error = none;
    }
unfolding change_role request_role process_role accept_role role_eq
change_role-firm s role_master v g rs h = ground arith
change_role-firm s role_slave v g rs h = ground (arith, role_eq→eq v.role role_slave)
change_role-firm s role_nochange v g rs h = ground arith
change_role-firm s role_equal v g rs h = ground arith

-- A switch that is EQUAL, answers EQUAL to the request of the master role and MASTER to two
-- repetitions, ends with the view EQUAL after three requests and without an exception.
pub retry_leaves_equal :
    (v : SwitchView) (g1 g2 g3 : ℕ) (rs : List Reply)
    → v.role ≡ role_equal
    → let x =
        change_role role_fuel role_master false none v
          (replied role_equal g1 ∷ replied role_master g2 ∷ replied role_master g3 ∷ rs) in
      (x.error ≡ none) × (x.view.role ≡ role_equal) × (length x.sent ≡ 3)
unfolding change_role request_role process_role accept_role role_eq
retry_leaves_equal v g1 g2 g3 rs h = ground (arith, h)

abbrev pub Detached : ℕ → DpidChecker → ℕ → Result (Exchange × DpidChecker × List Signal) → Type 0
Detached d c x (err e) = true ≡ false
Detached d c x (ok (y, c', signals)) =
    (y.error ≡ some switch_equal_error)
    × (length y.sent ≡ 2)
    × (role x c' ≡ (if x == d then undefined else role x c))

Removed-Detached :
    (d : ℕ) (c : DpidChecker) (x : ℕ) (y : Exchange) (r : SwitchRole)
    (res : Result (DpidChecker × List Signal))
    → y.error ≡ some switch_equal_error
    → length y.sent ≡ 2
    → is_registered d r c ≡ true
    → Removed d r c x res
    → Detached d c x (res >>= λ p. ok (y, p.0, p.1))
Removed-Detached d c x y r (err e) a b g h = absurd h
Removed-Detached d c x y r (ok (c', signals)) a b g h = (a, b, ground (arith, h, g))

unregistered :
    (d : ℕ) (c : DpidChecker) (x : ℕ) (y : Exchange)
    → y.error ≡ some switch_equal_error
    → length y.sent ≡ 2
    → IsUnique c
    → is_registered d undefined c ≡ true
    → Detached d c x (remove_switch d (role d c) c >>= λ p. ok (y, p.0, p.1))
unregistered d c x y a b u r =
    let (q, g) = registered_role d c r in
    Removed-Detached d c x y (role d c) (remove_switch d (role d c) c) a b g
      (remove_switch-Removed d (role d c) c x q u)

abbrev Refused : SwitchView → Exchange → Type 0
Refused v x = (x.error ≡ some switch_equal_error) × (length x.sent ≡ 2) × (x.view.dpid ≡ v.dpid)

two_refusals :
    (v : SwitchView) (s : ControllerRole) (g1 g2 : ℕ) (rs : List Reply)
    → v.role ≡ role_equal
    → firm s ≡ true
    → Refused v
        (change_role role_fuel s false none v (replied role_equal g1 ∷ replied role_equal g2 ∷ rs))
unfolding change_role request_role process_role accept_role role_eq
two_refusals v role_nochange g1 g2 rs h f = absurd (ground (arith, f))
two_refusals v role_equal g1 g2 rs h f = absurd (ground (arith, f))
two_refusals v role_master g1 g2 rs h f = rw h (refl, refl, refl)
two_refusals v role_slave g1 g2 rs h f = rw h (refl, refl, refl)

detach_if-Detached :
    (v : SwitchView) (c : DpidChecker) (x : ℕ) (y : Exchange) (e : Option RoleError)
    → e ≡ some switch_equal_error
    → Refused v y
    → IsUnique c
    → is_registered v.dpid undefined c ≡ true
    → Detached v.dpid c x (detach_if y c e)
unfolding detach_if
detach_if-Detached v c x y none h p u r = absurd (ground (arith, h))
detach_if-Detached v c x y (some switch_equal_error) h (a, b, d) u r =
    subst (λ k. Detached k c x (detach_if y c (some switch_equal_error))) d
      (unregistered y.view.dpid c x y a b u
        (subst (λ k. is_registered k undefined c ≡ true) (sym d) r))
detach_if-Detached v c x y (some RoleError.switch_timeout_error) h p u r =
    absurd (ground (arith, h))
detach_if-Detached v c x y (some RoleError.openflow_error) h p u r = absurd (ground (arith, h))
detach_if-Detached v c x y (some RoleError.check_failed) h p u r = absurd (ground (arith, h))
detach_if-Detached v c x y (some RoleError.out_of_fuel) h p u r = absurd (ground (arith, h))

firm_passes : (s : ControllerRole) → firm s ≡ true → role_eq s role_equal ≡ false
unfolding role_eq
firm_passes role_nochange h = refl
firm_passes role_equal h = absurd (ground (arith, h))
firm_passes role_master h = refl
firm_passes role_slave h = refl

-- A switch that is EQUAL, that a list of the checker holds and no list holds twice, and that
-- answers EQUAL to a role request and to its repetition, is asked twice and taken from the lists
-- of the checker, and the role of every other switch stays.
pub stubborn-Detached :
    (v : SwitchView) (s : ControllerRole) (g1 g2 : ℕ) (rs : List Reply) (c : DpidChecker) (x : ℕ)
    → v.role ≡ role_equal
    → firm s ≡ true
    → IsUnique c
    → is_registered v.dpid undefined c ≡ true
    → Detached v.dpid c x
        (change_switch_role s false v (replied role_equal g1 ∷ replied role_equal g2 ∷ rs) c)
unfolding change_switch_role
stubborn-Detached v s g1 g2 rs c x h f u r =
    let y =
      change_role role_fuel s false none v (replied role_equal g1 ∷ replied role_equal g2 ∷ rs) in
    let t = two_refusals v s g1 g2 rs h f in
    rw (firm_passes s f) (detach_if-Detached v c x y y.error t.0 t u r)
