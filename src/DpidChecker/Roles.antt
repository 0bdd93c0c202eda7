-- ===== src/DpidChecker/Roles.antt =====
-- DpidChecker::addSwitch and removeSwitch: which role a switch has before and after.
use runos.Base.{
  ℕ, ◌+◌, ◌≤◌, ◌≡◌, Bool, true, false, not, ◌||◌, ◌&&◌, List, [], ◌∷◌, ◌++◌, ◌==◌, if◌then◌else◌,
  arith,
}
use runos.DpidChecker.{
  DpidChecker, SwitchRole, undefined, ar, dr, Result, ok, err, Signal, switch_list_changed,
  switch_unregistered, is_registered, role, push_switch, add_switch, remove_switch,
}
use runos.DpidChecker.Lists.{find, count, erase_first, find-count, count-erase_first, find-append}

-- No identifier is listed twice, under one role or under both.
pub record IsUnique (c : DpidChecker) : Type 0 where
  pub once : (x : ℕ) → count x c.ar_list + count x c.dr_list ≤ 1

abbrev pub assignable : SwitchRole → Bool
assignable undefined = false
assignable _ = true

abbrev pub Added : ℕ → SwitchRole → DpidChecker → ℕ → Result (DpidChecker × List Signal) → Type 0
Added d r c x (err e) = ⊥
Added d r c x (ok (c', signals)) =
    (role x c' ≡ (if x == d && not (is_registered d undefined c) then r else role x c))
    × (signals ≡ (if is_registered d undefined c then [] else switch_list_changed r ∷ []))

find_added : (x d : ℕ) (l : List ℕ) → find x (l ++ d ∷ []) ≡ (find x l || x == d)
unfolding find
find_added x d l = ground (arith, find-append x l (d ∷ []))

-- addSwitch with the role AR or DR does not fail: an unregistered switch gets that role and the
-- change of its list is signalled, a registered one changes nothing, and no other switch changes
-- its role.
pub add_switch-Added :
    (d : ℕ) (r : SwitchRole) (c : DpidChecker) (x : ℕ)
    → assignable r ≡ true
    → Added d r c x (add_switch d r c)
unfolding add_switch push_switch role
add_switch-Added d undefined c x h = ground arith
add_switch-Added d ar c x h = ground (arith, find_added x d c.ar_list)
add_switch-Added d dr c x h = ground (arith, find_added x d c.dr_list)

abbrev pub Removed : ℕ → SwitchRole → DpidChecker → ℕ → Result (DpidChecker × List Signal) → Type 0
Removed d r c x (err e) = ⊥
Removed d r c x (ok (c', signals)) =
    (role x c' ≡ (if x == d && is_registered d r c then undefined else role x c))
    × (signals
        ≡ (if is_registered d r c then switch_unregistered d ∷ switch_list_changed r ∷ [] else []))

-- In a state that lists each switch once, removeSwitch with the role AR or DR does not fail: a
-- switch registered with that role loses it, with the two signals, any other call changes nothing,
-- and no other switch changes its role.
pub remove_switch-Removed :
    (d : ℕ) (r : SwitchRole) (c : DpidChecker) (x : ℕ)
    → assignable r ≡ true
    → IsUnique c
    → Removed d r c x (remove_switch d r c)
unfolding remove_switch role
remove_switch-Removed d undefined c x h u = ground arith
remove_switch-Removed d ar c x h u = ground (
  arith,
  u.once x,
  find-count x c.ar_list,
  find-count x c.dr_list,
  find-count x (erase_first d c.ar_list),
  count-erase_first x d c.ar_list,
)
remove_switch-Removed d dr c x h u = ground (
  arith,
  u.once x,
  find-count x c.ar_list,
  find-count x c.dr_list,
  find-count x (erase_first d c.dr_list),
  count-erase_first x d c.dr_list,
)

erase_added : (d : ℕ) (l : List ℕ) → find d l ≡ false → erase_first d (l ++ d ∷ []) ≡ l
unfolding erase_first find
erase_added d [] h = ground arith
erase_added d (y ∷ ys) h = ground (arith, erase_added d ys)

-- Where a switch is not registered and addSwitch succeeds, removeSwitch with the same role gives
-- back the state as it was, with both signals.
pub remove-add :
    (d : ℕ) (r : SwitchRole) (c c' : DpidChecker) (s : List Signal)
    → is_registered d undefined c ≡ false
    → add_switch d r c ≡ ok (c', s)
    → remove_switch d r c' ≡ ok (c, switch_unregistered d ∷ switch_list_changed r ∷ [])
unfolding add_switch push_switch remove_switch
remove-add d undefined c c' s h e = ground arith
remove-add d ar c c' s h e = ground (arith, erase_added d c.ar_list, find_added d d c.ar_list)
remove-add d dr c c' s h e = ground (arith, erase_added d c.dr_list, find_added d d c.dr_list)

pub registered_role :
    (d : ℕ) (c : DpidChecker)
    → is_registered d undefined c ≡ true
    → (assignable (role d c) ≡ true) × (is_registered d (role d c) c ≡ true)
unfolding role is_registered
registered_role d c h = ground (arith, h)
