-- ===== src/DpidChecker.antt =====
-- src/core/DpidChecker.cc, DpidChecker.hpp: the datapath identifiers that may connect, by role.
-- A method that fails a CHECK or throws returns `err`. What nlohmann::json and lexical_cast make of
-- an entry is a parameter: `reads` of type `J → Reading`. A method is one step, with the signals that
-- it emits as a list; addSwitch, which looks and appends under separate locks, is two in Races.
pub mod Lists
pub mod Roles
pub mod Races
pub mod Sync
mod Examples
use runos.Base.{
  ℕ, ◌≡◌, Bool, true, false, not, ◌||◌, ◌&&◌, List, [], ◌∷◌, ◌++◌, map, ◌==◌, if◌then◌else◌,
}
use Lists.{find, erase_first, removed_from}

pub data SwitchRole : Type 0 where
  undefined ar dr : SwitchRole

pub data Error : Type 0 where
  check_failed parse_error type_error : Error

pub data Result {ℓ} (A : Type ℓ) : Type ℓ where
  ok : A → Result A
  err : Error → Result A

infixl 5 ◌>>=◌
abbrev pub ◌>>=◌ {ℓ κ} : {A : Type ℓ} {B : Type κ} → Result A → (A → Result B) → Result B
ok a >>= f = f a
err e >>= f = err e

-- `switches_`, a map from the role to its list; init enters both roles.
pub record DpidChecker : Type 0 where
  pub ar_list : List ℕ
  pub dr_list : List ℕ

pub data Signal : Type 0 where
  switch_list_changed : SwitchRole → Signal
  switch_unregistered : ℕ → Signal

unfoldable pub switch_list_ref : SwitchRole → DpidChecker → Result (List ℕ)
switch_list_ref undefined c = err check_failed
switch_list_ref ar c = ok c.ar_list
switch_list_ref dr c = ok c.dr_list

-- Writing through the reference that `switch_list_ref` returns.
unfoldable pub set_list : SwitchRole → List ℕ → DpidChecker → DpidChecker
set_list undefined l c = c
set_list ar l c = record c { ar_list = l }
set_list dr l c = record c { dr_list = l }

-- `scan_switches`: what strtoull returns for each entry, 0 being refused with a log line.
pub scan_switches : List ℕ → SwitchRole → DpidChecker → Result DpidChecker
unfolding switch_list_ref set_list
scan_switches [] role c = ok c
scan_switches (dpid ∷ dpids) role c =
    let added = (do
      l ← switch_list_ref role c
      scan_switches dpids role (set_list role (l ++ dpid ∷ []) c)) in
    let skipped = scan_switches dpids role c in if dpid == 0 then skipped else added

-- The entries of the configuration for DR and for AR; the format has been checked.
pub init : List ℕ → List ℕ → Result DpidChecker
unfolding scan_switches
init dr_entries ar_entries = do
  c ← scan_switches dr_entries dr (record { ar_list = []; dr_list = [] })
  scan_switches ar_entries ar c

unfoldable pub is_registered : ℕ → SwitchRole → DpidChecker → Bool
is_registered dpid undefined c = find dpid c.ar_list || find dpid c.dr_list
is_registered dpid ar c = find dpid c.ar_list
is_registered dpid dr c = find dpid c.dr_list

pub role : ℕ → DpidChecker → SwitchRole
unfolding is_registered
role dpid c =
    if is_registered dpid ar c then ar else if is_registered dpid dr c then dr else undefined

-- The part of addSwitch behind isRegistered, with a lock of its own.
pub push_switch : ℕ → SwitchRole → DpidChecker → Result (DpidChecker × List Signal)
unfolding switch_list_ref set_list
push_switch dpid role c = do
  l ← switch_list_ref role c
  ok (set_list role (l ++ dpid ∷ []) c, switch_list_changed role ∷ [])

-- Without other threads in between.
pub add_switch : ℕ → SwitchRole → DpidChecker → Result (DpidChecker × List Signal)
unfolding is_registered switch_list_ref push_switch
add_switch dpid role c = do
  l ← switch_list_ref role c
  let pushed = push_switch dpid role c in
      if is_registered dpid undefined c then ok (c, []) else pushed

pub remove_switch : ℕ → SwitchRole → DpidChecker → Result (DpidChecker × List Signal)
unfolding switch_list_ref set_list
remove_switch dpid role c = do
  l ← switch_list_ref role c
  ok (
      if find dpid l
      then (
        set_list role (erase_first dpid l) c,
        switch_unregistered dpid ∷ switch_list_changed role ∷ [],
      )
      else (c, []))

pub switch_list : SwitchRole → DpidChecker → Result (List ℕ)
unfolding switch_list_ref
switch_list role c = switch_list_ref role c

-- What reading an entry gives: a number, a text that is no number, or no text at all. The last
-- throws json::type_error, which `parse` does not catch.
pub data Reading : Type 0 where
  number : ℕ → Reading
  bad_text no_text : Reading

module _ {J : Type 0} (reads : J → Reading) where
  parse_entry : Reading → Result ℕ
  parse_entry (number n) = ok n
  parse_entry bad_text = err parse_error
  parse_entry no_text = err type_error

  pub parse : List J → Result (List ℕ)
  unfolding parse_entry
  parse [] = ok []
  parse (j ∷ js) = do dpid ← parse_entry (reads j); dpids ← parse js; ok (dpid ∷ dpids)

sync_switch_list_impl : List ℕ → SwitchRole → DpidChecker → Result (DpidChecker × List ℕ)
unfolding switch_list_ref set_list
sync_switch_list_impl switches role c = do
  current ← switch_list_ref role c
  ok (set_list role switches c, removed_from current switches)

unregister : List ℕ → SwitchRole → List Signal
unregister [] role = []
unregister (dpid ∷ dpids) role =
    map switch_unregistered (dpid ∷ dpids) ++ switch_list_changed role ∷ []

module _ {J : Type 0} (reads : J → Reading) where
  -- An empty list is ignored.
  pub sync_switch_list : List J → SwitchRole → DpidChecker → Result (DpidChecker × List Signal)
  unfolding parse sync_switch_list_impl unregister
  sync_switch_list [] role c = do l ← switch_list_ref role c; ok (c, [])
  sync_switch_list (j ∷ js) role c = do
    l ← switch_list_ref role c
    new_list ← parse reads (j ∷ js)
    (c', removed) ← sync_switch_list_impl new_list role c
    ok (c', switch_list_changed role ∷ unregister removed role)

  pub sync_switch_lists : List J → List J → DpidChecker → Result (DpidChecker × List Signal)
  unfolding parse sync_switch_list_impl unregister
  sync_switch_lists ar_json dr_json c = do
    ar_new ← parse reads ar_json
    dr_new ← parse reads dr_json
    (c', removed_ar) ← sync_switch_list_impl ar_new ar c
    (c'', removed_dr) ← sync_switch_list_impl dr_new dr c'
    ok (
      c'',
      switch_list_changed ar
          ∷ switch_list_changed dr
          ∷ (unregister removed_ar ar ++ unregister removed_dr dr),
    )
