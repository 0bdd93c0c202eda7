-- ===== src/FlowEntries/Examples.antt =====
-- A match is one number, zero the wildcard, a set keeps its flows in the order they came in, and the
-- database keeps the messages themselves.
use mathlib.Core.Path.{subst}
use runos.Base.{
  ℕ, ◌≡◌, refl, inl, inr, Bool-cases, true, false, none, some, [], ◌∷◌, ◌==◌, not, ◌&&◌, ◌++◌,
  if◌then◌else◌, arith,
}
use runos.FlowEntries.{FlowEntriesVerifier, switch_up, switch_down, on_primary, send}
use runos.FlowEntries.Messages.{
  OxmMatch, IsComparing, FlowMod, Command, add, modify, delete, matches, any, to_be_deleted_base,
  to_be_modified_base, cookie_filter, non_strict_match, fields_fit,
}
use runos.FlowEntries.Flows.{
  apply_to_flow_set, is_some, Flow, FlowSet, key_eq, key_of, flow_of, find, flow_matches,
  modify_flow_set,
}
use runos.FlowEntries.States.{
  FlowRemoved, idle_timeout, deleted, find_state, any_key, StatsReply, replied, timed_out, refused,
  restore_states, StateMap,
}
use runos.FlowEntries.Store.{Database, get_state, save, load}
use runos.FlowEntries.Tables.{IsArrangement, distinct, all_flows}
use runos.FlowEntries.Modifying.{modify_past_end}
use runos.FlowEntries.Choosing.{Forwarding}
use runos.FlowEntries.Switching.{Follows, apply-Follows}
use runos.FlowEntries.Handling.{IsFlowSet}
use runos.FlowEntries.Restoring.{
  keys_of, messages_to, once, all_reply, restore_covers, restore_stops,
}
use runos.FlowEntries.Saving.{member, Same, load-save, succeeds, failover_down}
use runos.FlowEntries.Overwriting.{beyond, Loads, stale-Loads}
use runos.FlowEntries.Deleting.{Filtered, delete-Filtered, Silent, deleted-Silent}

abbrev exact : OxmMatch ℕ ℕ
exact = record {
  oxm_num = 1;
  oxm_field = λ m n. if m == 0 then none else some m;
  equals = λ x y. x == y;
  eq = λ x y. x == y;
}

exact-IsComparing : IsComparing exact
exact-IsComparing = record { eq_self = λ m. ground arith; eq_same = λ m n h. ground (arith, h) }

abbrev as_is : FlowSet ℕ ℕ → FlowSet ℕ ℕ
as_is fs = fs

as_is-IsArrangement : IsArrangement exact as_is
as_is-IsArrangement = record {
  find-arrange = λ k fs d. refl;
  distinct-arrange = λ fs d. d;
  all-arrange = λ test fs. refl;
}

abbrev message : Command → ℕ → ℕ → ℕ → FlowMod ℕ ℕ
message c table match instructions = record {
  command = c;
  table_id = table;
  priority = 1;
  out_group = any;
  out_port = any;
  cookie = 0;
  cookie_mask = 0;
  send_flow_rem = true;
  match = match;
  instructions = instructions;
}

abbrev flow : ℕ → Flow ℕ ℕ
flow n = flow_of (message add 0 n 1)

abbrev two : FlowSet ℕ ℕ
two = flow 5 ∷ flow 6 ∷ []

two-IsFlowSet : IsFlowSet exact two
unfolding distinct all_flows find key_eq
two-IsFlowSet = record { differ = refl; keys = refl }

abbrev expired : FlowRemoved ℕ
expired = record { key = key_of (message add 0 5 1); reason = idle_timeout }

abbrev reported : FlowRemoved ℕ
reported = record { key = key_of (message add 0 5 1); reason = deleted }

abbrev change_six : FlowMod ℕ ℕ
change_six = message modify 0 6 2

abbrev change_all : FlowMod ℕ ℕ
change_all = message modify 0 0 2

abbrev three : FlowSet ℕ ℕ
three = flow 6 ∷ flow 5 ∷ flow 7 ∷ []

modify_past_end_example : modify_flow_set exact as_is change_six two ≡ none
unfolding all_flows flow_matches matches non_strict_match fields_fit to_be_modified_base
    cookie_filter
modify_past_end_example = modify_past_end exact change_six as_is (flow 6) (flow 5 ∷ []) refl refl

abbrev delete_port : FlowMod ℕ ℕ
delete_port = record (message delete 0 5 0) { out_port = 3 }

delete-Filtered_example : Filtered exact delete_port (message add 0 5 1) 9
unfolding matches non_strict_match fields_fit to_be_deleted_base to_be_modified_base cookie_filter
delete-Filtered_example =
    delete-Filtered exact delete_port (record (message add 0 5 1) { out_port = 3 }) 9 refl refl

abbrev primary : FlowEntriesVerifier ℕ ℕ (FlowMod ℕ ℕ)
primary = record {
  states = (7, two) ∷ [];
  is_primary = true;
  database = record { states_list = []; entries = [] };
}

deleted-Silent_example :
    Silent exact exact-IsComparing {T = FlowMod ℕ ℕ} as_is 7 reported
      (send exact as_is 7 (message delete 0 5 0) primary).0
unfolding find_state distinct find key_eq flow_matches matches non_strict_match fields_fit
    to_be_deleted_base to_be_modified_base cookie_filter
deleted-Silent_example =
    deleted-Silent exact exact-IsComparing as_is 7 (message delete 0 5 0) reported two primary refl
      refl refl refl refl

abbrev three_states : StateMap ℕ ℕ
three_states = (3, flow 9 ∷ []) ∷ (7, two) ∷ (8, two) ∷ []

abbrev answers : ℕ → StatsReply ℕ
answers d = if d == 3 then timed_out else if d == 7 then replied ((flow 5).key ∷ []) else refused

restore_covers_example :
    any_key exact
      (flow 6).key
      (keys_of (messages_to 7 (restore_states exact answers three_states).0))
    ≡ (is_some (find exact (flow 6).key two)
        && not (any_key exact (flow 6).key ((flow 5).key ∷ [])))
unfolding once find_state all_reply
restore_covers_example =
    restore_covers exact exact-IsComparing answers 7 ((3, flow 9 ∷ []) ∷ []) ((8, two) ∷ []) two
      (flow 5).key [] (flow 6).key refl refl refl two-IsFlowSet

abbrev refuses_seven : ℕ → StatsReply ℕ
refuses_seven d = if d == 7 then refused else replied ((flow 5).key ∷ [])

restore_stops_example :
    (messages_to 8 (restore_states exact refuses_seven three_states).0 ≡ [])
    × ((restore_states exact refuses_seven three_states).1 ≡ false)
unfolding once find_state
restore_stops_example =
    restore_stops exact exact-IsComparing refuses_seven 7 8 ((3, flow 9 ∷ []) ∷ []) ((8, two) ∷ [])
      two refl refl refl

abbrev itself : FlowMod ℕ ℕ → FlowMod ℕ ℕ
itself m = m

abbrev nothing : Database (FlowMod ℕ ℕ)
nothing = record { states_list = []; entries = [] }

only_two : (e : ℕ) (fs : FlowSet ℕ ℕ) → find_state e ((7, two) ∷ []) ≡ some fs → IsFlowSet exact fs
unfolding find_state
only_two e fs h = elim (Bool-cases (e == 7)) [
  | inl t ↦ subst (IsFlowSet exact) (ground (arith, h, t)) two-IsFlowSet
  | inr t ↦ absurd (ground (arith, h, t))
]

load-save_example :
    Same exact itself exact-IsComparing as_is as_is-IsArrangement itself
      (λ m. refl)
      (find_state 7 (load exact as_is itself (save itself ((7, two) ∷ []) nothing)))
      (find_state 7 ((7, two) ∷ []))
unfolding once find_state get_state
load-save_example =
    load-save exact itself exact-IsComparing as_is as_is-IsArrangement itself (λ m. refl) 7
      ((7, two) ∷ []) nothing refl (λ d h. refl) only_two

stale-Loads_example :
    Loads exact itself exact-IsComparing as_is as_is-IsArrangement itself
      (λ m. refl)
      (flow 6).key
      (flow 5 ∷ [] ++ beyond (flow 5 ∷ []) two)
      (find_state 7 (
        load exact as_is itself
          (save itself ((7, flow 5 ∷ []) ∷ []) (save itself ((7, two) ∷ []) nothing))))
unfolding get_state once find_state all_flows key_eq
stale-Loads_example =
    stale-Loads exact itself exact-IsComparing as_is as_is-IsArrangement itself (λ m. refl) 7
      ((7, two) ∷ []) ((7, flow 5 ∷ []) ∷ []) (flow 5 ∷ []) two nothing (flow 6).key refl refl refl
      refl refl refl refl

failover_down_example :
    succeeds exact as_is itself (
      switch_down 7
        (on_primary exact as_is itself (switch_up 7 (record primary { is_primary = false }))))
    ≡ member 7 []
failover_down_example =
    failover_down exact as_is itself 7 (record primary { is_primary = false }) refl

-- The instructions are a port that is forwarded to, and no group is.
abbrev one_port : Forwarding ℕ
one_port = record { to_port = λ i n. i == n; to_group = λ i n. false }

apply-Follows_example :
    Follows exact one_port
      (message delete 0 6 0)
      (flow 6).key
      three
      (apply_to_flow_set exact as_is (message delete 0 6 0) three)
unfolding distinct all_flows find key_eq
apply-Follows_example =
    apply-Follows exact one_port exact-IsComparing as_is as_is-IsArrangement (message delete 0 6 0)
      three (flow 6).key refl refl
