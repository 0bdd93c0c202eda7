-- ===== src/FlowEntries/States.antt =====
-- The classes SwitchState and VerifierDatabase of src/core/FlowEntriesVerifier.cc: the flows that a
-- switch should have. A method that fails a CHECK, or steps past the end of a set, is `err`.
use runos.Base.{
  ℕ, Bool, true, false, ◌||◌, Option, none, some, List, [], ◌∷◌, ◌++◌, ◌==◌, if◌then◌else◌,
}
use runos.FlowEntries.Messages.{OxmMatch, FlowMod}
use runos.FlowEntries.Flows.{
  FlowKey, Flow, FlowSet, is_some, key_eq, find, erase, apply_to_flow_set,
}

pub data Failure : Type 0 where
  check_failed past_end : Failure

pub data Result {ℓ} (A : Type ℓ) : Type ℓ where
  ok : A → Result A
  err : Failure → Result A

infixl 5 ◌>>=◌
abbrev pub ◌>>=◌ {ℓ κ} : {A : Type ℓ} {B : Type κ} → Result A → (A → Result B) → Result B
ok a >>= f = f a
err e >>= f = err e

-- of13::OFPRR_IDLE_TIMEOUT and so on; `deleted` is OFPRR_DELETE.
pub data Reason : Type 0 where
  idle_timeout hard_timeout deleted group_delete meter_delete : Reason

-- What is read of of13::FlowRemoved.
pub record FlowRemoved (M : Type 0) : Type 0 where
  pub key : FlowKey M
  pub reason : Reason

unfoldable pub is_expected : Reason → Bool
is_expected deleted = false
is_expected _ = true

abbrev pub past_end_if : {M I : Type 0} → Option (FlowSet M I) → Result (FlowSet M I)
past_end_if none = err past_end
past_end_if (some fs) = ok fs

-- A map from the datapath identifier; the table that is behind it has no order.
abbrev pub StateMap : Type 0 → Type 0 → Type 0
StateMap M I = List (ℕ × FlowSet M I)

module _ {M I : Type 0} where
  unfoldable pub find_state : ℕ → StateMap M I → Option (FlowSet M I)
  find_state d [] = none
  find_state d ((e, fs) ∷ ss) = if d == e then some fs else find_state d ss

  unfoldable pub add_state : ℕ → FlowSet M I → StateMap M I → StateMap M I
  add_state d fs [] = (d, fs) ∷ []
  add_state d fs ((e, gs) ∷ ss) =
      let rest = add_state d fs ss in if d == e then (d, fs) ∷ ss else (e, gs) ∷ rest

  unfoldable pub erase_state : ℕ → StateMap M I → StateMap M I
  erase_state d [] = []
  erase_state d ((e, gs) ∷ ss) =
      let rest = erase_state d ss in if d == e then ss else (e, gs) ∷ rest

  unfoldable pub remove_state : ℕ → StateMap M I → Result (StateMap M I)
  unfolding find_state erase_state
  remove_state d ss = if is_some (find_state d ss) then ok (erase_state d ss) else err check_failed

abbrev pub sent_to : {M I : Type 0} → ℕ → List (FlowMod M I) → List (ℕ × FlowMod M I)
sent_to d [] = []
sent_to d (m ∷ ms) = (d, m) ∷ sent_to d ms

unfoldable pub any_key : {M F : Type 0} → OxmMatch M F → FlowKey M → List (FlowKey M) → Bool
unfolding key_eq
any_key o k [] = false
any_key o k (j ∷ js) = key_eq o k j || any_key o k js

-- What becomes of the request for the flow statistics of a switch: `refused` is another exception of
-- the future than request_error, `no_switch` a switch that the manager does not know.
pub data StatsReply (M : Type 0) : Type 0 where
  replied : List (FlowKey M) → StatsReply M
  timed_out offline refused no_switch : StatsReply M

-- `none` is an exception that is not caught, or the null pointer that is dereferenced.
abbrev pub flow_stats_request : {M : Type 0} → StatsReply M → Option (List (FlowKey M))
flow_stats_request (replied stats) = some stats
flow_stats_request timed_out = some []
flow_stats_request offline = some []
flow_stats_request refused = none
flow_stats_request no_switch = none

module _ {M F I : Type 0} (o : OxmMatch M F) where
  abbrev pub removed_found :
      FlowRemoved M → FlowSet M I → Option (Flow M I) → FlowSet M I × Option (FlowMod M I)
  removed_found r fs none = (fs, none)
  removed_found r fs (some f) =
      if is_expected r.reason then (erase o r.key fs, none) else (fs, some f.message)

  -- SwitchState::process of a FlowRemoved, with the message that is to be sent again.
  unfoldable pub process_removed : FlowRemoved M → FlowSet M I → FlowSet M I × Option (FlowMod M I)
  unfolding find erase is_expected
  process_removed r fs = removed_found r fs (find o r.key fs)

  -- The flows that the statistics do not have.
  unfoldable pub process_stats : List (FlowKey M) → FlowSet M I → List (FlowMod M I)
  unfolding any_key
  process_stats stats [] = []
  process_stats stats (f ∷ fs) =
      let rest = process_stats stats fs in if any_key o f.key stats then rest else f.message ∷ rest

  abbrev pub removed_state :
      ℕ → FlowRemoved M → StateMap M I → Option (FlowSet M I) → StateMap M I × Option (FlowMod M I)
  removed_state d r ss none = (ss, none)
  removed_state d r ss (some fs) =
      let (gs, again) = process_removed r fs in (add_state d gs ss, again)

  -- VerifierDatabase::process of a FlowRemoved
  unfoldable pub process_removed_of :
      ℕ → FlowRemoved M → StateMap M I → StateMap M I × Option (FlowMod M I)
  unfolding find_state add_state process_removed
  process_removed_of d r ss = removed_state d r ss (find_state d ss)

  -- The loop of restoreStates: what is sent, and whether it comes to its end. What a switch does not
  -- answer goes out of the loop.
  abbrev pub restore_one :
      ℕ
      → FlowSet M I
      → Option (List (FlowKey M))
      → List (ℕ × FlowMod M I) × Bool
      → List (ℕ × FlowMod M I) × Bool
  restore_one d fs none rest = ([], false)
  restore_one d fs (some []) rest = rest
  restore_one d fs (some (k ∷ ks)) rest = (sent_to d (process_stats (k ∷ ks) fs) ++ rest.0, rest.1)

  unfoldable pub restore_states : (ℕ → StatsReply M) → StateMap M I → List (ℕ × FlowMod M I) × Bool
  unfolding process_stats
  restore_states replies [] = ([], true)
  restore_states replies ((d, fs) ∷ ss) =
      restore_one d fs (flow_stats_request (replies d)) (restore_states replies ss)

  module _ (arrange : FlowSet M I → FlowSet M I) where
    abbrev pub process_found :
        ℕ → FlowMod M I → StateMap M I → Option (FlowSet M I) → Result (StateMap M I)
    process_found d m ss none = ok ss
    process_found d m ss (some fs) = do
      gs ← past_end_if (apply_to_flow_set o arrange m fs)
      ok (add_state d gs ss)

    -- VerifierDatabase::process of a FlowMod
    unfoldable pub process_mod : ℕ → FlowMod M I → StateMap M I → Result (StateMap M I)
    unfolding find_state add_state apply_to_flow_set
    process_mod d m ss = process_found d m ss (find_state d ss)
