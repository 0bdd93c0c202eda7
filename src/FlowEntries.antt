-- ===== src/FlowEntries.antt =====
-- src/core/FlowEntriesVerifier.cc, FlowEntriesVerifier.hpp: the flows that the switches should have,
-- kept by the messages that the controller sends, and put back when a switch loses them.
-- FlowEntries.antt has the application and its `implementation`; what is sent is a list, and stays
-- sent where a CHECK fails after it.
pub mod Messages
pub mod Flows
pub mod States
pub mod Store
pub mod Tables
pub mod Modifying
pub mod Handling
pub mod Restoring
pub mod Saving
pub mod Overwriting
pub mod Choosing
pub mod Switching
pub mod Deleting
mod Examples
use runos.Base.{
  ℕ, ◌≡◌, Bool, true, false, not, ◌||◌, ◌&&◌, Option, none, some, List, [], ◌∷◌, ◌++◌, ◌==◌,
  if◌then◌else◌,
}
use Messages.{OxmMatch, FlowMod}
use Flows.{FlowKey, FlowSet}
use States.{
  Result, ok, err, check_failed, ◌>>=◌, StateMap, FlowRemoved, add_state, remove_state, process_mod,
  process_removed_of, restore_states, StatsReply, sent_to,
}
use Store.{Database, save, load}

-- `is_primary` is what the recovery manager answers.
pub record FlowEntriesVerifier (M I T : Type 0) : Type 0 where
  pub states : StateMap M I
  pub is_primary : Bool
  pub database : Database T

abbrev pub Sent : Type 0 → Type 0 → Type 0
Sent M I = List (ℕ × FlowMod M I)

abbrev pub again_to : {M I : Type 0} → ℕ → Option (FlowMod M I) → Sent M I
again_to d none = []
again_to d (some m) = (d, m) ∷ []

-- `flags | OFPFF_SEND_FLOW_REM`
abbrev pub with_removal : {M I : Type 0} → FlowMod M I → FlowMod M I
with_removal m = record m { send_flow_rem = true }

module _ {M I T : Type 0} where
  abbrev pub with_states :
      FlowEntriesVerifier M I T → Result (StateMap M I) → Result (FlowEntriesVerifier M I T)
  with_states v r = do ss ← r; ok (record v { states = ss })

  unfoldable pub switch_up : ℕ → FlowEntriesVerifier M I T → FlowEntriesVerifier M I T
  unfolding add_state
  switch_up d v = if v.is_primary then record v { states = add_state d [] v.states } else v

  unfoldable pub switch_down : ℕ → FlowEntriesVerifier M I T → Result (FlowEntriesVerifier M I T)
  unfolding remove_state
  switch_down d v = if v.is_primary then with_states v (remove_state d v.states) else ok v

  unfoldable pub on_backup : FlowEntriesVerifier M I T → FlowEntriesVerifier M I T
  on_backup v = record v { is_primary = false; states = [] }

module _ {M F I T : Type 0} (o : OxmMatch M F) where
  unfoldable pub flow_removed :
      ℕ → FlowRemoved M → FlowEntriesVerifier M I T → FlowEntriesVerifier M I T × Sent M I
  unfolding process_removed_of
  flow_removed d r v =
      if v.is_primary
      then (let (ss, again) = process_removed_of o d r v.states in
          (record v { states = ss }, again_to d again))
      else (v, [])

  module _ (dump : FlowMod M I → T) where
    -- The states are saved before an exception of the restoring goes to the caller.
    unfoldable pub polling :
        (ℕ → StatsReply M) → FlowEntriesVerifier M I T → FlowEntriesVerifier M I T × Sent M I × Bool
    unfolding save restore_states
    polling replies v =
        if v.is_primary
        then (let (again, finished) = restore_states o replies v.states in
            (record v { database = save dump v.states v.database }, again, finished))
        else (v, [], true)

  module _ (arrange : FlowSet M I → FlowSet M I) where
    -- `send` of a FlowMod by the active application: it goes out before it is accounted for.
    unfoldable pub send :
        ℕ → FlowMod M I → FlowEntriesVerifier M I T → Result (FlowEntriesVerifier M I T) × Sent M I
    unfolding process_mod
    send d m v =
        let m' = with_removal m in
        (
          if v.is_primary
              then with_states v (process_mod o arrange d m' v.states)
              else err check_failed,
          (d, m') ∷ [],
        )

    module _ (parse : T → FlowMod M I) where
      -- The slots of signalRecovery, signalSetupPrimaryMode and signalSetupBackupMode.
      unfoldable pub on_primary : FlowEntriesVerifier M I T → FlowEntriesVerifier M I T
      unfolding load
      on_primary v = record v { is_primary = true; states = load o arrange parse v.database }
