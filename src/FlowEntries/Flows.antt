-- ===== src/FlowEntries/Flows.antt =====
-- The classes Flow, FlowSet and FlowModHandler of src/core/FlowEntriesVerifier.cc. The unordered set
-- is the list of its elements in the order of iteration; `arrange` is the order it has after an
-- element was put in.
use runos.Base.{ℕ, Bool, true, false, ◌&&◌, Option, none, some, List, [], ◌∷◌, ◌==◌, if◌then◌else◌}
use runos.FlowEntries.Messages.{
  OxmMatch, FlowMod, Command, add, modify, modify_strict, delete, delete_strict, matches,
}

pub record FlowKey (M : Type 0) : Type 0 where
  pub table_id : ℕ
  pub priority : ℕ
  pub match : M

pub record Flow (M I : Type 0) : Type 0 where
  pub message : FlowMod M I
  pub key : FlowKey M

abbrev pub FlowSet : Type 0 → Type 0 → Type 0
FlowSet M I = List (Flow M I)

abbrev pub is_some {ℓ} : {A : Type ℓ} → Option A → Bool
is_some none = false
is_some (some a) = true

module _ {M I : Type 0} where
  abbrev pub key_of : FlowMod M I → FlowKey M
  key_of m = record { table_id = m.table_id; priority = m.priority; match = m.match }

  abbrev pub flow_of : FlowMod M I → Flow M I
  flow_of m = record { message = m; key = key_of m }

  -- The copy of a flow with other instructions.
  abbrev pub with_instructions : I → Flow M I → Flow M I
  with_instructions i f = record f { message = record f.message { instructions = i } }

-- What the loop of modify_flow_set leaves, and the modified entries.
abbrev pub Modified : Type 0 → Type 0 → Type 0
Modified M I = Option (FlowSet M I × FlowSet M I)

module _ {M I : Type 0} where
  abbrev pub keep : Flow M I → Modified M I → Modified M I
  keep f none = none
  keep f (some (kept, modified)) = some (f ∷ kept, modified)

  -- `erase` returns the next entry, which `++it` then steps over.
  abbrev pub step_over : I → Flow M I → Flow M I → Modified M I → Modified M I
  step_over i f next none = none
  step_over i f next (some (kept, modified)) = some (next ∷ kept, with_instructions i f ∷ modified)

-- Flow::operator==
unfoldable pub key_eq : {M F : Type 0} → OxmMatch M F → FlowKey M → FlowKey M → Bool
key_eq o a b = a.table_id == b.table_id && a.priority == b.priority && o.eq a.match b.match

module _ {M F I : Type 0} (o : OxmMatch M F) where
  unfoldable pub find : FlowKey M → FlowSet M I → Option (Flow M I)
  unfolding key_eq
  find k [] = none
  find k (f ∷ fs) = if key_eq o k f.key then some f else find k fs

  unfoldable pub erase : FlowKey M → FlowSet M I → FlowSet M I
  unfolding key_eq
  erase k [] = []
  erase k (f ∷ fs) = let rest = erase k fs in if key_eq o k f.key then fs else f ∷ rest

  unfoldable pub flow_matches : FlowMod M I → Flow M I → Bool
  unfolding matches
  flow_matches p f = matches o p f.message

  unfoldable pub delete_from_flow_set : FlowMod M I → FlowSet M I → FlowSet M I
  unfolding flow_matches
  delete_from_flow_set p [] = []
  delete_from_flow_set p (f ∷ fs) =
      let rest = delete_from_flow_set p fs in if flow_matches p f then rest else f ∷ rest

  -- `none` is the increment of the end, where the last entry was erased. The entries of a set
  -- differ, so `emplace` puts in each modified one.
  unfoldable pub modify_loop : FlowMod M I → FlowSet M I → Modified M I
  unfolding flow_matches
  modify_loop p [] = some ([], [])
  modify_loop p (f ∷ []) = if flow_matches p f then none else some (f ∷ [], [])
  modify_loop p (f ∷ next ∷ fs) =
      let over = step_over p.instructions f next (modify_loop p fs) in
      let on = keep f (modify_loop p (next ∷ fs)) in if flow_matches p f then over else on

  module _ (arrange : FlowSet M I → FlowSet M I) where
    unfoldable pub insert : Flow M I → FlowSet M I → FlowSet M I
    unfolding find
    insert f fs = if is_some (find f.key fs) then fs else arrange (f ∷ fs)

    unfoldable pub insert_all : FlowSet M I → FlowSet M I → FlowSet M I
    unfolding insert
    insert_all [] fs = fs
    insert_all (f ∷ more) fs = insert_all more (insert f fs)

    abbrev pub merge : Modified M I → Option (FlowSet M I)
    merge none = none
    merge (some (kept, modified)) = some (insert_all modified kept)

    unfoldable pub modify_flow_set : FlowMod M I → FlowSet M I → Option (FlowSet M I)
    unfolding modify_loop insert_all
    modify_flow_set p fs = merge (modify_loop p fs)

    abbrev pub apply_by : Command → FlowMod M I → FlowSet M I → Option (FlowSet M I)
    apply_by add p fs = some (insert (flow_of p) fs)
    apply_by modify p fs = modify_flow_set p fs
    apply_by modify_strict p fs = modify_flow_set p fs
    apply_by delete p fs = some (delete_from_flow_set p fs)
    apply_by delete_strict p fs = some (delete_from_flow_set p fs)
    apply_by _ p fs = some fs

    unfoldable pub apply_to_flow_set : FlowMod M I → FlowSet M I → Option (FlowSet M I)
    unfolding insert modify_flow_set delete_from_flow_set
    apply_to_flow_set p fs = apply_by p.command p fs
