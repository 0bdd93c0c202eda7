-- ===== src/FlowEntries/Deleting.antt =====
-- Which flows a deletion reaches, and the reports of the switch about it.
use runos.Base.{
  ℕ, ◌≡◌, ◌<◌, inl, inr, refl, sym, ap, ◌∙◌, Bool-cases, Option-cases, Bool, true, false, not, ◌||◌,
  none, some, [], ◌∷◌, ◌==◌, arith,
}
use runos.FlowEntries.Messages.{
  OxmMatch, IsComparing, FlowMod, Command, add, modify, modify_strict, delete, delete_strict, other,
  table_all, any, matches, matches_by, to_be_modified_base, to_be_deleted_base,
}
use runos.FlowEntries.Flows.{
  FlowKey, Flow, FlowSet, key_eq, key_of, find, flow_matches, delete_from_flow_set,
  apply_to_flow_set,
}
use runos.FlowEntries.States.{
  Result, ok, err, FlowRemoved, find_state, process_mod, process_removed, process_removed_of,
}
use runos.FlowEntries.Tables.{distinct, all_flows, find-delete, find_key, key_eq→eq}
use runos.FlowEntries.Handling.{IsFlowSet, keyed, gone, deleted_unanswered}
use runos.FlowEntries.Saving.{find-add_state}
use runos.FlowEntries.{FlowEntriesVerifier, send, with_removal, flow_removed}

module _ {M F I : Type 0} (o : OxmMatch M F) where
  own_table_by :
      (b : Command) (p m : FlowMod M I) → matches_by o b p m ≡ true → m.table_id ≡ p.table_id
  unfolding to_be_modified_base to_be_deleted_base
  own_table_by add p m h = absurd (ground (arith, h))
  own_table_by modify p m h = ground (arith, h)
  own_table_by modify_strict p m h = ground (arith, h)
  own_table_by delete p m h = ground (arith, h)
  own_table_by delete_strict p m h = ground (arith, h)
  own_table_by other p m h = absurd (ground (arith, h))

  own_table : (p m : FlowMod M I) → matches o p m ≡ true → m.table_id ≡ p.table_id
  unfolding matches
  own_table p m h = own_table_by p.command p m h

  abbrev pub Filtered : FlowMod M I → FlowMod M I → ℕ → Type 0
  Filtered p m port =
      ((not (p.out_port == any) || m.out_port == any) ≡ true)
      × ((p.out_port == any || matches o p (record m { out_port = port })) ≡ true)

  -- A DELETE that reaches a flow has the out port ANY and so has the message of the flow, or has
  -- an out port and reaches the flow with any other out port as well.
  pub delete-Filtered :
      (p m : FlowMod M I) (port : ℕ) → p.command ≡ delete → matches o p m ≡ true → Filtered p m port
  unfolding matches to_be_deleted_base to_be_modified_base
  delete-Filtered p m port c h = ground (arith, c, h)

  module _ (c : IsComparing o) where
    table_of :
        (f : Flow M I) (k : FlowKey M)
        → keyed o f ≡ true
        → key_eq o k f.key ≡ true
        → f.message.table_id ≡ k.table_id
    table_of f k h e =
        ap (λ (j : FlowKey M). j.table_id)
          (sym (key_eq→eq o c k f.key e ∙ key_eq→eq o c f.key (key_of f.message) h))

    pub all-find :
        (test : Flow M I → Bool) (k : FlowKey M) (fs : FlowSet M I) (f : Flow M I)
        → all_flows test fs ≡ true
        → find o k fs ≡ some f
        → test f ≡ true
    unfolding all_flows find
    all-find test k [] f h e = absurd (ground (arith, e))
    all-find test k (g ∷ fs) f h e = ground (arith, h, e, all-find test k fs f)

    spared :
        (p : FlowMod M I) (k : FlowKey M) (f : Flow M I)
        → keyed o f ≡ true
        → key_eq o k f.key ≡ true
        → p.table_id ≡ table_all
        → k.table_id < table_all
        → flow_matches o p f ≡ false
    unfolding flow_matches
    spared p k f h e t l = elim (Bool-cases (matches o p f.message)) [
      | inl m ↦ absurd (omega (arith, own_table p f.message m, table_of f k h e, t, l))
      | inr m ↦ m
    ]

    pub delete_all_keeps :
        (p : FlowMod M I) (fs : FlowSet M I) (k : FlowKey M)
        → IsFlowSet o fs
        → p.table_id ≡ table_all
        → k.table_id < table_all
        → find o k (delete_from_flow_set o p fs) ≡ find o k fs
    delete_all_keeps p fs k v t l = elim (Option-cases (find o k fs)) [
      | inl e ↦ rw (find-delete o c p k fs v.differ, e) refl
      | inr (f, e) ↦
          rw
            (
              find-delete o c p k fs v.differ,
              e,
              spared p k f (all-find (keyed o) k fs f v.keys e) (find_key o c k fs f e) t l,
            )
            refl
    ]

    module _ {T : Type 0} (arrange : FlowSet M I → FlowSet M I) where
      abbrev pub Silent : ℕ → FlowRemoved M → Result (FlowEntriesVerifier M I T) → Type 0
      Silent d r (err e) = true ≡ false
      Silent d r (ok v) = (flow_removed o d r v).1 ≡ []

      found_silent :
          (d : ℕ) (r : FlowRemoved M) (v : FlowEntriesVerifier M I T) (fs : FlowSet M I)
          → find_state d v.states ≡ some fs
          → process_removed o r fs ≡ (fs, none)
          → (flow_removed o d r v).1 ≡ []
      unfolding flow_removed process_removed_of
      found_silent d r v fs e h = elim (Bool-cases v.is_primary) [
        | inl p ↦ rw (p, e, h) refl
        | inr p ↦ rw p refl
      ]

      -- At a primary, a flow that a DELETE takes from the set of a known switch, whose flows have
      -- different keys, or that was not there, is not sent again when the switch reports its
      -- removal, whatever the reason, if matches compare their contents.
      pub deleted-Silent :
          (d : ℕ) (m : FlowMod M I) (r : FlowRemoved M) (fs : FlowSet M I)
          (v : FlowEntriesVerifier M I T)
          → v.is_primary ≡ true
          → find_state d v.states ≡ some fs
          → distinct o fs ≡ true
          → m.command ≡ delete
          → gone o c (with_removal m) r fs ≡ true
          → Silent d r (send o arrange d m v).0
      unfolding send process_mod apply_to_flow_set
      deleted-Silent d m r fs v p e u b g =
          let m' : FlowMod M I = record (with_removal m) { command = delete } in
          rw (p, e, b)
            (found_silent d r _ (delete_from_flow_set o m' fs)
              (find-add_state d d (delete_from_flow_set o m' fs) v.states ∙ ground arith)
              (deleted_unanswered o c m' r fs u (rw (← b) g)))
