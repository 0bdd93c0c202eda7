-- ===== src/FlowEntries/Handling.antt =====
-- What the messages do to the flows that a switch should have, as a table from keys to flows.
use runos.Base.{
  ◌≡◌, inl, inr, refl, Bool-cases, Bool, true, false, not, Option, none, some, [], if◌then◌else◌,
  arith,
}
use runos.FlowEntries.Messages.{
  OxmMatch, IsComparing, FlowMod, Command, add, modify, modify_strict, delete, delete_strict, other,
}
use runos.FlowEntries.Flows.{
  FlowKey, Flow, FlowSet, is_some, key_eq, key_of, flow_of, find, insert, with_instructions,
  modify_flow_set, delete_from_flow_set, apply_to_flow_set, apply_by,
}
use runos.FlowEntries.States.{FlowRemoved, is_expected, removed_found, process_removed}
use runos.FlowEntries.Tables.{
  IsArrangement, distinct, unless, all_flows, find_same, key_eq_self, find-insert, find-delete,
  distinct-insert, distinct-delete, distinct-erase, all-insert, all-delete, all-erase,
}
use runos.FlowEntries.Modifying.{sparse, changed, Changed, modify-Changed, Made, modify-Made}

-- Whether a set may be modified in one pass of the loop.
abbrev pub modifiable : {M F I : Type 0} → OxmMatch M F → Command → FlowMod M I → FlowSet M I → Bool
modifiable o modify m fs = sparse o m fs
modifiable o modify_strict m fs = sparse o m fs
modifiable o _ m fs = true

module _ {M F I : Type 0} (o : OxmMatch M F) where
  -- The same for one key of a table.
  abbrev pub applied : Command → FlowMod M I → FlowKey M → Option (Flow M I) → Option (Flow M I)
  applied add m k none = if key_eq o k (key_of m) then some (flow_of m) else none
  applied add m k (some f) = some f
  applied modify m k found = changed o m found
  applied modify_strict m k found = changed o m found
  applied delete m k found = unless o m found
  applied delete_strict m k found = unless o m found
  applied other m k found = found

  abbrev pub Applied :
      Command → FlowMod M I → FlowSet M I → FlowKey M → Option (FlowSet M I) → Type 0
  Applied b m fs k none = true ≡ false
  Applied b m fs k (some gs) = find o k gs ≡ applied b m k (find o k fs)

  -- A flow has the key of its message.
  abbrev pub keyed : Flow M I → Bool
  keyed f = key_eq o f.key (key_of f.message)

  pub record IsFlowSet (fs : FlowSet M I) : Type 0 where
    pub differ : distinct o fs ≡ true
    pub keys : all_flows keyed fs ≡ true

  abbrev pub Stays : Option (FlowSet M I) → Type 0
  Stays none = Unit
  Stays (some gs) = IsFlowSet gs

  pub empty-IsFlowSet : IsFlowSet []
  unfolding distinct all_flows
  empty-IsFlowSet = record { differ = refl; keys = refl }

  module _ (c : IsComparing o) where
    -- A flow that the controller deleted is not put back when the switch reports it.
    abbrev pub gone : FlowMod M I → FlowRemoved M → FlowSet M I → Bool
    gone m r fs = not (is_some (unless o m (find o r.key fs)))

    pub deleted_unanswered :
        (m : FlowMod M I) (r : FlowRemoved M) (fs : FlowSet M I)
        → distinct o fs ≡ true
        → gone m r fs ≡ true
        → process_removed o r (delete_from_flow_set o m fs) ≡ (delete_from_flow_set o m fs, none)
    unfolding process_removed
    deleted_unanswered m r fs d g = ground (arith, d, g, find-delete o c m r.key fs)

    found-IsFlowSet :
        (r : FlowRemoved M) (fs : FlowSet M I) (x : Option (Flow M I))
        → IsFlowSet fs
        → IsFlowSet ((removed_found o r fs x).0)
    found-IsFlowSet r fs none v = v
    found-IsFlowSet r fs (some f) v = elim (Bool-cases (is_expected r.reason)) [
      | inl e ↦ rw e (record {
        differ = distinct-erase o c r.key fs v.differ;
        keys = all-erase o keyed r.key fs v.keys;
      })
      | inr e ↦ rw e v
    ]

    removed-IsFlowSet :
        (r : FlowRemoved M) (fs : FlowSet M I)
        → IsFlowSet fs
        → IsFlowSet ((process_removed o r fs).0)
    unfolding process_removed
    removed-IsFlowSet r fs v = found-IsFlowSet r fs (find o r.key fs) v

  module _ (c : IsComparing o) (arrange : FlowSet M I → FlowSet M I)
      (a : IsArrangement o arrange) where
    add-Applied :
        (m : FlowMod M I) (fs : FlowSet M I) (k : FlowKey M)
        → distinct o fs ≡ true
        → find o k (insert o arrange (flow_of m) fs) ≡ applied add m k (find o k fs)
    add-Applied m fs k d =
        ground (arith, find-insert o c arrange a k (flow_of m) fs d, find_same o c k (key_of m) fs)

    modified-Applied :
        (m : FlowMod M I) (fs : FlowSet M I) (k : FlowKey M) (r : Option (FlowSet M I))
        → Changed o m k fs r
        → Applied modify m fs k r
    modified-Applied m fs k none h = h
    modified-Applied m fs k (some gs) h = h

    apply_by-Applied :
        (b : Command) (m : FlowMod M I) (fs : FlowSet M I) (k : FlowKey M)
        → distinct o fs ≡ true
        → modifiable o b m fs ≡ true
        → Applied b m fs k (apply_by o arrange b m fs)
    apply_by-Applied add m fs k d s = add-Applied m fs k d
    apply_by-Applied modify m fs k d s =
        modified-Applied m fs k (modify_flow_set o arrange m fs)
          (modify-Changed o m c arrange a k fs d s)
    apply_by-Applied modify_strict m fs k d s =
        modified-Applied m fs k (modify_flow_set o arrange m fs)
          (modify-Changed o m c arrange a k fs d s)
    apply_by-Applied delete m fs k d s = find-delete o c m k fs d
    apply_by-Applied delete_strict m fs k d s = find-delete o c m k fs d
    apply_by-Applied other m fs k d s = refl

    -- What a Flow-Mod does to a set, for each key by itself.
    pub apply-Applied :
        (m : FlowMod M I) (fs : FlowSet M I) (k : FlowKey M)
        → distinct o fs ≡ true
        → modifiable o m.command m fs ≡ true
        → Applied m.command m fs k (apply_to_flow_set o arrange m fs)
    unfolding apply_to_flow_set
    apply-Applied m fs k d s = apply_by-Applied m.command m fs k d s

    Made-Stays :
        (m : FlowMod M I)
        (same : (f : Flow M I) → keyed (with_instructions m.instructions f) ≡ keyed f)
        (r : Option (FlowSet M I))
        → Made o m arrange keyed same r
        → Stays r
    Made-Stays m same none h = tt
    Made-Stays m same (some gs) (d, k) = record { differ = d; keys = k }

    modified-Stays :
        (m : FlowMod M I) (fs : FlowSet M I) → IsFlowSet fs → Stays (modify_flow_set o arrange m fs)
    modified-Stays m fs v =
        Made-Stays m (λ f. refl) (modify_flow_set o arrange m fs)
          (modify-Made o m arrange keyed (λ f. refl) c a fs v.differ v.keys)

    deleted-IsFlowSet :
        (m : FlowMod M I) (fs : FlowSet M I)
        → IsFlowSet fs
        → IsFlowSet (delete_from_flow_set o m fs)
    deleted-IsFlowSet m fs v = record {
      differ = distinct-delete o c m fs v.differ;
      keys = all-delete o keyed m fs v.keys;
    }

    apply_by-Stays :
        (b : Command) (m : FlowMod M I) (fs : FlowSet M I)
        → IsFlowSet fs
        → Stays (apply_by o arrange b m fs)
    apply_by-Stays add m fs v = record {
      differ = distinct-insert o c arrange a (flow_of m) fs v.differ;
      keys = all-insert o c arrange a keyed (flow_of m) fs (key_eq_self o c (key_of m)) v.keys;
    }
    apply_by-Stays modify m fs v = modified-Stays m fs v
    apply_by-Stays modify_strict m fs v = modified-Stays m fs v
    apply_by-Stays delete m fs v = deleted-IsFlowSet m fs v
    apply_by-Stays delete_strict m fs v = deleted-IsFlowSet m fs v
    apply_by-Stays other m fs v = v

    pub apply-Stays :
        (m : FlowMod M I) (fs : FlowSet M I)
        → IsFlowSet fs
        → Stays (apply_to_flow_set o arrange m fs)
    unfolding apply_to_flow_set
    apply-Stays m fs v = apply_by-Stays m.command m fs v
