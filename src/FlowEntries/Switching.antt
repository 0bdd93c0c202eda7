-- ===== src/FlowEntries/Switching.antt =====
-- The flow table of an OpenFlow switch, and the set of flows that the verifier keeps beside it.

use runos.Base.{
  ◌⊎◌, ◌≡◌, inl, inr, refl, Bool-cases, Bool, true, false, not, ◌&&◌, Option, none, some, ltb,
  if◌then◌else◌, arith,
}
use runos.FlowEntries.Messages.{
  OxmMatch, IsComparing, FlowMod, Command, matches_by, add, modify, modify_strict, delete,
  delete_strict, other, table_all, matches,
}
use runos.FlowEntries.Flows.{
  FlowKey, Flow, FlowSet, is_some, key_eq, key_of, flow_of, find, flow_matches, with_instructions,
  apply_to_flow_set,
}
use runos.FlowEntries.Tables.{IsArrangement, distinct, all_flows, find_same}
use runos.FlowEntries.Modifying.{sparse}
use runos.FlowEntries.Deleting.{all-find}
use runos.FlowEntries.Handling.{Applied, applied, apply-Applied, modifiable}
use runos.FlowEntries.Choosing.{Forwarding, Chosen, unfiltered, Fair, chosen, choosing}

module _ {M F I : Type 0} (o : OxmMatch M F) where
  module _ (w : Forwarding I) where
    abbrev pub Either : Type 0 → Option (Flow M I) → Option (Flow M I) → Option (Flow M I) → Type 0
    Either chosen found new old = (chosen × (found ≡ new)) ⊎ ((¬ chosen) × (found ≡ old))

    -- What a table finds for a key after a message, from what it found before.
    abbrev pub Switched :
        Command → FlowMod M I → FlowKey M → Option (Flow M I) → Option (Flow M I) → Type 0
    Switched add p k before found =
        found ≡ (if key_eq o k (key_of p) then some (flow_of p) else before)
    Switched other p k before found = found ≡ before
    Switched b p k none found = found ≡ none
    Switched modify p k (some f) found =
        Either (Chosen o w modify p f.message) found (some (with_instructions p.instructions f))
          (some f)
    Switched modify_strict p k (some f) found =
        Either (Chosen o w modify_strict p f.message) found
          (some (with_instructions p.instructions f)) (some f)
    Switched delete p k (some f) found = Either (Chosen o w delete p f.message) found none (some f)
    Switched delete_strict p k (some f) found =
        Either (Chosen o w delete_strict p f.message) found none (some f)

    abbrev pub Follows : FlowMod M I → FlowKey M → FlowSet M I → Option (FlowSet M I) → Type 0
    Follows p k fs none = true ≡ false
    Follows p k fs (some gs) = Switched p.command p k (find o k fs) (find o k gs)

  -- A new key, one table, no outputs, and modified flows apart from each other and from the end.
  abbrev pub plain : Command → FlowMod M I → FlowSet M I → Bool
  plain add p fs = not (is_some (find o (key_of p) fs))
  plain modify p fs = sparse o p fs
  plain modify_strict p fs = sparse o p fs
  plain delete p fs =
      ltb p.table_id table_all && unfiltered o p && all_flows (λ f. unfiltered o f.message) fs
  plain delete_strict p fs =
      ltb p.table_id table_all && unfiltered o p && all_flows (λ f. unfiltered o f.message) fs
  plain other p fs = true

  plain-modifiable :
      (b : Command) (p : FlowMod M I) (fs : FlowSet M I)
      → plain b p fs ≡ true
      → modifiable o b p fs ≡ true
  plain-modifiable add p fs h = refl
  plain-modifiable modify p fs h = h
  plain-modifiable modify_strict p fs h = h
  plain-modifiable delete p fs h = refl
  plain-modifiable delete_strict p fs h = refl
  plain-modifiable other p fs h = refl

  module _ (w : Forwarding I) where
    decided :
        (b : Command) (p m : FlowMod M I) (found new old : Option (Flow M I))
        → Fair o w b p m
        → found ≡ (if matches_by o b p m then new else old)
        → Either w (Chosen o w b p m) found new old
    decided b p m found new old f h = elim (Bool-cases (matches_by o b p m)) [
      | inl t ↦ inl (chosen o w b p m f t, ground (arith, h, t))
      | inr t ↦ inr (λ x. absurd (ground (arith, t, choosing o w b p m f x)), ground (arith, h, t))
    ]

    applied-Switched :
        (c : IsComparing o) (b : Command) (p : FlowMod M I) (k : FlowKey M) (fs : FlowSet M I)
        (before found : Option (Flow M I))
        → p.command ≡ b
        → plain b p fs ≡ true
        → find o k fs ≡ before
        → found ≡ applied o b p k before
        → Switched w b p k before found
    unfolding flow_matches matches
    applied-Switched c add p k fs none found q h e g = g
    applied-Switched c add p k fs (some f) found q h e g =
        ground (arith, h, e, g, find_same o c k (key_of p) fs)
    applied-Switched c other p k fs before found q h e g = g
    applied-Switched c modify p k fs none found q h e g = g
    applied-Switched c modify_strict p k fs none found q h e g = g
    applied-Switched c delete p k fs none found q h e g = g
    applied-Switched c delete_strict p k fs none found q h e g = g
    applied-Switched c modify p k fs (some f) found q h e g =
        decided modify p f.message found _ _ tt (ground (arith, g, q))
    applied-Switched c modify_strict p k fs (some f) found q h e g =
        decided modify_strict p f.message found _ _ tt (ground (arith, g, q))
    applied-Switched c delete p k fs (some f) found q h e g =
        let own = all-find o c (λ f. unfiltered o f.message) k fs f (ground (arith, h)) e in
        decided delete p f.message found _ _ (ground (arith, h), ground (arith, h), own)
          (ground (arith, g, q))
    applied-Switched c delete_strict p k fs (some f) found q h e g =
        let own = all-find o c (λ f. unfiltered o f.message) k fs f (ground (arith, h)) e in
        decided delete_strict p f.message found _ _ (ground (arith, h), ground (arith, h), own)
          (ground (arith, g, q))

    module _ (c : IsComparing o) (arrange : FlowSet M I → FlowSet M I)
        (a : IsArrangement o arrange) where
      result-Follows :
          (p : FlowMod M I) (fs : FlowSet M I) (k : FlowKey M) (r : Option (FlowSet M I))
          → plain p.command p fs ≡ true
          → Applied o p.command p fs k r
          → Follows w p k fs r
      result-Follows p fs k none h x = x
      result-Follows p fs k (some gs) h x =
          applied-Switched c p.command p k fs (find o k fs) (find o k gs) refl h refl x

      pub apply-Follows :
          (p : FlowMod M I) (fs : FlowSet M I) (k : FlowKey M)
          → distinct o fs ≡ true
          → plain p.command p fs ≡ true
          → Follows w p k fs (apply_to_flow_set o arrange p fs)
      apply-Follows p fs k d h =
          result-Follows p fs k (apply_to_flow_set o arrange p fs) h
            (apply-Applied o c arrange a p fs k d (plain-modifiable p.command p fs h))
