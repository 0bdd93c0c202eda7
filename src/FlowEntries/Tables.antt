-- ===== src/FlowEntries/Tables.antt =====
-- A set of flows as a table from keys, and what the operations on the set do to it.

use runos.Base.{
  ◌≡◌, inl, inr, refl, Bool-cases, Bool, true, false, not, ◌&&◌, Option, none, some, [], ◌∷◌,
  if◌then◌else◌, arith,
}
use runos.FlowEntries.Messages.{OxmMatch, IsComparing, FlowMod}
use runos.FlowEntries.Flows.{
  FlowKey, Flow, FlowSet, is_some, key_eq, find, erase, insert, insert_all, flow_matches,
  delete_from_flow_set,
}

module _ {M F : Type 0} (o : OxmMatch M F) (c : IsComparing o) where
  pub key_eq_self : (k : FlowKey M) → key_eq o k k ≡ true
  unfolding key_eq
  key_eq_self k = ground (arith, c.eq_self k.match)

  pub key_eq→eq : (a b : FlowKey M) → key_eq o a b ≡ true → a ≡ b
  unfolding key_eq
  key_eq→eq a b h =
      let t : a.table_id ≡ b.table_id = ground (arith, h) in
      let p : a.priority ≡ b.priority = ground (arith, h) in
      let m : a.match ≡ b.match = c.eq_same a.match b.match (ground (arith, h)) in
      λ i. record { table_id = t i; priority = p i; match = m i }

  pub key_eq_left : (a b k : FlowKey M) → key_eq o a b ≡ true → key_eq o a k ≡ key_eq o b k
  key_eq_left a b k h = rw (key_eq→eq a b h) refl

  pub key_eq_right : (a b k : FlowKey M) → key_eq o a b ≡ true → key_eq o k a ≡ key_eq o k b
  key_eq_right a b k h = rw (key_eq→eq a b h) refl

  pub key_eq_sym : (a b : FlowKey M) → key_eq o a b ≡ key_eq o b a
  key_eq_sym a b = elim (Bool-cases (key_eq o a b)) [
    | inl h ↦ rw (key_eq→eq a b h) refl
    | inr h ↦ elim (Bool-cases (key_eq o b a)) [
      | inl k ↦ rw (key_eq→eq b a k) refl
      | inr k ↦ rw (h, k) refl
    ]
  ]

unfoldable pub all_flows : {M I : Type 0} → (Flow M I → Bool) → FlowSet M I → Bool
all_flows test [] = true
all_flows test (f ∷ fs) = test f && all_flows test fs

module _ {M F I : Type 0} (o : OxmMatch M F) where
  -- No two flows of a set have the same key.
  unfoldable pub distinct : FlowSet M I → Bool
  unfolding find
  distinct [] = true
  distinct (f ∷ fs) = not (is_some (find o f.key fs)) && distinct fs

  -- Another order of the same set.
  pub record IsArrangement (arrange : FlowSet M I → FlowSet M I) : Type 0 where
    pub find-arrange :
        (k : FlowKey M) (fs : FlowSet M I)
        → distinct fs ≡ true
        → find o k (arrange fs) ≡ find o k fs
    pub distinct-arrange : (fs : FlowSet M I) → distinct fs ≡ true → distinct (arrange fs) ≡ true
    pub all-arrange :
        (test : Flow M I → Bool) (fs : FlowSet M I)
        → all_flows test (arrange fs) ≡ all_flows test fs

  abbrev pub unless : FlowMod M I → Option (Flow M I) → Option (Flow M I)
  unless p none = none
  unless p (some f) = if flow_matches o p f then none else some f

  module _ (c : IsComparing o) where
    pub find_same :
        (j k : FlowKey M) (fs : FlowSet M I) → key_eq o j k ≡ true → find o j fs ≡ find o k fs
    find_same j k fs h = rw (key_eq→eq o c j k h) refl

    -- What is found has the key.
    pub find_key :
        (k : FlowKey M) (fs : FlowSet M I) (f : Flow M I)
        → find o k fs ≡ some f
        → key_eq o k f.key ≡ true
    unfolding find
    find_key k [] f h = absurd (ground (arith, h))
    find_key k (g ∷ fs) f h = ground (arith, h, find_key k fs f)

    pub find-delete :
        (p : FlowMod M I) (k : FlowKey M) (fs : FlowSet M I)
        → distinct fs ≡ true
        → find o k (delete_from_flow_set o p fs) ≡ unless p (find o k fs)
    unfolding find delete_from_flow_set distinct
    find-delete p k [] d = refl
    find-delete p k (f ∷ fs) d = ground (arith, d, find-delete p k fs, find_same k f.key fs)

    find-delete_none :
        (p : FlowMod M I) (k : FlowKey M) (fs : FlowSet M I)
        → distinct fs ≡ true
        → is_some (find o k fs) ≡ false
        → is_some (find o k (delete_from_flow_set o p fs)) ≡ false
    find-delete_none p k fs d h = ground (arith, d, h, find-delete p k fs)

    pub distinct-delete :
        (p : FlowMod M I) (fs : FlowSet M I)
        → distinct fs ≡ true
        → distinct (delete_from_flow_set o p fs) ≡ true
    unfolding distinct delete_from_flow_set
    distinct-delete p [] d = refl
    distinct-delete p (f ∷ fs) d =
        ground (arith, d, distinct-delete p fs, find-delete_none p f.key fs)

    pub find-erase :
        (j k : FlowKey M) (fs : FlowSet M I)
        → distinct fs ≡ true
        → find o j (erase o k fs) ≡ (if key_eq o j k then none else find o j fs)
    unfolding find erase distinct
    find-erase j k [] d = ground arith
    find-erase j k (f ∷ fs) d = ground (
      arith,
      d,
      find-erase j k fs,
      find_same j f.key fs,
      find_same k f.key fs,
      key_eq_left o c j k f.key,
      key_eq_right o c k f.key j,
    )

    module _ (arrange : FlowSet M I → FlowSet M I) (a : IsArrangement arrange) where
      pub find-insert :
          (k : FlowKey M) (f : Flow M I) (fs : FlowSet M I)
          → distinct fs ≡ true
          → find o k (insert o arrange f fs)
            ≡ (if key_eq o k f.key && not (is_some (find o f.key fs)) then some f else find o k fs)
      unfolding insert find distinct
      find-insert k f fs d = ground (arith, d, a.find-arrange k (f ∷ fs))

      pub distinct-insert :
          (f : Flow M I) (fs : FlowSet M I)
          → distinct fs ≡ true
          → distinct (insert o arrange f fs) ≡ true
      unfolding insert distinct
      distinct-insert f fs d = ground (arith, d, a.distinct-arrange (f ∷ fs))

      pub distinct-insert_all :
          (gs fs : FlowSet M I) → distinct fs ≡ true → distinct (insert_all o arrange gs fs) ≡ true
      unfolding insert_all
      distinct-insert_all [] fs d = d
      distinct-insert_all (g ∷ gs) fs d =
          distinct-insert_all gs (insert o arrange g fs) (distinct-insert g fs d)

      abbrev pub first_of : Option (Flow M I) → Option (Flow M I) → Option (Flow M I)
      first_of (some f) g = some f
      first_of none g = g

      pub find-insert_all :
          (k : FlowKey M) (gs fs : FlowSet M I)
          → distinct fs ≡ true
          → find o k (insert_all o arrange gs fs) ≡ first_of (find o k fs) (find o k gs)
      unfolding insert_all find
      find-insert_all k [] fs d = ground arith
      find-insert_all k (g ∷ gs) fs d = ground (
        arith,
        find-insert_all k gs (insert o arrange g fs) (distinct-insert g fs d),
        find-insert k g fs d,
        find_same k g.key fs,
      )

      pub all-insert :
          (test : Flow M I → Bool) (f : Flow M I) (fs : FlowSet M I)
          → test f ≡ true
          → all_flows test fs ≡ true
          → all_flows test (insert o arrange f fs) ≡ true
      unfolding insert all_flows
      all-insert test f fs t h = ground (arith, t, h, a.all-arrange test (f ∷ fs))

      pub all-insert_all :
          (test : Flow M I → Bool) (gs fs : FlowSet M I)
          → all_flows test gs ≡ true
          → all_flows test fs ≡ true
          → all_flows test (insert_all o arrange gs fs) ≡ true
      unfolding insert_all all_flows
      all-insert_all test [] fs t h = h
      all-insert_all test (g ∷ gs) fs t h =
          all-insert_all test gs (insert o arrange g fs) (ground (arith, t))
            (all-insert test g fs (ground (arith, t)) h)

    find-erase_none :
        (j k : FlowKey M) (fs : FlowSet M I)
        → distinct fs ≡ true
        → is_some (find o j fs) ≡ false
        → is_some (find o j (erase o k fs)) ≡ false
    find-erase_none j k fs d h = ground (arith, h, find-erase j k fs d)

    pub distinct-erase :
        (k : FlowKey M) (fs : FlowSet M I) → distinct fs ≡ true → distinct (erase o k fs) ≡ true
    unfolding distinct erase
    distinct-erase k [] d = refl
    distinct-erase k (f ∷ fs) d = ground (arith, d, distinct-erase k fs, find-erase_none f.key k fs)

  pub all-erase :
      (test : Flow M I → Bool) (k : FlowKey M) (fs : FlowSet M I)
      → all_flows test fs ≡ true
      → all_flows test (erase o k fs) ≡ true
  unfolding erase all_flows
  all-erase test k [] h = refl
  all-erase test k (f ∷ fs) h = ground (arith, h, all-erase test k fs)

  pub all-delete :
      (test : Flow M I → Bool) (p : FlowMod M I) (fs : FlowSet M I)
      → all_flows test fs ≡ true
      → all_flows test (delete_from_flow_set o p fs) ≡ true
  unfolding delete_from_flow_set all_flows
  all-delete test p [] h = refl
  all-delete test p (f ∷ fs) h = ground (arith, h, all-delete test p fs)
