-- ===== src/FlowEntries/Modifying.antt =====
-- What modify_flow_set does: the loop erases an entry and then steps over the next one.
use runos.Base.{
  ◌≡◌, inl, inr, refl, Bool-cases, Bool, true, false, not, ◌&&◌, Option, none, some, [], ◌∷◌, ◌++◌,
  if◌then◌else◌, arith,
}
use runos.FlowEntries.Messages.{OxmMatch, IsComparing, FlowMod}
use runos.FlowEntries.Flows.{
  FlowKey, Flow, FlowSet, Modified, is_some, key_eq, find, flow_matches, with_instructions, keep,
  step_over, merge, modify_loop, modify_flow_set,
}
use runos.FlowEntries.Tables.{
  key_eq_self, find_same, IsArrangement, distinct, unless, all_flows, find-insert_all,
  distinct-insert_all, all-insert_all,
}

module _ {M F I : Type 0} (o : OxmMatch M F) (p : FlowMod M I) where
  abbrev pub hits : Flow M I → Bool
  hits f = flow_matches o p f

  -- A matching flow is followed by one that does not match.
  unfoldable pub sparse : FlowSet M I → Bool
  sparse [] = true
  sparse (f ∷ []) = not (hits f)
  sparse (f ∷ g ∷ fs) =
      let over = not (hits g) && sparse fs in
      let on = sparse (g ∷ fs) in if hits f then over else on

  abbrev only : Option (Flow M I) → Option (Flow M I)
  only none = none
  only (some f) = if hits f then some (with_instructions p.instructions f) else none

  abbrev pub changed : Option (Flow M I) → Option (Flow M I)
  changed none = none
  changed (some f) = some (if hits f then with_instructions p.instructions f else f)

  -- What the loop leaves, for one key.
  abbrev Split : FlowKey M → FlowSet M I → Modified M I → Type 0
  Split k fs none = true ≡ false
  Split k fs (some (kept, modified)) =
      (find o k kept ≡ unless o p (find o k fs)) × (find o k modified ≡ only (find o k fs))

  -- No flow is found that was not there, and no two keys become the same.
  abbrev Inside : FlowKey M → FlowSet M I → Modified M I → Type 0
  Inside k fs none = Unit
  Inside k fs (some (kept, modified)) =
      is_some (find o k fs) ≡ false → is_some (find o k kept) ≡ false

  abbrev Distinct : Modified M I → Type 0
  Distinct none = Unit
  Distinct (some (kept, modified)) = distinct o kept ≡ true

  abbrev Keeps : (Flow M I → Bool) → Modified M I → Type 0
  Keeps test none = Unit
  Keeps test (some (kept, modified)) =
      (all_flows test kept ≡ true) × (all_flows test modified ≡ true)

  keep-Inside :
      (k : FlowKey M) (f : Flow M I) (fs : FlowSet M I) (r : Modified M I)
      → Inside k fs r
      → Inside k (f ∷ fs) (keep f r)
  unfolding find
  keep-Inside k f fs none i = tt
  keep-Inside k f fs (some (kept, modified)) i = λ h. ground (arith, h, i)

  step_over-Inside :
      (k : FlowKey M) (f g : Flow M I) (fs : FlowSet M I) (r : Modified M I)
      → Inside k fs r
      → Inside k (f ∷ g ∷ fs) (step_over p.instructions f g r)
  unfolding find
  step_over-Inside k f g fs none i = tt
  step_over-Inside k f g fs (some (kept, modified)) i = λ h. ground (arith, h, i)

  modify_loop-Inside : (k : FlowKey M) (fs : FlowSet M I) → Inside k fs (modify_loop o p fs)
  unfolding modify_loop
  modify_loop-Inside k [] = λ h. h
  modify_loop-Inside k (f ∷ []) = elim (Bool-cases (hits f)) [
    | inl t ↦ rw t tt
    | inr t ↦ rw t (λ h. h)
  ]
  modify_loop-Inside k (f ∷ g ∷ fs) = elim (Bool-cases (hits f)) [
    | inl t ↦ rw t (step_over-Inside k f g fs (modify_loop o p fs) (modify_loop-Inside k fs))
    | inr t ↦
        rw t (keep-Inside k f (g ∷ fs) (modify_loop o p (g ∷ fs)) (modify_loop-Inside k (g ∷ fs)))
  ]

  keep-Distinct :
      (f : Flow M I) (fs : FlowSet M I) (r : Modified M I)
      → Inside f.key fs r
      → is_some (find o f.key fs) ≡ false
      → Distinct r
      → Distinct (keep f r)
  unfolding distinct
  keep-Distinct f fs none i n d = tt
  keep-Distinct f fs (some (kept, modified)) i n d = ground (arith, i n, d)

  step_over-Distinct :
      (f g : Flow M I) (fs : FlowSet M I) (r : Modified M I)
      → Inside g.key fs r
      → is_some (find o g.key fs) ≡ false
      → Distinct r
      → Distinct (step_over p.instructions f g r)
  unfolding distinct
  step_over-Distinct f g fs none i n d = tt
  step_over-Distinct f g fs (some (kept, modified)) i n d = ground (arith, i n, d)

  head_new :
      (f : Flow M I) (fs : FlowSet M I)
      → distinct o (f ∷ fs) ≡ true
      → (is_some (find o f.key fs) ≡ false) × (distinct o fs ≡ true)
  unfolding distinct
  head_new f fs d = ground (arith, d)

  modify_loop-Distinct : (fs : FlowSet M I) → distinct o fs ≡ true → Distinct (modify_loop o p fs)
  unfolding modify_loop
  modify_loop-Distinct [] d = d
  modify_loop-Distinct (f ∷ []) d = elim (Bool-cases (hits f)) [ inl t ↦ rw t tt | inr t ↦ rw t d ]
  modify_loop-Distinct (f ∷ g ∷ fs) d =
      let (n, e) = head_new f (g ∷ fs) d in
      let (m, e') = head_new g fs e in
      elim (Bool-cases (hits f)) [
        | inl t ↦ rw t (
            step_over-Distinct f g fs (modify_loop o p fs) (modify_loop-Inside g.key fs) m
              (modify_loop-Distinct fs e'))
        | inr t ↦ rw t (
            keep-Distinct f (g ∷ fs) (modify_loop o p (g ∷ fs)) (modify_loop-Inside f.key (g ∷ fs))
              n (modify_loop-Distinct (g ∷ fs) e))
      ]

  keep-Split :
      (k : FlowKey M) (f : Flow M I) (fs : FlowSet M I) (r : Modified M I)
      → hits f ≡ false
      → Split k fs r
      → is_some (find o f.key fs) ≡ false
      → (key_eq o k f.key ≡ true → find o k fs ≡ find o f.key fs)
      → Split k (f ∷ fs) (keep f r)
  unfolding find
  keep-Split k f fs none t s n e = s
  keep-Split k f fs (some (kept, modified)) t (a, b) n e = ground (arith, t, a, b, n, e)

  step_over-Split :
      (k : FlowKey M) (f g : Flow M I) (fs : FlowSet M I) (r : Modified M I)
      → hits f ≡ true
      → hits g ≡ false
      → Split k fs r
      → is_some (find o f.key (g ∷ fs)) ≡ false
      → is_some (find o g.key fs) ≡ false
      → (key_eq o k f.key ≡ true → find o k (g ∷ fs) ≡ find o f.key (g ∷ fs))
      → (key_eq o k g.key ≡ true → find o k fs ≡ find o g.key fs)
      → Split k (f ∷ g ∷ fs) (step_over p.instructions f g r)
  unfolding find
  step_over-Split k f g fs none t u s n m e d = s
  step_over-Split k f g fs (some (kept, modified)) t u (a, b) n m e d =
      ground (arith, t, u, a, b, n, m, e, d)

  one-Split : (k : FlowKey M) (f : Flow M I) → hits f ≡ false → Split k (f ∷ []) (some (f ∷ [], []))
  unfolding find
  one-Split k f t = (ground (arith, t), ground (arith, t))

  abbrev pub Changed : FlowKey M → FlowSet M I → Option (FlowSet M I) → Type 0
  Changed k fs none = true ≡ false
  Changed k fs (some gs) = find o k gs ≡ changed (find o k fs)

  module _ (c : IsComparing o) where
    modify_loop-Split :
        (k : FlowKey M) (fs : FlowSet M I)
        → distinct o fs ≡ true
        → sparse fs ≡ true
        → Split k fs (modify_loop o p fs)
    unfolding modify_loop sparse find
    modify_loop-Split k [] d s = (refl, refl)
    modify_loop-Split k (f ∷ []) d s =
        let t : hits f ≡ false = ground (arith, s) in rw t (one-Split k f t)
    modify_loop-Split k (f ∷ g ∷ fs) d s =
        let (n, e) = head_new f (g ∷ fs) d in
        let (m, e') = head_new g fs e in
        elim (Bool-cases (hits f)) [
          | inl t ↦ rw t (
              step_over-Split k f g fs (modify_loop o p fs) t (ground (arith, t, s))
                (modify_loop-Split k fs e' (ground (arith, t, s))) n m
                (find_same o c k f.key (g ∷ fs)) (find_same o c k g.key fs))
          | inr t ↦ rw t (
              keep-Split k f (g ∷ fs) (modify_loop o p (g ∷ fs)) t
                (modify_loop-Split k (g ∷ fs) e (ground (arith, t, s))) n
                (find_same o c k f.key (g ∷ fs)))
        ]

    module _ (arrange : FlowSet M I → FlowSet M I) (a : IsArrangement o arrange) where
      merge-Changed :
          (k : FlowKey M) (fs : FlowSet M I) (r : Modified M I)
          → Split k fs r
          → Distinct r
          → Changed k fs (merge o arrange r)
      merge-Changed k fs none s d = s
      merge-Changed k fs (some (kept, modified)) (x, y) d =
          ground (arith, x, y, find-insert_all o c arrange a k modified kept d)

      pub modify-Changed :
          (k : FlowKey M) (fs : FlowSet M I)
          → distinct o fs ≡ true
          → sparse fs ≡ true
          → Changed k fs (modify_flow_set o arrange p fs)
      unfolding modify_flow_set
      modify-Changed k fs d s =
          merge-Changed k fs (modify_loop o p fs) (modify_loop-Split k fs d s)
            (modify_loop-Distinct fs d)

  module _ (arrange : FlowSet M I → FlowSet M I) where
    ends_past :
        (f : Flow M I) (xs : FlowSet M I)
        → hits f ≡ true
        → all_flows (λ g. not (hits g)) xs ≡ true
        → modify_loop o p (xs ++ f ∷ []) ≡ none
    unfolding modify_loop all_flows
    ends_past f [] t n = rw t refl
    ends_past f (x ∷ []) t n = ground (arith, t, n)
    ends_past f (x ∷ y ∷ xs) t n = ground (arith, n, ends_past f (y ∷ xs) t)

    -- A modification of a set whose last flow matches, and no other, steps past the end of the
    -- set.
    pub modify_past_end :
        (f : Flow M I) (xs : FlowSet M I)
        → hits f ≡ true
        → all_flows (λ g. not (hits g)) xs ≡ true
        → modify_flow_set o arrange p (xs ++ f ∷ []) ≡ none
    unfolding modify_flow_set
    modify_past_end f xs t n = rw (ends_past f xs t n) refl

    unmatched :
        (xs : FlowSet M I)
        → all_flows (λ g. not (hits g)) xs ≡ true
        → modify_loop o p xs ≡ some (xs, [])
    unfolding modify_loop all_flows
    unmatched [] n = refl
    unmatched (x ∷ []) n = ground (arith, n)
    unmatched (x ∷ y ∷ xs) n = ground (arith, n, unmatched (y ∷ xs))

    -- Of two matching flows in a row the second keeps its instructions.
    abbrev pub Skipped : Flow M I → Option (FlowSet M I) → Type 0
    Skipped g none = true ≡ false
    Skipped g (some gs) = find o g.key gs ≡ some g

    skipped :
        (c : IsComparing o) (a : IsArrangement o arrange) (f g : Flow M I) (xs : FlowSet M I)
        → distinct o (f ∷ g ∷ xs) ≡ true
        → hits f ≡ true
        → all_flows (λ h. not (hits h)) xs ≡ true
        → Skipped g (merge o arrange (some (g ∷ xs, with_instructions p.instructions f ∷ [])))
    unfolding find
    skipped c a f g xs d t n = ground (
      arith,
      key_eq_self o c g.key,
      find-insert_all o c arrange a g.key (with_instructions p.instructions f ∷ []) (g ∷ xs)
          (head_new f (g ∷ xs) d).1,
    )

    pub modify_skips :
        (c : IsComparing o) (a : IsArrangement o arrange) (f g : Flow M I) (xs : FlowSet M I)
        → distinct o (f ∷ g ∷ xs) ≡ true
        → hits f ≡ true
        → hits g ≡ true
        → all_flows (λ h. not (hits h)) xs ≡ true
        → Skipped g (modify_flow_set o arrange p (f ∷ g ∷ xs))
    unfolding modify_flow_set modify_loop
    modify_skips c a f g xs d t u n = rw (t, unmatched xs n) (skipped c a f g xs d t n)

    keep-Keeps :
        (test : Flow M I → Bool) (f : Flow M I) (r : Modified M I)
        → test f ≡ true
        → Keeps test r
        → Keeps test (keep f r)
    unfolding all_flows
    keep-Keeps test f none t k = tt
    keep-Keeps test f (some (kept, modified)) t k = ground (arith, t, k)

    step_over-Keeps :
        (test : Flow M I → Bool) (f g : Flow M I) (r : Modified M I)
        → test (with_instructions p.instructions f) ≡ true
        → test g ≡ true
        → Keeps test r
        → Keeps test (step_over p.instructions f g r)
    unfolding all_flows
    step_over-Keeps test f g none t u k = tt
    step_over-Keeps test f g (some (kept, modified)) t u k = ground (arith, t, u, k)

    -- A test that new instructions do not change.
    module _ (test : Flow M I → Bool)
        (same : (f : Flow M I) → test (with_instructions p.instructions f) ≡ test f) where
      modify_loop-Keeps :
          (fs : FlowSet M I) → all_flows test fs ≡ true → Keeps test (modify_loop o p fs)
      unfolding modify_loop all_flows
      modify_loop-Keeps [] h = (refl, refl)
      modify_loop-Keeps (f ∷ []) h = elim (Bool-cases (hits f)) [
        | inl t ↦ rw t tt
        | inr t ↦ rw t (h, refl)
      ]
      modify_loop-Keeps (f ∷ g ∷ fs) h = elim (Bool-cases (hits f)) [
        | inl t ↦ rw t (
            step_over-Keeps test f g (modify_loop o p fs) (ground (arith, h, same f))
              (ground (arith, h)) (modify_loop-Keeps fs (ground (arith, h))))
        | inr t ↦ rw t (
            keep-Keeps test f (modify_loop o p (g ∷ fs)) (ground (arith, h))
              (modify_loop-Keeps (g ∷ fs) (ground (arith, h))))
      ]

      abbrev pub Made : Option (FlowSet M I) → Type 0
      Made none = Unit
      Made (some gs) = (distinct o gs ≡ true) × (all_flows test gs ≡ true)

      merge-Made :
          (c : IsComparing o) (a : IsArrangement o arrange) (r : Modified M I)
          → Distinct r
          → Keeps test r
          → Made (merge o arrange r)
      merge-Made c a none d k = tt
      merge-Made c a (some (kept, modified)) d (k, l) = (
        distinct-insert_all o c arrange a modified kept d,
        all-insert_all o c arrange a test modified kept l k,
      )

      pub modify-Made :
          (c : IsComparing o) (a : IsArrangement o arrange) (fs : FlowSet M I)
          → distinct o fs ≡ true
          → all_flows test fs ≡ true
          → Made (modify_flow_set o arrange p fs)
      unfolding modify_flow_set
      modify-Made c a fs d h =
          merge-Made c a (modify_loop o p fs) (modify_loop-Distinct fs d) (modify_loop-Keeps fs h)
