-- ===== src/IdGen/Canonical.antt =====
-- A gapped pool is determined by the set of identifiers that it holds.
use runos.Base.{ℕ, suc, ◌≡◌, refl, List, [], ◌∷◌, arith}
use runos.IdGen.{Segment}
use runos.IdGen.Segments.{contains, Gapped, contains_below}

same_head :
    (lo hi : ℕ) (s t : Segment) (ss ts : List Segment)
    → Gapped lo hi (s ∷ ss)
    → Gapped lo hi (t ∷ ts)
    → ((x : ℕ) → contains x (s ∷ ss) ≡ contains x (t ∷ ts))
    → s ≡ t
unfolding contains
same_head lo hi s t ss ts v w h = ground (
  arith,
  h s.first,
  h t.first,
  h s.last,
  h t.last,
  contains_below s.first (suc t.last) hi ts,
  contains_below t.first (suc s.last) hi ss,
  contains_below s.last (suc t.last) hi ts,
  contains_below t.last (suc s.last) hi ss,
  contains_below s.last (suc s.last) hi ss,
  contains_below t.last (suc t.last) hi ts,
)

same_tail :
    (x lo hi : ℕ) (s t : Segment) (ss ts : List Segment)
    → Gapped lo hi (s ∷ ss)
    → Gapped lo hi (t ∷ ts)
    → s ≡ t
    → contains x (s ∷ ss) ≡ contains x (t ∷ ts)
    → contains x ss ≡ contains x ts
unfolding contains
same_tail x lo hi s t ss ts v w e h =
    ground (arith, contains_below x (suc t.last) hi ts, contains_below x (suc s.last) hi ss)

pub Gapped-canonical :
    (lo hi : ℕ) (xs ys : List Segment)
    → Gapped lo hi xs
    → Gapped lo hi ys
    → ((x : ℕ) → contains x xs ≡ contains x ys)
    → xs ≡ ys
unfolding contains
Gapped-canonical lo hi [] [] v w h = refl
Gapped-canonical lo hi [] (t ∷ ts) v w h = ground (arith, h t.first)
Gapped-canonical lo hi (s ∷ ss) [] v w h = ground (arith, h s.first)
Gapped-canonical lo hi (s ∷ ss) (t ∷ ts) v w h =
    let e : s ≡ t = same_head lo hi s t ss ts v w h in
    ground (
      arith,
      e,
      Gapped-canonical (suc s.last) hi ss ts v.3 (ground (arith, e))
          (λ x. same_tail x lo hi s t ss ts v w e (h x)),
    )
