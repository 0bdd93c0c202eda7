-- ===== src/IdGen/Acquire.antt =====
-- IdGen::acquire in both orders.
use runos.Base.{
  ℕ, suc, ◌+◌, ◌≤◌, ◌≡◌, Bool, true, false, not, ◌&&◌, List, [], ◌∷◌, ltb, ◌==◌, arith, u64_max,
}
use runos.IdGen.{Segment, AcquireOrder, forward, backward, acquire_back, acquire_front, acquire_by}
use runos.IdGen.Segments.{contains, Gapped, size, contains_below}

-- No identifier of the pool comes before the one that was taken.
abbrev pub beaten : AcquireOrder → ℕ → ℕ → Bool
beaten forward x id = ltb x id
beaten backward x id = ltb id x

abbrev pub Acquires : AcquireOrder → ℕ → ℕ → ℕ → List Segment → ℕ × List Segment → Type 0
Acquires o x lo hi pool (id, pool') =
    (contains id pool ≡ true)
    × Gapped lo hi pool'
    × (contains x pool' ≡ (contains x pool && not (x == id)))
    × (size pool ≡ size pool' + 1)
    × ((contains x pool && beaten o x id) ≡ false)

acquire_front-Acquires :
    (x lo hi : ℕ) (s : Segment) (rest : List Segment)
    → hi ≤ u64_max
    → Gapped lo hi (s ∷ rest)
    → Acquires forward x lo hi (s ∷ rest) (acquire_front (s ∷ rest))
unfolding acquire_front contains size
acquire_front-Acquires x lo hi s [] h v = ground arith
acquire_front-Acquires x lo hi s (t ∷ rest) h v = ground (
  arith,
  contains_below x (suc s.last) hi (t ∷ rest),
  contains_below s.first (suc s.last) hi (t ∷ rest),
)

acquire_back-Acquires :
    (x lo hi : ℕ) (s : Segment) (rest : List Segment)
    → hi ≤ u64_max
    → Gapped lo hi (s ∷ rest)
    → Acquires backward x lo hi (s ∷ rest) (acquire_back (s ∷ rest))
unfolding acquire_back contains size
acquire_back-Acquires x lo hi s [] h v = ground arith
acquire_back-Acquires x lo hi s (t ∷ rest) h v = ground (
  arith,
  acquire_back-Acquires x (suc s.last) hi t rest h,
  contains_below (acquire_back (t ∷ rest)).0 (suc s.last) hi (t ∷ rest),
)

pub acquire_by-Acquires :
    (o : AcquireOrder) (x lo hi : ℕ) (s : Segment) (rest : List Segment)
    → hi ≤ u64_max
    → Gapped lo hi (s ∷ rest)
    → Acquires o x lo hi (s ∷ rest) (acquire_by o (s ∷ rest))
unfolding acquire_by
acquire_by-Acquires forward = acquire_front-Acquires
acquire_by-Acquires backward = acquire_back-Acquires
