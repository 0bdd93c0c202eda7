-- ===== src/IdGen/Release.antt =====
-- IdGen::release.
use runos.Base.{
  ℕ, suc, ◌+◌, ◌≤◌, ◌<◌, ◌≡◌, true, false, ◌||◌, List, [], ◌∷◌, ◌==◌, arith, u64_max, some,
}
use runos.IdGen.{Segment, Result, ok, err, double_release, release_at, release_after, release_in}
use runos.IdGen.Segments.{contains, Gapped, size, contains_below}

abbrev pub Releases : ℕ → ℕ → ℕ → ℕ → List Segment → Result (List Segment) → Type 0
Releases id x lo hi pool (ok pool') =
    (contains id pool ≡ false)
    × Gapped lo hi pool'
    × (contains x pool' ≡ ((x == id) || contains x pool))
    × (size pool' ≡ size pool + 1)
Releases id x lo hi pool (err double_release) = contains id pool ≡ true
Releases id x lo hi pool (err _) = ⊥

abbrev Above : ℕ → List Segment → Type 0
Above id [] = Unit {0}
Above id (n ∷ rest) = id < n.first

release_at-Releases :
    (id x lo hi : ℕ) (p : Segment) (after : List Segment)
    → hi ≤ u64_max
    → p.first ≤ id
    → id < hi
    → Above id after
    → Gapped lo hi (p ∷ after)
    → Releases id x lo hi (p ∷ after) (release_at id (some p) after)
unfolding release_at contains size
release_at-Releases id x lo hi p [] h a b c v = ground arith
release_at-Releases id x lo hi p (n ∷ rest) h a b c v =
    ground (arith, contains_below id (suc n.last) hi rest)

release_after-Releases :
    (id x lo hi : ℕ) (p : Segment) (rest : List Segment)
    → hi ≤ u64_max
    → p.first ≤ id
    → id < hi
    → Gapped lo hi (p ∷ rest)
    → Releases id x lo hi (p ∷ rest) (release_after id p rest)
unfolding release_after contains size
release_after-Releases id x lo hi p [] h a b v = release_at-Releases id x lo hi p [] h a b tt v
release_after-Releases id x lo hi p (n ∷ rest) h a b v = ground (
  arith,
  release_at-Releases id x lo hi p (n ∷ rest) h a b,
  release_after-Releases id x (suc p.last) hi n rest h,
  contains_below id (suc n.last) hi rest,
)

pub release_in-Releases :
    (id x lo hi : ℕ) (pool : List Segment)
    → hi ≤ u64_max
    → lo ≤ id
    → id < hi
    → Gapped lo hi pool
    → Releases id x lo hi pool (release_in id pool)
unfolding release_in contains size
release_in-Releases id x lo hi [] h a b v = ground arith
release_in-Releases id x lo hi (n ∷ rest) h a b v =
    ground
      (arith, release_after-Releases id x lo hi n rest h, contains_below id (suc n.last) hi rest)
