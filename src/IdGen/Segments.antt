-- ===== src/IdGen/Segments.antt =====
-- Pools of IdGen read as sets: which identifiers a pool holds, and when it is in normal form.
use runos.Base.{
  ℕ, suc, ◌+◌, ◌-◌, ◌≤◌, ◌<◌, ◌≡◌, refl, Bool, false, ◌&&◌, ◌||◌, List, [], ◌∷◌, ltb, leb, arith,
}
use runos.IdGen.{Segment}

unfoldable pub contains : ℕ → List Segment → Bool
contains x [] = false
contains x (s ∷ rest) = (leb s.first x && ltb x s.last) || contains x rest

-- Ascending segments within [lo, hi), none empty, and no two of them adjacent.
abbrev pub Gapped : ℕ → ℕ → List Segment → Type 0
Gapped lo hi [] = Unit {0}
Gapped lo hi (s ∷ rest) =
    (lo ≤ s.first) × (s.first < s.last) × (s.last ≤ hi) × Gapped (suc s.last) hi rest

unfoldable pub size : List Segment → ℕ
size [] = 0
size (s ∷ rest) = (s.last - s.first) + size rest

pub Gapped-mono :
    (lo lo' hi : ℕ) (pool : List Segment) → lo' ≤ lo → Gapped lo hi pool → Gapped lo' hi pool
Gapped-mono lo lo' hi [] h v = tt
Gapped-mono lo lo' hi (s ∷ rest) h v = (omega arith, v.1, v.2, v.3)

pub contains_below :
    (x lo hi : ℕ) (pool : List Segment) → Gapped lo hi pool → x < lo → contains x pool ≡ false
unfolding contains
contains_below x lo hi [] v h = refl
contains_below x lo hi (s ∷ rest) v h = ground (arith, contains_below x (suc s.last) hi rest v.3)

pub contains_above :
    (x lo hi : ℕ) (pool : List Segment) → Gapped lo hi pool → hi ≤ x → contains x pool ≡ false
unfolding contains
contains_above x lo hi [] v h = refl
contains_above x lo hi (s ∷ rest) v h = ground (arith, contains_above x (suc s.last) hi rest v.3)

pub size-le : (lo hi : ℕ) (pool : List Segment) → lo ≤ hi → Gapped lo hi pool → size pool + lo ≤ hi
unfolding size
size-le lo hi [] h v = omega arith
size-le lo hi (s ∷ []) h v = omega arith
size-le lo hi (s ∷ t ∷ rest) h v =
    omega (arith, size-le (suc s.last) hi (t ∷ rest) (omega (arith, v.3)) v.3)
