-- ===== src/IdGen/Recovery.antt =====
-- IdGen::recovery: which pool it leaves, when it throws, and what its empty segments do.
use runos.Base.{
  ℕ, ◌+◌, ◌-◌, ◌≤◌, ◌<◌, ◌≡◌, refl, Bool, true, false, not, ◌&&◌, ◌||◌, List, [], ◌∷◌, ltb, leb,
  ◌==◌, arith, u64_max, some, none, Option, length, Option-cases, inl, inr,
}
use runos.IdGen.{
  IdGen, Segment, segment, ok, forward, backward, above_cut, cut, carve, book, recovery, acquire,
  in_range,
}
use runos.IdGen.Segments.{contains, size}

-- Ascending segments within [lo, hi), which may be empty or adjacent.
abbrev pub Ascending : ℕ → ℕ → List Segment → Type 0
Ascending lo hi [] = Unit {0}
Ascending lo hi (s ∷ rest) =
    (lo ≤ s.first) × (s.first ≤ s.last) × (s.last ≤ hi) × Ascending s.last hi rest

Ascending-below :
    (x lo hi : ℕ) (pool : List Segment) → Ascending lo hi pool → x < lo → contains x pool ≡ false
unfolding contains
Ascending-below x lo hi [] v h = refl
Ascending-below x lo hi (s ∷ rest) v h = ground (arith, Ascending-below x s.last hi rest v.3)

Ascending-mono :
    (lo' lo hi : ℕ) (pool : List Segment) → lo' ≤ lo → Ascending lo hi pool → Ascending lo' hi pool
Ascending-mono lo' lo hi [] h v = tt
Ascending-mono lo' lo hi (s ∷ rest) h v = (omega arith, v.1, v.2, v.3)

abbrev Carved : ℕ → ℕ → ℕ → ℕ → List Segment → Option (List Segment) → Type 0
Carved id x lo hi pool none = contains id pool ≡ false
Carved id x lo hi pool (some pool') =
    (contains id pool ≡ true)
    × Ascending lo hi pool'
    × (contains x pool' ≡ (contains x pool && not (x == id)))
    × (size pool ≡ size pool' + 1)

above_cut-Carved :
    (id x hi : ℕ) (s : Segment) (rest : List Segment)
    → hi ≤ u64_max
    → s.first ≤ id
    → id < s.last
    → s.last ≤ hi
    → Ascending s.last hi rest
    → Ascending id hi (above_cut id s rest)
      × (contains x (above_cut id s rest) ≡ ((ltb id x && ltb x s.last) || contains x rest))
      × (size (above_cut id s rest) + id + 1 ≡ size rest + s.last)
unfolding above_cut contains size
above_cut-Carved id x hi s rest h a b c v = ground (arith, Ascending-mono id s.last hi rest)

cut-Carved :
    (id x lo hi : ℕ) (s : Segment) (rest : List Segment)
    → hi ≤ u64_max
    → Ascending lo hi (s ∷ rest)
    → s.first ≤ id
    → id < s.last
    → Carved id x lo hi (s ∷ rest) (some (cut id s rest))
unfolding cut contains size
cut-Carved id x lo hi s rest h v a b = ground (
  arith,
  above_cut-Carved id x hi s rest,
  Ascending-below x s.last hi rest,
  Ascending-mono lo s.last hi rest,
)

carve-Carved :
    (id x lo hi : ℕ) (pool : List Segment)
    → hi ≤ u64_max
    → Ascending lo hi pool
    → Carved id x lo hi pool (carve id pool)
unfolding carve contains size
carve-Carved id x lo hi [] h v = refl
carve-Carved id x lo hi (s ∷ rest) h v = ground (
  arith,
  cut-Carved id x lo hi s rest,
  carve-Carved id x s.last hi rest h v.3,
  Ascending-below id s.last hi rest,
  Ascending-below x s.last hi rest,
)

abbrev pub elem : ℕ → List ℕ → Bool
elem x [] = false
elem x (y ∷ ys) = x == y || elem x ys

-- The list can be booked: each identifier lies in the range and is named once.
abbrev pub bookable : ℕ → ℕ → List ℕ → Bool
bookable lo hi [] = true
bookable lo hi (id ∷ ids) = (leb lo id && ltb id hi) && (not (elem id ids) && bookable lo hi ids)

abbrev pub all_free : List ℕ → List Segment → Bool
all_free [] pool = true
all_free (id ∷ ids) pool = contains id pool && all_free ids pool

book_sound :
    (x lo hi : ℕ) (ids : List ℕ) (pool : List Segment)
    → hi ≤ u64_max
    → Ascending lo hi pool
    → (book lo hi ids pool).1 ≡ none
    → (contains x (book lo hi ids pool).0 ≡ (contains x pool && not (elem x ids)))
      × (size pool ≡ size (book lo hi ids pool).0 + length ids)
unfolding book
book_sound x lo hi [] pool h v e = ground arith
book_sound x lo hi (id ∷ ids) pool h v e = elim (Option-cases (carve id pool)) [
  | inl c ↦ ground arith
  | inr (pool', c) ↦ ground (arith, carve-Carved id x lo hi pool, book_sound x lo hi ids pool')
]

abbrev pub is_none {ℓ} : {A : Type ℓ} → Option A → Bool
is_none none = true
is_none (some a) = false

all_free-carved :
    (id : ℕ) (ids : List ℕ) (pool pool' : List Segment)
    → ((x : ℕ) → contains x pool' ≡ (contains x pool && not (x == id)))
    → all_free ids pool' ≡ (all_free ids pool && not (elem id ids))
all_free-carved id [] pool pool' h = refl
all_free-carved id (y ∷ ys) pool pool' h = ground (arith, h y, all_free-carved id ys pool pool')

carved_set :
    (id lo hi : ℕ) (pool pool' : List Segment)
    → hi ≤ u64_max
    → Ascending lo hi pool
    → carve id pool ≡ some pool'
    → (x : ℕ) → contains x pool' ≡ (contains x pool && not (x == id))
carved_set id lo hi pool pool' h v e x = ground (arith, carve-Carved id x lo hi pool)

book_complete :
    (lo hi : ℕ) (ids : List ℕ) (pool : List Segment)
    → hi ≤ u64_max
    → Ascending lo hi pool
    → is_none (book lo hi ids pool).1 ≡ (bookable lo hi ids && all_free ids pool)
unfolding book
book_complete lo hi [] pool h v = refl
book_complete lo hi (id ∷ ids) pool h v = elim (Option-cases (carve id pool)) [
  | inl c ↦ ground (arith, carve-Carved id 0 lo hi pool)
  | inr (pool', c) ↦ ground (
    arith,
    carve-Carved id 0 lo hi pool,
    book_complete lo hi ids pool',
    all_free-carved id ids pool pool' (carved_set id lo hi pool pool' h v c),
  )
]

bookable-all_free :
    (lo hi : ℕ) (ids : List ℕ)
    → bookable lo hi ids ≡ true
    → all_free ids (segment lo hi ∷ []) ≡ true
unfolding contains
bookable-all_free lo hi [] h = refl
bookable-all_free lo hi (id ∷ ids) h = ground (arith, bookable-all_free lo hi ids)

-- Over a range below the last 64-bit number recovery returns without throwing exactly when there
-- are no more booked identifiers than the capacity and each lies in the range and is named once.
pub recovery_succeeds :
    (g : IdGen) (ids : List ℕ)
    → g.first + g.capacity ≤ u64_max
    → is_none (recovery g ids).1
      ≡ (leb (length ids) g.capacity && bookable g.first (g.first + g.capacity) ids)
unfolding recovery
recovery_succeeds g ids h = ground (
  arith,
  book_complete g.first (g.first + g.capacity) ids (segment g.first (g.first + g.capacity) ∷ []),
  bookable-all_free g.first (g.first + g.capacity) ids,
)

-- Where recovery does not throw, over a range below the last 64-bit number, the pool holds exactly
-- the identifiers of the range that are not booked, and the sizes of pool and list add up to the
-- capacity.
pub recovery-contains :
    (g : IdGen) (ids : List ℕ) (x : ℕ)
    → g.first + g.capacity ≤ u64_max
    → (recovery g ids).1 ≡ none
    → (contains x (recovery g ids).0.pool ≡ (in_range g x && not (elem x ids)))
      × (size (recovery g ids).0.pool + length ids ≡ g.capacity)
unfolding recovery contains size
recovery-contains g ids x h e = ground (
  arith,
  book_sound x g.first (g.first + g.capacity) ids (segment g.first (g.first + g.capacity) ∷ []),
)

-- In forward order and for any capacity above one, recovery with the first identifier booked keeps
-- an empty segment, and the next acquire returns that booked identifier.
pub recovery_reissues :
    (g : IdGen)
    → g.order ≡ forward
    → 1 < g.capacity
    → g.first + g.capacity ≤ u64_max
    → let g' = (recovery g (g.first ∷ [])).0 in
      ((recovery g (g.first ∷ [])).1 ≡ none)
      × (acquire g'
          ≡ ok (
            g.first,
            record g' {
              pool =
                  segment (g.first + 1) g.first ∷ segment (g.first + 1) (g.first + g.capacity) ∷ [];
            },
          ))
unfolding recovery carve cut above_cut acquire
recovery_reissues g o h k = ground arith

-- In backward order, with capacity two and both identifiers booked in ascending order, recovery
-- keeps an empty segment, and the next acquire returns the number below the range.
pub recovery_overruns :
    (g : IdGen)
    → g.order ≡ backward
    → g.capacity ≡ 2
    → 0 < g.first
    → g.first + g.capacity ≤ u64_max
    → let g' = (recovery g (g.first ∷ (g.first + 1) ∷ [])).0 in
      ((recovery g (g.first ∷ (g.first + 1) ∷ [])).1 ≡ none)
      × (acquire g' ≡ ok (g.first - 1, record g' { pool = segment g.first (g.first - 1) ∷ [] }))
unfolding recovery carve cut above_cut acquire
recovery_overruns g o h z k = ground arith
