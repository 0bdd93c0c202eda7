-- ===== src/IdGen/Invariant.antt =====
-- The invariant of IdGen and what each method does on every branch.
use runos.Base.{
  ℕ, suc, ◌+◌, ◌-◌, ◌≤◌, ◌≡◌, refl, ap, true, false, not, ◌&&◌, ◌||◌, List, [], ◌∷◌, ◌==◌, arith,
  u64_max,
}
use runos.IdGen.{
  IdGen, Segment, AcquireOrder, Result, ok, err, invalid_argument, pool_is_empty, double_release,
  error, undefined, new, acquire, release, unused, used, unused_in, in_range,
}
use runos.IdGen.Segments.{contains, Gapped, size, contains_below, contains_above, size-le}
use runos.IdGen.Acquire.{beaten, acquire_by-Acquires}
use runos.IdGen.Release.{release_in-Releases}
use runos.IdGen.Canonical.{Gapped-canonical}

-- The range does not reach the last 64-bit number, and the pool is in normal form within it.
pub record IsValid (g : IdGen) : Type 0 where
  pub within : g.first + g.capacity ≤ u64_max
  pub gapped : Gapped g.first (g.first + g.capacity) g.pool

abbrev pub Acquired : IdGen → ℕ → Result (ℕ × IdGen) → Type 0
Acquired g x (ok (id, g')) =
    (contains id g.pool ≡ true)
    × IsValid g'
    × (contains x g'.pool ≡ (contains x g.pool && not (x == id)))
    × ((contains x g.pool && beaten g.order x id) ≡ false)
    × (size g.pool ≡ size g'.pool + 1)
    × (g'.first ≡ g.first)
    × (g'.capacity ≡ g.capacity)
    × (g'.order ≡ g.order)
Acquired g x (err pool_is_empty) = g.pool ≡ []
Acquired g x (err _) = ⊥

acquire_by_pool :
    (g : IdGen) (x : ℕ) (pool : List Segment) → g.pool ≡ pool → IsValid g → Acquired g x (acquire g)
unfolding acquire
acquire_by_pool g x [] e v = ground (arith)
acquire_by_pool g x (s ∷ rest) e v =
    ground (arith, acquire_by-Acquires g.order x g.first (g.first + g.capacity) s rest)

-- On a valid generator acquire throws PoolIsEmpty exactly when the pool is empty; otherwise it
-- takes an identifier that the pool holds, the lowest in forward order and the highest in backward
-- order, and returns a valid generator over the same range that holds all the others.
pub acquire_outcome : (g : IdGen) (x : ℕ) → IsValid g → Acquired g x (acquire g)
acquire_outcome g x v = acquire_by_pool g x g.pool refl v

abbrev pub Released : IdGen → ℕ → ℕ → Result IdGen → Type 0
Released g id x (ok g') =
    (in_range g id ≡ true)
    × (contains id g.pool ≡ false)
    × IsValid g'
    × (contains x g'.pool ≡ ((x == id) || contains x g.pool))
    × (size g'.pool ≡ size g.pool + 1)
    × (g'.first ≡ g.first)
    × (g'.capacity ≡ g.capacity)
    × (g'.order ≡ g.order)
Released g id x (err double_release) = (in_range g id ≡ true) × (contains id g.pool ≡ true)
Released g id x (err invalid_argument) = in_range g id ≡ false
Released g id x (err _) = ⊥

-- On a valid generator release answers invalid_argument exactly for an identifier out of range and
-- DoubleRelease exactly for one that is in the pool; otherwise it returns a valid generator over
-- the same range whose pool holds the identifier besides what it held, and one identifier more.
pub release_outcome : (g : IdGen) (id x : ℕ) → IsValid g → Released g id x (release g id)
unfolding release
release_outcome g id x v =
    ground (arith, release_in-Releases id x g.first (g.first + g.capacity) g.pool)

-- A generator is made only over a range that avoids the last 64-bit number, and starts valid.
pub new-IsValid :
    (first capacity : ℕ) (o : AcquireOrder) {g : IdGen}
    → first ≤ u64_max
    → capacity ≤ u64_max
    → new first capacity o ≡ ok g
    → IsValid g
unfolding new
new-IsValid first capacity o h k e = ground arith

unused_in-size :
    (acc lo hi : ℕ) (pool : List Segment)
    → lo ≤ hi
    → hi ≤ u64_max
    → acc ≤ lo
    → Gapped lo hi pool
    → unused_in acc pool ≡ acc + size pool
unfolding unused_in size
unused_in-size acc lo hi [] h k a v = omega arith
unused_in-size acc lo hi (s ∷ []) h k a v = omega arith
unused_in-size acc lo hi (s ∷ t ∷ rest) h k a v =
    ground (arith, unused_in-size (acc + (s.last - s.first)) (suc s.last) hi (t ∷ rest))

-- On a valid generator unused is the number of identifiers in the pool, and used and that number
-- add up to the capacity, with no 64-bit wrap-around.
pub used-unused :
    (g : IdGen) → IsValid g → (unused g ≡ size g.pool) × (used g + size g.pool ≡ g.capacity)
unfolding unused used
used-unused g v = ground (
  arith,
  unused_in-size 0 g.first (g.first + g.capacity) g.pool,
  size-le g.first (g.first + g.capacity) g.pool,
)

-- What is in the pool is in the range.
pub contains-in_range :
    (g : IdGen) (x : ℕ) → IsValid g → contains x g.pool ≡ true → in_range g x ≡ true
contains-in_range g x v c = ground (
  arith,
  contains_below x g.first (g.first + g.capacity) g.pool,
  contains_above x g.first (g.first + g.capacity) g.pool,
)

same_set :
    (x id : ℕ) (before taken back : List Segment)
    → contains id before ≡ true
    → contains x taken ≡ (contains x before && not (x == id))
    → contains x back ≡ ((x == id) || contains x taken)
    → contains x back ≡ contains x before
same_set x id before taken back c h k = ground arith

valid_pools :
    (g h : IdGen)
    → IsValid g
    → IsValid h
    → h.first ≡ g.first
    → h.capacity ≡ g.capacity
    → h.order ≡ g.order
    → ((x : ℕ) → contains x h.pool ≡ contains x g.pool)
    → h ≡ g
valid_pools g h v w a b c same =
    ground (arith, Gapped-canonical g.first (g.first + g.capacity) h.pool g.pool, same)

module _ (g g' : IdGen) (id : ℕ) (v : IsValid g)
    (taken : (x : ℕ) → Acquired g x (ok (id, g'))) where
  Released-back : (r : Result IdGen) → ((x : ℕ) → Released g' id x r) → r ≡ ok g
  Released-back (ok h) k = ap ok (
      valid_pools g h v (k 0).2 (ground (arith, k 0, taken 0)) (ground (arith, k 0, taken 0))
        (ground (arith, k 0, taken 0))
        (λ x. same_set x id g.pool g'.pool h.pool (taken 0).0 (taken x).2 (k x).3))
  Released-back (err invalid_argument) k = ground (arith, k 0, taken 0, contains-in_range g id v)
  Released-back (err double_release) k = ground (arith, k id, taken id)
  Released-back (err pool_is_empty) k = absurd (k 0)
  Released-back (err error) k = absurd (k 0)
  Released-back (err undefined) k = absurd (k 0)

-- Releasing the identifier that acquire has just returned gives back the generator as it was,
-- segment by segment, for a valid generator.
pub release-acquire :
    (g g' : IdGen) (id : ℕ) → IsValid g → acquire g ≡ ok (id, g') → release g' id ≡ ok g
release-acquire g g' id v e =
    let taken : (x : ℕ) → Acquired g x (ok (id, g')) = λ x. rw e at (acquire_outcome g x v) in
    Released-back g g' id v taken (release g' id) (λ x. release_outcome g' id x (taken 0).1)
