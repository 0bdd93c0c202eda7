-- ===== src/IdGen.antt =====
-- src/core/IdGen.cc, include/runos/IdGen.hpp: a pool of identifiers over a range of 64-bit numbers,
-- kept as a vector of half-open segments. A method that throws returns `err`; the lock serialises
-- the calls, so each is one step.
pub mod Segments
pub mod Release
pub mod Acquire
pub mod Canonical
pub mod Invariant
pub mod History
pub mod Recovery
mod Examples
use mathlib.Core.Option
use runos.Base.{
  ℕ, ◌+◌, ◌-◌, ◌<◌, ◌≡◌, Bool, true, false, not, ◌&&◌, ◌||◌, Option, none, some, List, [], ◌∷◌, ltb,
  leb, ◌==◌, if◌then◌else◌, add64, sub64, u64_max, length,
}

-- `undefined` marks what the source leaves undefined: writing through an end iterator.
pub data Error : Type 0 where
  invalid_argument pool_is_empty double_release error undefined : Error

pub data Result {ℓ} (A : Type ℓ) : Type ℓ where
  ok : A → Result A
  err : Error → Result A

infixl 5 ◌>>=◌
abbrev pub ◌>>=◌ {ℓ κ} : {A : Type ℓ} {B : Type κ} → Result A → (A → Result B) → Result B
ok a >>= f = f a
err e >>= f = err e

pub data AcquireOrder : Type 0 where
  forward backward : AcquireOrder

pub record Segment : Type 0 where
  pub first : ℕ
  pub last : ℕ

abbrev pub segment : ℕ → ℕ → Segment
segment a b = record { first = a; last = b }

pub record IdGen : Type 0 where
  pub first : ℕ
  pub capacity : ℕ
  pub order : AcquireOrder
  pub pool : List Segment

-- The constructor.
pub new : ℕ → ℕ → AcquireOrder → Result IdGen
new first capacity order =
    if capacity == 0 || ltb (add64 first capacity) first
    then err invalid_argument
    else ok (record {
      first = first;
      capacity = capacity;
      order = order;
      pool = segment first (add64 first capacity) ∷ [];
    })

-- `id = --back.last`, and the segment is dropped when it is used up.
acquire_back : List Segment → ℕ × List Segment
acquire_back [] = (0, [])
acquire_back (s ∷ []) =
    let id = sub64 s.last 1 in (id, if s.first == id then [] else segment s.first id ∷ [])
acquire_back (s ∷ t ∷ rest) = let (id, rest') = acquire_back (t ∷ rest) in (id, s ∷ rest')

-- `id = front.first++`.
acquire_front : List Segment → ℕ × List Segment
acquire_front [] = (0, [])
acquire_front (s ∷ rest) =
    let next = add64 s.first 1 in
    (s.first, if next == s.last then rest else segment next s.last ∷ rest)

pub acquire_by : AcquireOrder → List Segment → ℕ × List Segment
unfolding acquire_back acquire_front
acquire_by backward pool = acquire_back pool
acquire_by forward pool = acquire_front pool

abbrev pub empty : List Segment → Bool
empty [] = true
empty (s ∷ rest) = false

pub acquire : IdGen → Result (ℕ × IdGen)
unfolding acquire_by
acquire g =
    let (id, pool') = acquire_by g.order g.pool in
    if empty g.pool then err pool_is_empty else ok (id, record g { pool = pool' })

abbrev pub in_range : IdGen → ℕ → Bool
in_range g id = not (ltb id g.first || leb (add64 g.first g.capacity) id)

-- What `release` does at the place where it stopped: `prev` is the segment before the iterator,
-- and the list is what the iterator stands at.
prev_last : Option Segment → ℕ
prev_last none = u64_max
prev_last (some p) = p.last

next_first : List Segment → ℕ
next_first [] = 0
next_first (n ∷ rest) = n.first

already_free : Option Segment → ℕ → Bool
already_free none id = false
already_free (some p) id = ltb id p.last

join_both : Option Segment → List Segment → Result (List Segment)
join_both none after = err undefined
join_both (some p) [] = err undefined
join_both (some p) (n ∷ rest) = ok (segment p.first n.last ∷ rest)

grow_prev : Option Segment → List Segment → Result (List Segment)
grow_prev none after = err undefined
grow_prev (some p) after = ok (segment p.first (add64 p.last 1) ∷ after)

abbrev from_prev : Option Segment → List Segment → List Segment
from_prev none after = after
from_prev (some p) after = p ∷ after

grow_next : Option Segment → List Segment → Result (List Segment)
grow_next prev [] = err undefined
grow_next prev (n ∷ rest) = ok (from_prev prev (segment (sub64 n.first 1) n.last ∷ rest))

release_at : ℕ → Option Segment → List Segment → Result (List Segment)
unfolding prev_last next_first already_free join_both grow_prev grow_next
release_at id prev after =
    if already_free prev id
    then err double_release
    else if prev_last prev == sub64 (next_first after) 1
    then join_both prev after
    else if prev_last prev == id
    then grow_prev prev after
    else if id == sub64 (next_first after) 1
    then grow_next prev after
    else ok (from_prev prev (segment id (add64 id 1) ∷ after))

-- The search for the first segment that starts above `id`.
release_after : ℕ → Segment → List Segment → Result (List Segment)
unfolding release_at
release_after id p [] = release_at id (some p) []
release_after id p (n ∷ rest) =
    let further = (do rest' ← release_after id n rest; ok (p ∷ rest')) in
    if ltb id n.first then release_at id (some p) (n ∷ rest) else further

pub release_in : ℕ → List Segment → Result (List Segment)
unfolding release_at release_after
release_in id [] = ok (segment id (add64 id 1) ∷ [])
release_in id (n ∷ rest) =
    if ltb id n.first then release_at id none (n ∷ rest) else release_after id n rest

pub release : IdGen → ℕ → Result IdGen
unfolding release_in
release g id =
    if in_range g id
    then (do pool' ← release_in id g.pool; ok (record g { pool = pool' }))
    else err invalid_argument

-- `recovery`: the segment that holds a booked identifier is cut in two. The part below the
-- identifier stays even where it is empty.
above_cut : ℕ → Segment → List Segment → List Segment
above_cut id s rest = if add64 id 1 == s.last then rest else segment (add64 id 1) s.last ∷ rest

cut : ℕ → Segment → List Segment → List Segment
cut id s rest = if add64 s.first 1 == s.last then rest else segment s.first id ∷ above_cut id s rest

carve : ℕ → List Segment → Option (List Segment)
carve id [] = none
carve id (s ∷ rest) =
    let further = Option.map (λ rest'. s ∷ rest') (carve id rest) in
    if leb s.first id && ltb id s.last then some (cut id s rest) else further

-- The loop over the booked identifiers; a throw leaves the pool as it is at that moment.
pub book : ℕ → ℕ → List ℕ → List Segment → List Segment × Option Error
unfolding carve cut above_cut
book lo hi [] pool = (pool, none)
book lo hi (id ∷ ids) pool =
    if ltb id lo || leb hi id
    then (pool, some invalid_argument)
    else (elim (carve id pool) [ none ↦ (pool, some error) | some pool' ↦ book lo hi ids pool' ])

pub recovery : IdGen → List ℕ → IdGen × Option Error
unfolding book
recovery g ids =
    if ltb g.capacity (length ids)
    then (g, some error)
    else let (pool', e) =
        book g.first (add64 g.first g.capacity) ids
          (segment g.first (add64 g.first g.capacity) ∷ []) in
      (record g { pool = pool' }, e)

unfoldable pub unused_in : ℕ → List Segment → ℕ
unused_in acc [] = acc
unused_in acc (s ∷ rest) = unused_in (add64 acc (sub64 s.last s.first)) rest

pub unused : IdGen → ℕ
unfolding unused_in
unused g = unused_in 0 g.pool

pub used : IdGen → ℕ
unfolding unused
used g = sub64 g.capacity (unused g)
