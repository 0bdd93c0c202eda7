-- ===== src/IdGen/History.antt =====
-- Histories of a generator: a ledger keeps what its clients hold.
use runos.Base.{
  ℕ, ◌+◌, ◌≤◌, ◌≡◌, false, not, ◌&&◌, List, [], ◌∷◌, ◌==◌, arith, if◌then◌else◌, u64_max,
}
use runos.IdGen.{IdGen, AcquireOrder, Result, ok, err, new, acquire, release, in_range}
use runos.IdGen.Segments.{contains}
use runos.IdGen.Invariant.{
  IsValid, acquire_outcome, release_outcome, contains-in_range, new-IsValid,
}

pub data Call : Type 0 where
  acquires : Call
  releases : ℕ → Call

pub record Ledger : Type 0 where
  pub gen : IdGen
  pub held : List ℕ

abbrev pub count : ℕ → List ℕ → ℕ
count x [] = 0
count x (y ∷ ys) = (if x == y then 1 else 0) + count x ys

abbrev pub drop_one : ℕ → List ℕ → List ℕ
drop_one x [] = []
drop_one x (y ∷ ys) = if x == y then ys else y ∷ drop_one x ys

granted : Ledger → Result (ℕ × IdGen) → Ledger
granted l (ok (id, g)) = record { gen = g; held = id ∷ l.held }
granted l (err e) = l

returned : Ledger → ℕ → Result IdGen → Ledger
returned l id (ok g) = record { gen = g; held = drop_one id l.held }
returned l id (err e) = l

-- A call that throws leaves the generator as it was.
pub step : Ledger → Call → Ledger
unfolding granted returned
step l acquires = granted l (acquire l.gen)
step l (releases id) = returned l id (release l.gen id)

pub run : Ledger → List Call → Ledger
unfolding step
run l [] = l
run l (c ∷ cs) = run (step l c) cs

-- Every identifier of the range is either in the pool or held exactly once; no other is held.
pub record IsFair (l : Ledger) : Type 0 where
  pub valid : IsValid l.gen
  pub accounted :
      (x : ℕ) → count x l.held ≡ (if in_range l.gen x && not (contains x l.gen.pool) then 1 else 0)

count-drop_one :
    (x id : ℕ) (held : List ℕ)
    → count id held ≡ 1
    → count x (drop_one id held) ≡ (if x == id then 0 else count x held)
count-drop_one x id [] h = ground arith
count-drop_one x id (y ∷ ys) h = ground (arith, count-drop_one x id ys)

acquires-accounted :
    (l : Ledger) (x : ℕ)
    → IsFair l
    → count x (step l acquires).held ≡ (
        if in_range (step l acquires).gen x && not (contains x (step l acquires).gen.pool)
        then 1
        else 0)
unfolding step
acquires-accounted l x v =
    ground
      (arith, v.accounted x, acquire_outcome l.gen x v.valid, contains-in_range l.gen x v.valid)

acquires-IsValid : (l : Ledger) → IsFair l → IsValid (step l acquires).gen
unfolding step
acquires-IsValid l v = ground (arith, acquire_outcome l.gen 0 v.valid)

releases-accounted :
    (l : Ledger) (id x : ℕ)
    → IsFair l
    → count x (step l (releases id)).held ≡ (
        if in_range (step l (releases id)).gen x && not (contains x (step l (releases id)).gen.pool)
        then 1
        else 0)
unfolding step
releases-accounted l id x v = ground (
  arith,
  v.accounted x,
  v.accounted id,
  release_outcome l.gen id x v.valid,
  count-drop_one x id l.held,
)

releases-IsValid : (l : Ledger) (id : ℕ) → IsFair l → IsValid (step l (releases id)).gen
unfolding step
releases-IsValid l id v = ground (arith, release_outcome l.gen id 0 v.valid)

pub step-IsFair : (l : Ledger) (c : Call) → IsFair l → IsFair (step l c)
step-IsFair l acquires v = record {
  valid = acquires-IsValid l v;
  accounted = λ x. acquires-accounted l x v;
}
step-IsFair l (releases id) v = record {
  valid = releases-IsValid l id v;
  accounted = λ x. releases-accounted l id x v;
}

pub run-IsFair : (l : Ledger) (cs : List Call) → IsFair l → IsFair (run l cs)
unfolding run
run-IsFair l [] v = v
run-IsFair l (c ∷ cs) v = run-IsFair (step l c) cs (step-IsFair l c v)

new-accounted :
    (first capacity : ℕ) (o : AcquireOrder) (g : IdGen) (x : ℕ)
    → first ≤ u64_max
    → capacity ≤ u64_max
    → new first capacity o ≡ ok g
    → in_range g x && not (contains x g.pool) ≡ false
unfolding new contains
new-accounted first capacity o g x h k e = ground arith

-- After any sequence of acquire and release calls on a new generator, each identifier of the range
-- is either in the pool or held by the clients exactly once, and no identifier outside the range
-- is held; first and capacity are 64-bit numbers, and a call that throws changes nothing.
pub run-new-IsFair :
    (first capacity : ℕ) (o : AcquireOrder) (g : IdGen) (cs : List Call)
    → first ≤ u64_max
    → capacity ≤ u64_max
    → new first capacity o ≡ ok g
    → IsFair (run (record { gen = g; held = [] }) cs)
run-new-IsFair first capacity o g cs h k e = run-IsFair _ cs (record {
  valid = new-IsValid first capacity o h k e;
  accounted = λ x. rw (new-accounted first capacity o g x h k e);
})
