-- ===== src/IdGen/Examples.antt =====
-- Generators at concrete ranges.
use runos.Base.{◌≡◌, refl, List, [], ◌∷◌, arith, none}
use runos.IdGen.{
  IdGen, Segment, segment, AcquireOrder, forward, backward, ok, err, double_release, new, acquire,
  release, recovery,
}
use runos.IdGen.Invariant.{
  IsValid, Acquired, Released, acquire_outcome, release_outcome, release-acquire,
}
use runos.IdGen.History.{IsFair, acquires, releases, run, run-new-IsFair}
use runos.IdGen.Recovery.{recovery_reissues}

abbrev gen : AcquireOrder → List Segment → IdGen
gen o pool = record { first = 10; capacity = 6; order = o; pool = pool }

abbrev fresh : IdGen
fresh = gen backward (segment 10 16 ∷ [])

abbrev gaps : IdGen
gaps = gen forward (segment 10 12 ∷ segment 14 16 ∷ [])

fresh_made : new 10 6 backward ≡ ok fresh
unfolding new
fresh_made = refl

gaps-IsValid : IsValid gaps
gaps-IsValid = record { within = omega arith; gapped = omega arith }

-- 12 joins the segment below it, then 13 joins the two.
release_joins : release gaps 12 ≡ ok (gen forward (segment 10 13 ∷ segment 14 16 ∷ []))
unfolding release
release_joins = refl

release_twice : release gaps 11 ≡ err double_release
unfolding release
release_twice = refl

acquire_first : acquire gaps ≡ ok (10, gen forward (segment 11 12 ∷ segment 14 16 ∷ []))
unfolding acquire
acquire_first = refl

run-new-IsFair_example :
    IsFair (
      run (record { gen = fresh; held = [] }) (acquires ∷ acquires ∷ releases 15 ∷ releases 3 ∷ []))
run-new-IsFair_example =
    run-new-IsFair 10 6 backward fresh (acquires ∷ acquires ∷ releases 15 ∷ releases 3 ∷ [])
      (omega arith) (omega arith) fresh_made

acquire_outcome_example : Acquired gaps 11 (acquire gaps)
acquire_outcome_example = acquire_outcome gaps 11 gaps-IsValid

release_outcome_example : Released gaps 13 12 (release gaps 13)
release_outcome_example = release_outcome gaps 13 12 gaps-IsValid

release-acquire_example : release (gen forward (segment 11 12 ∷ segment 14 16 ∷ [])) 10 ≡ ok gaps
release-acquire_example =
    release-acquire gaps (gen forward (segment 11 12 ∷ segment 14 16 ∷ [])) 10 gaps-IsValid
      acquire_first

booked : (recovery fresh (12 ∷ 14 ∷ [])).1 ≡ none
unfolding recovery
booked = refl

recovery_reissues_example :
    let g' = (recovery gaps (10 ∷ [])).0 in
    ((recovery gaps (10 ∷ [])).1 ≡ none)
    × (acquire g' ≡ ok (10, record g' { pool = segment 11 10 ∷ segment 11 16 ∷ [] }))
recovery_reissues_example = recovery_reissues gaps refl (omega arith) (omega arith)

abbrev pair_gen : IdGen
pair_gen = record { first = 1; capacity = 2; order = backward; pool = [] }
