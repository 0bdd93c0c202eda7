-- ===== src/DpidChecker/Examples.antt =====
-- A few switches; an entry of a list is its own reading.
use runos.Base.{◌≡◌, refl, true, List, [], ◌∷◌, arith}
use runos.DpidChecker.{undefined, is_registered, DpidChecker, ar, dr, ok, Reading, init}
use runos.DpidChecker.Lists.{count, find}
use runos.DpidChecker.Roles.{IsUnique}
use runos.DpidChecker.Races.{Event, looks, pushes, removes, run, alone, run-IsUnique, racing_adds}

abbrev empty : DpidChecker
empty = record { ar_list = []; dr_list = [] }

abbrev two : DpidChecker
two = record { ar_list = 5 ∷ []; dr_list = 7 ∷ [] }

started : init (7 ∷ 0 ∷ []) (5 ∷ []) ≡ ok two
unfolding init
started = refl

empty-IsUnique : IsUnique empty
unfolding count
empty-IsUnique = record { once = λ x. omega arith }

two-IsUnique : IsUnique two
unfolding count
two-IsUnique = record { once = λ x. ground arith }

abbrev in_turn : List Event
in_turn = looks 5 ar ∷ looks 7 dr ∷ pushes 7 dr ∷ pushes 5 ar ∷ looks 5 dr ∷ removes 5 ar ∷ []

run-IsUnique_example : IsUnique (run in_turn (record { checker = empty; adding = [] })).checker
unfolding alone is_registered find
run-IsUnique_example = run-IsUnique in_turn empty refl empty-IsUnique

racing_adds_example :
    is_registered 9 undefined
      (run
        (looks 9 ar ∷ looks 9 dr ∷ pushes 9 ar ∷ pushes 9 dr ∷ removes 9 ar ∷ [])
        (record { checker = two; adding = [] })).checker
    ≡ true
unfolding is_registered find
racing_adds_example = racing_adds 9 ar dr two refl refl refl

abbrev itself : Reading → Reading
itself r = r
