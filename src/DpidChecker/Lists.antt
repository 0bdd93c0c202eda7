-- ===== src/DpidChecker/Lists.antt =====
-- std::list<uint64_t> with std::find, as DpidChecker uses it.
use runos.Base.{
  ℕ, ◌+◌, ◌-◌, ◌≡◌, refl, Bool, false, not, ◌||◌, ◌&&◌, List, [], ◌∷◌, ◌++◌, ◌==◌, if◌then◌else◌,
  arith,
}

unfoldable pub find : ℕ → List ℕ → Bool
find x [] = false
find x (y ∷ ys) = x == y || find x ys

-- `list.erase(it)` at what `std::find` found.
unfoldable pub erase_first : ℕ → List ℕ → List ℕ
erase_first x [] = []
erase_first x (y ∷ ys) = let rest = erase_first x ys in if x == y then ys else y ∷ rest

-- The elements of the first list that the second does not have.
unfoldable pub removed_from : List ℕ → List ℕ → List ℕ
removed_from [] new = []
removed_from (x ∷ xs) new = let rest = removed_from xs new in if find x new then rest else x ∷ rest

unfoldable pub count : ℕ → List ℕ → ℕ
count x [] = 0
count x (y ∷ ys) = (if x == y then 1 else 0) + count x ys

pub find-count : (x : ℕ) (xs : List ℕ) → find x xs ≡ not (count x xs == 0)
unfolding find count
find-count x [] = refl
find-count x (y ∷ ys) = ground (arith, find-count x ys)

pub count-append : (x : ℕ) (xs ys : List ℕ) → count x (xs ++ ys) ≡ count x xs + count x ys
unfolding count
count-append x [] ys = omega arith
count-append x (z ∷ zs) ys = omega (arith, count-append x zs ys)

pub count-erase_first :
    (x d : ℕ) (xs : List ℕ) → count x (erase_first d xs) ≡ count x xs - (if x == d then 1 else 0)
unfolding count erase_first
count-erase_first x d [] = ground arith
count-erase_first x d (y ∷ ys) = ground (arith, count-erase_first x d ys)

pub find-removed_from :
    (x : ℕ) (xs new : List ℕ) → find x (removed_from xs new) ≡ (find x xs && not (find x new))
unfolding find removed_from
find-removed_from x [] new = refl
find-removed_from x (y ∷ ys) new = ground (arith, find-removed_from x ys new)

pub find-append : (x : ℕ) (xs ys : List ℕ) → find x (xs ++ ys) ≡ (find x xs || find x ys)
unfolding find
find-append x [] ys = refl
find-append x (z ∷ zs) ys = ground (arith, find-append x zs ys)
