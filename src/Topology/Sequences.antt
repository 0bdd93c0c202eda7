-- ===== src/Topology/Sequences.antt =====
-- std::vector by position: at, erase and insert.
use runos.Base.{
  ℕ, zero, suc, ◌+◌, ◌-◌, ◌≤◌, ◌<◌, ◌≡◌, refl, Option, none, some, List, [], ◌∷◌, ◌++◌, ltb, ◌==◌,
  if◌then◌else◌, arith, length,
}

module _ {ℓ} {A : Type ℓ} where
  unfoldable pub nth : ℕ → List A → Option A
  nth n [] = none
  nth zero (x ∷ xs) = some x
  nth (suc n) (x ∷ xs) = nth n xs

  unfoldable pub erase_at : ℕ → List A → List A
  erase_at n [] = []
  erase_at zero (x ∷ xs) = xs
  erase_at (suc n) (x ∷ xs) = x ∷ erase_at n xs

  unfoldable pub insert_at : ℕ → A → List A → List A
  insert_at zero y xs = y ∷ xs
  insert_at (suc n) y [] = y ∷ []
  insert_at (suc n) y (x ∷ xs) = x ∷ insert_at n y xs

  pub nth-erase_at :
      (i k : ℕ) (xs : List A)
      → nth i (erase_at k xs) ≡ (if ltb i k then nth i xs else nth (suc i) xs)
  unfolding nth erase_at
  nth-erase_at i zero [] = ground arith
  nth-erase_at i (suc k) [] = ground arith
  nth-erase_at i zero (x ∷ xs) = ground arith
  nth-erase_at zero (suc k) (x ∷ xs) = ground arith
  nth-erase_at (suc i) (suc k) (x ∷ xs) = ground (arith, nth-erase_at i k xs)

  pub nth-insert_at :
      (i k : ℕ) (y : A) (xs : List A)
      → k ≤ length xs
      → nth i (insert_at k y xs)
        ≡ (if ltb i k then nth i xs else if i == k then some y else nth (i - 1) xs)
  unfolding nth insert_at
  nth-insert_at zero zero y xs h = ground arith
  nth-insert_at (suc i) zero y xs h = ground arith
  nth-insert_at i (suc k) y [] h = ground arith
  nth-insert_at zero (suc k) y (x ∷ xs) h = ground arith
  nth-insert_at (suc zero) (suc k) y (x ∷ xs) h = ground (arith, nth-insert_at zero k y xs)
  nth-insert_at (suc (suc i)) (suc k) y (x ∷ xs) h = ground (arith, nth-insert_at (suc i) k y xs)

  pub length-erase_at :
      (k : ℕ) (xs : List A) → k < length xs → length (erase_at k xs) + 1 ≡ length xs
  unfolding erase_at
  length-erase_at k [] h = omega arith
  length-erase_at zero (x ∷ xs) h = omega arith
  length-erase_at (suc k) (x ∷ xs) h = ground (arith, length-erase_at k xs)

  pub nth_in : (i : ℕ) (xs : List A) (x : A) → nth i xs ≡ some x → i < length xs
  unfolding nth
  nth_in i [] x h = ground arith
  nth_in zero (y ∷ ys) x h = omega arith
  nth_in (suc i) (y ∷ ys) x h = ground (arith, nth_in i ys x)

  pub nth_out : (i : ℕ) (xs : List A) → nth i xs ≡ none → length xs ≤ i
  unfolding nth
  nth_out i [] h = omega arith
  nth_out zero (y ∷ ys) h = ground arith
  nth_out (suc i) (y ∷ ys) h = ground (arith, nth_out i ys)

  pub nth-append_last :
      (i : ℕ) (xs : List A) (y : A)
      → nth i (xs ++ y ∷ []) ≡ (if i == length xs then some y else nth i xs)
  unfolding nth
  nth-append_last zero [] y = refl
  nth-append_last (suc i) [] y = ground arith
  nth-append_last zero (x ∷ xs) y = ground arith
  nth-append_last (suc i) (x ∷ xs) y = ground (arith, nth-append_last i xs y)

  pub length-insert_at : (k : ℕ) (y : A) (xs : List A) → length (insert_at k y xs) ≡ length xs + 1
  unfolding insert_at
  length-insert_at zero y xs = omega arith
  length-insert_at (suc k) y [] = omega arith
  length-insert_at (suc k) y (x ∷ xs) = omega (arith, length-insert_at k y xs)

  pub nth-some : (i : ℕ) (xs : List A) → i < length xs → (x : A) × (nth i xs ≡ some x)
  unfolding nth
  nth-some i [] h = absurd (omega (arith, h))
  nth-some zero (x ∷ xs) h = (x, refl)
  nth-some (suc i) (x ∷ xs) h = nth-some i xs (omega (arith, h))
