-- ===== src/Stats/Tracking.antt =====
-- What a store tells of counters that grow, and of one that shrinks.
use runos.Base.{
  ℕ, ◌-◌, ◌^◌, ◌≡◌, ◌<◌, ◌≤◌, refl, ap, ◌∙◌, Bool, true, false, ◌&&◌, List, [], ◌∷◌, map, ltb, leb,
  sub64, arith,
}
use runos.Stats.Store.{
  Doubles, Statistics, StatisticsStore, zip_with, less, current_speed, get, append, append_later,
}

-- Counters of 64 bits, none of which shrinks.
unfoldable pub rises : List ℕ → List ℕ → Bool
rises [] [] = true
rises (a ∷ xs) (b ∷ ys) = leb a b && ltb b (2 ^ 64) && rises xs ys
rises _ _ = false

abbrev pub Poll : Type 0
Poll = ℕ × List ℕ

-- Times and counters that do not go back.
unfoldable pub grows : Poll → List Poll → Bool
unfolding rises
grows (t, m) [] = true
grows (t, m) ((u, n) ∷ ps) = leb t u && rises m n && grows (u, n) ps

not_less : (xs ys : List ℕ) → rises xs ys ≡ true → less ys xs ≡ false
unfolding rises less
not_less [] [] h = refl
not_less [] (b ∷ ys) h = absurd (ground (arith, h))
not_less (a ∷ xs) [] h = absurd (ground (arith, h))
not_less (a ∷ xs) (b ∷ ys) h = ground (arith, h, not_less xs ys)

exact_sub : (a b : ℕ) → leb a b ≡ true → ltb b (2 ^ 64) ≡ true → sub64 b a ≡ b - a
exact_sub a b h l = ground (arith, h, l)

exact_differences :
    (xs ys : List ℕ) → rises xs ys ≡ true → zip_with sub64 ys xs ≡ zip_with (λ b a. b - a) ys xs
unfolding rises zip_with
exact_differences [] [] h = refl
exact_differences [] (b ∷ ys) h = absurd (ground (arith, h))
exact_differences (a ∷ xs) [] h = absurd (ground (arith, h))
exact_differences (a ∷ xs) (b ∷ ys) h =
    rw
      (
        exact_sub a b (ground (arith, h)) (ground (arith, h)),
        exact_differences xs ys (ground (arith, h)),
      )
      refl

module _ {D : Type 0} (d : Doubles D) where
  -- The speeds between two polls.
  abbrev pub rates : Poll → Poll → List D
  rates (t, m) (u, n) = map (λ x. d.rate x t u) (zip_with (λ b a. b - a) n m)

  -- What there is to tell of polls: the last one, its speeds and the greatest speeds.
  pub follow : Poll → List D → List D → List Poll → Statistics D
  follow (t, m) speed greatest [] = record {
    integral = m;
    current_speed = speed;
    max_speed = greatest;
  }
  follow p speed greatest (q ∷ qs) = follow q (rates p q) (zip_with d.max greatest (rates p q)) qs

  pub append_all : List Poll → StatisticsStore D → StatisticsStore D
  append_all [] s = s
  append_all ((t, m) ∷ ps) s = append_all ps (append d t m s)

  append_grown :
      (t : ℕ) (m : List ℕ) (s : StatisticsStore D)
      → leb s.curr_time t ≡ true
      → rises s.curr m ≡ true
      → (append d t m s).max ≡ zip_with d.max s.max (rates (s.curr_time, s.curr) (t, m))
  unfolding append append_later current_speed
  append_grown t m s h r =
      let e : ltb t s.curr_time ≡ false = ground (arith, h) in
      rw (e, not_less s.curr m r, exact_differences s.curr m r) refl

  speed_grown :
      (t : ℕ) (m : List ℕ) (s : StatisticsStore D)
      → leb s.curr_time t ≡ true
      → rises s.curr m ≡ true
      → current_speed d (append d t m s) ≡ rates (s.curr_time, s.curr) (t, m)
  unfolding append append_later current_speed
  speed_grown t m s h r =
      let e : ltb t s.curr_time ≡ false = ground (arith, h) in
      rw (e, not_less s.curr m r, exact_differences s.curr m r) refl

  -- For polls whose times and 64-bit counters do not go back, the store tells the last counters,
  -- their true differences to the poll before over the time between, and for each counter the
  -- maximum of all speeds, as a plain walk over the polls does.
  pub append_all-follow :
      (ps : List Poll) (s : StatisticsStore D)
      → grows (s.curr_time, s.curr) ps ≡ true
      → get d (append_all ps s) ≡ follow (s.curr_time, s.curr) (current_speed d s) s.max ps
  unfolding append_all follow grows append append_later
  append_all-follow [] s h = refl
  append_all-follow ((t, m) ∷ ps) s h =
      let l : leb s.curr_time t ≡ true = ground (arith, h) in
      let r : rises s.curr m ≡ true = ground (arith, h) in
      let next = append_all-follow ps (append d t m s) (ground (arith, h)) in
      next
      ∙ ap (λ v. follow (t, m) v (append d t m s).max ps) (speed_grown t m s l r)
      ∙ ap (λ v. follow (t, m) (rates (s.curr_time, s.curr) (t, m)) v ps) (append_grown t m s l r)

  -- If the bytes of the next measurement are more and its flows fewer, at a time not before the
  -- last, the speed of the flows is that of 2 ^ 64 less what they shrank.
  pub shrunk_wraps :
      (t b p f b' p' f' : ℕ) (s : StatisticsStore D)
      → s.curr ≡ b ∷ p ∷ f ∷ []
      → s.curr_time ≤ t
      → b < b'
      → f' < f
      → f < 2 ^ 64
      → current_speed d (append d t (b' ∷ p' ∷ f' ∷ []) s)
        ≡ d.rate (sub64 b' b) s.curr_time t
          ∷ d.rate (sub64 p' p) s.curr_time t
          ∷ d.rate (2 ^ 64 - (f - f')) s.curr_time t
          ∷ []
  unfolding append append_later less zip_with current_speed
  shrunk_wraps t b p f b' p' f' s c h l k m =
      let e : ltb t s.curr_time ≡ false = ground (arith, h) in
      let n : less (b' ∷ p' ∷ f' ∷ []) (b ∷ p ∷ f ∷ []) ≡ false = ground (arith, l) in
      let w : sub64 f' f ≡ 2 ^ 64 - (f - f') = omega (arith, k, m) in rw (e, c, n, w) refl
