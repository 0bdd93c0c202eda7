-- ===== src/Stats/Store.antt =====
-- The class StatisticsStore of src/core/StatisticsStore.hpp. A measurement is the list of its counters,
-- of 64 bits; a double is `D`, and a time the count of the clock that it is made of.
use runos.Base.{ℕ, Bool, false, List, [], ◌∷◌, map, ltb, ◌==◌, ◌||◌, ◌&&◌, if◌then◌else◌, sub64}

-- `rate s prev curr` is `s / delta` for the seconds from `prev` to `curr`, `max` is std::max.
pub record Doubles (D : Type 0) : Type 0 where
  pub zero : D
  pub rate : ℕ → ℕ → ℕ → D
  pub max : D → D → D

pub record Statistics (D : Type 0) : Type 0 where
  pub integral : List ℕ
  pub current_speed : List D
  pub max_speed : List D

pub record StatisticsStore (D : Type 0) : Type 0 where
  pub prev_time : ℕ
  pub curr_time : ℕ
  pub prev : List ℕ
  pub curr : List ℕ
  pub max : List D

-- view::zip_with, which ends with the shorter list.
unfoldable pub zip_with : {A B C : Type 0} → (A → B → C) → List A → List B → List C
zip_with f (a ∷ xs) (b ∷ ys) = f a b ∷ zip_with f xs ys
zip_with f _ _ = []

abbrev pub fill : {A B : Type 0} → B → List A → List B
fill b xs = map (λ a. b) xs

-- The comparison of std::array, which is lexicographic.
unfoldable pub less : List ℕ → List ℕ → Bool
less (a ∷ xs) (b ∷ ys) = ltb a b || (a == b && less xs ys)
less _ _ = false

module _ {D : Type 0} where
  abbrev pub reset_without_max : StatisticsStore D → StatisticsStore D
  reset_without_max s = record s {
    prev_time = 0;
    curr_time = 0;
    prev = fill 0 s.prev;
    curr = fill 0 s.curr;
  }

  module _ (d : Doubles D) where
    -- The constructor, for counters like those given.
    abbrev pub new_store : List ℕ → StatisticsStore D
    new_store counters = record {
      prev_time = 0;
      curr_time = 0;
      prev = fill 0 counters;
      curr = fill 0 counters;
      max = fill d.zero counters;
    }

    unfoldable pub current_speed : StatisticsStore D → List D
    unfolding zip_with
    current_speed s = map (λ x. d.rate x s.prev_time s.curr_time) (zip_with sub64 s.curr s.prev)

    abbrev pub get : StatisticsStore D → Statistics D
    get s = record { integral = s.curr; current_speed = current_speed s; max_speed = s.max }

    -- After the time was looked at.
    unfoldable pub append_later : ℕ → List ℕ → StatisticsStore D → StatisticsStore D
    unfolding less current_speed
    append_later t next s =
        let prev = if less next s.curr then fill 0 s.curr else s.curr in
        let r = record s { prev_time = s.curr_time; curr_time = t; prev = prev; curr = next } in
        record r { max = zip_with d.max s.max (current_speed r) }

    unfoldable pub append : ℕ → List ℕ → StatisticsStore D → StatisticsStore D
    unfolding append_later
    append t next s = append_later t next (if ltb t s.curr_time then reset_without_max s else s)
