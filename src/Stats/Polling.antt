-- ===== src/Stats/Polling.antt =====
-- What an update adds up, and what a failed one does to the next.
use runos.Base.{
  ℕ, suc, ◌+◌, ◌%◌, ◌^◌, ◌≡◌, ◌<◌, ◌≤◌, refl, ap, Bool, true, false, Option, none, some, List, [],
  ◌∷◌, ◌++◌, map, ltb, add64, sub64, length, arith,
}
use runos.OfAgent.Sessions.{Outcome, done, single, many, not_responded, bad_reply, openflow_error}
use runos.OfAgent.Requests.{FlowStatsRequest}
use runos.Stats.Store.{
  Doubles, StatisticsStore, zip_with, less, current_speed, append, append_later,
}
use runos.Stats.Buckets.{
  AggregateStats, FlowStatsBucket, no_stats, asked, stats_at, stats_of, then_add, total, update,
}

abbrev pub Answered : Type 0
Answered = Option (Outcome AggregateStats)

-- The statistics came, or the request or the switch failed.
abbrev pub plain : Answered → Bool
plain none = true
plain (some (single s)) = true
plain (some (openflow_error type code)) = true
plain (some _) = false

abbrev pub bytes_in : Answered → ℕ
bytes_in (some (single s)) = s.bytes
bytes_in _ = 0

abbrev pub packets_in : Answered → ℕ
packets_in (some (single s)) = s.packets
packets_in _ = 0

abbrev pub flows_in : Answered → ℕ
flows_in (some (single s)) = s.flows
flows_in _ = 0

unfoldable pub sum : {A : Type 0} → (A → ℕ) → List A → ℕ
sum f [] = 0
sum f (x ∷ xs) = f x + sum f xs

sum-append : {A : Type 0} (f : A → ℕ) (xs ys : List A) → sum f (xs ++ ys) ≡ sum f xs + sum f ys
unfolding sum
sum-append f [] ys = ground arith
sum-append f (x ∷ xs) ys = ground (arith, sum-append f xs ys)

sum-pairs :
    {R : Type 0} (f : ℕ × R → ℕ) (a : ℕ) (rs : List R)
    → sum f (map (λ r. (a, r)) rs) ≡ sum (λ r. f (a, r)) rs
unfolding sum
sum-pairs f a [] = refl
sum-pairs f a (r ∷ rs) = ap (λ n. f (a, r) + n) (sum-pairs f a rs)

sum-asked :
    {R : Type 0} (f : ℕ × R → ℕ) (agents : List ℕ) (rs : List R)
    → sum f (asked agents rs) ≡ sum (λ a. sum (λ r. f (a, r)) rs) agents
unfolding sum asked
sum-asked f [] rs = refl
sum-asked f (a ∷ agents) rs = ground (
  arith,
  sum-append f (asked agents rs) (map (λ r. (a, r)) rs),
  sum-pairs f a rs,
  sum-asked f agents rs,
)

module _ {M : Type 0} (answers : ℕ × FlowStatsRequest M → Answered)
    (settled : (q : ℕ × FlowStatsRequest M) → plain (answers q) ≡ true) where
  abbrev wrapped : ℕ → ℕ → ℕ → List ℕ
  wrapped x y z = x % 2 ^ 64 ∷ y % 2 ^ 64 ∷ z % 2 ^ 64 ∷ []

  add_mod : (x n : ℕ) → add64 (x % 2 ^ 64) n ≡ (x + n) % 2 ^ 64
  add_mod x n = omega arith

  add_one :
      (a : Answered) (rest : List ℕ → Option (List ℕ)) (x y z : ℕ)
      → plain a ≡ true
      → then_add rest (wrapped x y z) (stats_of a (some no_stats))
        ≡ rest (wrapped (x + bytes_in a) (y + packets_in a) (z + flows_in a))
  add_one none rest x y z h = rw (add_mod x 0, add_mod y 0, add_mod z 0) refl
  add_one (some (single s)) rest x y z h =
      rw (add_mod x s.bytes, add_mod y s.packets, add_mod z s.flows) refl
  add_one (some (openflow_error type code)) rest x y z h =
      rw (add_mod x 0, add_mod y 0, add_mod z 0) refl
  add_one (some done) rest x y z h = absurd (ground (arith, h))
  add_one (some (many bs)) rest x y z h = absurd (ground (arith, h))
  add_one (some not_responded) rest x y z h = absurd (ground (arith, h))
  add_one (some bad_reply) rest x y z h = absurd (ground (arith, h))

  add_none : (x : ℕ) → x + 0 ≡ x
  add_none x = omega arith

  add_rest : (x n y : ℕ) → x + n + y ≡ x + (n + y)
  add_rest x n y = omega arith

  total_sums :
      (j : ℕ) (kept : List AggregateStats) (qs : List (ℕ × FlowStatsRequest M)) (x y z : ℕ)
      → ((i : ℕ) → i < j + length qs → stats_at i kept ≡ some no_stats)
      → total answers j kept qs (wrapped x y z)
        ≡ some (
            wrapped
              (x + sum (λ q. bytes_in (answers q)) qs)
              (y + sum (λ q. packets_in (answers q)) qs)
              (z + sum (λ q. flows_in (answers q)) qs))
  unfolding total sum
  total_sums j kept [] x y z h = rw (add_none x, add_none y, add_none z) refl
  total_sums j kept (q ∷ qs) x y z h =
      let a = answers q in
      rw
        (
          h j (omega arith),
          add_one a (total answers (suc j) kept qs) x y z (settled q),
          total_sums (suc j) kept qs (x + bytes_in a) (y + packets_in a) (z + flows_in a)
              (λ i l. h i (omega (arith, l))),
        )
        (rw
          (
            add_rest x (bytes_in a) (sum (λ p. bytes_in (answers p)) qs),
            add_rest y (packets_in a) (sum (λ p. packets_in (answers p)) qs),
            add_rest z (flows_in a) (sum (λ p. flows_in (answers p)) qs),
          )
          refl)

nothing_more : (n : ℕ) → 0 + n ≡ n
nothing_more n = omega arith

-- A switch or a connection that fails.
abbrev pub fails : Answered → Bool
fails none = true
fails (some (openflow_error type code)) = true
fails _ = false

fails-nothing :
    (a : Answered)
    → fails a ≡ true
    → (plain a ≡ true) × (bytes_in a ≡ 0) × (packets_in a ≡ 0) × (flows_in a ≡ 0)
fails-nothing none h = (refl, refl, refl, refl)
fails-nothing (some (openflow_error type code)) h = (refl, refl, refl, refl)
fails-nothing (some (single s)) h = absurd (ground (arith, h))
fails-nothing (some done) h = absurd (ground (arith, h))
fails-nothing (some (many bs)) h = absurd (ground (arith, h))
fails-nothing (some not_responded) h = absurd (ground (arith, h))
fails-nothing (some bad_reply) h = absurd (ground (arith, h))

sum_none : {A : Type 0} (f : A → ℕ) (xs : List A) → ((x : A) → f x ≡ 0) → sum f xs ≡ 0
unfolding sum
sum_none f [] h = refl
sum_none f (x ∷ xs) h = rw (h x, sum_none f xs h) refl

-- Nothing was kept of earlier answers, for as many requests as there are.
abbrev pub Zeroed : {M D : Type 0} → FlowStatsBucket M D → Type 0
Zeroed b =
    (i : ℕ)
    → i < length (asked b.agents b.requests)
    → stats_at i b.per_request_stats ≡ some no_stats

from_zero : (n : ℕ) → sub64 (n % 2 ^ 64) 0 ≡ n % 2 ^ 64
from_zero n = omega arith

module _ {D : Type 0} (d : Doubles D) where
  -- A store that holds zeros takes a total for what came since.
  speed_from_zeros :
      (t u x y z : ℕ) (s : StatisticsStore D)
      → s.curr ≡ 0 ∷ 0 ∷ 0 ∷ []
      → s.curr_time ≡ t
      → t ≤ u
      → current_speed d (append d u (x % 2 ^ 64 ∷ y % 2 ^ 64 ∷ z % 2 ^ 64 ∷ []) s)
        ≡ d.rate (x % 2 ^ 64) t u ∷ d.rate (y % 2 ^ 64) t u ∷ d.rate (z % 2 ^ 64) t u ∷ []
  unfolding append append_later less zip_with current_speed
  speed_from_zeros t u x y z s c e h =
      let l : ltb u t ≡ false = ground (arith, h) in
      let n : less (x % 2 ^ 64 ∷ y % 2 ^ 64 ∷ z % 2 ^ 64 ∷ []) (0 ∷ 0 ∷ 0 ∷ []) ≡ false =
        ground arith in
      rw (e, l, c, n, from_zero x, from_zero y, from_zero z) refl

module _ {M D : Type 0} (d : Doubles D) where
  abbrev pub sums : (ℕ × FlowStatsRequest M → Answered) → FlowStatsBucket M D → List ℕ
  sums answers b =
      sum (λ a. sum (λ r. bytes_in (answers (a, r))) b.requests) b.agents % 2 ^ 64
      ∷ sum (λ a. sum (λ r. packets_in (answers (a, r))) b.requests) b.agents % 2 ^ 64
      ∷ sum (λ a. sum (λ r. flows_in (answers (a, r))) b.requests) b.agents % 2 ^ 64
      ∷ []

  -- If every request is answered, refused by the switch or cannot be sent, and nothing was kept of
  -- earlier answers, an update appends, modulo 2 ^ 64, the sums of bytes, packets and flows over
  -- all switches and requests, where a failed one counts as nothing.
  pub update-sums :
      (answers : ℕ × FlowStatsRequest M → Answered) (now : ℕ) (b : FlowStatsBucket M D)
      → ((q : ℕ × FlowStatsRequest M) → plain (answers q) ≡ true)
      → Zeroed b
      → update answers d now b
        ≡ some (record b { aggregated_stats = append d now (sums answers b) b.aggregated_stats })
  unfolding update
  update-sums answers now b settled z =
      let qs = asked b.agents b.requests in
      let t =
        total_sums answers settled 0 b.per_request_stats qs 0 0 0 (λ i l. z i (omega (arith, l))) in
      rw
        (
          t,
          nothing_more (sum (λ q. bytes_in (answers q)) qs),
          nothing_more (sum (λ q. packets_in (answers q)) qs),
          nothing_more (sum (λ q. flows_in (answers q)) qs),
          sum-asked (λ q. bytes_in (answers q)) b.agents b.requests,
          sum-asked (λ q. packets_in (answers q)) b.agents b.requests,
          sum-asked (λ q. flows_in (answers q)) b.agents b.requests,
        )
        refl

  sums-fails :
      (lost : ℕ × FlowStatsRequest M → Answered) (b : FlowStatsBucket M D)
      → ((q : ℕ × FlowStatsRequest M) → fails (lost q) ≡ true)
      → sums lost b ≡ 0 ∷ 0 ∷ 0 ∷ []
  sums-fails lost b h =
      let x =
        sum_none (λ a. sum (λ r. bytes_in (lost (a, r))) b.requests) b.agents
          (λ a.
            sum_none (λ r. bytes_in (lost (a, r))) b.requests
              (λ r. (fails-nothing (lost (a, r)) (h (a, r))).1)) in
      let y =
        sum_none (λ a. sum (λ r. packets_in (lost (a, r))) b.requests) b.agents
          (λ a.
            sum_none (λ r. packets_in (lost (a, r))) b.requests
              (λ r. (fails-nothing (lost (a, r)) (h (a, r))).2)) in
      let z =
        sum_none (λ a. sum (λ r. flows_in (lost (a, r))) b.requests) b.agents
          (λ a.
            sum_none (λ r. flows_in (lost (a, r))) b.requests
              (λ r. (fails-nothing (lost (a, r)) (h (a, r))).3)) in
      rw (x, y, z) refl

  abbrev pub then_update :
      (ℕ × FlowStatsRequest M → Answered)
      → ℕ
      → Option (FlowStatsBucket M D)
      → Option (FlowStatsBucket M D)
  then_update answers now none = none
  then_update answers now (some b) = update answers d now b

  abbrev pub Spiked : ℕ → ℕ → List ℕ → Option (FlowStatsBucket M D) → Type 0
  Spiked t u acc none = true ≡ false
  Spiked t u acc (some b) = current_speed d b.aggregated_stats ≡ map (λ n. d.rate n t u) acc

  -- If every request of an update fails and then every request of one not before it is answered or
  -- fails, with nothing kept of earlier answers, the speed is that of the whole totals since the
  -- failed update.
  pub failed_spikes :
      (lost answers : ℕ × FlowStatsRequest M → Answered) (t u : ℕ) (b : FlowStatsBucket M D)
      → ((q : ℕ × FlowStatsRequest M) → fails (lost q) ≡ true)
      → ((q : ℕ × FlowStatsRequest M) → plain (answers q) ≡ true)
      → Zeroed b
      → t ≤ u
      → Spiked t u (sums answers b) (then_update answers u (update lost d t b))
  unfolding append append_later
  failed_spikes lost answers t u b f p z h =
      let first = update-sums lost t b (λ q. (fails-nothing (lost q) (f q)).0) z in
      let s = append d t (0 ∷ 0 ∷ 0 ∷ []) b.aggregated_stats in
      let b1 = record b { aggregated_stats = s } in
      let second = update-sums answers u b1 p z in
      rw (first, sums-fails lost b f, second)
        (speed_from_zeros d t u
          (sum (λ a. sum (λ r. bytes_in (answers (a, r))) b.requests) b.agents)
          (sum (λ a. sum (λ r. packets_in (answers (a, r))) b.requests) b.agents)
          (sum (λ a. sum (λ r. flows_in (answers (a, r))) b.requests) b.agents) s refl refl h)
