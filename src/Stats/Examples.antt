-- ===== src/Stats/Examples.antt =====
-- A double is the quotient of natural numbers; one switch is asked for the flows of one port.
use runos.Base.{
  ℕ, zero, suc, ◌-◌, ◌/◌, ◌^◌, ◌≡◌, refl, none, some, List, [], ◌∷◌, ltb, if◌then◌else◌, sub64,
  arith,
}
use runos.OfAgent.Sessions.{single, openflow_error}
use runos.OfAgent.Requests.{FlowStatsRequest}
use runos.Stats.Store.{Doubles, StatisticsStore, new_store, current_speed, get, append}
use runos.Stats.Buckets.{
  FlowSelector, FlowStatsBucket, new_bucket, start, asked, stats_at, zeros, requests_of,
  each_output, update,
}
use runos.Stats.Tracking.{Poll, grows, rises, follow, append_all, append_all-follow, shrunk_wraps}
use runos.Stats.Polling.{Answered, Zeroed, sums, update-sums, Spiked, then_update, failed_spikes}

abbrev numbers : Doubles ℕ
numbers = record { zero = 0; rate = λ s t u. s / (u - t); max = λ a b. if ltb a b then b else a }

abbrev fresh : StatisticsStore ℕ
fresh = new_store numbers (0 ∷ 0 ∷ 0 ∷ [])

abbrev polls : List Poll
polls = (10, 100 ∷ 4 ∷ 1 ∷ []) ∷ (20, 300 ∷ 5 ∷ 1 ∷ []) ∷ []

append_all-follow_example :
    get numbers (append_all numbers polls fresh)
    ≡ follow numbers (0, 0 ∷ 0 ∷ 0 ∷ []) (current_speed numbers fresh) (0 ∷ 0 ∷ 0 ∷ []) polls
unfolding grows rises
append_all-follow_example = append_all-follow numbers polls fresh refl

abbrev held : StatisticsStore ℕ
held = record {
  prev_time = 0;
  curr_time = 10;
  prev = 0 ∷ 0 ∷ 0 ∷ [];
  curr = 100 ∷ 4 ∷ 2 ∷ [];
  max = 0 ∷ 0 ∷ 0 ∷ [];
}

shrunk_wraps_example :
    current_speed numbers (append numbers 20 (110 ∷ 5 ∷ 1 ∷ []) held)
    ≡ numbers.rate (sub64 110 100) 10 20
      ∷ numbers.rate (sub64 5 4) 10 20
      ∷ numbers.rate (2 ^ 64 - (2 - 1)) 10 20
      ∷ []
shrunk_wraps_example =
    shrunk_wraps numbers 20 100 4 2 110 5 1 held refl (omega arith) (omega arith) (omega arith)
      (omega arith)

abbrev one_port : FlowSelector ℕ
one_port = record {
  dpid = 7 ∷ [];
  table = none;
  out_port = some (3 ∷ []);
  out_group = none;
  cookie = none;
  cookie_mask = none;
  match = none;
}

abbrev bucket : FlowStatsBucket ℕ ℕ
bucket = start numbers (new_bucket numbers 0 one_port)

bucket-Zeroed : Zeroed bucket
unfolding start new_bucket requests_of each_output zeros asked stats_at
bucket-Zeroed zero h = refl
bucket-Zeroed (suc i) h = absurd (omega (arith, h))

abbrev counted : ℕ × FlowStatsRequest ℕ → Answered
counted q = some (single (record { packets = 4; bytes = 100; flows = 1 }))

abbrev refused : ℕ × FlowStatsRequest ℕ → Answered
refused q = some (openflow_error 1 2)

update-sums_example :
    update counted numbers 10 bucket
    ≡ some (record bucket {
      aggregated_stats = append numbers 10 (sums numbers counted bucket) bucket.aggregated_stats;
    })
update-sums_example = update-sums numbers counted 10 bucket (λ q. refl) bucket-Zeroed

failed_spikes_example :
    Spiked numbers 10 20
      (sums numbers counted bucket)
      (then_update numbers counted 20 (update refused numbers 10 bucket))
failed_spikes_example =
    failed_spikes numbers refused counted 10 20 bucket (λ q. refl) (λ q. refl) bucket-Zeroed
      (omega arith)
