-- ===== src/Stats/Buckets.antt =====
-- The class FlowStatsBucketImpl of src/core/StatsBucket.cc. What the agent of a switch answers is an outcome,
-- and `none` where it throws request_error.
use runos.Base.{ℕ, zero, suc, Option, none, some, List, [], ◌∷◌, ◌++◌, map, add64}
use runos.OfAgent.Sessions.{Outcome, single, openflow_error}
use runos.OfAgent.Requests.{FlowStatsRequest, any}
use runos.Stats.Store.{Doubles, StatisticsStore, new_store, append}

-- ofp::aggregate_stats
pub record AggregateStats : Type 0 where
  pub packets : ℕ
  pub bytes : ℕ
  pub flows : ℕ

-- The arguments of flow_selector; `dpid` is always given.
pub record FlowSelector (M : Type 0) : Type 0 where
  pub dpid : List ℕ
  pub table : Option ℕ
  pub out_port : Option (List ℕ)
  pub out_group : Option (List ℕ)
  pub cookie : Option ℕ
  pub cookie_mask : Option ℕ
  pub match : Option M

pub record FlowStatsBucket (M D : Type 0) : Type 0 where
  pub dpids : List ℕ
  pub agents : List ℕ
  pub requests : List (FlowStatsRequest M)
  pub aggregated_stats : StatisticsStore D
  pub per_request_stats : List AggregateStats

abbrev pub or_else : {A : Type 0} → Option A → A → A
or_else none a = a
or_else (some b) a = b

abbrev pub cookie_of : Option ℕ → Option ℕ → ℕ × ℕ
cookie_of none mask = (0, 0)
cookie_of (some c) none = (c, 18446744073709551615)
cookie_of (some c) (some m) = (c, m)

abbrev pub table_all : ℕ
table_all = 255

module _ {M : Type 0} where
  abbrev pub with_output : FlowStatsRequest M → ℕ → ℕ → FlowStatsRequest M
  with_output r port group = record r { out_port = port; out_group = group }

  abbrev pub each_group : FlowStatsRequest M → ℕ → List ℕ → List (FlowStatsRequest M)
  each_group r port groups = map (λ g. with_output r port g) groups

  -- The nested loops over ports and groups.
  unfoldable pub each_output : FlowStatsRequest M → List ℕ → List ℕ → List (FlowStatsRequest M)
  each_output r [] groups = []
  each_output r (port ∷ ports) groups = each_group r port groups ++ each_output r ports groups

  -- `empty` is the match of libfluid that has no fields.
  unfoldable pub requests_of : M → FlowSelector M → List (FlowStatsRequest M)
  unfolding each_output
  requests_of empty s =
      let (cookie, mask) = cookie_of s.cookie s.cookie_mask in
      let proto : FlowStatsRequest M = record {
        table_id = or_else s.table table_all;
        out_port = any;
        out_group = any;
        cookie = cookie;
        cookie_mask = mask;
        match = or_else s.match empty;
      } in
      each_output proto (or_else s.out_port (any ∷ [])) (or_else s.out_group (any ∷ []))

abbrev pub no_stats : AggregateStats
no_stats = record { packets = 0; bytes = 0; flows = 0 }

-- per_request_stats_ for the requests to each switch.
unfoldable pub zeros : {A R : Type 0} → List A → List R → List AggregateStats
zeros [] rs = []
zeros (a ∷ xs) rs = map (λ r. no_stats) rs ++ zeros xs rs

module _ {M D : Type 0} (d : Doubles D) where
  unfoldable pub new_bucket : M → FlowSelector M → FlowStatsBucket M D
  unfolding requests_of zeros
  new_bucket empty s =
      let rs = requests_of empty s in
      record {
        dpids = s.dpid;
        agents = [];
        requests = rs;
        aggregated_stats = new_store d (0 ∷ 0 ∷ 0 ∷ []);
        per_request_stats = zeros s.dpid rs;
      }

  -- `start`, once every switch has an agent.
  unfoldable pub start : FlowStatsBucket M D → FlowStatsBucket M D
  start b = record b { agents = b.agents ++ b.dpids }

-- The requests of `update`, from the last agent to the first.
unfoldable pub asked : {R : Type 0} → List ℕ → List R → List (ℕ × R)
asked [] rs = []
asked (a ∷ xs) rs = asked xs rs ++ map (λ r. (a, r)) rs

unfoldable pub stats_at : ℕ → List AggregateStats → Option AggregateStats
stats_at n [] = none
stats_at zero (s ∷ ss) = some s
stats_at (suc n) (s ∷ ss) = stats_at n ss

-- A future that throws something else ends the continuation.
abbrev pub stats_of :
    Option (Outcome AggregateStats) → Option AggregateStats → Option AggregateStats
stats_of none kept = kept
stats_of (some (single s)) kept = some s
stats_of (some (openflow_error type code)) kept = kept
stats_of (some _) kept = none

-- acc.bytes(), acc.packets() and acc.flows()
abbrev pub accumulate : AggregateStats → List ℕ → List ℕ
accumulate s (bytes ∷ packets ∷ flows ∷ []) =
    add64 bytes s.bytes ∷ add64 packets s.packets ∷ add64 flows s.flows ∷ []
accumulate s acc = acc

abbrev pub then_add : (List ℕ → Option (List ℕ)) → List ℕ → Option AggregateStats → Option (List ℕ)
then_add rest acc none = none
then_add rest acc (some s) = rest (accumulate s acc)

module _ {M : Type 0} (answers : ℕ × FlowStatsRequest M → Option (Outcome AggregateStats)) where
  -- The loop over the futures, with the number of the request.
  unfoldable pub total :
      ℕ → List AggregateStats → List (ℕ × FlowStatsRequest M) → List ℕ → Option (List ℕ)
  unfolding stats_at
  total j kept [] acc = some acc
  total j kept (q ∷ qs) acc =
      then_add (total (suc j) kept qs) acc (stats_of (answers q) (stats_at j kept))

  module _ {D : Type 0} (d : Doubles D) where
    abbrev pub append_total :
        ℕ → FlowStatsBucket M D → Option (List ℕ) → Option (FlowStatsBucket M D)
    append_total now b none = none
    append_total now b (some acc) =
        some (record b { aggregated_stats = append d now acc b.aggregated_stats })

    unfoldable pub update : ℕ → FlowStatsBucket M D → Option (FlowStatsBucket M D)
    unfolding total asked append
    update now b =
        append_total now b
          (total 0 b.per_request_stats (asked b.agents b.requests) (0 ∷ 0 ∷ 0 ∷ []))
