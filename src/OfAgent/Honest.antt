-- ===== src/OfAgent/Honest.antt =====
-- What a visitor does to the promise of the session: it gets an outcome exactly when the answer has it.
use runos.Base.{
  ℕ, ◌+◌, ◌≡◌, inl, inr, Bool-cases, Bool, true, false, not, ◌||◌, ◌&&◌, List, [], ◌∷◌, ◌++◌, ◌==◌,
  if◌then◌else◌, arith,
}
use runos.OfAgent.Sessions.{
  Kind, get_config_session, switch_desc_session, role_reply_session, port_desc_seq_session,
  port_stat_session, port_stat_seq_session, queue_stat_session, queue_stat_seq_session,
  flow_stat_seq_session, flow_aggregate_session, group_desc_seq_session, group_stat_session,
  group_stat_seq_session, table_stat_seq_session, meter_stat_session, meter_stat_seq_session,
  meter_config_seq_session, meter_features_session, Outcome, single, bad_reply, Outcomes, Session,
  Answer, set_outcome, set_promise,
}
use runos.OfAgent.Visitors.{
  Multipart, unexpected_type, one_of, take_one, take_body, take_all, role_visitor, config_visitor,
  desc_visitor, port_description_visitor, port_stats_visitor, queue_visitor, flow_visitor,
  group_visitor, group_desc_visitor, table_visitor, meter_visitor, meter_config_visitor,
  aggregate_visitor, meter_features_visitor,
}

module _ {B : Type 0} where
  -- The outcomes of an identifier.
  unfoldable pub settled : ℕ → Outcomes B → ℕ
  settled x [] = 0
  settled x ((y, v) ∷ os) = (if y == x then 1 else 0) + settled x os

  abbrev pub waits : ℕ → Session B → ℕ
  waits x s = if s.xid == x && not s.satisfied then 1 else 0

  -- The sessions of an identifier whose promises have no outcome.
  unfoldable pub pending : ℕ → List (Session B) → ℕ
  pending x [] = 0
  pending x (s ∷ ss) = waits x s + pending x ss

  abbrev pub is_tidy : Session B → Bool
  is_tidy s = not s.value_set || s.satisfied

  -- A session that is done with has an outcome.
  unfoldable pub tidy : List (Session B) → Bool
  tidy [] = true
  tidy (s ∷ ss) = is_tidy s && tidy ss

  pub settled-append :
      (x : ℕ) (os ps : Outcomes B) → settled x (os ++ ps) ≡ settled x os + settled x ps
  unfolding settled
  settled-append x [] ps = ground arith
  settled-append x ((y, v) ∷ os) ps = ground (arith, settled-append x os ps)

  -- A promise gets an outcome exactly when the answer has it.
  pub record IsHonest (s : Session B) (a : Answer B) : Type 0 where
    pub balanced : (x : ℕ) → settled x a.outcomes + waits x a.session ≡ waits x s
    pub stays_tidy : is_tidy s ≡ true → is_tidy a.session ≡ true

  pub set_outcome-IsHonest : (v : Outcome B) (s : Session B) → IsHonest s (set_outcome v s)
  unfolding set_outcome settled
  set_outcome-IsHonest v s = record {
    balanced = λ x. ground arith;
    stays_tidy = λ t. ground (arith, t);
  }

  pub set_promise-IsHonest : (s : Session B) → IsHonest s (set_promise s)
  unfolding set_promise settled
  set_promise-IsHonest s = record {
    balanced = λ x. ground arith;
    stays_tidy = λ t. ground (arith, t);
  }

  pub unexpected_type-IsHonest : (s : Session B) → IsHonest s (unexpected_type s)
  unfolding unexpected_type settled
  unexpected_type-IsHonest s = record { balanced = λ x. ground arith; stays_tidy = λ t. t }

  pub take_one-IsHonest : (r : Multipart B) (s : Session B) → IsHonest s (take_one r s)
  unfolding take_one
  take_one-IsHonest r s = elim (Bool-cases r.more) [
    | inl m ↦ rw m (set_outcome-IsHonest bad_reply s)
    | inr m ↦ rw m (set_outcome-IsHonest (one_of r.items) s)
  ]

  pub take_body-IsHonest : (more : Bool) (b : B) (s : Session B) → IsHonest s (take_body more b s)
  unfolding take_body
  take_body-IsHonest true b s = set_outcome-IsHonest bad_reply s
  take_body-IsHonest false b s = set_outcome-IsHonest (single b) s

  pub take_all-IsHonest : (r : Multipart B) (s : Session B) → IsHonest s (take_all r s)
  unfolding take_all set_outcome settled
  take_all-IsHonest r s = record {
    balanced = λ x. ground arith;
    stays_tidy = λ t. ground (arith, t);
  }

  pub role_visitor-IsHonest : (b : B) (k : Kind) (s : Session B) → IsHonest s (role_visitor b k s)
  role_visitor-IsHonest b role_reply_session s = set_outcome-IsHonest (single b) s
  role_visitor-IsHonest b _ s = unexpected_type-IsHonest s

  pub config_visitor-IsHonest :
      (b : B) (k : Kind) (s : Session B) → IsHonest s (config_visitor b k s)
  config_visitor-IsHonest b get_config_session s = set_outcome-IsHonest (single b) s
  config_visitor-IsHonest b _ s = unexpected_type-IsHonest s

  pub desc_visitor-IsHonest : (b : B) (k : Kind) (s : Session B) → IsHonest s (desc_visitor b k s)
  desc_visitor-IsHonest b switch_desc_session s = set_outcome-IsHonest (single b) s
  desc_visitor-IsHonest b _ s = unexpected_type-IsHonest s

  pub port_description_visitor-IsHonest :
      (r : Multipart B) (k : Kind) (s : Session B) → IsHonest s (port_description_visitor r k s)
  port_description_visitor-IsHonest r port_desc_seq_session s = take_all-IsHonest r s
  port_description_visitor-IsHonest r _ s = unexpected_type-IsHonest s

  pub port_stats_visitor-IsHonest :
      (r : Multipart B) (k : Kind) (s : Session B) → IsHonest s (port_stats_visitor r k s)
  port_stats_visitor-IsHonest r port_stat_session s = take_one-IsHonest r s
  port_stats_visitor-IsHonest r port_stat_seq_session s = take_all-IsHonest r s
  port_stats_visitor-IsHonest r _ s = unexpected_type-IsHonest s

  pub queue_visitor-IsHonest :
      (r : Multipart B) (k : Kind) (s : Session B) → IsHonest s (queue_visitor r k s)
  queue_visitor-IsHonest r queue_stat_session s = take_one-IsHonest r s
  queue_visitor-IsHonest r queue_stat_seq_session s = take_all-IsHonest r s
  queue_visitor-IsHonest r _ s = unexpected_type-IsHonest s

  pub flow_visitor-IsHonest :
      (r : Multipart B) (k : Kind) (s : Session B) → IsHonest s (flow_visitor r k s)
  flow_visitor-IsHonest r flow_stat_seq_session s = take_all-IsHonest r s
  flow_visitor-IsHonest r _ s = unexpected_type-IsHonest s

  pub group_visitor-IsHonest :
      (r : Multipart B) (k : Kind) (s : Session B) → IsHonest s (group_visitor r k s)
  group_visitor-IsHonest r group_stat_session s = take_one-IsHonest r s
  group_visitor-IsHonest r group_stat_seq_session s = take_all-IsHonest r s
  group_visitor-IsHonest r _ s = unexpected_type-IsHonest s

  pub group_desc_visitor-IsHonest :
      (r : Multipart B) (k : Kind) (s : Session B) → IsHonest s (group_desc_visitor r k s)
  group_desc_visitor-IsHonest r group_desc_seq_session s = take_all-IsHonest r s
  group_desc_visitor-IsHonest r _ s = unexpected_type-IsHonest s

  pub table_visitor-IsHonest :
      (r : Multipart B) (k : Kind) (s : Session B) → IsHonest s (table_visitor r k s)
  table_visitor-IsHonest r table_stat_seq_session s = take_all-IsHonest r s
  table_visitor-IsHonest r _ s = unexpected_type-IsHonest s

  pub meter_visitor-IsHonest :
      (r : Multipart B) (k : Kind) (s : Session B) → IsHonest s (meter_visitor r k s)
  meter_visitor-IsHonest r meter_stat_session s = take_one-IsHonest r s
  meter_visitor-IsHonest r meter_stat_seq_session s = take_all-IsHonest r s
  meter_visitor-IsHonest r _ s = unexpected_type-IsHonest s

  pub meter_config_visitor-IsHonest :
      (r : Multipart B) (k : Kind) (s : Session B) → IsHonest s (meter_config_visitor r k s)
  meter_config_visitor-IsHonest r meter_config_seq_session s = take_all-IsHonest r s
  meter_config_visitor-IsHonest r _ s = unexpected_type-IsHonest s

  pub aggregate_visitor-IsHonest :
      (more : Bool) (b : B) (k : Kind) (s : Session B) → IsHonest s (aggregate_visitor more b k s)
  aggregate_visitor-IsHonest more b flow_aggregate_session s = take_body-IsHonest more b s
  aggregate_visitor-IsHonest more b _ s = unexpected_type-IsHonest s

  pub meter_features_visitor-IsHonest :
      (more : Bool) (b : B) (k : Kind) (s : Session B)
      → IsHonest s (meter_features_visitor more b k s)
  meter_features_visitor-IsHonest more b meter_features_session s = take_body-IsHonest more b s
  meter_features_visitor-IsHonest more b _ s = unexpected_type-IsHonest s
