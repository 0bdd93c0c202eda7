-- ===== src/OfAgent/Visitors.antt =====
-- The class RecvHandler of src/core/OFAgentImpl.cc: what a reply does to the session that it finds.
-- A reply is what libfluid parsed; a multipart reply has its items and the OFPMPF_REQ_MORE flag.
use runos.Base.{ℕ, Bool, Option, none, some, List, [], ◌∷◌, ◌++◌, if◌then◌else◌}
use runos.OfAgent.Sessions.{
  Kind, get_config_session, switch_desc_session, role_reply_session, port_desc_seq_session,
  port_stat_session, port_stat_seq_session, queue_stat_session, queue_stat_seq_session,
  flow_stat_seq_session, flow_aggregate_session, group_desc_seq_session, group_stat_session,
  group_stat_seq_session, table_stat_seq_session, meter_stat_session, meter_stat_seq_session,
  meter_config_seq_session, meter_features_session, Outcome, single, many, bad_reply,
  openflow_error, Thrown, unexpected, Session, Answer, OfAgent, Step, set_outcome, on_response,
  pop_tasks_until,
}

pub record Multipart (B : Type 0) : Type 0 where
  pub xid : ℕ
  pub more : Bool
  pub items : List B

module _ {B : Type 0} where
  -- DefaultOnResponseVisitor
  unfoldable pub unexpected_type : Session B → Answer B
  unexpected_type s = record { session = s; outcomes = []; thrown = some unexpected }

  abbrev pub one_of : List B → Outcome B
  one_of (b ∷ []) = single b
  one_of _ = bad_reply

  -- The visitors for one item, for a body without items, and for all items.
  unfoldable pub take_one : Multipart B → Session B → Answer B
  unfolding set_outcome
  take_one r s = if r.more then set_outcome bad_reply s else set_outcome (one_of r.items) s

  unfoldable pub take_body : Bool → B → Session B → Answer B
  unfolding set_outcome
  take_body more b s = if more then set_outcome bad_reply s else set_outcome (single b) s

  unfoldable pub take_all : Multipart B → Session B → Answer B
  unfolding set_outcome
  take_all r s =
      let t = record s { ret = s.ret ++ r.items } in
      if r.more
      then record { session = t; outcomes = []; thrown = none }
      else set_outcome (many t.ret) t

  abbrev pub role_visitor : B → Kind → Session B → Answer B
  role_visitor b role_reply_session s = set_outcome (single b) s
  role_visitor b _ s = unexpected_type s

  abbrev pub config_visitor : B → Kind → Session B → Answer B
  config_visitor b get_config_session s = set_outcome (single b) s
  config_visitor b _ s = unexpected_type s

  abbrev pub desc_visitor : B → Kind → Session B → Answer B
  desc_visitor b switch_desc_session s = set_outcome (single b) s
  desc_visitor b _ s = unexpected_type s

  abbrev pub port_description_visitor : Multipart B → Kind → Session B → Answer B
  port_description_visitor r port_desc_seq_session s = take_all r s
  port_description_visitor r _ s = unexpected_type s

  abbrev pub port_stats_visitor : Multipart B → Kind → Session B → Answer B
  port_stats_visitor r port_stat_session s = take_one r s
  port_stats_visitor r port_stat_seq_session s = take_all r s
  port_stats_visitor r _ s = unexpected_type s

  abbrev pub queue_visitor : Multipart B → Kind → Session B → Answer B
  queue_visitor r queue_stat_session s = take_one r s
  queue_visitor r queue_stat_seq_session s = take_all r s
  queue_visitor r _ s = unexpected_type s

  abbrev pub flow_visitor : Multipart B → Kind → Session B → Answer B
  flow_visitor r flow_stat_seq_session s = take_all r s
  flow_visitor r _ s = unexpected_type s

  abbrev pub aggregate_visitor : Bool → B → Kind → Session B → Answer B
  aggregate_visitor more b flow_aggregate_session s = take_body more b s
  aggregate_visitor more b _ s = unexpected_type s

  abbrev pub group_visitor : Multipart B → Kind → Session B → Answer B
  group_visitor r group_stat_session s = take_one r s
  group_visitor r group_stat_seq_session s = take_all r s
  group_visitor r _ s = unexpected_type s

  abbrev pub group_desc_visitor : Multipart B → Kind → Session B → Answer B
  group_desc_visitor r group_desc_seq_session s = take_all r s
  group_desc_visitor r _ s = unexpected_type s

  abbrev pub table_visitor : Multipart B → Kind → Session B → Answer B
  table_visitor r table_stat_seq_session s = take_all r s
  table_visitor r _ s = unexpected_type s

  abbrev pub meter_visitor : Multipart B → Kind → Session B → Answer B
  meter_visitor r meter_stat_session s = take_one r s
  meter_visitor r meter_stat_seq_session s = take_all r s
  meter_visitor r _ s = unexpected_type s

  abbrev pub meter_config_visitor : Multipart B → Kind → Session B → Answer B
  meter_config_visitor r meter_config_seq_session s = take_all r s
  meter_config_visitor r _ s = unexpected_type s

  abbrev pub meter_features_visitor : Bool → B → Kind → Session B → Answer B
  meter_features_visitor more b meter_features_session s = take_body more b s
  meter_features_visitor more b _ s = unexpected_type s

pub data Message (B : Type 0) : Type 0 where
  error : ℕ → ℕ → ℕ → Message B
  barrier_reply : ℕ → Message B
  role_reply get_config_reply desc_reply : ℕ → B → Message B
  port_description_reply port_stats_reply queue_reply flow_reply group_reply :
      Multipart B → Message B
  group_desc_reply table_reply meter_reply meter_config_reply : Multipart B → Message B
  aggregate_reply meter_features_reply : ℕ → Bool → B → Message B

-- A bad_reply is caught.
abbrev pub ignored : Option Thrown → Option Thrown
ignored (some unexpected) = none
ignored e = e

module _ {B : Type 0} where
  unfoldable pub process_error : ℕ → ℕ → ℕ → OfAgent B → Step B
  unfolding on_response
  process_error xid type code a =
      let t = on_response xid (set_outcome (openflow_error type code)) a in
      record t { thrown = ignored t.thrown }

  -- RecvHandler::process
  unfoldable pub process : Message B → OfAgent B → Step B
  unfolding on_response process_error pop_tasks_until
  process (error xid type code) a = process_error xid type code a
  process (barrier_reply xid) a = pop_tasks_until xid a
  process (role_reply xid b) a = on_response xid (λ s. role_visitor b s.kind s) a
  process (get_config_reply xid b) a = on_response xid (λ s. config_visitor b s.kind s) a
  process (desc_reply xid b) a = on_response xid (λ s. desc_visitor b s.kind s) a
  process (port_description_reply r) a =
      on_response r.xid (λ s. port_description_visitor r s.kind s) a
  process (port_stats_reply r) a = on_response r.xid (λ s. port_stats_visitor r s.kind s) a
  process (queue_reply r) a = on_response r.xid (λ s. queue_visitor r s.kind s) a
  process (flow_reply r) a = on_response r.xid (λ s. flow_visitor r s.kind s) a
  process (group_reply r) a = on_response r.xid (λ s. group_visitor r s.kind s) a
  process (group_desc_reply r) a = on_response r.xid (λ s. group_desc_visitor r s.kind s) a
  process (table_reply r) a = on_response r.xid (λ s. table_visitor r s.kind s) a
  process (meter_reply r) a = on_response r.xid (λ s. meter_visitor r s.kind s) a
  process (meter_config_reply r) a = on_response r.xid (λ s. meter_config_visitor r s.kind s) a
  process (aggregate_reply xid more b) a =
      on_response xid (λ s. aggregate_visitor more b s.kind s) a
  process (meter_features_reply xid more b) a =
      on_response xid (λ s. meter_features_visitor more b s.kind s) a
