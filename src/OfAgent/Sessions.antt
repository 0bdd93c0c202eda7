-- ===== src/OfAgent/Sessions.antt =====
-- The sessions of src/core/OFAgentImpl.hpp and the template methods on them, with find_task and
-- pop_tasks_until of OFAgentImpl.cc. `B` is what a switch may tell: a port, statistics, a description.
use runos.Base.{
  ℕ, Bool, true, false, not, ◌||◌, ◌&&◌, Option, none, some, List, [], ◌∷◌, ◌++◌, ltb, ◌==◌,
  if◌then◌else◌,
}

-- The types of `session`.
pub data Kind : Type 0 where
  barrier_session no_respond_session get_config_session switch_desc_session role_reply_session :
      Kind
  port_desc_seq_session port_stat_session port_stat_seq_session queue_stat_session
        queue_stat_seq_session :
      Kind
  flow_stat_seq_session flow_aggregate_session group_desc_seq_session group_stat_session
        group_stat_seq_session :
      Kind
  table_stat_seq_session meter_stat_session meter_stat_seq_session meter_config_seq_session
        meter_features_session :
      Kind

-- `single` and `many` are the values of futures that have one, `done` of those of `void`.
pub data Outcome (B : Type 0) : Type 0 where
  done : Outcome B
  single : B → Outcome B
  many : List B → Outcome B
  not_responded bad_reply : Outcome B
  openflow_error : ℕ → ℕ → Outcome B

-- `unexpected` is the bad_reply that is thrown.
pub data Thrown : Type 0 where
  unexpected promise_already_satisfied : Thrown

-- session_base; `satisfied` tells whether its promise has an outcome.
pub record Session (B : Type 0) : Type 0 where
  pub xid : ℕ
  pub kind : Kind
  pub value_set : Bool
  pub satisfied : Bool
  pub ret : List B

unfoldable pub waiting_for_response : Kind → Bool
waiting_for_response no_respond_session = false
waiting_for_response _ = true

abbrev pub is_barrier_kind : Kind → Bool
is_barrier_kind barrier_session = true
is_barrier_kind _ = false

-- The promises that were given an outcome, by the identifier of the request.
abbrev pub Outcomes : Type 0 → Type 0
Outcomes B = List (ℕ × Outcome B)

pub record Answer (B : Type 0) : Type 0 where
  pub session : Session B
  pub outcomes : Outcomes B
  pub thrown : Option Thrown

pub record OfAgent (B : Type 0) : Type 0 where
  pub tasks : List (Session B)
  pub next_xid : ℕ

-- What an operation leaves.
pub record Step (B : Type 0) : Type 0 where
  pub agent : OfAgent B
  pub outcomes : Outcomes B
  pub thrown : Option Thrown

abbrev pub minimal_xid : ℕ
minimal_xid = 65536

abbrev pub is_thrown : Option Thrown → Bool
is_thrown none = false
is_thrown (some e) = true

-- What the loop up to the barrier leaves of the list.
pub record Popped (B : Type 0) : Type 0 where
  pub sessions : List (Session B)
  pub outcomes : Outcomes B
  pub thrown : Option Thrown

module _ {B : Type 0} where
  abbrev pub new_session : Kind → ℕ → Session B
  new_session k xid = record { xid = xid; kind = k; value_set = false; satisfied = false; ret = [] }

  -- The free function set_value and set_exception_visitor.
  unfoldable pub set_outcome : Outcome B → Session B → Answer B
  set_outcome v s =
      if s.satisfied
      then record { session = s; outcomes = []; thrown = some promise_already_satisfied }
      else record {
        session = record s { value_set = true; satisfied = true };
        outcomes = (s.xid, v) ∷ [];
        thrown = none;
      }

  -- `promise_.set_value()` alone
  unfoldable pub set_promise : Session B → Answer B
  set_promise s =
      if s.satisfied
      then record { session = s; outcomes = []; thrown = some promise_already_satisfied }
      else record {
        session = record s { satisfied = true };
        outcomes = (s.xid, done) ∷ [];
        thrown = none;
      }

  abbrev pub then_visit : (Session B → Answer B) → Answer B → Answer B
  then_visit visitor a =
      let b = visitor a.session in
      if is_thrown a.thrown then a else record b { outcomes = a.outcomes ++ b.outcomes }

  unfoldable pub find_in : ℕ → List (Session B) → Option (Session B)
  find_in xid [] = none
  find_in xid (s ∷ ss) = if s.xid == xid then some s else find_in xid ss

  unfoldable pub find_task : ℕ → List (Session B) → Option (Session B)
  unfolding find_in
  find_task xid ss = if ltb xid minimal_xid then none else find_in xid ss

  -- The session that is found, changed or erased.
  unfoldable pub replace : ℕ → Session B → List (Session B) → List (Session B)
  replace xid t [] = []
  replace xid t (s ∷ ss) = let rest = replace xid t ss in if s.xid == xid then t ∷ ss else s ∷ rest

  unfoldable pub erase : ℕ → List (Session B) → List (Session B)
  erase xid [] = []
  erase xid (s ∷ ss) = let rest = erase xid ss in if s.xid == xid then ss else s ∷ rest

  -- on_response, up to the visitor and with it.
  unfoldable pub visit : (Session B → Answer B) → Session B → Answer B
  unfolding waiting_for_response set_outcome
  visit visitor s =
      if waiting_for_response s.kind
      then visitor s
      else then_visit visitor (set_outcome not_responded s)

  abbrev pub left : ℕ → Answer B → List (Session B) → List (Session B)
  left xid a ss =
      if not (is_thrown a.thrown) && a.session.value_set
      then erase xid ss
      else replace xid a.session ss

  abbrev pub on_found : ℕ → (Session B → Answer B) → OfAgent B → Option (Session B) → Step B
  on_found xid visitor agent none = record {
    agent = agent;
    outcomes = [];
    thrown = some unexpected;
  }
  on_found xid visitor agent (some s) =
      let a = visit visitor s in
      record {
        agent = record agent { tasks = left xid a agent.tasks };
        outcomes = a.outcomes;
        thrown = a.thrown;
      }

  unfoldable pub on_response : ℕ → (Session B → Answer B) → OfAgent B → Step B
  unfolding find_task visit replace erase
  on_response xid visitor agent =
      if ltb xid minimal_xid
      then record { agent = agent; outcomes = []; thrown = none }
      else on_found xid visitor agent (find_task xid agent.tasks)

  abbrev pub is_barrier : ℕ → Session B → Bool
  is_barrier xid s = s.xid == xid && is_barrier_kind s.kind

  unfoldable pub has_barrier : ℕ → List (Session B) → Bool
  has_barrier xid [] = false
  has_barrier xid (s ∷ ss) = is_barrier xid s || has_barrier xid ss

  -- A session before the barrier.
  unfoldable pub close : Session B → Answer B
  unfolding waiting_for_response set_outcome set_promise
  close s = if waiting_for_response s.kind then set_outcome not_responded s else set_promise s

  abbrev pub pop_barrier : Answer B → List (Session B) → Popped B
  pop_barrier a ss = record {
    sessions = if is_thrown a.thrown then a.session ∷ ss else ss;
    outcomes = a.outcomes;
    thrown = a.thrown;
  }

  abbrev pub pop_next : Answer B → List (Session B) → Popped B → Popped B
  pop_next a ss rest = record {
    sessions =
        if is_thrown a.thrown
        then a.session ∷ ss
        else if is_thrown rest.thrown
        then a.session ∷ rest.sessions
        else rest.sessions;
    outcomes = if is_thrown a.thrown then a.outcomes else a.outcomes ++ rest.outcomes;
    thrown = if is_thrown a.thrown then a.thrown else rest.thrown;
  }

  unfoldable pub pop : ℕ → List (Session B) → Popped B
  unfolding close set_promise
  pop xid [] = record { sessions = []; outcomes = []; thrown = none }
  pop xid (s ∷ ss) =
      let next = pop_next (close s) ss (pop xid ss) in
      if is_barrier xid s then pop_barrier (set_promise s) ss else next

  unfoldable pub pop_tasks_until : ℕ → OfAgent B → Step B
  unfolding has_barrier pop
  pop_tasks_until xid agent =
      let p = pop xid agent.tasks in
      if has_barrier xid agent.tasks
      then record {
        agent = record agent { tasks = p.sessions };
        outcomes = p.outcomes;
        thrown = p.thrown;
      }
      else record { agent = agent; outcomes = []; thrown = none }
