-- ===== src/OfAgent/Running.antt =====
-- The promises over the replies and the calls of an agent.
use runos.Base.{ℕ, ◌+◌, ◌≡◌, inl, inr, Bool-cases, true, false, none, List, [], ◌∷◌, arith}
use runos.OfAgent.Sessions.{
  not_responded, openflow_error, is_thrown, Session, Answer, OfAgent, Popped, set_outcome,
  set_promise, close, pop, pop_next, pop_barrier, is_barrier, pop_tasks_until, has_barrier,
  waiting_for_response,
}
use runos.OfAgent.Visitors.{
  Message, error, barrier_reply, role_reply, get_config_reply, desc_reply, port_description_reply,
  port_stats_reply, queue_reply, flow_reply, group_reply, group_desc_reply, table_reply,
  meter_reply, meter_config_reply, aggregate_reply, meter_features_reply, process_error, process,
  Message, role_visitor, config_visitor, desc_visitor, port_description_visitor, port_stats_visitor,
  queue_visitor, flow_visitor, group_visitor, group_desc_visitor, table_visitor, meter_visitor,
  meter_config_visitor, aggregate_visitor, meter_features_visitor,
}
use runos.OfAgent.Honest.{
  settled, pending, tidy, IsHonest, settled-append, set_outcome-IsHonest, set_promise-IsHonest,
  role_visitor-IsHonest, config_visitor-IsHonest, desc_visitor-IsHonest,
  port_description_visitor-IsHonest, port_stats_visitor-IsHonest, queue_visitor-IsHonest,
  flow_visitor-IsHonest, group_visitor-IsHonest, group_desc_visitor-IsHonest,
  table_visitor-IsHonest, meter_visitor-IsHonest, meter_config_visitor-IsHonest,
  aggregate_visitor-IsHonest, meter_features_visitor-IsHonest,
}
use runos.OfAgent.Conserving.{IsConserving, nothing-IsConserving, on_response-IsConserving}

module _ {B : Type 0} where
  close-IsHonest : (s : Session B) → IsHonest s (close s)
  unfolding close
  close-IsHonest s = elim (Bool-cases (waiting_for_response s.kind)) [
    | inl w ↦ rw w (set_outcome-IsHonest not_responded s)
    | inr w ↦ rw w (set_promise-IsHonest s)
  ]

  set_promise_over :
      (s : Session B)
      → is_thrown (set_promise s).thrown ≡ false
      → (set_promise s).session.satisfied ≡ true
  unfolding set_promise
  set_promise_over s h = ground (arith, h)

  close_over :
      (s : Session B) → is_thrown (close s).thrown ≡ false → (close s).session.satisfied ≡ true
  unfolding close set_promise set_outcome
  close_over s h = ground (arith, h)

  -- What the loop leaves has the promises that it did not settle.
  record IsPopped (ss : List (Session B)) (p : Popped B) : Type 0 where
    pub kept : (x : ℕ) → settled x p.outcomes + pending x p.sessions ≡ pending x ss
    pub neat : tidy p.sessions ≡ true

  barrier-IsPopped :
      (s : Session B) (ss : List (Session B)) (a : Answer B)
      → IsHonest s a
      → (is_thrown a.thrown ≡ false → a.session.satisfied ≡ true)
      → tidy (s ∷ ss) ≡ true
      → IsPopped (s ∷ ss) (pop_barrier a ss)
  unfolding pending tidy
  barrier-IsPopped s ss a h o t = record {
    kept = λ x. ground (arith, h.balanced x, o);
    neat = ground (arith, t, h.stays_tidy);
  }

  next-IsPopped :
      (s : Session B) (ss : List (Session B)) (a : Answer B) (p : Popped B)
      → IsHonest s a
      → (is_thrown a.thrown ≡ false → a.session.satisfied ≡ true)
      → tidy (s ∷ ss) ≡ true
      → IsPopped ss p
      → IsPopped (s ∷ ss) (pop_next a ss p)
  unfolding pending tidy
  next-IsPopped s ss a p h o t q = record {
    kept = λ x. ground (arith, h.balanced x, o, q.kept x, settled-append x a.outcomes p.outcomes);
    neat = ground (arith, t, h.stays_tidy, q.neat);
  }

  tail_tidy : (s : Session B) (ss : List (Session B)) → tidy (s ∷ ss) ≡ true → tidy ss ≡ true
  unfolding tidy
  tail_tidy s ss t = ground (arith, t)

  pop-IsPopped : (xid : ℕ) (ss : List (Session B)) → tidy ss ≡ true → IsPopped ss (pop xid ss)
  unfolding pop settled pending
  pop-IsPopped xid [] t = record { kept = λ x. ground arith; neat = t }
  pop-IsPopped xid (s ∷ ss) t = elim (Bool-cases (is_barrier xid s)) [
    | inl b ↦
        rw b (barrier-IsPopped s ss (set_promise s) (set_promise-IsHonest s) (set_promise_over s) t)
    | inr b ↦ rw b (
        next-IsPopped s ss (close s) (pop xid ss) (close-IsHonest s) (close_over s) t
          (pop-IsPopped xid ss (tail_tidy s ss t)))
  ]

  pop-IsConserving :
      (xid x : ℕ) (a : OfAgent B) → tidy a.tasks ≡ true → IsConserving x a (pop_tasks_until xid a)
  unfolding pop_tasks_until
  pop-IsConserving xid x a t = elim (Bool-cases (has_barrier xid a.tasks)) [
    | inl b ↦
        let p = pop-IsPopped xid a.tasks t in
        rw b (record { conserved = p.kept x; tidied = p.neat })
    | inr b ↦ rw b (nothing-IsConserving x a none t)
  ]

  error-IsConserving :
      (xid type code x : ℕ) (a : OfAgent B)
      → tidy a.tasks ≡ true
      → IsConserving x a (process_error xid type code a)
  unfolding process_error
  error-IsConserving xid type code x a t =
      let c =
        on_response-IsConserving xid x (set_outcome (openflow_error type code)) a
          (λ s. set_outcome-IsHonest (openflow_error type code) s) t in
      record { conserved = c.conserved; tidied = c.tidied }

  pub process-IsConserving :
      (m : Message B) (x : ℕ) (a : OfAgent B) → tidy a.tasks ≡ true → IsConserving x a (process m a)
  unfolding process
  process-IsConserving (error xid type code) x a t = error-IsConserving xid type code x a t
  process-IsConserving (barrier_reply xid) x a t = pop-IsConserving xid x a t
  process-IsConserving (role_reply xid b) x a t =
      on_response-IsConserving xid x (λ s. role_visitor b s.kind s) a
        (λ s. role_visitor-IsHonest b s.kind s) t
  process-IsConserving (get_config_reply xid b) x a t =
      on_response-IsConserving xid x (λ s. config_visitor b s.kind s) a
        (λ s. config_visitor-IsHonest b s.kind s) t
  process-IsConserving (desc_reply xid b) x a t =
      on_response-IsConserving xid x (λ s. desc_visitor b s.kind s) a
        (λ s. desc_visitor-IsHonest b s.kind s) t
  process-IsConserving (port_description_reply r) x a t =
      on_response-IsConserving r.xid x (λ s. port_description_visitor r s.kind s) a
        (λ s. port_description_visitor-IsHonest r s.kind s) t
  process-IsConserving (port_stats_reply r) x a t =
      on_response-IsConserving r.xid x (λ s. port_stats_visitor r s.kind s) a
        (λ s. port_stats_visitor-IsHonest r s.kind s) t
  process-IsConserving (queue_reply r) x a t =
      on_response-IsConserving r.xid x (λ s. queue_visitor r s.kind s) a
        (λ s. queue_visitor-IsHonest r s.kind s) t
  process-IsConserving (flow_reply r) x a t =
      on_response-IsConserving r.xid x (λ s. flow_visitor r s.kind s) a
        (λ s. flow_visitor-IsHonest r s.kind s) t
  process-IsConserving (group_reply r) x a t =
      on_response-IsConserving r.xid x (λ s. group_visitor r s.kind s) a
        (λ s. group_visitor-IsHonest r s.kind s) t
  process-IsConserving (group_desc_reply r) x a t =
      on_response-IsConserving r.xid x (λ s. group_desc_visitor r s.kind s) a
        (λ s. group_desc_visitor-IsHonest r s.kind s) t
  process-IsConserving (table_reply r) x a t =
      on_response-IsConserving r.xid x (λ s. table_visitor r s.kind s) a
        (λ s. table_visitor-IsHonest r s.kind s) t
  process-IsConserving (meter_reply r) x a t =
      on_response-IsConserving r.xid x (λ s. meter_visitor r s.kind s) a
        (λ s. meter_visitor-IsHonest r s.kind s) t
  process-IsConserving (meter_config_reply r) x a t =
      on_response-IsConserving r.xid x (λ s. meter_config_visitor r s.kind s) a
        (λ s. meter_config_visitor-IsHonest r s.kind s) t
  process-IsConserving (aggregate_reply xid more b) x a t =
      on_response-IsConserving xid x (λ s. aggregate_visitor more b s.kind s) a
        (λ s. aggregate_visitor-IsHonest more b s.kind s) t
  process-IsConserving (meter_features_reply xid more b) x a t =
      on_response-IsConserving xid x (λ s. meter_features_visitor more b s.kind s) a
        (λ s. meter_features_visitor-IsHonest more b s.kind s) t
