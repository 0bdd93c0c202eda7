-- ===== src/OfAgent/Barriers.antt =====
-- Barriers: what they settle, what the hook leaves behind them, and how an error holds them up.
use runos.Base.{
  ℕ, ◌+◌, ◌%◌, ◌^◌, ◌≡◌, refl, ap, ◌∙◌, Bool, true, false, not, ◌&&◌, none, some, List, [], ◌∷◌,
  ◌++◌, ltb, if◌then◌else◌, arith,
}
use runos.OfAgent.Sessions.{
  barrier_session, no_respond_session, Outcome, done, not_responded, openflow_error, Outcomes,
  minimal_xid, promise_already_satisfied, Session, OfAgent, Step, new_session, set_outcome,
  set_promise, visit, find_in, find_task, replace, on_response, close, pop, is_barrier, has_barrier,
  pop_tasks_until, waiting_for_response,
}
use runos.OfAgent.Visitors.{error, barrier_reply, process, process_error}
use runos.OfAgent.Requests.{barrier, call, request, send_hook, xid_of}

module _ {B : Type 0} where
  abbrev pub is_open : Session B → Bool
  is_open s = not s.satisfied

  -- No promise has an outcome.
  unfoldable pub all_open : List (Session B) → Bool
  all_open [] = true
  all_open (s ∷ ss) = is_open s && all_open ss

  -- The outcome of a session that a barrier overtakes.
  abbrev pub overtaken : Session B → Outcome B
  overtaken s = if waiting_for_response s.kind then not_responded else done

  pub all_overtaken : List (Session B) → Outcomes B
  all_overtaken [] = []
  all_overtaken (s ∷ ss) = (s.xid, overtaken s) ∷ all_overtaken ss

  close_open :
      (s : Session B)
      → is_open s ≡ true
      → ((close s).outcomes ≡ (s.xid, overtaken s) ∷ []) × ((close s).thrown ≡ none)
  unfolding close set_outcome set_promise
  close_open s h = (ground (arith, h), ground (arith, h))

  pop_open :
      (xid : ℕ) (before : List (Session B)) (b : Session B) (after : List (Session B))
      → has_barrier xid before ≡ false
      → all_open before ≡ true
      → is_barrier xid b ≡ true
      → is_open b ≡ true
      → pop xid (before ++ b ∷ after) ≡ record {
        sessions = after;
        outcomes = all_overtaken before ++ (b.xid, done) ∷ [];
        thrown = none;
      }
  unfolding pop set_promise has_barrier all_open all_overtaken
  pop_open xid [] b after n o t u =
      let f : b.satisfied ≡ false = ground (arith, u) in rw (t, f) refl
  pop_open xid (s ∷ ss) b after n o t u =
      let f : is_barrier xid s ≡ false = ground (arith, n) in
      let (os, th) = close_open s (ground (arith, o)) in
      rw (f, os, th, pop_open xid ss b after (ground (arith, n)) (ground (arith, o)) t u) refl

  has_barrier_there :
      (xid : ℕ) (before : List (Session B)) (b : Session B) (after : List (Session B))
      → is_barrier xid b ≡ true
      → has_barrier xid (before ++ b ∷ after) ≡ true
  unfolding has_barrier
  has_barrier_there xid [] b after t = ground (arith, t)
  has_barrier_there xid (s ∷ ss) b after t = ground (arith, has_barrier_there xid ss b after t)

  -- A barrier reply settles, in the order of the list, each session before the first barrier
  -- session with the identifier: a message without a response as done, a request as not responded;
  -- then the barrier itself; and it leaves exactly the later sessions, if no promise of them had
  -- an outcome before.
  pub barrier_settles :
      (xid : ℕ) (before : List (Session B)) (b : Session B) (after : List (Session B))
      (a : OfAgent B)
      → has_barrier xid before ≡ false
      → all_open before ≡ true
      → is_barrier xid b ≡ true
      → is_open b ≡ true
      → process (barrier_reply xid) (record a { tasks = before ++ b ∷ after }) ≡ record {
        agent = record a { tasks = after };
        outcomes = all_overtaken before ++ (b.xid, done) ∷ [];
        thrown = none;
      }
  unfolding process pop_tasks_until
  barrier_settles xid before b after a n o t u =
      rw (has_barrier_there xid before b after t, pop_open xid before b after n o t u) refl

  append_two :
      (ss : List (Session B)) (s t : Session B) → (ss ++ s ∷ []) ++ t ∷ [] ≡ ss ++ s ∷ t ∷ []
  append_two [] s t = refl
  append_two (u ∷ ss) s t = ap (λ us. u ∷ us) (append_two ss s t)

  -- After a barrier on a live connection and its reply, with no barrier of that identifier and no
  -- settled promise before, the list is one barrier session of the same identifier that nobody
  -- waits for, and what came before the barrier is settled.
  pub barrier_leaves_one :
      (M C : Type 0) (a : OfAgent B)
      → has_barrier (xid_of a) a.tasks ≡ false
      → all_open a.tasks ≡ true
      → process (barrier_reply (xid_of a)) (call {M = M} {C = C} barrier true a).agent ≡ record {
        agent = record {
          tasks = new_session barrier_session (xid_of a) ∷ [];
          next_xid = (a.next_xid + 1) % 2 ^ 64;
        };
        outcomes = all_overtaken a.tasks ++ (xid_of a, done) ∷ [];
        thrown = none;
      }
  unfolding call request send_hook
  barrier_leaves_one M C a n o =
      let s = new_session barrier_session (xid_of a) in
      rw (append_two a.tasks s s) (
        barrier_settles (xid_of a) a.tasks s (s ∷ [])
          (record a { next_xid = (a.next_xid + 1) % 2 ^ 64 }) n o (ground arith) refl)

  -- A session whose promise has an outcome stops the loop.
  pop_stuck :
      (x : ℕ) (before : List (Session B)) (s : Session B) (after : List (Session B))
      → has_barrier x before ≡ false
      → all_open before ≡ true
      → is_barrier x s ≡ false
      → s.satisfied ≡ true
      → ((pop x (before ++ s ∷ after)).outcomes ≡ all_overtaken before)
        × ((pop x (before ++ s ∷ after)).thrown ≡ some promise_already_satisfied)
  unfolding pop close set_promise set_outcome has_barrier all_open all_overtaken
  pop_stuck x [] s after n o t u = (ground (arith, t, u), ground (arith, t, u))
  pop_stuck x (b ∷ before) s after n o t u =
      let (p, q) = pop_stuck x before s after (ground (arith, n)) (ground (arith, o)) t u in
      let f : is_barrier x b ≡ false = ground (arith, n) in
      let (os, th) = close_open b (ground (arith, o)) in
      (ground (arith, f, os, th, p, q), ground (arith, f, os, th, p, q))

  find_first :
      (xid : ℕ) (before : List (Session B)) (s : Session B) (after : List (Session B))
      → find_in xid before ≡ none
      → s.xid ≡ xid
      → find_in xid (before ++ s ∷ after) ≡ some s
  unfolding find_in
  find_first xid [] s after n e = ground (arith, e)
  find_first xid (b ∷ before) s after n e = ground (arith, n, e, find_first xid before s after)

  replace_first :
      (xid : ℕ) (before : List (Session B)) (s t : Session B) (after : List (Session B))
      → find_in xid before ≡ none
      → s.xid ≡ xid
      → replace xid t (before ++ s ∷ after) ≡ before ++ t ∷ after
  unfolding find_in replace
  replace_first xid [] s t after n e = ground (arith, e)
  replace_first xid (b ∷ before) s t after n e =
      ground (arith, n, e, replace_first xid before s t after)

  abbrev over : Session B → Session B
  over s = record s { value_set = true; satisfied = true }

  error_visit :
      (type code : ℕ) (s : Session B)
      → s.kind ≡ no_respond_session
      → is_open s ≡ true
      → visit (set_outcome (openflow_error type code)) s ≡ record {
        session = over s;
        outcomes = (s.xid, not_responded) ∷ [];
        thrown = some promise_already_satisfied;
      }
  unfolding visit set_outcome waiting_for_response
  error_visit type code s k o = let f : s.satisfied ≡ false = ground (arith, o) in rw (k, f) refl

  -- The error for a message without a response.
  error_throws :
      (type code : ℕ) (before : List (Session B)) (s : Session B) (after : List (Session B))
      (a : OfAgent B)
      → ltb s.xid minimal_xid ≡ false
      → find_in s.xid before ≡ none
      → s.kind ≡ no_respond_session
      → is_open s ≡ true
      → process (error s.xid type code) (record a { tasks = before ++ s ∷ after }) ≡ record {
        agent = record a { tasks = before ++ over s ∷ after };
        outcomes = (s.xid, not_responded) ∷ [];
        thrown = some promise_already_satisfied;
      }
  unfolding process process_error on_response find_task
  error_throws type code before s after a l n k o =
      rw
        (
          l,
          find_first s.xid before s after n refl,
          error_visit type code s k o,
          replace_first s.xid before s (over s) after n refl,
        )
        refl

  stuck_reply :
      (x : ℕ) (a : OfAgent B)
      → has_barrier x a.tasks ≡ true
      → ((process (barrier_reply x) a).outcomes ≡ (pop x a.tasks).outcomes)
        × ((process (barrier_reply x) a).thrown ≡ (pop x a.tasks).thrown)
  unfolding process pop_tasks_until
  stuck_reply x a h = rw h (refl, refl)

  has_barrier_later :
      (x : ℕ) (before : List (Session B)) (s : Session B) (after : List (Session B))
      → has_barrier x after ≡ true
      → has_barrier x (before ++ s ∷ after) ≡ true
  unfolding has_barrier
  has_barrier_later x [] s after h = ground (arith, h)
  has_barrier_later x (b ∷ before) s after h = ground (arith, has_barrier_later x before s after h)

  -- What an error and then a barrier reply give.
  abbrev pub Blocked : ℕ → Outcomes B → Step B → Type 0
  Blocked x os t =
      (t.thrown ≡ some promise_already_satisfied)
      × ((process (barrier_reply x) t.agent).thrown ≡ some promise_already_satisfied)
      × ((process (barrier_reply x) t.agent).outcomes ≡ os)

  -- An error for a message without a response, the first session with its identifier, throws and
  -- leaves its session; a later barrier reply then settles the sessions before it, throws, and
  -- does not settle the barrier, if no promise before it had an outcome and the barrier comes
  -- later.
  pub error_blocks :
      (x type code : ℕ) (before : List (Session B)) (s : Session B) (after : List (Session B))
      (a : OfAgent B)
      → ltb s.xid minimal_xid ≡ false
      → find_in s.xid before ≡ none
      → s.kind ≡ no_respond_session
      → is_open s ≡ true
      → all_open before ≡ true
      → has_barrier x before ≡ false
      → has_barrier x after ≡ true
      → Blocked x
          (all_overtaken before)
          (process (error s.xid type code) (record a { tasks = before ++ s ∷ after }))
  error_blocks x type code before s after a l n k o u h b =
      let t : is_barrier x (over s) ≡ false = rw k (ground arith) in
      let (os, th) = pop_stuck x before (over s) after h u t refl in
      let (os', th') =
        stuck_reply x (record a { tasks = before ++ over s ∷ after })
          (has_barrier_later x before (over s) after b) in
      rw (error_throws type code before s after a l n k o) (refl, th' ∙ th, os' ∙ os)
