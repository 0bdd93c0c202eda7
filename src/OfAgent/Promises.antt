-- ===== src/OfAgent/Promises.antt =====
-- The promises of an agent over a run of calls, replies and barriers that others send.
use runos.Base.{
  ℕ, ◌+◌, ◌≡◌, refl, ◌∙◌, Bool, true, false, ◌||◌, List, [], ◌∷◌, ◌++◌, ◌==◌, if◌then◌else◌, arith,
}
use runos.OfAgent.Sessions.{
  Kind, flow_aggregate_session, flow_stat_seq_session, get_config_session, group_desc_seq_session,
  group_stat_seq_session, group_stat_session, meter_config_seq_session, meter_features_session,
  meter_stat_seq_session, meter_stat_session, no_respond_session, port_desc_seq_session,
  port_stat_seq_session, port_stat_session, queue_stat_seq_session, queue_stat_session,
  role_reply_session, switch_desc_session, table_stat_seq_session, barrier_session, Outcomes,
  Session, OfAgent, new_session,
}
use runos.OfAgent.Visitors.{Message, process}
use runos.OfAgent.Honest.{settled, pending, tidy, settled-append}
use runos.OfAgent.Running.{process-IsConserving}
use runos.OfAgent.Requests.{
  Call, Request, Requested, call, request, hooked, send_hook, xid_of, throw_if, any, all, barrier,
  barrier_request, aggregate_request, desc_request, flow_mod, flow_request, get_config_request,
  group_all, group_desc_request, group_mod, group_request, meter_config_request,
  meter_features_request, meter_mod, meter_request, mod_request, port_description_request,
  port_stats_request, queue_request, request_aggregate, request_all_group_stats,
  request_all_meter_stats, request_all_port_stats, request_all_queue_stats, request_config,
  request_flow_stats, request_group_desc, request_group_stats, request_meter_config,
  request_meter_features, request_meter_stats, request_port_desc, request_port_queue_stats,
  request_port_stats, request_queue_stats, request_role, request_switch_desc, request_table_stats,
  role_request, set_config, set_config_request, table_request,
}

-- A call that throws invalid_argument.
unfoldable pub refused : {M C : Type 0} → Call M C → Bool
refused (request_port_stats n) = n == any
refused (request_queue_stats n q) = n == any || q == all
refused (request_port_queue_stats n) = n == any
refused (request_group_stats g) = g == any
refused (request_meter_stats m) = m == all
refused _ = false

-- The sessions that a call opens: the hook opens another one for a barrier.
unfoldable pub opens : {M C : Type 0} → Call M C → Bool → ℕ
unfolding refused
opens barrier up = if up then 2 else 1
opens c up = if refused c then 0 else 1

module _ {B : Type 0} where
  pending-push :
      (x xid : ℕ) (k : Kind) (ss : List (Session B))
      → pending x (ss ++ new_session k xid ∷ []) ≡ pending x ss + (if xid == x then 1 else 0)
  unfolding pending
  pending-push x xid k [] = ground arith
  pending-push x xid k (s ∷ ss) = ground (arith, pending-push x xid k ss)

  tidy-push :
      (xid : ℕ) (k : Kind) (ss : List (Session B)) → tidy (ss ++ new_session k xid ∷ []) ≡ tidy ss
  unfolding tidy
  tidy-push xid k [] = refl
  tidy-push xid k (s ∷ ss) = ground (arith, tidy-push xid k ss)

module _ {B M C : Type 0} where
  -- What a call does to the promises of an identifier.
  pub record IsOpening (n x : ℕ) (a : OfAgent B) (r : Requested B M C) : Type 0 where
    pub opened_now : pending x r.agent.tasks ≡ pending x a.tasks + (if xid_of a == x then n else 0)
    pub tidy_now : tidy r.agent.tasks ≡ tidy a.tasks

  request-IsOpening :
      (k : Kind) (m : Request M C) (up : Bool) (x : ℕ) (a : OfAgent B)
      → ((xid : ℕ) (b : OfAgent B) → hooked m xid b ≡ b)
      → IsOpening 1 x a (request k m up a)
  unfolding request
  request-IsOpening k m true x a h = rw (h (xid_of a)) (record {
    opened_now = pending-push x (xid_of a) k a.tasks;
    tidy_now = tidy-push (xid_of a) k a.tasks;
  })
  request-IsOpening k m false x a h = record {
    opened_now = pending-push x (xid_of a) k a.tasks;
    tidy_now = tidy-push (xid_of a) k a.tasks;
  }

  barrier-IsOpening :
      (up : Bool) (x : ℕ) (a : OfAgent B)
      → IsOpening (if up then 2 else 1) x a (request barrier_session barrier_request up a)
  unfolding request send_hook
  barrier-IsOpening true x a =
      let first = a.tasks ++ new_session barrier_session (xid_of a) ∷ [] in
      record {
        opened_now = ground (
          arith,
          pending-push x (xid_of a) barrier_session a.tasks,
          pending-push x (xid_of a) barrier_session first,
        );
        tidy_now =
            tidy-push (xid_of a) barrier_session first
            ∙ tidy-push (xid_of a) barrier_session a.tasks;
      }
  barrier-IsOpening false x a = record {
    opened_now = pending-push x (xid_of a) barrier_session a.tasks;
    tidy_now = tidy-push (xid_of a) barrier_session a.tasks;
  }

  throw_if-IsOpening :
      (c : Bool) (x : ℕ) (a : OfAgent B) (r : Requested B M C)
      → IsOpening 1 x a r
      → IsOpening (if c then 0 else 1) x a (throw_if c a r)
  throw_if-IsOpening true x a r h = record { opened_now = ground arith; tidy_now = refl }
  throw_if-IsOpening false x a r h = h

  call-IsOpening :
      (c : Call M C) (up : Bool) (x : ℕ) (a : OfAgent B) → IsOpening (opens c up) x a (call c up a)
  unfolding call opens
  call-IsOpening barrier up x a = barrier-IsOpening up x a
  call-IsOpening request_config up x a =
      request-IsOpening get_config_session get_config_request up x a (λ xid b. refl)
  call-IsOpening (set_config miss flags) up x a =
      request-IsOpening no_respond_session (set_config_request miss flags) up x a (λ xid b. refl)
  call-IsOpening request_switch_desc up x a =
      request-IsOpening switch_desc_session desc_request up x a (λ xid b. refl)
  call-IsOpening (request_role role gen_id) up x a =
      request-IsOpening role_reply_session (role_request role gen_id) up x a (λ xid b. refl)
  call-IsOpening request_port_desc up x a =
      request-IsOpening port_desc_seq_session port_description_request up x a (λ xid b. refl)
  call-IsOpening (request_port_stats n) up x a =
      throw_if-IsOpening (n == any) x a (request port_stat_session (port_stats_request n) up a)
        (request-IsOpening port_stat_session (port_stats_request n) up x a (λ xid b. refl))
  call-IsOpening request_all_port_stats up x a =
      request-IsOpening port_stat_seq_session (port_stats_request any) up x a (λ xid b. refl)
  call-IsOpening (request_queue_stats n q) up x a =
      throw_if-IsOpening (n == any || q == all) x a
        (request queue_stat_session (queue_request n q) up a)
        (request-IsOpening queue_stat_session (queue_request n q) up x a (λ xid b. refl))
  call-IsOpening (request_port_queue_stats n) up x a =
      throw_if-IsOpening (n == any) x a (request queue_stat_seq_session (queue_request n all) up a)
        (request-IsOpening queue_stat_seq_session (queue_request n all) up x a (λ xid b. refl))
  call-IsOpening request_all_queue_stats up x a =
      request-IsOpening queue_stat_seq_session (queue_request any all) up x a (λ xid b. refl)
  call-IsOpening (request_flow_stats r) up x a =
      request-IsOpening flow_stat_seq_session (flow_request r) up x a (λ xid b. refl)
  call-IsOpening (request_aggregate r) up x a =
      request-IsOpening flow_aggregate_session (aggregate_request r) up x a (λ xid b. refl)
  call-IsOpening request_group_desc up x a =
      request-IsOpening group_desc_seq_session group_desc_request up x a (λ xid b. refl)
  call-IsOpening (request_group_stats g) up x a =
      throw_if-IsOpening (g == any) x a (request group_stat_session (group_request g) up a)
        (request-IsOpening group_stat_session (group_request g) up x a (λ xid b. refl))
  call-IsOpening request_all_group_stats up x a =
      request-IsOpening group_stat_seq_session (group_request group_all) up x a (λ xid b. refl)
  call-IsOpening request_table_stats up x a =
      request-IsOpening table_stat_seq_session table_request up x a (λ xid b. refl)
  call-IsOpening (request_meter_stats m) up x a =
      throw_if-IsOpening (m == all) x a (request meter_stat_session (meter_request m) up a)
        (request-IsOpening meter_stat_session (meter_request m) up x a (λ xid b. refl))
  call-IsOpening request_all_meter_stats up x a =
      request-IsOpening meter_stat_seq_session (meter_request all) up x a (λ xid b. refl)
  call-IsOpening request_meter_config up x a =
      request-IsOpening meter_config_seq_session (meter_config_request all) up x a (λ xid b. refl)
  call-IsOpening request_meter_features up x a =
      request-IsOpening meter_features_session meter_features_request up x a (λ xid b. refl)
  call-IsOpening (flow_mod m) up x a =
      request-IsOpening no_respond_session (mod_request m) up x a (λ xid b. refl)
  call-IsOpening (group_mod m) up x a =
      request-IsOpening no_respond_session (mod_request m) up x a (λ xid b. refl)
  call-IsOpening (meter_mod m) up x a =
      request-IsOpening no_respond_session (mod_request m) up x a (λ xid b. refl)

abbrev IsBalanced : {B : Type 0} → ℕ → ℕ → OfAgent B → OfAgent B × Outcomes B → Type 0
IsBalanced x n a (b, os) =
    (settled x os + pending x b.tasks ≡ pending x a.tasks + n) × (tidy b.tasks ≡ true)

-- `sends` is the barrier of another sender on the connection.
pub data Event (B M C : Type 0) : Type 0 where
  calls : Call M C → Bool → Event B M C
  receives : Message B → Event B M C
  sends : ℕ → Event B M C

module _ {B M C : Type 0} where
  abbrev pub perform : Event B M C → OfAgent B → OfAgent B × Outcomes B
  perform (calls c up) a = ((call c up a).agent, [])
  perform (receives m) a = ((process m a).agent, (process m a).outcomes)
  perform (sends xid) a = (send_hook xid a, [])

  unfoldable pub run : List (Event B M C) → OfAgent B → OfAgent B × Outcomes B
  run [] a = (a, [])
  run (e ∷ es) a = let (b, os) = perform e a in let (c, ps) = run es b in (c, os ++ ps)

  -- The sessions that an event opens for an identifier.
  abbrev pub opened_by : ℕ → Event B M C → OfAgent B → ℕ
  opened_by x (calls c up) a = if xid_of a == x then opens c up else 0
  opened_by x (receives m) a = 0
  opened_by x (sends xid) a = if xid == x then 1 else 0

  unfoldable pub opened : ℕ → List (Event B M C) → OfAgent B → ℕ
  opened x [] a = 0
  opened x (e ∷ es) a = opened_by x e a + opened x es (perform e a).0

  perform-IsBalanced :
      (x : ℕ) (e : Event B M C) (a : OfAgent B)
      → tidy a.tasks ≡ true
      → IsBalanced x (opened_by x e a) a (perform e a)
  unfolding settled send_hook
  perform-IsBalanced x (calls c up) a t =
      let o = call-IsOpening c up x a in (ground (arith, o.opened_now), o.tidy_now ∙ t)
  perform-IsBalanced x (receives m) a t =
      let c = process-IsConserving m x a t in (ground (arith, c.conserved), c.tidied)
  perform-IsBalanced x (sends xid) a t = (
    ground (arith, pending-push x xid barrier_session a.tasks),
    tidy-push xid barrier_session a.tasks ∙ t,
  )

  run-IsBalanced :
      (x : ℕ) (es : List (Event B M C)) (a : OfAgent B)
      → tidy a.tasks ≡ true
      → IsBalanced x (opened x es a) a (run es a)
  unfolding run opened settled
  run-IsBalanced x [] a t = (ground arith, t)
  run-IsBalanced x (e ∷ es) a t =
      let (b, os) = perform e a in
      let (h, u) = perform-IsBalanced x e a t in
      let (k, v) = run-IsBalanced x es (perform e a).0 u in
      (ground (arith, h, k, settled-append x (perform e a).1 (run es (perform e a).0).1), v)

  -- Over any sequence of calls, received messages and barriers of other senders, the promises of
  -- an identifier that got an outcome and those that still wait are together the ones that waited
  -- before and the sessions opened for it, two for a barrier that is sent, if each session that is
  -- done with had its outcome before; so no promise is lost or settled twice.
  pub run_settles_once :
      (x : ℕ) (es : List (Event B M C)) (a : OfAgent B)
      → tidy a.tasks ≡ true
      → settled x (run es a).1 + pending x (run es a).0.tasks ≡ pending x a.tasks + opened x es a
  run_settles_once x es a t = (run-IsBalanced x es a t).0
