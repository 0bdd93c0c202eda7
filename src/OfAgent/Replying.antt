-- ===== src/OfAgent/Replying.antt =====
-- The reply to each call settles its future and closes its session.
use runos.Base.{
  ℕ, ◌+◌, ◌%◌, ◌^◌, ◌≡◌, refl, ◌∙◌, true, false, Option, none, some, List, [], ◌∷◌, ◌++◌, ltb,
  arith,
}
use runos.OfAgent.Sessions.{
  Kind, get_config_session, switch_desc_session, role_reply_session, port_desc_seq_session,
  port_stat_session, port_stat_seq_session, queue_stat_session, queue_stat_seq_session,
  flow_stat_seq_session, flow_aggregate_session, group_desc_seq_session, group_stat_session,
  group_stat_seq_session, table_stat_seq_session, meter_stat_session, meter_stat_seq_session,
  meter_config_seq_session, meter_features_session, Outcome, single, many, minimal_xid, Session,
  Answer, OfAgent, Step, new_session, set_outcome, find_in, erase, on_response,
  waiting_for_response,
}
use runos.OfAgent.Visitors.{
  Message, role_reply, get_config_reply, desc_reply, port_description_reply, port_stats_reply,
  queue_reply, flow_reply, group_reply, group_desc_reply, table_reply, meter_reply,
  meter_config_reply, aggregate_reply, meter_features_reply, take_one, take_all, take_body, process,
  port_description_visitor, port_stats_visitor, queue_visitor, flow_visitor, group_visitor,
  group_desc_visitor, table_visitor, meter_visitor, meter_config_visitor, role_visitor,
  config_visitor, desc_visitor, aggregate_visitor, meter_features_visitor,
}
use runos.OfAgent.Requests.{
  Call, barrier, request_config, request_switch_desc, request_port_desc, request_all_port_stats,
  request_all_queue_stats, request_group_desc, request_all_group_stats, request_table_stats,
  request_all_meter_stats, request_meter_config, request_meter_features, set_config, request_role,
  request_port_stats, request_port_queue_stats, request_group_stats, request_meter_stats,
  request_queue_stats, request_flow_stats, request_aggregate, flow_mod, group_mod, meter_mod,
  Request, get_config_request, desc_request, port_description_request, group_desc_request,
  table_request, meter_features_request, role_request, port_stats_request, queue_request,
  flow_request, aggregate_request, group_request, meter_request, meter_config_request, call,
  request, hooked, xid_of, any, all, group_all,
}
use runos.OfAgent.Promises.{refused}
use runos.OfAgent.Answering.{found_answer}

module _ {B : Type 0} where
  find_new :
      (xid : ℕ) (s : Session B) (ss : List (Session B))
      → find_in xid ss ≡ none
      → s.xid ≡ xid
      → find_in xid (ss ++ s ∷ []) ≡ some s
  unfolding find_in
  find_new xid s [] n e = ground (arith, e)
  find_new xid s (t ∷ ss) n e = ground (arith, n, e, find_new xid s ss)

  erase_new :
      (xid : ℕ) (s : Session B) (ss : List (Session B))
      → find_in xid ss ≡ none
      → s.xid ≡ xid
      → erase xid (ss ++ s ∷ []) ≡ ss
  unfolding find_in erase
  erase_new xid s [] n e = ground (arith, e)
  erase_new xid s (t ∷ ss) n e = ground (arith, n, e, erase_new xid s ss)

  -- The list is what it was before the call.
  abbrev pub Settled : OfAgent B → Outcome B → Step B → Type 0
  Settled a v t = t ≡ record {
    agent = record a { next_xid = (a.next_xid + 1) % 2 ^ 64 };
    outcomes = (xid_of a, v) ∷ [];
    thrown = none;
  }

  abbrev pub Replied : OfAgent B → Outcome B → OfAgent B → Option (Message B) → Type 0
  Replied a v after none = Unit
  Replied a v after (some m) = Settled a v (process m after)

module _ {B M C : Type 0} where
  new_answered :
      (k : Kind) (m : Request M C) (visitor : Session B → Answer B) (a : OfAgent B) (v : Outcome B)
      → ((xid : ℕ) (c : OfAgent B) → hooked m xid c ≡ c)
      → waiting_for_response k ≡ true
      → ltb (xid_of a) minimal_xid ≡ false
      → find_in (xid_of a) a.tasks ≡ none
      → (visitor (new_session k (xid_of a))).thrown ≡ none
      → (visitor (new_session k (xid_of a))).session.value_set ≡ true
      → (visitor (new_session k (xid_of a))).outcomes ≡ (xid_of a, v) ∷ []
      → Settled a v (on_response (xid_of a) visitor (request k m true a).agent)
  unfolding request
  new_answered k m visitor a v h w l n t u o =
      let s = new_session k (xid_of a) in
      rw (h (xid_of a)) (
        found_answer (xid_of a) visitor
          (record { tasks = a.tasks ++ s ∷ []; next_xid = (a.next_xid + 1) % 2 ^ 64 }) s l
          (find_new (xid_of a) s a.tasks n refl) w
        ∙ rw (t, u, o, erase_new (xid_of a) s a.tasks n refl) refl)

  -- What a switch replies to a call, by the protocol: nothing to a mod, to a barrier something else.
  abbrev pub reply_to : Call M C → ℕ → B → Option (Message B)
  reply_to request_config xid b = some (get_config_reply xid b)
  reply_to request_switch_desc xid b = some (desc_reply xid b)
  reply_to (request_role role gen_id) xid b = some (role_reply xid b)
  reply_to request_port_desc xid b =
      some (port_description_reply (record { xid = xid; more = false; items = b ∷ [] }))
  reply_to (request_port_stats n) xid b =
      some (port_stats_reply (record { xid = xid; more = false; items = b ∷ [] }))
  reply_to request_all_port_stats xid b =
      some (port_stats_reply (record { xid = xid; more = false; items = b ∷ [] }))
  reply_to (request_queue_stats n q) xid b =
      some (queue_reply (record { xid = xid; more = false; items = b ∷ [] }))
  reply_to (request_port_queue_stats n) xid b =
      some (queue_reply (record { xid = xid; more = false; items = b ∷ [] }))
  reply_to request_all_queue_stats xid b =
      some (queue_reply (record { xid = xid; more = false; items = b ∷ [] }))
  reply_to (request_flow_stats r) xid b =
      some (flow_reply (record { xid = xid; more = false; items = b ∷ [] }))
  reply_to (request_aggregate r) xid b = some (aggregate_reply xid false b)
  reply_to request_group_desc xid b =
      some (group_desc_reply (record { xid = xid; more = false; items = b ∷ [] }))
  reply_to (request_group_stats g) xid b =
      some (group_reply (record { xid = xid; more = false; items = b ∷ [] }))
  reply_to request_all_group_stats xid b =
      some (group_reply (record { xid = xid; more = false; items = b ∷ [] }))
  reply_to request_table_stats xid b =
      some (table_reply (record { xid = xid; more = false; items = b ∷ [] }))
  reply_to (request_meter_stats m) xid b =
      some (meter_reply (record { xid = xid; more = false; items = b ∷ [] }))
  reply_to request_all_meter_stats xid b =
      some (meter_reply (record { xid = xid; more = false; items = b ∷ [] }))
  reply_to request_meter_config xid b =
      some (meter_config_reply (record { xid = xid; more = false; items = b ∷ [] }))
  reply_to request_meter_features xid b = some (meter_features_reply xid false b)
  reply_to _ xid b = none

  abbrev pub value_to : Call M C → B → Outcome B
  value_to request_port_desc b = many (b ∷ [])
  value_to request_all_port_stats b = many (b ∷ [])
  value_to (request_port_queue_stats n) b = many (b ∷ [])
  value_to request_all_queue_stats b = many (b ∷ [])
  value_to (request_flow_stats r) b = many (b ∷ [])
  value_to request_group_desc b = many (b ∷ [])
  value_to request_all_group_stats b = many (b ∷ [])
  value_to request_table_stats b = many (b ∷ [])
  value_to request_all_meter_stats b = many (b ∷ [])
  value_to request_meter_config b = many (b ∷ [])
  value_to _ b = single b

  -- For every call on a live connection that expects a reply and is not refused, with a fresh
  -- identifier above the reserved ones, the reply of the protocol with one item settles its
  -- promise with that item or the list of it and leaves the sessions as they were before the call;
  -- nothing is thrown.
  pub call-Replied :
      (c : Call M C) (b : B) (a : OfAgent B)
      → ltb (xid_of a) minimal_xid ≡ false
      → find_in (xid_of a) a.tasks ≡ none
      → refused c ≡ false
      → Replied a (value_to c b) (call c true a).agent (reply_to c (xid_of a) b)
  unfolding call process refused waiting_for_response set_outcome take_one take_all take_body
  call-Replied barrier b a low fresh given = tt
  call-Replied request_config b a low fresh given =
      new_answered get_config_session get_config_request (λ s. config_visitor b s.kind s) a
        (single b) (λ xid c. refl) refl low fresh refl refl refl
  call-Replied (set_config miss flags) b a low fresh given = tt
  call-Replied request_switch_desc b a low fresh given =
      new_answered switch_desc_session desc_request (λ s. desc_visitor b s.kind s) a (single b)
        (λ xid c. refl) refl low fresh refl refl refl
  call-Replied (request_role role gen_id) b a low fresh given =
      new_answered role_reply_session (role_request role gen_id) (λ s. role_visitor b s.kind s) a
        (single b) (λ xid c. refl) refl low fresh refl refl refl
  call-Replied request_port_desc b a low fresh given =
      new_answered port_desc_seq_session port_description_request
        (λ s.
          port_description_visitor (record { xid = xid_of a; more = false; items = b ∷ [] }) s.kind
            s)
        a (many (b ∷ [])) (λ xid c. refl) refl low fresh refl refl refl
  call-Replied (request_port_stats n) b a low fresh given = rw given (
      new_answered port_stat_session (port_stats_request n)
        (λ s. port_stats_visitor (record { xid = xid_of a; more = false; items = b ∷ [] }) s.kind s)
        a (single b) (λ xid c. refl) refl low fresh refl refl refl)
  call-Replied request_all_port_stats b a low fresh given =
      new_answered port_stat_seq_session (port_stats_request any)
        (λ s. port_stats_visitor (record { xid = xid_of a; more = false; items = b ∷ [] }) s.kind s)
        a (many (b ∷ [])) (λ xid c. refl) refl low fresh refl refl refl
  call-Replied (request_queue_stats n q) b a low fresh given = rw given (
      new_answered queue_stat_session (queue_request n q)
        (λ s. queue_visitor (record { xid = xid_of a; more = false; items = b ∷ [] }) s.kind s) a
        (single b) (λ xid c. refl) refl low fresh refl refl refl)
  call-Replied (request_port_queue_stats n) b a low fresh given = rw given (
      new_answered queue_stat_seq_session (queue_request n all)
        (λ s. queue_visitor (record { xid = xid_of a; more = false; items = b ∷ [] }) s.kind s) a
        (many (b ∷ [])) (λ xid c. refl) refl low fresh refl refl refl)
  call-Replied request_all_queue_stats b a low fresh given =
      new_answered queue_stat_seq_session (queue_request any all)
        (λ s. queue_visitor (record { xid = xid_of a; more = false; items = b ∷ [] }) s.kind s) a
        (many (b ∷ [])) (λ xid c. refl) refl low fresh refl refl refl
  call-Replied (request_flow_stats r) b a low fresh given =
      new_answered flow_stat_seq_session (flow_request r)
        (λ s. flow_visitor (record { xid = xid_of a; more = false; items = b ∷ [] }) s.kind s) a
        (many (b ∷ [])) (λ xid c. refl) refl low fresh refl refl refl
  call-Replied (request_aggregate r) b a low fresh given =
      new_answered flow_aggregate_session (aggregate_request r)
        (λ s. aggregate_visitor false b s.kind s) a (single b) (λ xid c. refl) refl low fresh refl
        refl refl
  call-Replied request_group_desc b a low fresh given =
      new_answered group_desc_seq_session group_desc_request
        (λ s. group_desc_visitor (record { xid = xid_of a; more = false; items = b ∷ [] }) s.kind s)
        a (many (b ∷ [])) (λ xid c. refl) refl low fresh refl refl refl
  call-Replied (request_group_stats g) b a low fresh given = rw given (
      new_answered group_stat_session (group_request g)
        (λ s. group_visitor (record { xid = xid_of a; more = false; items = b ∷ [] }) s.kind s) a
        (single b) (λ xid c. refl) refl low fresh refl refl refl)
  call-Replied request_all_group_stats b a low fresh given =
      new_answered group_stat_seq_session (group_request group_all)
        (λ s. group_visitor (record { xid = xid_of a; more = false; items = b ∷ [] }) s.kind s) a
        (many (b ∷ [])) (λ xid c. refl) refl low fresh refl refl refl
  call-Replied request_table_stats b a low fresh given =
      new_answered table_stat_seq_session table_request
        (λ s. table_visitor (record { xid = xid_of a; more = false; items = b ∷ [] }) s.kind s) a
        (many (b ∷ [])) (λ xid c. refl) refl low fresh refl refl refl
  call-Replied (request_meter_stats m) b a low fresh given = rw given (
      new_answered meter_stat_session (meter_request m)
        (λ s. meter_visitor (record { xid = xid_of a; more = false; items = b ∷ [] }) s.kind s) a
        (single b) (λ xid c. refl) refl low fresh refl refl refl)
  call-Replied request_all_meter_stats b a low fresh given =
      new_answered meter_stat_seq_session (meter_request all)
        (λ s. meter_visitor (record { xid = xid_of a; more = false; items = b ∷ [] }) s.kind s) a
        (many (b ∷ [])) (λ xid c. refl) refl low fresh refl refl refl
  call-Replied request_meter_config b a low fresh given =
      new_answered meter_config_seq_session (meter_config_request all)
        (λ s.
          meter_config_visitor (record { xid = xid_of a; more = false; items = b ∷ [] }) s.kind s)
        a (many (b ∷ [])) (λ xid c. refl) refl low fresh refl refl refl
  call-Replied request_meter_features b a low fresh given =
      new_answered meter_features_session meter_features_request
        (λ s. meter_features_visitor false b s.kind s) a (single b) (λ xid c. refl) refl low fresh
        refl refl refl
  call-Replied (flow_mod m) b a low fresh given = tt
  call-Replied (group_mod m) b a low fresh given = tt
  call-Replied (meter_mod m) b a low fresh given = tt
