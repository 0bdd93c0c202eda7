-- ===== src/OfAgent/Answering.antt =====
-- The reply in several parts, and the answer to each call.
use mathlib.Core.List.{append_assoc}
use runos.Base.{
  ℕ, ◌≡◌, refl, ap, ◌∙◌, true, false, none, some, List, [], ◌∷◌, ◌++◌, ltb, if◌then◌else◌, arith,
}
use runos.OfAgent.Sessions.{
  Kind, port_desc_seq_session, port_stat_seq_session, queue_stat_seq_session, flow_stat_seq_session,
  group_desc_seq_session, group_stat_seq_session, table_stat_seq_session, meter_stat_seq_session,
  meter_config_seq_session, many, minimal_xid, is_thrown, Session, Answer, OfAgent, Step,
  set_outcome, visit, find_in, find_task, replace, erase, left, on_response, waiting_for_response,
}
use runos.OfAgent.Visitors.{
  Message, Multipart, port_description_reply, port_stats_reply, queue_reply, flow_reply,
  group_reply, group_desc_reply, table_reply, meter_reply, meter_config_reply, take_all, process,
  port_description_visitor, port_stats_visitor, queue_visitor, flow_visitor, group_visitor,
  group_desc_visitor, table_visitor, meter_visitor, meter_config_visitor,
}

-- What a switch tells in several parts.
pub data Series : Type 0 where
  ports port_stats queues flows group_descs groups tables meters meter_configs : Series

abbrev pub session_of : Series → Kind
session_of ports = port_desc_seq_session
session_of port_stats = port_stat_seq_session
session_of queues = queue_stat_seq_session
session_of flows = flow_stat_seq_session
session_of group_descs = group_desc_seq_session
session_of groups = group_stat_seq_session
session_of tables = table_stat_seq_session
session_of meters = meter_stat_seq_session
session_of meter_configs = meter_config_seq_session

abbrev pub part_of : {B : Type 0} → Series → Multipart B → Message B
part_of ports r = port_description_reply r
part_of port_stats r = port_stats_reply r
part_of queues r = queue_reply r
part_of flows r = flow_reply r
part_of group_descs r = group_desc_reply r
part_of groups r = group_reply r
part_of tables r = table_reply r
part_of meters r = meter_reply r
part_of meter_configs r = meter_config_reply r

module _ {B : Type 0} where
  -- The step when a session is found and its answer does not throw.
  abbrev pub answered : ℕ → Answer B → OfAgent B → Step B
  answered xid t a = record {
    agent = record a { tasks = left xid t a.tasks };
    outcomes = t.outcomes;
    thrown = t.thrown;
  }

  pub found_answer :
      (xid : ℕ) (visitor : Session B → Answer B) (a : OfAgent B) (s : Session B)
      → ltb xid minimal_xid ≡ false
      → find_in xid a.tasks ≡ some s
      → waiting_for_response s.kind ≡ true
      → on_response xid visitor a ≡ answered xid (visitor s) a
  unfolding on_response find_task visit
  found_answer xid visitor a s l f w = rw (l, f, w) refl

  part_answer :
      (c : Series) (r : Multipart B) (a : OfAgent B) (s : Session B)
      → s.kind ≡ session_of c
      → ltb r.xid minimal_xid ≡ false
      → find_in r.xid a.tasks ≡ some s
      → process (part_of c r) a ≡ answered r.xid (take_all r s) a
  unfolding process waiting_for_response
  part_answer ports r a s k l f =
      found_answer r.xid (λ t. port_description_visitor r t.kind t) a s l f (rw k refl) ∙ rw k refl
  part_answer port_stats r a s k l f =
      found_answer r.xid (λ t. port_stats_visitor r t.kind t) a s l f (rw k refl) ∙ rw k refl
  part_answer queues r a s k l f =
      found_answer r.xid (λ t. queue_visitor r t.kind t) a s l f (rw k refl) ∙ rw k refl
  part_answer flows r a s k l f =
      found_answer r.xid (λ t. flow_visitor r t.kind t) a s l f (rw k refl) ∙ rw k refl
  part_answer group_descs r a s k l f =
      found_answer r.xid (λ t. group_desc_visitor r t.kind t) a s l f (rw k refl) ∙ rw k refl
  part_answer groups r a s k l f =
      found_answer r.xid (λ t. group_visitor r t.kind t) a s l f (rw k refl) ∙ rw k refl
  part_answer tables r a s k l f =
      found_answer r.xid (λ t. table_visitor r t.kind t) a s l f (rw k refl) ∙ rw k refl
  part_answer meters r a s k l f =
      found_answer r.xid (λ t. meter_visitor r t.kind t) a s l f (rw k refl) ∙ rw k refl
  part_answer meter_configs r a s k l f =
      found_answer r.xid (λ t. meter_config_visitor r t.kind t) a s l f (rw k refl) ∙ rw k refl

  -- All parts but the last have the flag.
  pub receive_parts : Series → ℕ → List (List B) → List B → OfAgent B → Step B
  receive_parts c xid [] last a =
      process (part_of c (record { xid = xid; more = false; items = last })) a
  receive_parts c xid (p ∷ ps) last a =
      let t = process (part_of c (record { xid = xid; more = true; items = p })) a in
      let u = receive_parts c xid ps last t.agent in
      if is_thrown t.thrown then t else record u { outcomes = t.outcomes ++ u.outcomes }

  pub concat : List (List B) → List B → List B
  concat [] last = last
  concat (p ∷ ps) last = p ++ concat ps last

  last_part :
      (xid : ℕ) (last : List B) (s : Session B)
      → s.xid ≡ xid
      → s.satisfied ≡ false
      → take_all (record { xid = xid; more = false; items = last }) s ≡ record {
        session = record s { ret = s.ret ++ last; value_set = true; satisfied = true };
        outcomes = (xid, many (s.ret ++ last)) ∷ [];
        thrown = none;
      }
  unfolding take_all set_outcome
  last_part xid last s e f = rw (f, e) refl

  find-replace :
      (xid : ℕ) (s t : Session B) (ss : List (Session B))
      → find_in xid ss ≡ some s
      → t.xid ≡ xid
      → find_in xid (replace xid t ss) ≡ some t
  unfolding find_in replace
  find-replace xid s t [] f e = absurd (ground (arith, f))
  find-replace xid s t (u ∷ ss) f e = ground (arith, f, e, find-replace xid s t ss)

  erase-replace :
      (xid : ℕ) (t : Session B) (ss : List (Session B))
      → t.xid ≡ xid
      → erase xid (replace xid t ss) ≡ erase xid ss
  unfolding erase replace
  erase-replace xid t [] e = refl
  erase-replace xid t (u ∷ ss) e = ground (arith, e, erase-replace xid t ss)

  found_xid :
      (xid : ℕ) (s : Session B) (ss : List (Session B)) → find_in xid ss ≡ some s → s.xid ≡ xid
  unfolding find_in
  found_xid xid s [] f = absurd (ground (arith, f))
  found_xid xid s (u ∷ ss) f = ground (arith, f, found_xid xid s ss)

  abbrev pub Collected : ℕ → List (List B) → List B → OfAgent B → Session B → Step B
  Collected xid ps last a s = record {
    agent = record a { tasks = erase xid a.tasks };
    outcomes = (xid, many (s.ret ++ concat ps last)) ∷ [];
    thrown = none;
  }

  last_collected :
      (c : Series) (xid : ℕ) (last : List B) (a : OfAgent B) (s : Session B)
      → ltb xid minimal_xid ≡ false
      → find_in xid a.tasks ≡ some s
      → s.kind ≡ session_of c
      → s.satisfied ≡ false
      → process (part_of c (record { xid = xid; more = false; items = last })) a
        ≡ Collected xid [] last a s
  unfolding concat
  last_collected c xid last a s l f k u =
      part_answer c (record { xid = xid; more = false; items = last }) a s k l f
      ∙ ap (λ t. answered xid t a) (last_part xid last s (found_xid xid s a.tasks f) u)

  more_collected :
      (c : Series) (xid : ℕ) (p : List B) (a : OfAgent B) (s : Session B)
      → ltb xid minimal_xid ≡ false
      → find_in xid a.tasks ≡ some s
      → s.kind ≡ session_of c
      → s.value_set ≡ false
      → process (part_of c (record { xid = xid; more = true; items = p })) a ≡ record {
        agent = record a { tasks = replace xid (record s { ret = s.ret ++ p }) a.tasks };
        outcomes = [];
        thrown = none;
      }
  unfolding take_all
  more_collected c xid p a s l f k v =
      part_answer c (record { xid = xid; more = true; items = p }) a s k l f ∙ rw v refl

  -- Replies in any number of parts to a request for a sequence settle its promise once, after the
  -- last part, with what it had collected and the items of all parts in their order, and take the
  -- session away; the other sessions stay, if the session is the first with the identifier, that
  -- is not reserved, and has no outcome.
  pub parts_collected :
      (c : Series) (xid : ℕ) (ps : List (List B)) (last : List B) (a : OfAgent B) (s : Session B)
      → ltb xid minimal_xid ≡ false
      → find_in xid a.tasks ≡ some s
      → s.kind ≡ session_of c
      → s.satisfied ≡ false
      → s.value_set ≡ false
      → receive_parts c xid ps last a ≡ Collected xid ps last a s
  unfolding receive_parts concat
  parts_collected c xid [] last a s l f k u v = last_collected c xid last a s l f k u
  parts_collected c xid (p ∷ ps) last a s l f k u v =
      let t = record s { ret = s.ret ++ p } in
      let e = found_xid xid s a.tasks f in
      rw
        (
          more_collected c xid p a s l f k v,
          parts_collected c xid ps last (record a { tasks = replace xid t a.tasks }) t l
              (find-replace xid s t a.tasks f e) k u v,
          erase-replace xid t a.tasks e,
          append_assoc s.ret p (concat ps last),
        )
        refl
