-- ===== src/OfAgent/Requests.antt =====
-- The requests of src/core/OFAgentImpl.cc, `request` of OFAgentImpl.hpp and the class SendHandler. Every
-- multipart request is sent with no flags.
use runos.Base.{
  ℕ, ◌+◌, ◌%◌, ◌^◌, Bool, ◌||◌, Option, none, some, List, [], ◌∷◌, ◌++◌, ◌==◌, if◌then◌else◌,
}
use runos.OfAgent.Sessions.{
  Kind, barrier_session, no_respond_session, get_config_session, switch_desc_session,
  role_reply_session, port_desc_seq_session, port_stat_session, port_stat_seq_session,
  queue_stat_session, queue_stat_seq_session, flow_stat_seq_session, flow_aggregate_session,
  group_desc_seq_session, group_stat_session, group_stat_seq_session, table_stat_seq_session,
  meter_stat_session, meter_stat_seq_session, meter_config_seq_session, meter_features_session,
  Session, OfAgent, new_session,
}

-- ofp::flow_stats_request; the match is of libfluid.
pub record FlowStatsRequest (M : Type 0) : Type 0 where
  pub table_id : ℕ
  pub out_port : ℕ
  pub out_group : ℕ
  pub cookie : ℕ
  pub cookie_mask : ℕ
  pub match : M

-- The messages that are sent; `C` are the mods of flows, groups and meters.
pub data Request (M C : Type 0) : Type 0 where
  barrier_request get_config_request desc_request port_description_request group_desc_request
        table_request meter_features_request :
      Request M C
  set_config_request : ℕ → ℕ → Request M C
  role_request : ℕ → ℕ → Request M C
  port_stats_request : ℕ → Request M C
  queue_request : ℕ → ℕ → Request M C
  flow_request aggregate_request : FlowStatsRequest M → Request M C
  group_request meter_request meter_config_request : ℕ → Request M C
  mod_request : C → Request M C

-- The exceptions carry no state; what was pushed stays.
pub data Failed : Type 0 where
  request_error invalid_argument : Failed

-- The list afterwards, what is sent with its identifier, and what is thrown instead.
pub record Requested (B M C : Type 0) : Type 0 where
  pub agent : OfAgent B
  pub sent : List (ℕ × Request M C)
  pub failed : Option Failed

-- OFPP_ANY and OFPG_ANY; OFPQ_ALL and OFPM_ALL; OFPG_ALL
abbrev pub any : ℕ
any = 4294967295

abbrev pub all : ℕ
all = 4294967295

abbrev pub group_all : ℕ
group_all = 4294967292

module _ {B : Type 0} where
  abbrev pub push : Session B → OfAgent B → OfAgent B
  push s a = record a { tasks = a.tasks ++ s ∷ [] }

  -- SendHandler::process
  unfoldable pub send_hook : ℕ → OfAgent B → OfAgent B
  send_hook xid a = push (new_session barrier_session xid) a

  -- An identifier of 32 bits of the counter of 64.
  abbrev pub xid_of : OfAgent B → ℕ
  xid_of a = a.next_xid % 2 ^ 32

module _ {B M C : Type 0} where
  abbrev pub hooked : Request M C → ℕ → OfAgent B → OfAgent B
  hooked barrier_request xid a = send_hook xid a
  hooked _ xid a = a

  unfoldable pub request : Kind → Request M C → Bool → OfAgent B → Requested B M C
  unfolding send_hook
  request k m alive a =
      let xid = xid_of a in
      let b = push (new_session k xid) (record a { next_xid = (a.next_xid + 1) % 2 ^ 64 }) in
      if alive
      then record { agent = hooked m xid b; sent = (xid, m) ∷ []; failed = none }
      else record { agent = b; sent = []; failed = some request_error }

  -- `THROW_IF(c, invalid_argument())`
  abbrev pub throw_if : Bool → OfAgent B → Requested B M C → Requested B M C
  throw_if c a r = if c then record { agent = a; sent = []; failed = some invalid_argument } else r

-- The calls of an OFAgent.
pub data Call (M C : Type 0) : Type 0 where
  barrier request_config request_switch_desc request_port_desc request_all_port_stats
        request_all_queue_stats :
      Call M C
  request_group_desc request_all_group_stats request_table_stats request_all_meter_stats
        request_meter_config request_meter_features :
      Call M C
  set_config : ℕ → ℕ → Call M C
  request_role : ℕ → ℕ → Call M C
  request_port_stats request_port_queue_stats request_group_stats request_meter_stats : ℕ → Call M C
  request_queue_stats : ℕ → ℕ → Call M C
  request_flow_stats request_aggregate : FlowStatsRequest M → Call M C
  flow_mod group_mod meter_mod : C → Call M C

unfoldable pub call : {B M C : Type 0} → Call M C → Bool → OfAgent B → Requested B M C
unfolding request
call barrier up a = request barrier_session barrier_request up a
call request_config up a = request get_config_session get_config_request up a
call (set_config miss flags) up a = request no_respond_session (set_config_request miss flags) up a
call request_switch_desc up a = request switch_desc_session desc_request up a
call (request_role role gen_id) up a = request role_reply_session (role_request role gen_id) up a
call request_port_desc up a = request port_desc_seq_session port_description_request up a
call (request_port_stats n) up a =
    throw_if (n == any) a (request port_stat_session (port_stats_request n) up a)
call request_all_port_stats up a = request port_stat_seq_session (port_stats_request any) up a
call (request_queue_stats n q) up a =
    throw_if (n == any || q == all) a (request queue_stat_session (queue_request n q) up a)
call (request_port_queue_stats n) up a =
    throw_if (n == any) a (request queue_stat_seq_session (queue_request n all) up a)
call request_all_queue_stats up a = request queue_stat_seq_session (queue_request any all) up a
call (request_flow_stats r) up a = request flow_stat_seq_session (flow_request r) up a
call (request_aggregate r) up a = request flow_aggregate_session (aggregate_request r) up a
call request_group_desc up a = request group_desc_seq_session group_desc_request up a
call (request_group_stats g) up a =
    throw_if (g == any) a (request group_stat_session (group_request g) up a)
call request_all_group_stats up a = request group_stat_seq_session (group_request group_all) up a
call request_table_stats up a = request table_stat_seq_session table_request up a
call (request_meter_stats m) up a =
    throw_if (m == all) a (request meter_stat_session (meter_request m) up a)
call request_all_meter_stats up a = request meter_stat_seq_session (meter_request all) up a
call request_meter_config up a = request meter_config_seq_session (meter_config_request all) up a
call request_meter_features up a = request meter_features_session meter_features_request up a
call (flow_mod m) up a = request no_respond_session (mod_request m) up a
call (group_mod m) up a = request no_respond_session (mod_request m) up a
call (meter_mod m) up a = request no_respond_session (mod_request m) up a
