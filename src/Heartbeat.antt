-- ===== src/Heartbeat.antt =====
-- src/core/hb/heartbeatcore.cc, heartbeatcore.hpp, heartbeatprotocol.hpp: the heartbeat between
-- controllers. Qt is not modelled: a host address is a parameter `H`, a timer is whether it runs,
-- a datagram is what QDataStream reads from it, and what is sent and signalled is a list of outputs.
-- `check_failed` is a failed CHECK, `fatal` is LOG(FATAL), `bad_command` is what _from_integral
-- throws at an unknown code. The event loop runs one slot at a time.
pub mod Timing
pub mod Roles
pub mod Failover
pub mod Handshake
mod Examples
use runos.Base.{
  ℕ, suc, ◌≡◌, Bool, true, false, not, ◌&&◌, ◌||◌, Option, none, some, List, [], ◌∷◌, ◌++◌, ◌==◌,
  if◌then◌else◌,
}
use runos.Base.Int.{ℤ, pos, negsuc, eq_ℤ}
use Timing.{
  Timers, TimerType, Failure, Result, ok, err, check_failed, fatal, bad_command, ◌>>=◌, default_id,
  start_timer, stop_timer, find_timer, BackupTimer, mark_established, all, heartbeat, primary_dead,
  primary_waiting_timer, backup_dead, with_backups,
}

pub data CommunicationType : Type 0 where
  undefined unicast multicast broadcast : CommunicationType

pub data ControllerStatus : Type 0 where
  undefined backup primary recovery : ControllerStatus

abbrev pub Connection : Type 0 → Type 0
Connection H = H × ℕ

pub record EchoMessage : Type 0 where
  pub unique_node_id : ℤ
  pub hb_start_time : ℕ
  pub message_number : ℕ

pub record ParamsMessage (H : Type 0) : Type 0 where
  pub unique_node_id : ℤ
  pub heartbeat_connection_params : Connection H
  pub openflow_connection_params : Connection H
  pub db_connection_params : Connection H

pub data Output (H : Type 0) : Type 0 where
  echo_request echo_reply : EchoMessage → Output H
  parameters_update : ParamsMessage H → Output H
  primary_died mode_changed_to_primary : Output H
  backup_died connection_to_primary_established connection_to_backup_established : ℤ → Output H
  params_changed : ParamsMessage H → Output H

pub record HeartbeatSettings (H : Type 0) : Type 0 where
  pub broadcast_host : H  -- QHostAddress::Broadcast
  pub unicast_host_send_to : H
  pub unicast_port_send_to : ℕ
  pub broadcast_port : ℕ
  pub multicast_host : H
  pub multicast_port : ℕ

pub record HeartbeatCore (H : Type 0) : Type 0 where
  pub settings : HeartbeatSettings H
  pub timers : Timers
  pub bound : Bool  -- the socket is not in the unconnected state
  pub connection : Connection H  -- where the socket sends to
  pub hbcounter : ℕ
  pub is_connection_to_primary_established : Bool
  pub is_link_between_controllers_down : Bool
  pub unique_node_id : ℤ
  pub primary_node_id : ℤ
  pub heartbeat_mode : ControllerStatus
  pub communication_type : CommunicationType
  pub cached_params_message : ParamsMessage H
  pub hb_start_time : ℕ

abbrev pub Stepped : Type 0 → Type 0
Stepped H = Result (HeartbeatCore H × List (Output H))

abbrev pub is_backup : ControllerStatus → Bool
is_backup backup = true
is_backup _ = false

abbrev pub is_primary : ControllerStatus → Bool
is_primary primary = true
is_primary _ = false

module _ {H : Type 0} where
  pub stop_service : HeartbeatCore H → Result (HeartbeatCore H)
  unfolding stop_timer
  stop_service c = do
    t ← stop_timer all default_id c.timers
    ok (record c { timers = t; is_connection_to_primary_established = false })

  -- `binds` is whether QUdpSocket::bind succeeds.
  bind_socket : Bool → HeartbeatCore H → Result (HeartbeatCore H)
  bind_socket binds c =
      if c.bound then ok c else if binds then ok (record c { bound = true }) else err check_failed

  connection_for : CommunicationType → HeartbeatSettings H → Result (Connection H)
  connection_for broadcast s = ok (s.broadcast_host, s.broadcast_port)
  connection_for multicast s = ok (s.multicast_host, s.multicast_port)
  connection_for unicast s = ok (s.unicast_host_send_to, s.unicast_port_send_to)
  connection_for _ s = err check_failed

  prepare_connection :
      Bool → CommunicationType → ControllerStatus → HeartbeatCore H → Result (HeartbeatCore H)
  unfolding stop_service bind_socket connection_for
  prepare_connection binds type status c = do
    connection ← connection_for type c.settings
    c' ← stop_service (record c { communication_type = type })
    bind_socket binds (record c' {
      cached_params_message = record (c'.cached_params_message) {
        heartbeat_connection_params = connection;
      };
      connection = connection;
      heartbeat_mode = status;
    })

  pub start_receiving : Bool → CommunicationType → HeartbeatCore H → Result (HeartbeatCore H)
  unfolding prepare_connection start_timer
  start_receiving binds type c = do
    c' ← prepare_connection binds type backup c
    t ← start_timer primary_waiting_timer default_id c'.timers
    ok (
        if not c'.is_connection_to_primary_established && not c'.is_link_between_controllers_down
        then record c' { timers = t }
        else c')

  pub start_transmitting : Bool → CommunicationType → HeartbeatCore H → Result (HeartbeatCore H)
  unfolding prepare_connection start_timer
  start_transmitting binds type c = do
    c' ← prepare_connection binds type primary c
    t ← start_timer heartbeat default_id c'.timers
    ok (record c' { timers = t })

  start_as :
      Bool → CommunicationType → ControllerStatus → HeartbeatCore H → Result (HeartbeatCore H)
  unfolding start_receiving start_transmitting
  start_as binds type primary c = start_transmitting binds type c
  start_as binds type backup c = start_receiving binds type c
  start_as binds type recovery c = start_receiving binds type c
  start_as binds type undefined c = err check_failed

  pub start_service :
      Bool → CommunicationType → ControllerStatus → HeartbeatCore H → Result (HeartbeatCore H)
  unfolding start_as
  start_service binds undefined status c = err check_failed
  start_service binds unicast status c = start_as binds unicast status c
  start_service binds multicast status c = start_as binds multicast status c
  start_service binds broadcast status c = start_as binds broadcast status c

  pub send_request : HeartbeatCore H → HeartbeatCore H × List (Output H)
  send_request c = (
    record c { hbcounter = suc c.hbcounter },
    echo_request (record {
      unique_node_id = c.unique_node_id;
      hb_start_time = c.hb_start_time;
      message_number = suc c.hbcounter;
    })
        ∷ [],
  )

  established_by : ℤ → HeartbeatCore H → Option BackupTimer → Stepped H
  unfolding mark_established
  established_by id c none = err check_failed
  established_by id c (some t) = ok (
      if not t.is_connection_to_backup_established
      then (
        record c { timers = mark_established id c.timers },
        connection_to_backup_established id ∷ parameters_update c.cached_params_message ∷ [],
      )
      else (c, []))

  check_backup_timer : ℤ → HeartbeatCore H → Stepped H
  unfolding established_by
  check_backup_timer id c = established_by id c (find_timer id c.timers.backup_dead_timers)

  unfoldable pub primary_death : HeartbeatCore H → Stepped H
  unfolding stop_service
  primary_death c = do c' ← stop_service c; ok (c', primary_died ∷ [])

  promote_unless : Bool → Bool → HeartbeatCore H → Stepped H
  unfolding start_transmitting
  promote_unless true binds c = ok (c, [])
  promote_unless false binds c = do
    c' ← start_transmitting binds c.communication_type c
    ok (c', mode_changed_to_primary ∷ [])

  pub check_primary : Bool → HeartbeatCore H → Stepped H
  unfolding promote_unless stop_timer
  check_primary binds c = do
    t ← stop_timer primary_waiting_timer default_id c.timers
    let c' = record c { is_link_between_controllers_down = true; timers = t }
    promote_unless c'.is_connection_to_primary_established binds c'

  pub backup_death : ℤ → HeartbeatCore H → Stepped H
  unfolding stop_timer
  backup_death id c = do
    t ← stop_timer backup_dead id c.timers
    ok (record c { timers = t }, backup_died id ∷ [])

  abbrev with_primary : ℤ → HeartbeatCore H → HeartbeatCore H
  with_primary id c = record c { primary_node_id = id }

  abbrev reply_to : EchoMessage → HeartbeatCore H → Output H
  reply_to msg c = echo_reply (record {
    unique_node_id = c.unique_node_id;
    hb_start_time = c.hb_start_time;
    message_number = msg.message_number;
  })

  -- From the reply on: a new connection, or another primary than before.
  announce_primary : EchoMessage → HeartbeatCore H → HeartbeatCore H × List (Output H)
  announce_primary msg c =
      if not c.is_connection_to_primary_established
        || not (eq_ℤ msg.unique_node_id c.primary_node_id)
      then (
        record c {
          primary_node_id = msg.unique_node_id;
          is_connection_to_primary_established = true;
        },
        connection_to_primary_established msg.unique_node_id
            ∷ parameters_update c.cached_params_message
            ∷ [],
      )
      else (c, [])

  accept_request : EchoMessage → HeartbeatCore H → Stepped H
  unfolding announce_primary start_timer
  accept_request msg c = do
    t ← start_timer primary_dead default_id c.timers
    let c1 = record c { timers = t; is_link_between_controllers_down = false }
    let c2 = if eq_ℤ default_id c1.primary_node_id then with_primary msg.unique_node_id c1 else c1
    let (c3, outputs) = announce_primary msg c2
    ok (c3, reply_to msg c2 ∷ outputs)

  pub process_message_request : EchoMessage → HeartbeatCore H → Stepped H
  unfolding accept_request
  process_message_request msg c =
      if not (is_backup c.heartbeat_mode)
      then ok (c, [])
      else if eq_ℤ msg.unique_node_id c.unique_node_id && msg.hb_start_time == c.hb_start_time
      then ok (c, [])
      else if eq_ℤ msg.unique_node_id c.unique_node_id && not (msg.hb_start_time == c.hb_start_time)
      then err fatal
      else accept_request msg c

  pub process_message_reply : EchoMessage → HeartbeatCore H → Stepped H
  unfolding start_timer check_backup_timer
  process_message_reply msg c =
      let started = (do
        t ← start_timer backup_dead msg.unique_node_id c.timers
        check_backup_timer msg.unique_node_id
            (record c { is_link_between_controllers_down = false; timers = t })) in
      if eq_ℤ msg.unique_node_id c.unique_node_id then ok (c, []) else started

  pub process_message_params : ParamsMessage H → HeartbeatCore H → HeartbeatCore H × List (Output H)
  process_message_params msg c =
      (c, if eq_ℤ msg.unique_node_id c.unique_node_id then [] else params_changed msg ∷ [])

  pub link_down : HeartbeatCore H → HeartbeatCore H
  link_down c = record c { is_link_between_controllers_down = true }

  pub db_params_changed : H → ℕ → HeartbeatCore H → HeartbeatCore H × List (Output H)
  db_params_changed db_ip db_port c =
      let msg = record (c.cached_params_message) { db_connection_params = (db_ip, db_port) } in
      (record c { cached_params_message = msg }, parameters_update msg ∷ [])

-- The command code of a datagram and the message behind it. `boundary` is a code BEGIN or END,
-- `unknown` one that no command has.
pub data Payload (H : Type 0) : Type 0 where
  request reply : EchoMessage → Payload H
  params : ParamsMessage H → Payload H
  boundary unknown : Payload H

-- A datagram with whether `commitTransaction` accepts what was read from it.
abbrev pub Datagram : Type 0 → Type 0
Datagram H = Payload H × Bool

module _ {H : Type 0} where
  dispatch : Payload H → HeartbeatCore H → Stepped H
  unfolding process_message_request process_message_reply process_message_params
  dispatch (request msg) c = process_message_request msg c
  dispatch (reply msg) c = process_message_reply msg c
  dispatch (params msg) c = ok (process_message_params msg c)
  dispatch boundary c = err check_failed
  dispatch unknown c = err bad_command

  -- The loop over the pending datagrams. It ends at the first that is not committed, and the rest
  -- stay pending.
  pub ready_read_handler :
      List (Datagram H)
      → HeartbeatCore H
      → Result (HeartbeatCore H × List (Output H) × List (Datagram H))
  unfolding dispatch
  ready_read_handler [] c = ok (c, [], [])
  ready_read_handler ((payload, committed) ∷ pending) c = dispatch payload c >>= λ r.
      (let further = (ready_read_handler pending r.0 >>= λ q. ok (q.0, r.1 ++ q.1, q.2)) in
        if not committed then ok (r.0, r.1, pending) else further)
