-- ===== src/Heartbeat/Roles.antt =====
-- A controller's timers agree with its mode: a primary beats, a backup watches the primary.
use runos.Base.{ℕ, ◌≡◌, Bool, true, false, not, ◌||◌, List, [], ◌∷◌, ◌++◌, if◌then◌else◌, arith}
use runos.Base.Int.{ℤ}
use runos.Heartbeat.{
  HeartbeatCore, CommunicationType, ControllerStatus, EchoMessage, Datagram, Payload, request,
  reply, params, boundary, unknown, Output, dispatch, is_backup, is_primary, Stepped, stop_service,
  start_service, send_request, primary_death, check_primary, backup_death, process_message_request,
  process_message_reply, process_message_params, ready_read_handler, link_down, db_params_changed,
}
use runos.Heartbeat.Timing.{Result, ok, err, ◌>>=◌}

-- Only a primary has its heartbeat timer running; only a backup waits for a primary or watches one.
pub record IsInRole {H : Type 0} (c : HeartbeatCore H) : Type 0 where
  pub beats : not c.timers.heartbeat_timer || is_primary c.heartbeat_mode ≡ true
  pub watches :
      not (c.timers.primary_dead_timer || c.timers.primary_waiting_timer)
        || is_backup c.heartbeat_mode
      ≡ true

-- What can happen to the core.
pub data Event (H : Type 0) : Type 0 where
  starts : Bool → CommunicationType → ControllerStatus → Event H
  stops links_down heartbeat_timeout primary_dead_timeout : Event H
  primary_waiting_timeout : Bool → Event H
  backup_dead_timeout : ℤ → Event H
  db_changes : H → ℕ → Event H
  receives : List (Datagram H) → Event H

module _ {H : Type 0} where
  abbrev quiet : Result (HeartbeatCore H) → Stepped H
  quiet (ok c) = ok (c, [])
  quiet (err e) = err e

  abbrev handled : Result (HeartbeatCore H × List (Output H) × List (Datagram H)) → Stepped H
  handled (ok r) = ok (r.0, r.1)
  handled (err e) = err e

  pub step : HeartbeatCore H → Event H → Stepped H
  step c (starts binds type status) = quiet (start_service binds type status c)
  step c stops = quiet (stop_service c)
  step c links_down = ok (link_down c, [])
  step c heartbeat_timeout = ok (send_request c)
  step c primary_dead_timeout = primary_death c
  step c (primary_waiting_timeout binds) = check_primary binds c
  step c (backup_dead_timeout id) = backup_death id c
  step c (db_changes ip port) = ok (db_params_changed ip port c)
  step c (receives pending) = handled (ready_read_handler pending c)

  abbrev pub Keeps : (HeartbeatCore H → Type 0) → Stepped H → Type 0
  Keeps P (ok r) = P r.0
  Keeps P (err e) = Unit {0}

  stop_service-IsInRole : (c : HeartbeatCore H) → Keeps IsInRole (quiet (stop_service c))
  unfolding stop_service
  stop_service-IsInRole c = ground arith

  start_service-IsInRole :
      (binds : Bool) (type : CommunicationType) (status : ControllerStatus) (c : HeartbeatCore H)
      → Keeps IsInRole (quiet (start_service binds type status c))
  unfolding start_service
  start_service-IsInRole binds type status c = ground arith

  check_primary-IsInRole :
      (binds : Bool) (c : HeartbeatCore H) → IsInRole c → Keeps IsInRole (check_primary binds c)
  unfolding check_primary
  check_primary-IsInRole binds c v = ground arith

  request-IsInRole :
      (msg : EchoMessage) (c : HeartbeatCore H)
      → IsInRole c
      → Keeps IsInRole (process_message_request msg c)
  unfolding process_message_request
  request-IsInRole msg c v = ground arith

  reply-IsInRole :
      (msg : EchoMessage) (c : HeartbeatCore H)
      → IsInRole c
      → Keeps IsInRole (process_message_reply msg c)
  unfolding process_message_reply
  reply-IsInRole msg c v = ground arith

  dispatch-IsInRole :
      (p : Payload H) (c : HeartbeatCore H) → IsInRole c → Keeps IsInRole (dispatch p c)
  unfolding dispatch process_message_params
  dispatch-IsInRole (request msg) c v = request-IsInRole msg c v
  dispatch-IsInRole (reply msg) c v = reply-IsInRole msg c v
  dispatch-IsInRole (params msg) c v = v
  dispatch-IsInRole boundary c v = tt
  dispatch-IsInRole unknown c v = tt

  receive-IsInRole :
      (pending : List (Datagram H)) (c : HeartbeatCore H)
      → IsInRole c
      → Keeps IsInRole (handled (ready_read_handler pending c))
  unfolding ready_read_handler
  receive-IsInRole [] c v = v
  receive-IsInRole ((p, committed) ∷ pending) c v =
      after (dispatch p c) (dispatch-IsInRole p c v) (λ c' w. receive-IsInRole pending c' w)
    where
      after :
          (r : Stepped H)
          → Keeps IsInRole r
          → ((c' : HeartbeatCore H)
              → IsInRole c'
              → Keeps IsInRole (handled (ready_read_handler pending c')))
          → Keeps IsInRole (
              handled (
                r >>= λ q.
                (let further =
                    (ready_read_handler pending q.0 >>= λ s. ok (s.0, q.1 ++ s.1, s.2)) in
                  if not committed then ok (q.0, q.1, pending) else further)))
      after (err e) k ih = tt
      after (ok q) k ih = next committed (ready_read_handler pending q.0) (ih q.0 k)
        where
          next :
              (b : Bool) (r : Result (HeartbeatCore H × List (Output H) × List (Datagram H)))
              → Keeps IsInRole (handled r)
              → Keeps IsInRole (
                  handled (
                    if not b then ok (q.0, q.1, pending) else r >>= λ s. ok (s.0, q.1 ++ s.1, s.2)))
          next false r k' = k
          next true (ok s) k' = k'
          next true (err e) k' = tt

  -- Every event of the heartbeat core that does not throw keeps its timers in line with its mode:
  -- the heartbeat timer runs only in mode PRIMARY, and the primary-dead and primary-waiting timers
  -- only in mode BACKUP.
  pub step-IsInRole : (e : Event H) (c : HeartbeatCore H) → IsInRole c → Keeps IsInRole (step c e)
  unfolding step link_down send_request primary_death backup_death db_params_changed
  step-IsInRole (starts binds type status) c v = start_service-IsInRole binds type status c
  step-IsInRole stops c v = stop_service-IsInRole c
  step-IsInRole links_down c v = ground arith
  step-IsInRole heartbeat_timeout c v = ground arith
  step-IsInRole primary_dead_timeout c v = ground arith
  step-IsInRole (primary_waiting_timeout binds) c v = check_primary-IsInRole binds c v
  step-IsInRole (backup_dead_timeout id) c v = ground arith
  step-IsInRole (db_changes ip port) c v = ground arith
  step-IsInRole (receives pending) c v = receive-IsInRole pending c v
