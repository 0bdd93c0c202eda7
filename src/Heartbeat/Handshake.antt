-- ===== src/Heartbeat/Handshake.antt =====
-- The exchange of heartbeats between a primary and a backup.
use runos.Base.{
  ℕ, suc, ◌≡◌, refl, Bool, true, false, ◌&&◌, ◌||◌, Option, none, some, List, [], ◌∷◌,
  if◌then◌else◌, arith,
}
use runos.Base.Int.{ℤ, eq_ℤ, eq_ℤ→eq, eq_ℤ_refl}
use runos.Heartbeat.{
  HeartbeatCore, EchoMessage, Output, request, Datagram, connection_to_primary_established,
  connection_to_backup_established, echo_request, echo_reply, Stepped, is_backup, send_request,
  process_message_request, process_message_reply, ready_read_handler,
}
use runos.Heartbeat.Timing.{
  BackupTimer, Result, ok, err, default_id, find_timer, start_backup, mark_in,
}

abbrev pub established_before : Option BackupTimer → Bool
established_before none = false
established_before (some t) = t.is_connection_to_backup_established

find-start_backup :
    (id : ℤ) (ts : List (ℤ × BackupTimer))
    → find_timer id (start_backup id ts)
      ≡ some (record {
        is_connection_to_backup_established = established_before (find_timer id ts);
        running = true;
      })
unfolding find_timer start_backup
find-start_backup id [] = ground (arith, eq_ℤ_refl id)
find-start_backup id ((j, t) ∷ ts) = ground (arith, find-start_backup id ts)

find-mark_in :
    (id : ℤ) (ts : List (ℤ × BackupTimer)) {t : BackupTimer}
    → find_timer id ts ≡ some t
    → find_timer id (mark_in id ts) ≡ some (record t { is_connection_to_backup_established = true })
unfolding find_timer mark_in
find-mark_in id [] e = ground arith
find-mark_in id ((j, u) ∷ ts) {t} e = ground (arith, find-mark_in id ts {t = t})

abbrev beat : ℤ → ℕ → ℕ → EchoMessage
beat id start n = record { unique_node_id = id; hb_start_time = start; message_number = n }

module _ {H : Type 0} where
  abbrev timer_of : ℤ → HeartbeatCore H → Option BackupTimer
  timer_of id c = find_timer id c.timers.backup_dead_timers

  abbrev pub Replied : EchoMessage → HeartbeatCore H → Stepped H → Type 0
  Replied msg c (err e) = ⊥
  Replied msg c (ok (c', outputs)) =
      (find_timer msg.unique_node_id c'.timers.backup_dead_timers
        ≡ some (record { is_connection_to_backup_established = true; running = true }))
      × (c'.is_link_between_controllers_down ≡ false)
      × (c'.heartbeat_mode ≡ c.heartbeat_mode)
      × (c'.timers.heartbeat_timer ≡ c.timers.heartbeat_timer)
      × (outputs ≡ (
          if established_before (find_timer msg.unique_node_id c.timers.backup_dead_timers)
          then []
          else connection_to_backup_established msg.unique_node_id
            ∷ Output.parameters_update c.cached_params_message
            ∷ []))

  -- A reply of another node never throws: it leaves the timer of that node running and
  -- established, the link up and the mode as it was, and signals the connection only if it was not
  -- established before.
  pub process_message_reply-Replied :
      (msg : EchoMessage) (c : HeartbeatCore H)
      → eq_ℤ msg.unique_node_id c.unique_node_id ≡ false
      → Replied msg c (process_message_reply msg c)
  unfolding process_message_reply
  process_message_reply-Replied msg c h = ground (
    arith,
    find-start_backup msg.unique_node_id c.timers.backup_dead_timers,
    find-mark_in msg.unique_node_id (start_backup msg.unique_node_id c.timers.backup_dead_timers)
        {t = record {
          is_connection_to_backup_established =
              established_before (find_timer msg.unique_node_id c.timers.backup_dead_timers);
          running = true;
        }},
  )

  -- How many outputs announce a primary.
  abbrev pub announcements : List (Output H) → ℕ
  announcements [] = 0
  announcements (connection_to_primary_established id ∷ os) = suc (announcements os)
  announcements (o ∷ os) = announcements os

  -- The message numbers that were answered.
  abbrev pub answered : List (Output H) → List ℕ
  answered [] = []
  answered (echo_reply m ∷ os) = m.message_number ∷ answered os
  answered (o ∷ os) = answered os

  abbrev pub beats_of : ℤ → ℕ → List ℕ → List (Datagram H)
  beats_of id start [] = []
  beats_of id start (n ∷ ns) =
      (request (record { unique_node_id = id; hb_start_time = start; message_number = n }), true)
      ∷ beats_of id start ns

  abbrev pub knows : ℤ → HeartbeatCore H → Bool
  knows id c =
      c.is_connection_to_primary_established
      && (eq_ℤ default_id c.primary_node_id || eq_ℤ id c.primary_node_id)

  abbrev pub Heard :
      ℤ
      → List ℕ
      → HeartbeatCore H
      → Result (HeartbeatCore H × List (Output H) × List (Datagram H))
      → ℕ
      → Type 0
  Heard id ns c (err e) k = ⊥
  Heard id ns c (ok (c', outputs, pending)) k =
      (pending ≡ [])
      × (answered outputs ≡ ns)
      × (announcements outputs ≡ k)
      × (c'.is_connection_to_primary_established ≡ true)
      × (c'.primary_node_id ≡ id)
      × (c'.is_link_between_controllers_down ≡ false)
      × (c'.timers.primary_dead_timer ≡ true)

  heard_state : ℤ → HeartbeatCore H → HeartbeatCore H
  heard_state id c = record c {
    timers = record (c.timers) { primary_dead_timer = true };
    is_link_between_controllers_down = false;
    is_connection_to_primary_established = true;
    primary_node_id = id;
  }

  abbrev answer : ℤ → ℕ → HeartbeatCore H → List (Output H)
  answer id n c =
      echo_reply (record {
        unique_node_id = c.unique_node_id;
        hb_start_time = c.hb_start_time;
        message_number = n;
      })
      ∷ (if knows id c
          then []
          else connection_to_primary_established id
            ∷ Output.parameters_update c.cached_params_message
            ∷ [])

  one_beat :
      (id : ℤ) (start n : ℕ) (c : HeartbeatCore H)
      → is_backup c.heartbeat_mode ≡ true
      → eq_ℤ id c.unique_node_id ≡ false
      → process_message_request (beat id start n) c ≡ ok (heard_state id c, answer id n c)
  unfolding process_message_request heard_state
  one_beat id start n c b o =
      ground
        (arith, eq_ℤ→eq id c.primary_node_id, eq_ℤ→eq default_id c.primary_node_id, eq_ℤ_refl id)

  settled :
      (id : ℤ) (start : ℕ) (ns : List ℕ) (c : HeartbeatCore H)
      → is_backup c.heartbeat_mode ≡ true
      → eq_ℤ id c.unique_node_id ≡ false
      → Heard id ns c (ready_read_handler (beats_of id start ns) (heard_state id c)) 0
  unfolding ready_read_handler heard_state
  settled id start [] c b o = ground arith
  settled id start (n ∷ ns) c b o =
      rw (one_beat id start n (heard_state id c) b o)
        (ground (arith, eq_ℤ_refl id, settled id start ns c b o))

  -- A backup that reads a non-empty batch of requests of one other node answers each with its
  -- number, in order, leaves none pending, has the primary-dead timer running and the link up, and
  -- announces that primary once, or not at all if it was already connected to it.
  pub beats-Heard :
      (id : ℤ) (start n : ℕ) (ns : List ℕ) (c : HeartbeatCore H)
      → is_backup c.heartbeat_mode ≡ true
      → eq_ℤ id c.unique_node_id ≡ false
      → Heard id
          (n ∷ ns)
          c
          (ready_read_handler (beats_of id start (n ∷ ns)) c)
          (if knows id c then 0 else 1)
  unfolding ready_read_handler
  beats-Heard id start n ns c b o =
      rw (one_beat id start n c b o) (ground (arith, settled id start ns c b o))

  -- What a node hears of the outputs of another: its first echo reply.
  abbrev pub reply_in : List (Output H) → Option EchoMessage
  reply_in [] = none
  reply_in (echo_reply m ∷ os) = some m
  reply_in (o ∷ os) = reply_in os

  -- One heartbeat round between a primary and a backup with different identifiers: the request
  -- carries the next counter value, the backup accepts it, records the primary as connected and
  -- echoes the number, and the primary that hears the echo has the timer of the backup running and
  -- its connection established.
  pub round_trip :
      (p b : HeartbeatCore H)
      → is_backup b.heartbeat_mode ≡ true
      → eq_ℤ p.unique_node_id b.unique_node_id ≡ false
      → let p1 = (send_request p).0 in
        (m r : EchoMessage) × (b1 : HeartbeatCore H) × (out : List (Output H)) × ((send_request p).1
          ≡ echo_request m ∷ [])
        × (process_message_request m b ≡ ok (b1, out))
        × (reply_in out ≡ some r)
        × (r.message_number ≡ suc p.hbcounter)
        × (b1.primary_node_id ≡ p.unique_node_id)
        × (b1.is_connection_to_primary_established ≡ true)
        × Replied r p1 (process_message_reply r p1)
  unfolding send_request
  round_trip p b h o = (
    beat p.unique_node_id p.hb_start_time (suc p.hbcounter),
    beat b.unique_node_id b.hb_start_time (suc p.hbcounter),
    heard_state p.unique_node_id b,
    answer p.unique_node_id (suc p.hbcounter) b,
    refl,
    one_beat p.unique_node_id p.hb_start_time (suc p.hbcounter) b h o,
    refl,
    refl,
    unfold heard_state in refl,
    unfold heard_state in refl,
    process_message_reply-Replied _ _
        (ground (arith, o, eq_ℤ→eq b.unique_node_id p.unique_node_id, eq_ℤ_refl b.unique_node_id)),
  )
