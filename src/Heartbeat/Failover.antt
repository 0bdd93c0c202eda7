-- ===== src/Heartbeat/Failover.antt =====
-- How a backup becomes a primary, and what a lost primary leaves behind.
use runos.Base.{◌≡◌, refl, Bool, true, false, not, ◌&&◌, ◌||◌, List, [], ◌∷◌, if◌then◌else◌, arith}
use runos.Base.Int.{ℤ, eq_ℤ}
use runos.Heartbeat.{
  HeartbeatCore, CommunicationType, ControllerStatus, Output, primary_died, mode_changed_to_primary,
  Stepped, start_service, primary_death, check_primary, is_primary,
}
use runos.Heartbeat.Timing.{Timers, BackupTimer, Result, ok, err, stop_each}

abbrev all_stopped_in : List (ℤ × BackupTimer) → Bool
all_stopped_in [] = true
all_stopped_in ((id, t) ∷ ts) =
    (not t.running && not t.is_connection_to_backup_established) && all_stopped_in ts

abbrev pub all_stopped : Timers → Bool
all_stopped t =
    (not t.heartbeat_timer && not t.primary_dead_timer)
    && (not t.primary_waiting_timer && all_stopped_in t.backup_dead_timers)

stop_each-all_stopped : (ts : List (ℤ × BackupTimer)) → all_stopped_in (stop_each ts) ≡ true
unfolding stop_each
stop_each-all_stopped [] = refl
stop_each-all_stopped ((id, t) ∷ ts) = stop_each-all_stopped ts

abbrev pub defined : CommunicationType → Bool
defined CommunicationType.undefined = false
defined _ = true

-- None of the node's own timers runs.
abbrev pub silent : Timers → Bool
silent t = not t.heartbeat_timer && (not t.primary_dead_timer && not t.primary_waiting_timer)

module _ {H : Type 0} where
  -- When the primary-dead timer fires the core stops all its timers and those of every backup,
  -- forgets the connections, keeps its mode, and signals that the primary died; it never throws.
  pub primary_death_lem :
      (c : HeartbeatCore H)
      → (c' : HeartbeatCore H) × (primary_death c ≡ ok (c', primary_died ∷ []))
        × (all_stopped c'.timers ≡ true)
        × (c'.is_connection_to_primary_established ≡ false)
        × (c'.heartbeat_mode ≡ c.heartbeat_mode)
  unfolding primary_death eq_ℤ
  primary_death_lem c = (
    record c {
      timers = record {
        backup_dead_timers = stop_each c.timers.backup_dead_timers;
        heartbeat_timer = false;
        primary_dead_timer = false;
        primary_waiting_timer = false;
      };
      is_connection_to_primary_established = false;
    },
    refl,
    stop_each-all_stopped c.timers.backup_dead_timers,
    refl,
    refl,
  )

  abbrev pub Promotes : HeartbeatCore H → Stepped H → Type 0
  Promotes c (err e) = ⊥
  Promotes c (ok (c', outputs)) =
      (outputs
        ≡ (if c.is_connection_to_primary_established then [] else mode_changed_to_primary ∷ []))
      × (c'.timers.heartbeat_timer
          ≡ (if c.is_connection_to_primary_established then c.timers.heartbeat_timer else true))
      × (c'.timers.primary_dead_timer
          ≡ (if c.is_connection_to_primary_established then c.timers.primary_dead_timer else false))
      × (c'.timers.primary_waiting_timer ≡ false)
      × (c'.heartbeat_mode ≡ (
          if c.is_connection_to_primary_established
          then c.heartbeat_mode
          else ControllerStatus.primary))
      × (c'.is_link_between_controllers_down ≡ true)

  -- When the waiting timer fires at a node with a defined communication type whose socket is bound
  -- or can be, a node that heard no primary becomes one, with the heartbeat timer running, the
  -- primary-dead timer stopped and the mode change signalled; a connected node keeps its mode and
  -- timers and signals nothing; the waiting timer is stopped and the link is marked down in both
  -- cases.
  pub check_primary-Promotes :
      (binds : Bool) (c : HeartbeatCore H)
      → defined c.communication_type ≡ true
      → c.bound || binds ≡ true
      → Promotes c (check_primary binds c)
  unfolding check_primary eq_ℤ
  check_primary-Promotes binds c t b = ground arith

  -- If the waiting timer fires at a connected node and the service is then started as a backup,
  -- none of the timers of the node runs and it is not connected, so that only a message can move
  -- it on.
  pub late_check_leaves_silent :
      (binds : Bool) (type : CommunicationType) (c c1 c2 : HeartbeatCore H) (s : List (Output H))
      → c.is_connection_to_primary_established ≡ true
      → check_primary binds c ≡ ok (c1, s)
      → start_service binds type ControllerStatus.backup c1 ≡ ok c2
      → (s ≡ []) × (silent c2.timers ≡ true) × (c2.is_connection_to_primary_established ≡ false)
  unfolding check_primary start_service eq_ℤ
  late_check_leaves_silent binds type c c1 c2 s k e f = ground arith

  -- What a service that was started as primary is like.
  abbrev pub Transmits : Result (HeartbeatCore H) → Type 0
  Transmits (err e) = true ≡ false
  Transmits (ok c) =
      (is_primary c.heartbeat_mode ≡ true)
      × (c.timers.heartbeat_timer ≡ true)
      × (c.timers.primary_dead_timer ≡ false)

  pub start_service-Transmits :
      (binds : Bool) (type : CommunicationType) (c : HeartbeatCore H)
      → defined type ≡ true
      → c.bound || binds ≡ true
      → Transmits (start_service binds type ControllerStatus.primary c)
  unfolding start_service eq_ℤ
  start_service-Transmits binds type c t b = ground (arith, t, b)
