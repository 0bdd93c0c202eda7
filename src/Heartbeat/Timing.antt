-- ===== src/Heartbeat/Timing.antt =====
-- struct Timers of src/core/hb/heartbeatcore.cc. Intervals are left out.
use mathlib.Core.Option
use runos.Base.{Bool, true, false, Option, none, some, List, [], ◌∷◌, if◌then◌else◌}
use runos.Base.Int.{ℤ, negsuc, eq_ℤ}

pub data Failure : Type 0 where
  check_failed fatal bad_command : Failure

pub data Result {ℓ} (A : Type ℓ) : Type ℓ where
  ok : A → Result A
  err : Failure → Result A

infixl 5 ◌>>=◌
abbrev pub ◌>>=◌ {ℓ κ} : {A : Type ℓ} {B : Type κ} → Result A → (A → Result B) → Result B
ok a >>= f = f a
err e >>= f = err e

pub data TimerType : Type 0 where
  heartbeat primary_dead primary_waiting_timer backup_dead all : TimerType

abbrev pub default_id : ℤ
default_id = negsuc 0

pub record BackupTimer : Type 0 where
  pub is_connection_to_backup_established : Bool
  pub running : Bool

pub record Timers : Type 0 where
  pub backup_dead_timers : List (ℤ × BackupTimer)
  pub heartbeat_timer : Bool
  pub primary_dead_timer : Bool
  pub primary_waiting_timer : Bool

abbrev pub with_backups : List (ℤ × BackupTimer) → Timers → Timers
with_backups b t = record t { backup_dead_timers = b }

unfoldable pub find_timer : ℤ → List (ℤ × BackupTimer) → Option BackupTimer
find_timer id [] = none
find_timer id ((j, t) ∷ ts) = if eq_ℤ j id then some t else find_timer id ts

-- The timer of a node is started, and made where there is none.
unfoldable pub start_backup : ℤ → List (ℤ × BackupTimer) → List (ℤ × BackupTimer)
start_backup id [] =
    (id, record { is_connection_to_backup_established = false; running = true }) ∷ []
start_backup id ((j, t) ∷ ts) =
    let rest = start_backup id ts in
    if eq_ℤ j id then (j, record t { running = true }) ∷ ts else (j, t) ∷ rest

abbrev pub stopped : BackupTimer
stopped = record { is_connection_to_backup_established = false; running = false }

unfoldable pub stop_one : ℤ → List (ℤ × BackupTimer) → Option (List (ℤ × BackupTimer))
stop_one id [] = none
stop_one id ((j, t) ∷ ts) =
    let rest = Option.map (λ ts'. (j, t) ∷ ts') (stop_one id ts) in
    if eq_ℤ j id then some ((j, stopped) ∷ ts) else rest

unfoldable pub stop_each : List (ℤ × BackupTimer) → List (ℤ × BackupTimer)
stop_each [] = []
stop_each ((j, t) ∷ ts) = (j, stopped) ∷ stop_each ts

unfoldable pub mark_in : ℤ → List (ℤ × BackupTimer) → List (ℤ × BackupTimer)
mark_in id [] = []
mark_in id ((j, t) ∷ ts) =
    let rest = mark_in id ts in
    if eq_ℤ j id
    then (j, record t { is_connection_to_backup_established = true }) ∷ ts
    else (j, t) ∷ rest

unfoldable pub mark_established : ℤ → Timers → Timers
mark_established id t = record t { backup_dead_timers = mark_in id t.backup_dead_timers }

unfoldable pub start_timer : TimerType → ℤ → Timers → Result Timers
start_timer heartbeat id t = ok (record t { heartbeat_timer = true })
start_timer primary_dead id t = ok (record t { primary_dead_timer = true })
start_timer primary_waiting_timer id t = ok (record t { primary_waiting_timer = true })
start_timer backup_dead id t =
    ok (record t { backup_dead_timers = start_backup id t.backup_dead_timers })
start_timer all id t = err check_failed

abbrev stop_found : Timers → Option (List (ℤ × BackupTimer)) → Result Timers
stop_found t none = err check_failed
stop_found t (some b) = ok (record t { backup_dead_timers = b })

-- The default id means all of them.
unfoldable pub stop_backup_timer : ℤ → Timers → Result Timers
stop_backup_timer id t =
    if eq_ℤ default_id id
    then ok (record t { backup_dead_timers = stop_each t.backup_dead_timers })
    else stop_found t (stop_one id t.backup_dead_timers)

unfoldable pub stop_timer : TimerType → ℤ → Timers → Result Timers
unfolding stop_backup_timer
stop_timer heartbeat id t = ok (record t { heartbeat_timer = false })
stop_timer primary_dead id t = ok (record t { primary_dead_timer = false })
stop_timer primary_waiting_timer id t = ok (record t { primary_waiting_timer = false })
stop_timer backup_dead id t = stop_backup_timer id t
stop_timer all id t = stop_backup_timer default_id (record t {
  heartbeat_timer = false;
  primary_dead_timer = false;
  primary_waiting_timer = false;
})
