-- ===== src/Recovery/Failover.antt =====
-- What a backup that lost its primary, and a primary that is to stand down, do; and the heartbeat core
-- that gets the outputs.
use runos.Base.{◌≡◌, refl, Bool, true, false, not, ◌&&◌, List, [], ◌∷◌, map, if◌then◌else◌, arith}
use runos.Base.Int.{ℤ, eq_ℤ}
use runos.Heartbeat.{
  HeartbeatCore, is_primary, is_backup, primary, backup, primary_death, start_service, stop_service,
  link_down,
}
use runos.Heartbeat.Failover.{Transmits, start_service-Transmits}
use runos.Heartbeat.Timing.{Result, ok, err, ◌>>=◌}
use runos.Recovery.SwitchViews.{role_master, role_slave}
use runos.Recovery.{
  ClusterNode, ControllerState, active, not_active, RecoveryManager, Output, Stepped, recovery,
  setup_backup_mode, set_status, recovered_node, has_type, send_start_heartbeat,
  to_start_heartbeat_service, to_stop_heartbeat_service, setup_new_role_for_all, setup_master_role,
  signal_recovery, link_between_controllers_is_down, signal_setup_backup_mode,
}
use runos.Recovery.Alignment.{IsAligned}

abbrev pub is_active : ControllerState → Bool
is_active active = true
is_active not_active = false

module _ {H : Type 0} where
  -- What a backup that lost its primary, and a primary that lost its link, do.
  abbrev pub all_others : (ClusterNode H → Bool) → List (ClusterNode H) → Bool
  all_others f [] = true
  all_others f (n ∷ ns) = f n && all_others f ns

  abbrev pub foreign_nodes : ℤ → List (ClusterNode H) → Bool
  foreign_nodes id ns = all_others (λ n. not (eq_ℤ n.id id)) ns

  recovered-backup :
      (id : ℤ) (ns : List (ClusterNode H))
      → foreign_nodes id ns ≡ true
      → all_others (λ n. is_backup n.hb_status) (map (recovered_node id) ns) ≡ true
  unfolding recovered_node
  recovered-backup id [] h = refl
  recovered-backup id (n ∷ ns) h = ground (arith, h, recovered-backup id ns)

  abbrev pub Recovered : RecoveryManager H → Stepped H → Type 0
  Recovered m (err e) = true ≡ false
  Recovered m (ok (n, outputs)) =
      (is_primary n.controller_status ≡ true)
      × (is_primary n.mastership_view.ctrl_status ≡ true)
      × (is_primary n.current_node.hb_status ≡ true)
      × (all_others (λ k. is_backup k.hb_status) n.others ≡ true)
      × (outputs
          ≡ setup_new_role_for_all role_master
            ∷ to_start_heartbeat_service m.heartbeat_communication_type primary
            ∷ setup_master_role
            ∷ signal_recovery
            ∷ [])

  -- If the primary dies, or is to be replaced, an aligned node that is not primary with a
  -- communication type becomes primary in the manager, the view and the cluster, makes every other
  -- node a backup, and asks for the master role, starts the heartbeat as primary, makes the
  -- database a master and signals the recovery, in this order.
  pub recovery-Recovered :
      (m : RecoveryManager H)
      → IsAligned m
      → is_primary m.controller_status ≡ false
      → has_type m.heartbeat_communication_type ≡ true
      → foreign_nodes m.id m.others ≡ true
      → Recovered m (recovery m)
  unfolding recovery set_status send_start_heartbeat recovered_node
  recovery-Recovered m v h t f = ground (arith, v, h, t, recovered-backup m.id m.others f)

  slept-backup :
      (id : ℤ) (ns : List (ClusterNode H))
      → foreign_nodes id ns ≡ true
      → all_others
          (λ n. is_backup n.hb_status && not (is_active n.state))
          (map
            (λ n. if eq_ℤ n.id id then n else record n { state = not_active; hb_status = backup })
            ns)
        ≡ true
  slept-backup id [] h = refl
  slept-backup id (n ∷ ns) h = ground (arith, h, slept-backup id ns)

  abbrev pub StoodDown : RecoveryManager H → Stepped H → Type 0
  StoodDown m (err e) = true ≡ false
  StoodDown m (ok (n, outputs)) =
      (is_backup n.controller_status ≡ true)
      × (is_backup n.mastership_view.ctrl_status ≡ true)
      × (is_backup n.current_node.hb_status ≡ true)
      × (all_others (λ k. is_backup k.hb_status && not (is_active k.state)) n.others ≡ true)
      × (outputs
          ≡ link_between_controllers_is_down
            ∷ setup_new_role_for_all role_slave
            ∷ to_start_heartbeat_service m.heartbeat_communication_type backup
            ∷ signal_setup_backup_mode
            ∷ [])

  -- A node that is not a backup, with a communication type and foreign identifiers in the others,
  -- stands down: manager, view and cluster entry become backup, every other node becomes an
  -- inactive backup, and it signals the lost link, asks for the slave role, starts the heartbeat
  -- as backup and signals the mode, in this order.
  pub setup_backup-StoodDown :
      (m : RecoveryManager H)
      → is_backup m.controller_status ≡ false
      → has_type m.heartbeat_communication_type ≡ true
      → foreign_nodes m.id m.others ≡ true
      → StoodDown m (setup_backup_mode m)
  unfolding setup_backup_mode set_status send_start_heartbeat
  setup_backup-StoodDown m h t f = ground (arith, h, t, slept-backup m.id m.others f)

  -- The outputs that the heartbeat core is connected to; the others do not reach it.
  pub deliver : Bool → List (Output H) → HeartbeatCore H → Result (HeartbeatCore H)
  deliver binds [] c = ok c
  deliver binds (to_start_heartbeat_service type status ∷ os) c = do
    c' ← start_service binds type status c
    deliver binds os c'
  deliver binds (to_stop_heartbeat_service ∷ os) c = do c' ← stop_service c; deliver binds os c'
  deliver binds (link_between_controllers_is_down ∷ os) c = deliver binds os (link_down c)
  deliver binds (o ∷ os) c = deliver binds os c

  -- The manager's answer to primaryDied, and the core behind it.
  pub take_over :
      Bool → RecoveryManager H → HeartbeatCore H → Result (RecoveryManager H × HeartbeatCore H)
  unfolding deliver
  take_over binds m c = do
    (c1, signals) ← primary_death c
    (n, outputs) ← recovery m
    c2 ← deliver binds outputs c1
    ok (n, c2)

  abbrev pub TakenOver : Result (RecoveryManager H × HeartbeatCore H) → Type 0
  TakenOver (err e) = true ≡ false
  TakenOver (ok (n, c)) =
      (is_primary n.controller_status ≡ true)
      × (is_primary c.heartbeat_mode ≡ true)
      × (c.timers.heartbeat_timer ≡ true)
      × (c.timers.primary_dead_timer ≡ false)

  delivered-TakenOver :
      (n : RecoveryManager H) (r : Result (HeartbeatCore H))
      → is_primary n.controller_status ≡ true
      → Transmits r
      → TakenOver ((r >>= λ c. ok c) >>= λ c. ok (n, c))
  delivered-TakenOver n (err e) p t = t
  delivered-TakenOver n (ok c) p t = (p, t.0, t.1, t.2)

  pub take_over-TakenOver :
      (m : RecoveryManager H) (c : HeartbeatCore H)
      → is_primary m.controller_status ≡ false
      → has_type m.heartbeat_communication_type ≡ true
      → TakenOver (take_over true m c)
  unfolding take_over deliver primary_death recovery set_status send_start_heartbeat
  take_over-TakenOver m c h t = rw h (
      rw t (
        delivered-TakenOver _ _ refl
          (start_service-Transmits true m.heartbeat_communication_type _ t (ground arith))))
