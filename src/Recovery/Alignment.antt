-- ===== src/Recovery/Alignment.antt =====
-- A primary is primary for its switches and for the heartbeat too.
use runos.Base.{
  ◌≡◌, ◌⊎◌, inl, inr, Bool-cases, refl, Bool, true, false, not, ◌||◌, ◌&&◌, Option, none, some,
  List, [], ◌∷◌, if◌then◌else◌, arith,
}
use runos.Base.Int.{ℤ, eq_ℤ, eq_ℤ→eq}
use runos.Heartbeat.{ControllerStatus, ParamsMessage, is_primary, primary, backup}
use runos.Heartbeat.Timing.{Result, ok, err, default_id, ◌>>=◌}
use runos.Recovery.SwitchViews.{ControllerRole, role_master, role_slave}
use runos.Recovery.{
  ClusterNode, RecoveryManager, Stepped, start_heartbeat, recovery, backup_dead,
  set_former_primary_to_backup, connection_to_primary_established, connection_to_backup_established,
  setup_primary_mode, setup_backup_mode, set_params, ready_to_recover, failed_recover, set_status,
  in_cluster, set_node, dead_node, with_params, with_others, change_node, follow, or_added, checked,
  then_slave, setup_primary_from_backup, set_init_controller_status, recovered_node, not_active,
  active, send_start_heartbeat,
}

abbrev pub IsAligned : {H : Type 0} → RecoveryManager H → Type 0
IsAligned m =
    (eq_ℤ m.current_node.id m.id ≡ true)
    × ((not (is_primary m.controller_status)
          || (is_primary m.mastership_view.ctrl_status && is_primary m.current_node.hb_status))
        ≡ true)

-- What the heartbeat core and the commands make the manager do.
pub data Event (H : Type 0) : Type 0 where
  started primary_died mode_changed_to_primary switches_ready switches_missing to_backup : Event H
  primary_heard backup_heard backup_died : ℤ → Event H
  params_changed : ParamsMessage H → Event H

module _ {H : Type 0} where
  abbrev pub step : Event H → RecoveryManager H → Stepped H
  step started m = start_heartbeat m
  step primary_died m = recovery m
  step mode_changed_to_primary m = setup_primary_mode m
  step switches_ready m = ready_to_recover m
  step switches_missing m = failed_recover m
  step to_backup m = setup_backup_mode m
  step (primary_heard id) m = connection_to_primary_established id m
  step (backup_heard id) m = connection_to_backup_established id m
  step (backup_died id) m = backup_dead id m
  step (params_changed p) m = set_params p m

  -- The heartbeat core does not report the node itself.
  abbrev pub foreign : ℤ → Event H → Bool
  foreign id (backup_heard other) = not (eq_ℤ id other)
  foreign id _ = true

  abbrev pub Keeps : (RecoveryManager H → Type 0) → Stepped H → Type 0
  Keeps P (err e) = Unit
  Keeps P (ok (m, outputs)) = P m

  started-IsAligned : (m : RecoveryManager H) → IsAligned m → Keeps IsAligned (start_heartbeat m)
  unfolding start_heartbeat send_start_heartbeat set_init_controller_status set_status
  started-IsAligned m v = ground (arith, v)

  recovery-IsAligned : (m : RecoveryManager H) → IsAligned m → Keeps IsAligned (recovery m)
  unfolding recovery set_status recovered_node send_start_heartbeat
  recovery-IsAligned m v = ground (arith, v)

  primary_mode-IsAligned :
      (m : RecoveryManager H) → IsAligned m → Keeps IsAligned (setup_primary_mode m)
  unfolding setup_primary_mode setup_primary_from_backup set_status send_start_heartbeat
  primary_mode-IsAligned m v = ground (arith, v)

  backup_mode-IsAligned :
      (m : RecoveryManager H) → IsAligned m → Keeps IsAligned (setup_backup_mode m)
  unfolding setup_backup_mode set_status send_start_heartbeat
  backup_mode-IsAligned m v = ground (arith, v)

  ready-IsAligned : (m : RecoveryManager H) → IsAligned m → Keeps IsAligned (ready_to_recover m)
  unfolding ready_to_recover
  ready-IsAligned m v = recovery-IsAligned (record m { controller_status = backup }) (v.0, refl)

  missing-IsAligned : (m : RecoveryManager H) → IsAligned m → Keeps IsAligned (failed_recover m)
  unfolding failed_recover
  missing-IsAligned m v =
      primary_mode-IsAligned (record m { controller_status = backup }) (v.0, refl)

  -- What a write to one node of the cluster leaves.
  abbrev Placed :
      ℤ → (ClusterNode H → ClusterNode H) → RecoveryManager H → Option (RecoveryManager H) → Type 0
  Placed id f m none = Unit
  Placed id f m (some n) =
      (n.controller_status ≡ m.controller_status)
      × (n.mastership_view ≡ m.mastership_view)
      × (n.id ≡ m.id)
      × (n.current_node ≡ (if eq_ℤ m.current_node.id id then f m.current_node else m.current_node))

  others-Placed :
      (id : ℤ) (f : ClusterNode H → ClusterNode H) (m : RecoveryManager H)
      (o : Option (List (ClusterNode H)))
      → eq_ℤ m.current_node.id id ≡ false
      → Placed id f m (with_others m o)
  others-Placed id f m none h = tt
  others-Placed id f m (some ns) h = rw h (refl, refl, refl, refl)

  here-Placed :
      (id : ℤ) (f : ClusterNode H → ClusterNode H) (m : RecoveryManager H)
      → eq_ℤ m.current_node.id id ≡ true
      → Placed id f m (some (record m { current_node = f m.current_node }))
  here-Placed id f m h = rw h (refl, refl, refl, refl)

  in_cluster-Placed :
      (id : ℤ) (f : ClusterNode H → ClusterNode H) (m : RecoveryManager H)
      → Placed id f m (in_cluster id f m)
  unfolding in_cluster
  in_cluster-Placed id f m = elim (Bool-cases (eq_ℤ m.current_node.id id)) [
    | inl h ↦ rw h (here-Placed id f m h)
    | inr h ↦ rw h (others-Placed id f m (change_node id f m.others) h)
  ]

  -- A write that keeps the identifier, and the heartbeat status of the node itself.
  Gentle : ℤ → (ClusterNode H → ClusterNode H) → RecoveryManager H → Type 0
  Gentle id f m =
      ((f m.current_node).id ≡ m.current_node.id)
      × ((is_primary m.controller_status ≡ false)
          ⊎ ((eq_ℤ m.current_node.id id ≡ false)
              ⊎ ((f m.current_node).hb_status ≡ m.current_node.hb_status)))

  checked-IsAligned :
      (id : ℤ) (f : ClusterNode H → ClusterNode H) (m : RecoveryManager H)
      (o : Option (RecoveryManager H))
      → Placed id f m o
      → Gentle id f m
      → IsAligned m
      → Keeps IsAligned (checked o)
  unfolding Gentle
  checked-IsAligned id f m none p g v = tt
  checked-IsAligned id f m (some n) p g v = ground (arith, p, g, v)

  -- A node that is set up or added.
  abbrev SetUp : RecoveryManager H → ℤ → Result (RecoveryManager H) → Type 0
  SetUp m id (err e) = Unit
  SetUp m id (ok n) =
      (n.controller_status ≡ m.controller_status)
      × (n.mastership_view ≡ m.mastership_view)
      × (n.id ≡ m.id)
      × (n.current_node.id ≡ m.current_node.id)
      × ((eq_ℤ m.current_node.id id ≡ true) ⊎ (n.current_node ≡ m.current_node))

  abbrev set_up : ControllerStatus → ClusterNode H → ClusterNode H
  set_up status n = record n { state = active; hb_status = status }

  added-SetUp :
      (id : ℤ) (status : ControllerStatus) (m : RecoveryManager H) (n : ClusterNode H)
      (o : Option (RecoveryManager H))
      → Placed id (set_up status) m o
      → SetUp m id (or_added m n o)
  added-SetUp id status m n (some m') p = ground (arith, p)
  added-SetUp id status m n none p = ground arith

  set_node-SetUp :
      (id : ℤ) (r : ControllerRole) (status : ControllerStatus) (m : RecoveryManager H)
      → SetUp m id (set_node id r status m)
  unfolding set_node
  set_node-SetUp id r status m =
      added-SetUp id status m _ _ (in_cluster-Placed id (set_up status) m)

  abbrev Following : RecoveryManager H → Type 0
  Following n = IsAligned n × (is_primary n.controller_status ≡ false)

  demoted-Following :
      (id : ℤ) (m : RecoveryManager H) (o : Option (RecoveryManager H))
      → is_primary m.controller_status ≡ false
      → IsAligned m
      → Placed id (λ n. record n { state = not_active; hb_status = backup }) m o
      → Keeps Following (checked o)
  demoted-Following id m none h v p = tt
  demoted-Following id m (some n) h v p = ground (arith, h, v, p)

  former-Following :
      (m : RecoveryManager H)
      → is_primary m.controller_status ≡ false
      → IsAligned m
      → Keeps Following (set_former_primary_to_backup m)
  unfolding set_former_primary_to_backup
  former-Following m h v = demoted-Following m.primary_controller_id m _ h v (
      in_cluster-Placed m.primary_controller_id
        (λ n. record n { state = not_active; hb_status = backup }) m)

  renamed-IsAligned :
      (id : ℤ) (r : Stepped H)
      → Keeps Following r
      → Keeps IsAligned (r >>= λ p. ok (record (p.0) { primary_controller_id = id }, p.1))
  renamed-IsAligned id (err e) h = tt
  renamed-IsAligned id (ok (m, outputs)) h = h.0

  follow-IsAligned :
      (id : ℤ) (m : RecoveryManager H)
      → is_primary m.controller_status ≡ false
      → IsAligned m
      → Keeps IsAligned (follow id m)
  follow-IsAligned id m h v = elim (Bool-cases (eq_ℤ m.primary_controller_id id)) [
    | inl e ↦ rw e (v.0, refl)
    | inr e ↦ rw e (renamed-IsAligned id (set_former_primary_to_backup m) (former-Following m h v))
  ]

  backup_set-IsAligned :
      (id : ℤ) (m : RecoveryManager H) (r : Result (RecoveryManager H))
      → not (eq_ℤ m.id id) ≡ true
      → IsAligned m
      → SetUp m id r
      → Keeps IsAligned (r >>= λ n. ok (n, []))
  backup_set-IsAligned id m (err e) f v s = tt
  backup_set-IsAligned id m (ok n) f v s = ground (arith, f, v, s, eq_ℤ→eq m.current_node.id m.id)

  primary_set-IsAligned :
      (id : ℤ) (m : RecoveryManager H) (r : Result (RecoveryManager H))
      → is_primary m.controller_status ≡ false
      → IsAligned m
      → SetUp m id r
      → Keeps IsAligned (r >>= λ n. follow id n)
  primary_set-IsAligned id m (err e) f v s = tt
  primary_set-IsAligned id m (ok n) f v s =
      follow-IsAligned id n (ground (arith, f, s)) (ground (arith, f, v, s))

  named : ℤ → RecoveryManager H → RecoveryManager H
  named id m =
      if eq_ℤ default_id m.primary_controller_id then record m { primary_controller_id = id } else m

  named-IsAligned :
      (id : ℤ) (m : RecoveryManager H)
      → IsAligned m
      → IsAligned (named id m) × ((named id m).controller_status ≡ m.controller_status)
  unfolding named
  named-IsAligned id m v = ground (arith, v)

  primary_heard-IsAligned :
      (id : ℤ) (m : RecoveryManager H)
      → IsAligned m
      → Keeps IsAligned (connection_to_primary_established id m)
  unfolding connection_to_primary_established named
  primary_heard-IsAligned id m v = elim (Bool-cases (is_primary m.controller_status)) [
    | inl e ↦ rw e (ground (arith, v, e))
    | inr e ↦ rw e (
        primary_set-IsAligned id (named id m) (set_node id role_master primary (named id m))
          (ground (arith, e, named-IsAligned id m v)) (named-IsAligned id m v).0
          (set_node-SetUp id role_master primary (named id m)))
  ]

  backup_heard-IsAligned :
      (id : ℤ) (m : RecoveryManager H)
      → IsAligned m
      → not (eq_ℤ m.id id) ≡ true
      → Keeps IsAligned (connection_to_backup_established id m)
  unfolding connection_to_backup_established
  backup_heard-IsAligned id m v f =
      backup_set-IsAligned id m (set_node id role_slave backup m) f v
        (set_node-SetUp id role_slave backup m)

  backup_died-IsAligned :
      (id : ℤ) (m : RecoveryManager H) → IsAligned m → Keeps IsAligned (backup_dead id m)
  unfolding backup_dead Gentle
  backup_died-IsAligned id m v =
      checked-IsAligned id dead_node m _ (in_cluster-Placed id dead_node m) (ground arith) v

  slave-IsAligned :
      (id : ℤ) (f : ClusterNode H → ClusterNode H) (m : RecoveryManager H)
      (o : Option (RecoveryManager H))
      → Placed id f m o
      → Gentle id f m
      → IsAligned m
      → Keeps IsAligned (then_slave o)
  unfolding Gentle
  slave-IsAligned id f m none p g v = tt
  slave-IsAligned id f m (some n) p g v = ground (arith, p, g, v)

  params-IsAligned :
      (p : ParamsMessage H) (m : RecoveryManager H) → IsAligned m → Keeps IsAligned (set_params p m)
  unfolding set_params Gentle
  params-IsAligned p m v =
      slave-IsAligned p.unique_node_id (with_params p) m _
        (in_cluster-Placed p.unique_node_id (with_params p) m) (refl, inr (inr refl)) v

  step-IsAligned :
      (e : Event H) (m : RecoveryManager H)
      → IsAligned m
      → foreign m.id e ≡ true
      → Keeps IsAligned (step e m)
  step-IsAligned started m v f = started-IsAligned m v
  step-IsAligned primary_died m v f = recovery-IsAligned m v
  step-IsAligned mode_changed_to_primary m v f = primary_mode-IsAligned m v
  step-IsAligned switches_ready m v f = ready-IsAligned m v
  step-IsAligned switches_missing m v f = missing-IsAligned m v
  step-IsAligned to_backup m v f = backup_mode-IsAligned m v
  step-IsAligned (primary_heard id) m v f = primary_heard-IsAligned id m v
  step-IsAligned (backup_heard id) m v f = backup_heard-IsAligned id m v f
  step-IsAligned (backup_died id) m v f = backup_died-IsAligned id m v
  step-IsAligned (params_changed p) m v f = params-IsAligned p m v

  -- A slot that fails leaves what it had, and the run goes on with the next event.
  abbrev kept : RecoveryManager H → Stepped H → RecoveryManager H
  kept m (err e) = m
  kept m (ok (n, outputs)) = n

  pub run : List (Event H) → RecoveryManager H → RecoveryManager H
  run [] m = m
  run (e ∷ es) m = if foreign m.id e then run es (kept m (step e m)) else run es m

  kept-IsAligned :
      (m : RecoveryManager H) (r : Stepped H)
      → IsAligned m
      → Keeps IsAligned r
      → IsAligned (kept m r)
  kept-IsAligned m (err e) v k = v
  kept-IsAligned m (ok r) v k = k

  -- After any sequence of slots and commands, a node that is primary for the manager is primary in
  -- the mastership view and in its own cluster entry, and that entry has the identifier of the
  -- node, if this held before; a slot that throws and a report of the node about itself leave the
  -- state.
  pub run-IsAligned :
      (es : List (Event H)) (m : RecoveryManager H) → IsAligned m → IsAligned (run es m)
  unfolding run
  run-IsAligned [] m v = v
  run-IsAligned (e ∷ es) m v = elim (Bool-cases (foreign m.id e)) [
    | inl f ↦ rw f (
        run-IsAligned es (kept m (step e m))
          (kept-IsAligned m (step e m) v (step-IsAligned e m v f)))
    | inr f ↦ rw f (run-IsAligned es m v)
  ]
