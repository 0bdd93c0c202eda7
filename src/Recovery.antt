-- ===== src/Recovery.antt =====
-- src/core/Recovery.cc, Recovery.hpp, RecoveryModeChecker.cc: which controller of a cluster is
-- primary, and the roles it asks of its switches. Recovery.antt has the slots of RecoveryManager; what
-- they emit, and what they tell the mastership view and the database, is a list of outputs. A failed
-- CHECK is `err`. The settings that are read once are in the state from the start.
pub mod SwitchViews
pub mod Asking
pub mod Checker
pub mod Alignment
pub mod Failover
mod Examples
use runos.Base.{
  ℕ, ◌≡◌, Bool, true, false, not, ◌||◌, ◌&&◌, Option, none, some, List, [], ◌∷◌, ◌++◌, map,
  if◌then◌else◌,
}
use runos.Base.Int.{ℤ, eq_ℤ}
use runos.Heartbeat.{
  ControllerStatus, CommunicationType, Connection, ParamsMessage, is_primary, is_backup, primary,
  backup,
}
use runos.Heartbeat.Timing.{Result, ok, err, check_failed, ◌>>=◌, default_id}
use SwitchViews.{ControllerRole, role_equal, role_master, role_slave, role_nochange}

pub data ControllerState : Type 0 where
  not_active active : ControllerState

pub record ClusterNode (H : Type 0) : Type 0 where
  pub id : ℤ
  pub state : ControllerState
  pub role : ControllerRole
  pub hb_status : ControllerStatus
  pub hb_mode : CommunicationType
  pub of_addr : Option (Connection H)
  pub hb_addr : Option (Connection H)
  pub db_addr : Option (Connection H)

-- MastershipView without its switches: `initialised` is whether init_promise is fulfilled.
pub record MastershipView : Type 0 where
  pub ctrl_status : ControllerStatus
  pub initialised : Bool

-- `cluster_` is the current node, which comes first, and the others. `recovery_checks` counts how
-- often the slots of the mode checker were connected.
pub record RecoveryManager (H : Type 0) : Type 0 where
  pub current_node : ClusterNode H
  pub others : List (ClusterNode H)
  pub mastership_view : MastershipView
  pub id : ℤ
  pub primary_controller_id : ℤ
  pub controller_status : ControllerStatus
  pub heartbeat_communication_type : CommunicationType
  pub heartbeat_addr : Connection H
  pub recovery_checks : ℕ

pub data Output (H : Type 0) : Type 0 where
  to_start_heartbeat_service : CommunicationType → ControllerStatus → Output H
  to_stop_heartbeat_service : Output H
  setup_new_role_for_all : ControllerRole → Output H
  setup_master_role : Output H
  setup_slave_of : Option (Connection H) → Output H
  start_recovery_check : Output H
  link_between_controllers_is_down : Output H
  signal_recovery signal_setup_primary_mode signal_setup_backup_mode : Output H

abbrev pub is_defined : ControllerStatus → Bool
is_defined ControllerStatus.undefined = false
is_defined _ = true

abbrev pub is_recovery : ControllerStatus → Bool
is_recovery ControllerStatus.recovery = true
is_recovery _ = false

abbrev pub has_type : CommunicationType → Bool
has_type CommunicationType.undefined = false
has_type _ = true

unfoldable pub set_status : ControllerStatus → MastershipView → MastershipView
set_status status v = record {
  ctrl_status = status;
  initialised = v.initialised || is_defined status;
}

abbrev pub is_unicast : CommunicationType → Bool
is_unicast CommunicationType.unicast = true
is_unicast _ = false

abbrev pub Stepped : Type 0 → Type 0
Stepped H = Result (RecoveryManager H × List (Output H))

-- The role that switchUp asks of a new switch.
unfoldable pub role_on_switch_up : ControllerStatus → Option ControllerRole
role_on_switch_up ControllerStatus.primary = some role_master
role_on_switch_up ControllerStatus.backup = some role_slave
role_on_switch_up _ = none

module _ {H : Type 0} where
  unfoldable pub send_start_heartbeat : RecoveryManager H → Result (List (Output H))
  send_start_heartbeat m =
      if has_type m.heartbeat_communication_type && is_defined m.controller_status
      then ok (to_start_heartbeat_service m.heartbeat_communication_type m.controller_status ∷ [])
      else err check_failed

  -- A backup on broadcast or multicast leaves the mastership undefined.
  unfoldable pub set_init_controller_status : RecoveryManager H → RecoveryManager H
  unfolding set_status
  set_init_controller_status m =
      if is_backup m.controller_status
        && has_type m.heartbeat_communication_type
        && not (is_unicast m.heartbeat_communication_type)
      then m
      else record m { mastership_view = set_status m.controller_status m.mastership_view }

  unfoldable pub start_heartbeat : RecoveryManager H → Stepped H
  unfolding send_start_heartbeat set_init_controller_status
  start_heartbeat m =
      let m1 = record m {
        current_node = record m.current_node {
          hb_mode = m.heartbeat_communication_type;
          hb_status = m.controller_status;
          hb_addr = some m.heartbeat_addr;
        };
      } in
      do outputs ← send_start_heartbeat m1; ok (set_init_controller_status m1, outputs)

  unfoldable pub stop_heartbeat : RecoveryManager H → Stepped H
  stop_heartbeat m = ok (m, to_stop_heartbeat_service ∷ [])

  -- The loop of `recovery` for a node that is not the current one.
  unfoldable pub recovered_node : ℤ → ClusterNode H → ClusterNode H
  unfolding eq_ℤ
  recovered_node id n =
      if is_primary n.hb_status && not (eq_ℤ n.id id)
      then record n { state = not_active; hb_status = backup }
      else if eq_ℤ n.id id
      then record n { state = active; hb_status = primary }
      else record n { hb_status = backup }

  unfoldable pub recovery : RecoveryManager H → Stepped H
  unfolding set_status recovered_node send_start_heartbeat
  recovery m =
      let m1 = record m {
        controller_status = primary;
        mastership_view = set_status primary m.mastership_view;
        current_node = recovered_node m.id m.current_node;
        others = map (recovered_node m.id) m.others;
      } in
      if is_primary m.controller_status then ok (m, []) else (do
        outputs ← send_start_heartbeat m1
        ok (
          m1,
          setup_new_role_for_all role_master
              ∷ (outputs ++ setup_master_role ∷ signal_recovery ∷ []),
        ))

  -- `find_if` by identifier, and the write through the node that it finds; `none` is the end.
  unfoldable pub change_node :
      ℤ → (ClusterNode H → ClusterNode H) → List (ClusterNode H) → Option (List (ClusterNode H))
  unfolding eq_ℤ
  change_node id f [] = none
  change_node id f (n ∷ ns) =
      if eq_ℤ n.id id
      then some (f n ∷ ns)
      else elim (change_node id f ns) [ none ↦ none | some ns' ↦ some (n ∷ ns') ]

  abbrev pub with_others :
      RecoveryManager H → Option (List (ClusterNode H)) → Option (RecoveryManager H)
  with_others m none = none
  with_others m (some ns) = some (record m { others = ns })

  unfoldable pub in_cluster :
      ℤ → (ClusterNode H → ClusterNode H) → RecoveryManager H → Option (RecoveryManager H)
  unfolding change_node
  in_cluster id f m =
      if eq_ℤ m.current_node.id id
      then some (record m { current_node = f m.current_node })
      else with_others m (change_node id f m.others)

  abbrev pub checked : Option (RecoveryManager H) → Stepped H
  checked none = err check_failed
  checked (some m) = ok (m, [])

  abbrev pub dead_node : ClusterNode H → ClusterNode H
  dead_node n = if is_backup n.hb_status then record n { state = not_active } else n

  abbrev pub with_params : ParamsMessage H → ClusterNode H → ClusterNode H
  with_params p n = record n {
    of_addr = some p.openflow_connection_params;
    hb_addr = some p.heartbeat_connection_params;
    db_addr = some p.db_connection_params;
  }

  unfoldable pub backup_dead : ℤ → RecoveryManager H → Stepped H
  unfolding in_cluster
  backup_dead backup_id m = checked (in_cluster backup_id dead_node m)

  unfoldable pub set_former_primary_to_backup : RecoveryManager H → Stepped H
  unfolding in_cluster
  set_former_primary_to_backup m = checked (
      in_cluster m.primary_controller_id (λ n. record n { state = not_active; hb_status = backup })
        m)

  unfoldable pub new_node :
      ℤ → ControllerRole → ControllerStatus → CommunicationType → ClusterNode H
  new_node id role status type = record {
    id = id;
    state = active;
    role = role;
    hb_status = status;
    hb_mode = type;
    of_addr = none;
    hb_addr = none;
    db_addr = none;
  }

  abbrev pub or_added :
      RecoveryManager H → ClusterNode H → Option (RecoveryManager H) → Result (RecoveryManager H)
  or_added m n (some m') = ok m'
  or_added m n none =
      if has_type n.hb_mode then ok (record m { others = m.others ++ n ∷ [] }) else err check_failed

  -- setPrimaryNode, and the same for a backup.
  unfoldable pub set_node :
      ℤ → ControllerRole → ControllerStatus → RecoveryManager H → Result (RecoveryManager H)
  unfolding in_cluster new_node
  set_node id role status m =
      or_added m (new_node id role status m.heartbeat_communication_type)
        (in_cluster id (λ n. record n { state = active; hb_status = status }) m)

  abbrev pub follow : ℤ → RecoveryManager H → Stepped H
  follow primary_id m =
      if eq_ℤ m.primary_controller_id primary_id
      then ok (
        record m {
          controller_status = backup;
          mastership_view = set_status backup m.mastership_view;
        },
        [],
      )
      else (do
        (m', outputs) ← set_former_primary_to_backup m
        ok (record m' { primary_controller_id = primary_id }, outputs))

  unfoldable pub connection_to_primary_established : ℤ → RecoveryManager H → Stepped H
  unfolding set_node set_former_primary_to_backup set_status
  connection_to_primary_established primary_id m =
      let m1 =
        if eq_ℤ default_id m.primary_controller_id
        then record m { primary_controller_id = primary_id }
        else m in
      if is_primary m.controller_status
      then ok (m, [])
      else (do m2 ← set_node primary_id role_master primary m1; follow primary_id m2)

  unfoldable pub connection_to_backup_established : ℤ → RecoveryManager H → Stepped H
  unfolding set_node
  connection_to_backup_established backup_id m = do
    m' ← set_node backup_id role_slave backup m
    ok (m', [])

  unfoldable pub setup_primary_from_backup : RecoveryManager H → Stepped H
  unfolding set_status send_start_heartbeat
  setup_primary_from_backup m =
      let m1 = record m {
        controller_status = primary;
        mastership_view = set_status primary m.mastership_view;
        current_node = record m.current_node { hb_status = primary };
      } in
      do
        outputs ← send_start_heartbeat m1
        ok (m1, setup_new_role_for_all role_master ∷ (outputs ++ signal_setup_primary_mode ∷ []))

  -- In mode RECOVERY the switches are waited for, with the heartbeat as primary.
  unfoldable pub setup_primary_mode : RecoveryManager H → Stepped H
  unfolding setup_primary_from_backup
  setup_primary_mode m =
      if is_primary m.controller_status
      then ok (m, [])
      else if is_recovery m.controller_status
      then ok (
        record m {
          recovery_checks = ℕ.suc m.recovery_checks;
          current_node = record m.current_node { hb_status = primary };
        },
        start_recovery_check
            ∷ to_start_heartbeat_service m.heartbeat_communication_type primary
            ∷ [],
      )
      else if is_backup m.controller_status
      then setup_primary_from_backup m
      else ok (m, [])

  -- The slots of readyToRecover and failedRecover, once for each connection.
  unfoldable pub ready_to_recover : RecoveryManager H → Stepped H
  unfolding recovery
  ready_to_recover m = recovery (record m { controller_status = backup })

  unfoldable pub failed_recover : RecoveryManager H → Stepped H
  unfolding setup_primary_mode
  failed_recover m = setup_primary_mode (record m { controller_status = backup })

  unfoldable pub setup_backup_mode : RecoveryManager H → Stepped H
  unfolding set_status send_start_heartbeat eq_ℤ
  setup_backup_mode m =
      let m1 = record m {
        controller_status = backup;
        mastership_view = set_status backup m.mastership_view;
        current_node = record m.current_node { hb_status = backup };
        others =
            map
              (λ n.
                if eq_ℤ n.id m.id then n else record n { state = not_active; hb_status = backup })
              m.others;
      } in
      if is_backup m.controller_status then ok (m, []) else (do
        outputs ← send_start_heartbeat m1
        ok (
          m1,
          link_between_controllers_is_down
              ∷ setup_new_role_for_all role_slave
              ∷ (outputs ++ signal_setup_backup_mode ∷ []),
        ))

  unfoldable pub find_primary : List (ClusterNode H) → Option (ClusterNode H)
  find_primary [] = none
  find_primary (n ∷ ns) = if is_primary n.hb_status then some n else find_primary ns

  abbrev pub slave_outputs : Bool → Option (ClusterNode H) → List (Output H)
  slave_outputs true found = []
  slave_outputs false none = []
  slave_outputs false (some n) = setup_slave_of n.db_addr ∷ []

  abbrev pub then_slave : Option (RecoveryManager H) → Stepped H
  then_slave none = err check_failed
  then_slave (some m) =
      ok (
        m,
        slave_outputs (is_primary m.controller_status) (find_primary (m.current_node ∷ m.others)),
      )

  unfoldable pub set_params : ParamsMessage H → RecoveryManager H → Stepped H
  unfolding in_cluster find_primary
  set_params p m = then_slave (in_cluster p.unique_node_id (with_params p) m)

  -- modifyStatus with "Primary", "Backup" or another word.
  unfoldable pub modify_to_primary : RecoveryManager H → Stepped H
  unfolding recovery
  modify_to_primary m =
      if is_primary m.controller_status
      then ok (m, [])
      else (do (m', outputs) ← recovery m; ok (m', outputs ++ setup_master_role ∷ []))
