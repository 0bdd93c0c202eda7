-- ===== src/Recovery/Examples.antt =====
-- A backup with identifier 2 in a cluster with two others, over numbers for addresses; and switches
-- that answer EQUAL.
use runos.Base.{ℕ, refl, true, false, none, some, [], ◌∷◌, arith}
use runos.Base.Int.{ℤ, pos, eq_ℤ}
use runos.Heartbeat.{HeartbeatCore, CommunicationType, ControllerStatus, primary, backup}
use runos.DpidChecker.{DpidChecker}
use runos.DpidChecker.Lists.{count}
use runos.DpidChecker.Roles.{IsUnique}
use runos.Recovery.{RecoveryManager, ClusterNode, ControllerState}
use runos.Recovery.SwitchViews.{
  role_equal, role_master, role_slave, replied, SwitchView, change_role,
}
use runos.Recovery.Asking.{Sends, change_role_ends}
use runos.Recovery.Checker.{RecoveryModeChecker}
use runos.Recovery.Alignment.{IsAligned, primary_died, backup_heard, to_backup, run, run-IsAligned}
use runos.Recovery.Failover.{TakenOver, take_over, take_over-TakenOver}

abbrev node : ℤ → ControllerStatus → ClusterNode ℕ
node id status = record {
  id = id;
  state = ControllerState.active;
  role = role_slave;
  hb_status = status;
  hb_mode = CommunicationType.unicast;
  of_addr = none;
  hb_addr = none;
  db_addr = none;
}

abbrev manager : ControllerStatus → RecoveryManager ℕ
manager status = record {
  current_node = node (pos 2) status;
  others = node (pos 1) primary ∷ node (pos 3) backup ∷ [];
  mastership_view = record { ctrl_status = status; initialised = true };
  id = pos 2;
  primary_controller_id = pos 1;
  controller_status = status;
  heartbeat_communication_type = CommunicationType.unicast;
  heartbeat_addr = (7, 1234);
  recovery_checks = 0;
}

abbrev core : HeartbeatCore ℕ
core = record {
  settings = record {
    broadcast_host = 255;
    unicast_host_send_to = 1;
    unicast_port_send_to = 1234;
    broadcast_port = 50000;
    multicast_host = 224;
    multicast_port = 50000;
  };
  timers = record {
    backup_dead_timers = [];
    heartbeat_timer = false;
    primary_dead_timer = true;
    primary_waiting_timer = false;
  };
  bound = true;
  connection = (1, 1234);
  hbcounter = 0;
  is_connection_to_primary_established = true;
  is_link_between_controllers_down = false;
  unique_node_id = pos 2;
  primary_node_id = pos 1;
  heartbeat_mode = backup;
  communication_type = CommunicationType.unicast;
  cached_params_message = record {
    unique_node_id = pos 2;
    heartbeat_connection_params = (0, 0);
    openflow_connection_params = (0, 0);
    db_connection_params = (0, 0);
  };
  hb_start_time = 0;
}

manager-IsAligned : (IsAligned (manager backup)) × (IsAligned (manager primary))
unfolding eq_ℤ
manager-IsAligned = ((refl, refl), (refl, refl))

run-IsAligned_example :
    IsAligned (run (primary_died ∷ backup_heard (pos 1) ∷ to_backup ∷ []) (manager backup))
run-IsAligned_example =
    run-IsAligned (primary_died ∷ backup_heard (pos 1) ∷ to_backup ∷ []) (manager backup)
      manager-IsAligned.0

take_over-TakenOver_example : TakenOver (take_over true (manager backup) core)
take_over-TakenOver_example = take_over-TakenOver (manager backup) core refl refl

abbrev view : SwitchView
view = record { dpid = 5; generation_id = 0; role = role_equal }

change_role_ends_example :
    Sends 3
      (change_role 5 role_master false none view (replied role_equal 3 ∷ replied role_equal 4 ∷ []))
change_role_ends_example =
    change_role_ends 5 role_master false view (replied role_equal 3 ∷ replied role_equal 4 ∷ [])
      (omega arith)

abbrev lists : DpidChecker
lists = record { ar_list = 5 ∷ []; dr_list = 7 ∷ [] }

lists-IsUnique : IsUnique lists
unfolding count
lists-IsUnique = record { once = λ x. ground arith }

abbrev waiting : RecoveryModeChecker
waiting = record {
  waiting_for_switches = 5 ∷ 7 ∷ [];
  connected_switches = 7 ∷ 9 ∷ 5 ∷ [];
  expire_time = some 60;
  running = true;
}
