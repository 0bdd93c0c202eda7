-- ===== src/Heartbeat/Examples.antt =====
-- A primary with identifier 1 and a backup with identifier 2, over numbers for addresses.
use runos.Base.{ℕ, refl, Bool, true, false, [], ◌∷◌}
use runos.Base.Int.{ℤ, pos, negsuc}
use runos.Heartbeat.{HeartbeatCore, HeartbeatSettings, CommunicationType, ControllerStatus}
use runos.Heartbeat.Roles.{IsInRole, Event, step, Keeps, step-IsInRole}
use runos.Heartbeat.Handshake.{beats_of}

abbrev settings : HeartbeatSettings ℕ
settings = record {
  broadcast_host = 255;
  unicast_host_send_to = 1;
  unicast_port_send_to = 1234;
  broadcast_port = 50000;
  multicast_host = 224;
  multicast_port = 50000;
}

abbrev node : ℤ → ControllerStatus → Bool → HeartbeatCore ℕ
node id mode established = record {
  settings = settings;
  timers = record {
    backup_dead_timers = [];
    heartbeat_timer = false;
    primary_dead_timer = false;
    primary_waiting_timer = false;
  };
  bound = true;
  connection = (1, 1234);
  hbcounter = 0;
  is_connection_to_primary_established = established;
  is_link_between_controllers_down = false;
  unique_node_id = id;
  primary_node_id = negsuc 0;
  heartbeat_mode = mode;
  communication_type = CommunicationType.unicast;
  cached_params_message = record {
    unique_node_id = id;
    heartbeat_connection_params = (0, 0);
    openflow_connection_params = (0, 0);
    db_connection_params = (0, 0);
  };
  hb_start_time = 0;
}

abbrev main_node : HeartbeatCore ℕ
main_node = node (pos 1) ControllerStatus.primary false

abbrev spare_node : HeartbeatCore ℕ
spare_node = node (pos 2) ControllerStatus.backup false

step-IsInRole_example :
    Keeps IsInRole (step spare_node (Event.receives (beats_of (pos 1) 0 (1 ∷ 2 ∷ []))))
step-IsInRole_example =
    step-IsInRole (Event.receives (beats_of (pos 1) 0 (1 ∷ 2 ∷ []))) spare_node
      (record { beats = refl; watches = refl })

-- A backup that heard its primary, once its waiting timer fires.
abbrev heard_node : HeartbeatCore ℕ
heard_node = node (pos 2) ControllerStatus.backup true

abbrev checked_node : HeartbeatCore ℕ
checked_node = record heard_node { is_link_between_controllers_down = true }

abbrev restarted_node : HeartbeatCore ℕ
restarted_node = record checked_node {
  is_connection_to_primary_established = false;
  cached_params_message = record (checked_node.cached_params_message) {
    heartbeat_connection_params = (1, 1234);
  };
}
