-- ===== src/Examples/Model.antt =====
-- The definitions that a run of the model computes.
use reconfig_net_sim.Inventory.{find, require, by_index, make_inventory}
use reconfig_net_sim.Backend.{validate_delay_us}
use reconfig_net_sim.Connection.{connection_eq}
use reconfig_net_sim.Lease.{expire, lease_duration, acquire, holds, require_lease, renew, release}
use reconfig_net_sim.ConnectionSet.{
  occupy, add_connection, add_connections, make_set, get, same_connections, require_connection,
  or_unknown, replace, delete, add_pairs, directed_pairs, set_diff,
}
use reconfig_net_sim.P4app
use reconfig_net_sim.P4app.Decode.{decode_rows}
use reconfig_net_sim.PairSet.{to_set, mem, add, diff, subset, set_eq, sorted}
use reconfig_net_sim.Transition.{plan}
use reconfig_net_sim.Agent.ModeSwitch.{
  parse_mode, commit_mode, change_mode, unchanged_mode, set_mode,
}
use reconfig_net_sim.Agent.Reconcile.{
  after_read, observe_with, judge, reconcile_failed, reconcile_device_state,
}
use reconfig_net_sim.Agent.Startup.{align, start, make_agent}
use reconfig_net_sim.Agent.Requests.{
  apply_operation, apply_operations, replace_connection, delete_connection, replace_connections,
  apply_connection_operations, handle_write,
}
use reconfig_net_sim.Agent.State.{
  pairs_of, full_mesh, mode_pairs, zero_timing, check_revision, mark_drift, capture,
  current_device_pairs, next_request_id, check_write_preconditions, response, read_and_compare,
  pre_read,
}
use reconfig_net_sim.Agent.Run.{handle, run}
use reconfig_net_sim.Agent.Write.{
  transition_failed, device_failed, program, commit_target, change_target, unchanged_target,
  guarded_write, apply_target,
}
use reconfig_net_sim.Agent.Control.{
  control_state, acquire_control, renew_control, release_control, snapshot,
}
use reconfig_net_sim.Agent.Recovery.{
  reapply, recover_with, recovery_failed, commit_recovery, recover, recover_device_state,
}

unfoldable pub model : Unit {0}
unfolding find require by_index make_inventory validate_delay_us connection_eq expire lease_duration
    acquire holds require_lease renew release occupy add_connection add_connections make_set get
    same_connections require_connection or_unknown replace delete add_pairs directed_pairs set_diff
    P4app.write_pair decode_rows P4app.native_write P4app.read_pairs P4app.write_each
    P4app.write_pairs P4app.restore P4app.update P4app.roll_back P4app.check_request P4app.perform
    P4app.apply to_set mem add diff subset set_eq sorted plan parse_mode commit_mode change_mode
    unchanged_mode set_mode after_read observe_with judge reconcile_failed reconcile_device_state
    align start make_agent apply_operation apply_operations replace_connection delete_connection
    replace_connections apply_connection_operations handle_write pairs_of full_mesh mode_pairs
    zero_timing check_revision mark_drift capture current_device_pairs next_request_id
    check_write_preconditions response read_and_compare pre_read handle run transition_failed
    device_failed program commit_target change_target unchanged_target guarded_write apply_target
    control_state acquire_control renew_control release_control snapshot reapply recover_with
    recovery_failed commit_recovery recover recover_device_state
model = tt
