-- ===== src/Examples/WorkerModel.antt =====
-- The definitions that a run of the worker computes.
use reconfig_net_sim.Worker.State.{fill_state, mark_drift, make_service}
use reconfig_net_sim.Worker.Apply.{
  refusal, applied_reply, transition_reply, commit, after_failure, apply_failed, write_device,
  read_then_write, apply_transition,
}
use reconfig_net_sim.Worker.Recover
use reconfig_net_sim.Worker.Recover.{
  compare_cache, commit_recovery, reconcile, rewrite, recover_failed,
}
use reconfig_net_sim.Worker.Run.{read, serve, serve_all}

unfoldable pub worker_model : Unit {0}
unfolding fill_state mark_drift make_service refusal applied_reply transition_reply commit
    after_failure apply_failed write_device read_then_write apply_transition compare_cache
    commit_recovery reconcile rewrite recover_failed Recover.recover read serve serve_all
worker_model = tt
