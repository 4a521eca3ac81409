-- ===== src/Agent/Sync/Run.antt =====
-- The refinement: over a faithful backend, an Agent that reports `ready` is in sync with its device
-- after any sequence of requests.
use reconfig_net_sim.Prelude.{String, ◌≡◌, inl, inr, Option, List}
use reconfig_net_sim.Value.{Value}
use reconfig_net_sim.Errors.{Result, Result-cases, ok}
use reconfig_net_sim.Exec.{outcome}
use reconfig_net_sim.Modes.{Status}
use reconfig_net_sim.PairSet.{PairSet}
use reconfig_net_sim.ConnectionSet
use reconfig_net_sim.ConnectionSet.{ConnectionSet}
use reconfig_net_sim.ConnectionSet.Permutation.{from_permutation}
use reconfig_net_sim.Backend.{Backend}
use reconfig_net_sim.Backend.Laws.{IsFaithful}
use reconfig_net_sim.Lease.{Clock, acquire, renew, release}
use reconfig_net_sim.Agent.State.{Agent, WriteOptions, current_device_pairs}
use reconfig_net_sim.Agent.Startup.{Config, make_agent}
use reconfig_net_sim.Agent.Requests.{
  WriteRequest, with_target, handle_write, replace_connection, delete_connection,
  replace_connections, apply_connection_operations, apply_permutation, apply_operations,
}
use reconfig_net_sim.Agent.Control.{
  acquire_control, renew_control, release_control, control_state, snapshot,
}
use reconfig_net_sim.Agent.Run.{Request, handle, run, run_induction}
use reconfig_net_sim.Agent.Sync.Program.{InSync}
use reconfig_net_sim.Agent.Sync.Write.{apply_target-InSync}
use reconfig_net_sim.Agent.Sync.ModeSwitch.{set_mode-InSync}
use reconfig_net_sim.Agent.Sync.Recovery.{recover_device_state-InSync}
use reconfig_net_sim.Agent.Sync.Reconcile.{reconcile_device_state-InSync}
use reconfig_net_sim.Agent.Sync.Startup.{make_agent-InSync}

module _ (b : Backend) (Holds : b.Device → PairSet → Type 0) (faithful : IsFaithful b Holds) where
  with_target-InSync :
      (clock : Clock) (options : WriteOptions) (target : Agent b.Device → Result ConnectionSet)
      (a : Agent b.Device)
      → InSync b Holds faithful a
      → InSync b Holds faithful (with_target b clock options target a).1
  with_target-InSync clock options target a h = elim (Result-cases (target a)) [
    | inl (t, e) ↦ rw e (apply_target-InSync b Holds faithful clock t options a h)
    | inr (x, e) ↦ rw e h
  ]

  handle_write-InSync :
      (clock : Clock) (w : WriteRequest) (options : WriteOptions) (a : Agent b.Device)
      → InSync b Holds faithful a
      → InSync b Holds faithful (handle_write b clock w options a).1
  unfolding handle_write replace_connection delete_connection replace_connections
      apply_connection_operations apply_permutation
  handle_write-InSync clock (WriteRequest.one c) options a h =
      with_target-InSync clock options (λ s. ConnectionSet.replace s.connections c) a h
  handle_write-InSync clock (WriteRequest.without name) options a h =
      with_target-InSync clock options (λ s. ConnectionSet.delete s.connections name) a h
  handle_write-InSync clock (WriteRequest.whole s) options a h =
      apply_target-InSync b Holds faithful clock s options a h
  handle_write-InSync clock (WriteRequest.several os) options a h =
      with_target-InSync clock options (λ s. apply_operations s.connections os) a h
  handle_write-InSync clock (WriteRequest.permutation v) options a h =
      with_target-InSync clock options (λ s. from_permutation s.inventory v) a h

  acquire_control-InSync :
      (clock : Clock) (fresh : String) (client requested : Value) (a : Agent b.Device)
      → InSync b Holds faithful a
      → InSync b Holds faithful (acquire_control b clock fresh client requested a).1
  unfolding acquire_control current_device_pairs
  acquire_control-InSync clock fresh client requested a h =
      elim (outcome (acquire clock fresh client requested a.lease)) [
        | inl (_, l, e) ↦ rw e h
        | inr (x, l, e) ↦ rw e h
      ]

  renew_control-InSync :
      (clock : Clock) (token : Option String) (requested : Value) (a : Agent b.Device)
      → InSync b Holds faithful a
      → InSync b Holds faithful (renew_control b clock token requested a).1
  unfolding renew_control current_device_pairs
  renew_control-InSync clock token requested a h =
      elim (outcome (renew clock token requested a.lease)) [
        | inl (_, l, e) ↦ rw e h
        | inr (x, l, e) ↦ rw e h
      ]

  release_control-InSync :
      (clock : Clock) (token : Option String) (a : Agent b.Device)
      → InSync b Holds faithful a
      → InSync b Holds faithful (release_control b clock token a).1
  unfolding release_control control_state current_device_pairs
  release_control-InSync clock token a h = elim (outcome (release clock token a.lease)) [
    | inl (_, l, e) ↦ rw e h
    | inr (x, l, e) ↦ rw e h
  ]

  handle-InSync :
      (clock : Clock) (r : Request) (a : Agent b.Device)
      → InSync b Holds faithful a
      → InSync b Holds faithful (handle b clock r a)
  unfolding handle current_device_pairs control_state snapshot
  handle-InSync clock (Request.write w options) a h = handle_write-InSync clock w options a h
  handle-InSync clock (Request.set_mode m options) a h =
      set_mode-InSync b Holds faithful clock m options a h
  handle-InSync clock (Request.recover options) a h =
      recover_device_state-InSync b Holds faithful clock options a h
  handle-InSync clock Request.reconcile a h =
      reconcile_device_state-InSync b Holds faithful clock a h
  handle-InSync clock (Request.acquire fresh client requested) a h =
      acquire_control-InSync clock fresh client requested a h
  handle-InSync clock (Request.renew token requested) a h =
      renew_control-InSync clock token requested a h
  handle-InSync clock (Request.release token) a h = release_control-InSync clock token a h
  handle-InSync clock Request.control a h = h
  handle-InSync clock Request.view a h = h

  -- Over a backend that keeps its contract, after a startup that returned and any sequence of requests,
  -- those that raise included: if the Agent's status is `ready`, then its device holds exactly the
  -- pairs of its current connections, or of Debug Mode.
  pub run-Holds :
      (clock : Clock) (config : Config) (d : b.Device) (a : Agent b.Device)
      (requests : List (Clock × Request))
      → make_agent b clock config d ≡ (ok tt, a)
      → (run b requests a).status ≡ Status.ready
      → Holds (run b requests a).device (current_device_pairs b (run b requests a))
  run-Holds clock config d a requests started =
      run_induction b (InSync b Holds faithful) handle-InSync requests a
        (make_agent-InSync b Holds faithful clock config d a started)
