-- ===== src/Agent/Run.antt =====
-- The life of an Agent: any sequence of its methods, as the lock orders them (agent/python/
-- ocs_agent/core.py). Calls of `reconcile` are those of `_reconcile_loop` too.
use reconfig_net_sim.Prelude.{String, Option, List, [], ◌∷◌}
use reconfig_net_sim.Value.{Value}
use reconfig_net_sim.Backend.{Backend}
use reconfig_net_sim.Lease.{Clock}
use reconfig_net_sim.Agent.State.{Agent, WriteOptions}
use reconfig_net_sim.Agent.ModeSwitch
use reconfig_net_sim.Agent.Requests.{WriteRequest, handle_write}
use reconfig_net_sim.Agent.Recovery.{recover_device_state}
use reconfig_net_sim.Agent.Reconcile.{reconcile_device_state}
use reconfig_net_sim.Agent.Control.{
  acquire_control, renew_control, release_control, control_state, snapshot,
}

pub data Request : Type 0 where
  write : WriteRequest → WriteOptions → Request
  set_mode : Value → WriteOptions → Request
  recover : WriteOptions → Request
  reconcile : Request
  acquire : String → Value → Value → Request
  renew : Option String → Value → Request
  release : Option String → Request
  control : Request
  view : Request

module _ (b : Backend) where
  -- The state that a request leaves, whether it returns or raises.
  unfoldable pub handle : Clock → Request → Agent b.Device → Agent b.Device
  handle clock (Request.write w options) a = (handle_write b clock w options a).1
  handle clock (Request.set_mode m options) a = (ModeSwitch.set_mode b clock m options a).1
  handle clock (Request.recover options) a = (recover_device_state b clock options a).1
  handle clock Request.reconcile a = (reconcile_device_state b clock a).1
  handle clock (Request.acquire fresh client requested) a =
      (acquire_control b clock fresh client requested a).1
  handle clock (Request.renew token requested) a = (renew_control b clock token requested a).1
  handle clock (Request.release token) a = (release_control b clock token a).1
  handle clock Request.control a = (control_state b clock a).1
  handle clock Request.view a = (snapshot b clock a).1

  unfoldable pub run : List (Clock × Request) → Agent b.Device → Agent b.Device
  run [] a = a
  run ((clock, r) ∷ rest) a = run rest (handle clock r a)

  -- An invariant of every request is an invariant of every run.
  pub run_induction :
      (P : Agent b.Device → Type 0)
      → ((clock : Clock) (r : Request) (a : Agent b.Device) → P a → P (handle clock r a))
      → (requests : List (Clock × Request)) (a : Agent b.Device) → P a
      → P (run requests a)
  unfolding run
  run_induction P step [] a h = h
  run_induction P step ((clock, r) ∷ rest) a h =
      run_induction P step rest (handle clock r a) (step clock r a h)
