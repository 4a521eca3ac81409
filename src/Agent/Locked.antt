-- ===== src/Agent/Locked.antt =====
-- The startup gate of agent/python/ocs_agent/core.py: after a startup mismatch, only the explicit
-- `RecoverDeviceState` writes to the device.
use reconfig_net_sim.Prelude.{
  ◌+◌, String, ◌≡◌, refl, ◌∙◌, inl, inr, Bool, true, false, Option, List, [], ◌∷◌, All,
}
use reconfig_net_sim.Value.{Value}
use reconfig_net_sim.Errors
use reconfig_net_sim.Errors.{Raised, Result, ok, err, raise_if, Result-cases}
use reconfig_net_sim.Exec.{outcome}
use reconfig_net_sim.Modes.{Mode, same_mode}
use reconfig_net_sim.ConnectionSet
use reconfig_net_sim.ConnectionSet.{ConnectionSet}
use reconfig_net_sim.ConnectionSet.Permutation.{from_permutation}
use reconfig_net_sim.Backend.{Backend, validate_delay_us}
use reconfig_net_sim.Lease.{Clock, require_lease, acquire, renew, release}
use reconfig_net_sim.Agent.State.{
  Agent, WriteOptions, pairs_of, capture, check_revision, startup_gate, next_request_id,
}
use reconfig_net_sim.Agent.Write.{apply_target, debug_active}
use reconfig_net_sim.Agent.ModeSwitch
use reconfig_net_sim.Agent.ModeSwitch.{parse_mode}
use reconfig_net_sim.Agent.Requests.{
  WriteRequest, with_target, handle_write, replace_connection, delete_connection,
  replace_connections, apply_connection_operations, apply_permutation, apply_operations,
}
use reconfig_net_sim.Agent.Control.{
  acquire_control, renew_control, release_control, control_state, snapshot,
}
use reconfig_net_sim.Agent.Guards.{gate, check_write_preconditions-gate}
use reconfig_net_sim.Agent.Outcome.{apply_target-gated}
use reconfig_net_sim.PairSet.{PairSet, set_eq}
use reconfig_net_sim.Agent.Startup.{Config, initial, make_agent, start, align}
use reconfig_net_sim.Agent.Run.{Request, handle, run}

-- The requests that may reach the device while startup is unresolved.
abbrev pub is_device_request : Request → Bool
is_device_request (Request.recover options) = true
is_device_request Request.reconcile = true
is_device_request r = false

module _ (b : Backend) where
  -- The device of one state is that of another, and both wait for a recovery.
  abbrev pub IsLocked : Agent b.Device → Agent b.Device → Type 0
  IsLocked a s =
      (s.startup_recovery_required ≡ true)
      × (s.device ≡ a.device)
      × (s.connections ≡ a.connections)
      × (s.mode ≡ a.mode)
      × (s.revision ≡ a.revision)

  gate-locked :
      (clock : Clock) (token : Option String) (expected : Value) (a : Agent b.Device)
      → a.startup_recovery_required ≡ true
      → (x : Raised) × (gate b clock token expected a ≡ err x)
  gate-locked clock token expected a locked =
      elim (Result-cases (require_lease clock token a.lease).0) [
        | inr (x, e) ↦ (x, rw e)
        | inl (_, e) ↦ elim (Result-cases (check_revision a.revision expected)) [
          | inr (x, f) ↦ (x, rw (e, f))
          | inl (_, f) ↦ (startup_gate, rw (e, f, locked))
        ]
      ]

  same-IsLocked : (a : Agent b.Device) → a.startup_recovery_required ≡ true → IsLocked a a
  same-IsLocked a locked = (locked, refl, refl, refl, refl)

  apply_target-IsLocked :
      (clock : Clock) (target : ConnectionSet) (options : WriteOptions) (a : Agent b.Device)
      → a.startup_recovery_required ≡ true
      → IsLocked a (apply_target b clock target options a).1
  unfolding apply_target
  apply_target-IsLocked clock target options a locked =
      elim (Result-cases (validate_delay_us options.delay_us)) [
        | inr (x, e) ↦ rw e (same-IsLocked a locked)
        | inl (delay, e) ↦
            let (x, closed) =
              gate-locked clock options.lease_token options.expected_revision a locked in
            let shut : Errors.◌>>◌ (gate b clock options.lease_token options.expected_revision a)
                  (raise_if (same_mode a.mode Mode.debug) debug_active)
                ≡ err x =
              rw closed in
            let run = apply_target-gated b clock target options a delay x e shut in
            rw run (locked, refl, refl, refl, refl)
      ]

  with_target-IsLocked :
      (clock : Clock) (options : WriteOptions) (target : Agent b.Device → Result ConnectionSet)
      (a : Agent b.Device)
      → a.startup_recovery_required ≡ true
      → IsLocked a (with_target b clock options target a).1
  with_target-IsLocked clock options target a h = elim (Result-cases (target a)) [
    | inl (t, e) ↦ rw e (apply_target-IsLocked clock t options a h)
    | inr (x, e) ↦ rw e (same-IsLocked a h)
  ]

  set_mode-IsLocked :
      (clock : Clock) (requested : Value) (options : WriteOptions) (a : Agent b.Device)
      → a.startup_recovery_required ≡ true
      → IsLocked a (ModeSwitch.set_mode b clock requested options a).1
  unfolding ModeSwitch.set_mode next_request_id
  set_mode-IsLocked clock requested options a h = elim (Result-cases (parse_mode requested)) [
    | inr (x, e) ↦ rw e (same-IsLocked a h)
    | inl (m, e) ↦ rw e (elim (Result-cases (validate_delay_us options.delay_us)) [
      | inr (x, f) ↦ rw f (same-IsLocked a h)
      | inl (delay, f) ↦
          let s = record a { request_id = a.request_id + 1 } in
          let (x, closed) = gate-locked clock options.lease_token options.expected_revision s h in
          rw
            (
              f,
              check_write_preconditions-gate b clock options.lease_token options.expected_revision
                  s,
              closed,
            )
            (h, refl, refl, refl, refl)
    ])
  ]

  handle_write-IsLocked :
      (clock : Clock) (w : WriteRequest) (options : WriteOptions) (a : Agent b.Device)
      → a.startup_recovery_required ≡ true
      → IsLocked a (handle_write b clock w options a).1
  unfolding handle_write replace_connection delete_connection replace_connections
      apply_connection_operations apply_permutation
  handle_write-IsLocked clock (WriteRequest.one c) options a h =
      with_target-IsLocked clock options (λ s. ConnectionSet.replace s.connections c) a h
  handle_write-IsLocked clock (WriteRequest.without name) options a h =
      with_target-IsLocked clock options (λ s. ConnectionSet.delete s.connections name) a h
  handle_write-IsLocked clock (WriteRequest.whole s) options a h =
      apply_target-IsLocked clock s options a h
  handle_write-IsLocked clock (WriteRequest.several os) options a h =
      with_target-IsLocked clock options (λ s. apply_operations s.connections os) a h
  handle_write-IsLocked clock (WriteRequest.permutation v) options a h =
      with_target-IsLocked clock options (λ s. from_permutation s.inventory v) a h

  acquire_control-IsLocked :
      (clock : Clock) (fresh : String) (client requested : Value) (a : Agent b.Device)
      → a.startup_recovery_required ≡ true
      → IsLocked a (acquire_control b clock fresh client requested a).1
  unfolding acquire_control
  acquire_control-IsLocked clock fresh client requested a h =
      elim (outcome (acquire clock fresh client requested a.lease)) [
        | inl (_, l, e) ↦ rw e (h, refl, refl, refl, refl)
        | inr (x, l, e) ↦ rw e (h, refl, refl, refl, refl)
      ]

  renew_control-IsLocked :
      (clock : Clock) (token : Option String) (requested : Value) (a : Agent b.Device)
      → a.startup_recovery_required ≡ true
      → IsLocked a (renew_control b clock token requested a).1
  unfolding renew_control
  renew_control-IsLocked clock token requested a h =
      elim (outcome (renew clock token requested a.lease)) [
        | inl (_, l, e) ↦ rw e (h, refl, refl, refl, refl)
        | inr (x, l, e) ↦ rw e (h, refl, refl, refl, refl)
      ]

  release_control-IsLocked :
      (clock : Clock) (token : Option String) (a : Agent b.Device)
      → a.startup_recovery_required ≡ true
      → IsLocked a (release_control b clock token a).1
  unfolding release_control control_state
  release_control-IsLocked clock token a h = elim (outcome (release clock token a.lease)) [
    | inl (_, l, e) ↦ rw e (h, refl, refl, refl, refl)
    | inr (x, l, e) ↦ rw e (h, refl, refl, refl, refl)
  ]

  handle-IsLocked :
      (clock : Clock) (r : Request) (a : Agent b.Device)
      → is_device_request r ≡ false
      → a.startup_recovery_required ≡ true
      → IsLocked a (handle b clock r a)
  unfolding handle control_state snapshot
  handle-IsLocked clock (Request.write w options) a k h = handle_write-IsLocked clock w options a h
  handle-IsLocked clock (Request.set_mode m options) a k h = set_mode-IsLocked clock m options a h
  handle-IsLocked clock (Request.recover options) a k h = absurd (cc)
  handle-IsLocked clock Request.reconcile a k h = absurd (cc)
  handle-IsLocked clock (Request.acquire fresh client requested) a k h =
      acquire_control-IsLocked clock fresh client requested a h
  handle-IsLocked clock (Request.renew token requested) a k h =
      renew_control-IsLocked clock token requested a h
  handle-IsLocked clock (Request.release token) a k h = release_control-IsLocked clock token a h
  handle-IsLocked clock Request.control a k h = (h, refl, refl, refl, refl)
  handle-IsLocked clock Request.view a k h = (h, refl, refl, refl, refl)

  -- A sequence of such requests, by induction.
  pub run-IsLocked :
      (requests : List (Clock × Request)) (a : Agent b.Device)
      → All (λ (q : Clock × Request). is_device_request q.1 ≡ false) requests
      → a.startup_recovery_required ≡ true
      → IsLocked a (run b requests a)
  unfolding run
  run-IsLocked [] a k h = same-IsLocked a h
  run-IsLocked ((clock, r) ∷ rest) a (plain, others) h =
      let (h', device, connections, mode, revision) = handle-IsLocked clock r a plain h in
      let (last, device', connections', mode', revision') =
        run-IsLocked rest (handle b clock r a) others h' in
      (last, device' ∙ device, connections' ∙ connections, mode' ∙ mode, revision' ∙ revision)

  -- After a startup under the policy REQUIRE_MATCH whose read of the device returned other pairs than
  -- those of the configured connections: the startup returned, and any sequence of requests without a
  -- recovery and without a reconciliation leaves the device as the read left it, the connections as
  -- configured, the mode OCS and the revision 0, with the recovery still required.
  pub mismatch-IsLocked :
      (startup : Clock) (config : Config) (device read : b.Device) (observed : PairSet)
      (requests : List (Clock × Request))
      → config.startup_policy ≡ "REQUIRE_MATCH"
      → b.read_pairs device ≡ (ok observed, read)
      → set_eq observed (pairs_of config.initial_connections) ≡ false
      → All (λ (q : Clock × Request). is_device_request q.1 ≡ false) requests
      → ((make_agent b startup config device).0 ≡ ok tt)
        × IsLocked (initial config read) (run b requests (make_agent b startup config device).1)
  unfolding make_agent start align capture
  mismatch-IsLocked startup config device read observed requests policy seen differs plain =
      rw (policy, seen, differs) (refl, run-IsLocked requests _ plain refl)
