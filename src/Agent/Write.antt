-- ===== src/Agent/Write.antt =====
-- `_apply_target_locked` of agent/python/ocs_agent/core.py: the one path by which connections
-- change. Its `except` clauses are `device_failed`, which `set_mode` shares.
use reconfig_net_sim.Prelude.{
  ℕ, ◌+◌, String, Bool, true, false, Option, none, some, [], length, if◌then◌else◌,
}
use reconfig_net_sim.Errors.{
  ErrorKind, Message, fmt, prefixed, joined, ocs, Raised, TransitionError, restored,
}
use reconfig_net_sim.Exec.{Exec, pure, raise, lift, gets, modify, catch, raise_when, ◌>>=◌, ◌>>◌}
use reconfig_net_sim.Modes.{Status, Mode, CacheStatus, same_mode}
use reconfig_net_sim.PairSet.{PairSet}
use reconfig_net_sim.ConnectionSet.{ConnectionSet, same_connections}
use reconfig_net_sim.Backend.{Backend, Timing, validate_delay_us}
use reconfig_net_sim.Lease.{Clock}
use reconfig_net_sim.Agent.State.{
  Agent, Response, WriteOptions, pairs_of, zero_timing, stamp, numbered, capture, on_device,
  next_request_id, check_write_preconditions, response, pre_read,
}

abbrev pub after_transition : Bool → Status
after_transition true = Status.ready
after_transition false = Status.error

abbrev unknown_device : Message
unknown_device = fmt "Device worker is unavailable; device state is unknown" []

-- The message of the `ApplyError` that reports a failed write of connections.
abbrev pub update_message : TransitionError → Message
update_message e = elim e.rollback_error [
  | none ↦ prefixed "Update failed and previous connections were restored: " e.update_error
  | some r ↦ joined "Update failed and rollback failed: " e.update_error r
]

abbrev pub debug_active : Raised
debug_active = ocs (record {
  kind = ErrorKind.failed_precondition;
  message = fmt "Connections cannot be changed while debug mode is active" [];
  request_id = none;
})

module _ (b : Backend) where
  -- `except BackendTransitionError`, for a write of connections and for a change of mode: the
  -- latter leaves `_last_error` alone.
  unfoldable pub transition_failed :
      {A : Type 0}
      → Clock
      → ℕ
      → (TransitionError → Message)
      → (TransitionError → Option Message → Option Message)
      → TransitionError
      → Exec (Agent b.Device) A
  transition_failed clock rid message last e a =
      let captured = capture b clock false a in
      raise (numbered (ErrorKind.apply (restored e)) (message e) rid) (record captured {
        status = after_transition (restored e);
        last_error = last e captured.last_error;
      })

  -- The `except` clauses around the call of the backend. Other exceptions pass.
  unfoldable pub device_failed :
      {A : Type 0}
      → Clock
      → ℕ
      → (TransitionError → Exec (Agent b.Device) A)
      → Raised
      → Exec (Agent b.Device) A
  device_failed clock rid on_transition (Raised.precondition m) a =
      raise (numbered ErrorKind.failed_precondition m rid)
        (record (capture b clock false a) { status = Status.error; last_error = some m })
  device_failed clock rid on_transition (Raised.unavailable m) a =
      raise (numbered ErrorKind.unavailable unknown_device rid) (record a {
        status = Status.error;
        cache = record a.cache { status = CacheStatus.unknown };
        last_error = some m;
      })
  device_failed clock rid on_transition (Raised.transition e) a = on_transition e a
  device_failed clock rid on_transition (Raised.ocs e) a = raise (Raised.ocs e) a
  device_failed clock rid on_transition (Raised.other m) a = raise (Raised.other m) a
  device_failed clock rid on_transition (Raised.bad_value m) a = raise (Raised.bad_value m) a

  abbrev pub mark_failed : Agent b.Device → Agent b.Device
  mark_failed a = record a {
    status = Status.error;
    last_error = some (fmt "Device drift detected" []);
  }

  -- The `try` block: the read before the write, then the write.
  unfoldable pub program :
      Clock
      → (Agent b.Device → Agent b.Device)
      → PairSet
      → PairSet
      → String
      → WriteOptions
      → Exec (Agent b.Device) Timing
  program clock mark previous target strategy options = do
    pre_read b mark previous
    on_device b (b.apply previous target strategy options.delay_us options.transport)

  -- What a successful write of connections leaves behind.
  unfoldable pub commit_target : Clock → ConnectionSet → Timing → Agent b.Device → Agent b.Device
  commit_target clock target timing a =
      record (capture b clock true (record a { connections = target; revision = a.revision + 1 })) {
        status = Status.ready;
        last_error = none;
        last_timing = some timing;
      }

  -- The change itself, once the guards have passed.
  unfoldable pub change_target :
      Clock → ConnectionSet → WriteOptions → ℕ → Exec (Agent b.Device) Response
  change_target clock target options rid = do
    previous ← gets (λ a. pairs_of a.connections)
    modify (λ a. record a { status = Status.updating })
    timing ← catch (program clock mark_failed previous (pairs_of target) options.strategy options) (
        device_failed clock rid
          (transition_failed clock rid update_message (λ e _. some e.update_error)))
    modify (commit_target clock target timing)
    gets (response b rid "updated" timing clock)

  unfoldable pub unchanged_target : Clock → WriteOptions → ℕ → Exec (Agent b.Device) Response
  unchanged_target clock options rid a =
      (pure (
          response b rid "unchanged"
            (zero_timing options.strategy options.transport (length (pairs_of a.connections))) clock
            a))
        a

  unfoldable pub guarded_write :
      Clock → ConnectionSet → WriteOptions → ℕ → Exec (Agent b.Device) Response
  guarded_write clock target options rid = do
    check_write_preconditions b clock options.lease_token options.expected_revision
    (λ a. raise_when (same_mode a.mode Mode.debug) debug_active a)
    same ← gets (λ a. same_connections target a.connections)
    if same then unchanged_target clock options rid else change_target clock target options rid

  -- `_apply_target_locked`
  unfoldable pub apply_target :
      Clock → ConnectionSet → WriteOptions → Exec (Agent b.Device) Response
  apply_target clock target options = do
    delay ← lift (validate_delay_us options.delay_us)
    rid ← next_request_id b
    catch (guarded_write clock target options rid) (λ e. raise (stamp rid e))
