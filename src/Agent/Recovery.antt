-- ===== src/Agent/Recovery.antt =====
-- `recover_device_state` of agent/python/ocs_agent/core.py: the only request that writes while the
-- cache is not trusted.
use reconfig_net_sim.Prelude.{ℕ, ◌+◌, String, true, false, Option, none, some, [], not}
use reconfig_net_sim.Value.{Value}
use reconfig_net_sim.Errors.{ErrorKind, fmt, prefixed, Raised, other, ocs_error, str}
use reconfig_net_sim.Exec.{Exec, pure, raise, lift, gets, modify, catch, raise_when, ◌>>=◌, ◌>>◌}
use reconfig_net_sim.Modes.{Status, CacheStatus}
use reconfig_net_sim.PairSet.{PairSet, set_eq}
use reconfig_net_sim.Backend.{Backend, Timing}
use reconfig_net_sim.Lease.{Clock, require_lease}
use reconfig_net_sim.Agent.State.{
  Agent, Response, WriteOptions, current_device_pairs, capture, on_device, on_lease,
  next_request_id, check_revision, response,
}

abbrev pub mismatch : Raised
mismatch = other (fmt "Recovery readback does not match desired state" [])

module _ (b : Backend) where
  -- Recovery by a backend without a method `recover`: read, write, and read again.
  unfoldable pub reapply : PairSet → WriteOptions → Exec b.Device Timing
  reapply desired options = do
    observed ← b.read_pairs
    timing ← b.apply observed desired options.strategy options.delay_us options.transport
    verified ← b.read_pairs
    raise_when (not (set_eq verified desired)) mismatch
    pure (record timing { write_verification = "SOFTWARE_READBACK" })

  -- `hasattr(self.backend, 'recover')`
  unfoldable pub recover_with :
      Option (PairSet → String → Value → String → Exec b.Device Timing)
      → PairSet
      → WriteOptions
      → Exec b.Device Timing
  recover_with none desired options = reapply desired options
  recover_with (some recover) desired options =
      recover desired options.strategy options.delay_us options.transport

  abbrev pub recover_device : PairSet → WriteOptions → Exec b.Device Timing
  recover_device = recover_with b.recover

  -- `except Exception`
  unfoldable pub recovery_failed : {A : Type 0} → Raised → Exec (Agent b.Device) A
  recovery_failed e a =
      raise (ocs_error (ErrorKind.apply false) (prefixed "Device recovery failed: {}" (str e)))
        (record a {
          cache = record a.cache { status = CacheStatus.unknown };
          status = Status.error;
          last_error = some (str e);
        })

  unfoldable pub commit_recovery : Clock → Timing → Agent b.Device → Agent b.Device
  commit_recovery clock timing a =
      record (capture b clock true
        (record a { revision = a.revision + 1; startup_recovery_required = false })) {
          status = Status.ready;
          last_error = none;
          last_timing = some timing;
        }

  unfoldable pub recover : Clock → WriteOptions → ℕ → Exec (Agent b.Device) Response
  recover clock options rid = do
    desired ← gets (current_device_pairs b)
    modify (λ a. record a { status = Status.updating })
    timing ← catch (on_device b (recover_device desired options)) recovery_failed
    modify (commit_recovery clock timing)
    gets (response b rid "recovered" timing clock)

  -- `recover_device_state`
  unfoldable pub recover_device_state : Clock → WriteOptions → Exec (Agent b.Device) Response
  recover_device_state clock options = do
    rid ← next_request_id b
    on_lease b (require_lease clock options.lease_token)
    (λ a. lift (check_revision a.revision options.expected_revision) a)
    recover clock options rid
