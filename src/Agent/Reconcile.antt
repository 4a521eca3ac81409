-- ===== src/Agent/Reconcile.antt =====
-- `reconcile_device_state` and `device_state` of agent/python/ocs_agent/core.py. The background
-- thread `_reconcile_loop` is a source of further calls of `reconcile_device_state`.
use reconfig_net_sim.Prelude.{
  String, Bool, true, false, not, ◌||◌, Option, none, some, [], if◌then◌else◌,
}
use reconfig_net_sim.Errors.{Message, fmt, Raised, str}
use reconfig_net_sim.Exec.{Exec, pure, gets, modify, catch, ◌>>=◌, ◌>>◌}
use reconfig_net_sim.Modes.{Status, CacheStatus, is_ready}
use reconfig_net_sim.PairSet.{PairSet, set_eq}
use reconfig_net_sim.Backend.{Backend, DeviceState}
use reconfig_net_sim.Lease.{Clock}
use reconfig_net_sim.Agent.State.{
  Agent, Cache, current_device_pairs, capture, on_device, mark_drift, is_drift_message,
  drift_message,
}

-- What `device_state` reports; `report` is the part that the backend gives.
pub record StateReport : Type 0 where
  pub consistency_mode : String
  pub cache : Cache
  pub startup_policy : String
  pub startup_recovery_required : Bool
  pub report : Option DeviceState

abbrev startup_message : Message
startup_message = fmt "Startup device mismatch requires explicit recovery" []

module _ (b : Backend) where
  -- `device_state`
  unfoldable pub device_state : Agent b.Device → StateReport
  device_state a = record {
    consistency_mode = a.consistency_mode;
    cache = a.cache;
    startup_policy = a.startup_policy;
    startup_recovery_required = a.startup_recovery_required;
    report = elim b.device_state [ none ↦ none | some report ↦ some (report a.device) ];
  }

  -- The cache after the Agent itself has read the device.
  unfoldable pub after_read : Clock → Bool → Cache → Cache
  after_read clock true c = record c {
    status = CacheStatus.ready;
    last_verified_unix_ns = clock.unix_ns;
    last_reconcile_unix_ns = clock.unix_ns;
  }
  after_read clock false c = mark_drift (record c { last_reconcile_unix_ns = clock.unix_ns })

  -- `hasattr(self.backend, 'reconcile')`
  unfoldable pub observe_with :
      Option (PairSet → Exec b.Device PairSet) → Clock → PairSet → Exec (Agent b.Device) PairSet
  observe_with none clock desired = do
    observed ← on_device b b.read_pairs
    modify (λ a. record a { cache = after_read clock (set_eq observed desired) a.cache })
    pure observed
  observe_with (some reconcile) clock desired = do
    observed ← on_device b (reconcile desired)
    modify (capture b clock false)
    pure observed

  abbrev pub observe : Clock → PairSet → Exec (Agent b.Device) PairSet
  observe = observe_with b.reconcile

  -- The verdict on what was observed.
  unfoldable pub judge : Bool → Agent b.Device → Agent b.Device
  judge agrees a =
      if a.startup_recovery_required
      then record a {
        status = Status.error;
        cache = record a.cache { status = CacheStatus.drifted };
        last_error = some startup_message;
      }
      else if not agrees || not (is_ready a.cache.status)
      then record a { status = Status.error; last_error = some drift_message }
      else if is_drift_message a.last_error
      then record a { status = Status.ready; last_error = none }
      else a

  -- `except Exception`
  unfoldable pub reconcile_failed : Raised → Exec (Agent b.Device) (Unit {0})
  reconcile_failed e = modify λ a. record a {
    cache = record a.cache { status = CacheStatus.unknown };
    status = Status.error;
    last_error = some (str e);
  }

  unfoldable pub reconcile_device_state : Clock → Exec (Agent b.Device) StateReport
  reconcile_device_state clock = do
    desired ← gets (current_device_pairs b)
    catch (observe clock desired >>= λ observed. modify (judge (set_eq observed desired)))
        reconcile_failed
    gets device_state
