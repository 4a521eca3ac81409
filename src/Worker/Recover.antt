-- ===== src/Worker/Recover.antt =====
-- `Reconcile` and `Recover` of agent/python/ocs_agent/device_worker.py.
use reconfig_net_sim.Prelude.{ℕ, ◌+◌, String, false, not, ◌&&◌, List, [], str_eq, if◌then◌else◌}
use reconfig_net_sim.Prelude.Int.{pos}
use reconfig_net_sim.Value.{Value}
use reconfig_net_sim.Errors.{Code, fmt, Raised, other, TransitionError, restored, str}
use reconfig_net_sim.Exec.{Exec, pure, gets, modify, catch, raise_when, ◌>>=◌, ◌>>◌}
use reconfig_net_sim.Modes.{CacheStatus}
use reconfig_net_sim.PairSet.{Pair, PairSet, set_eq, to_set}
use reconfig_net_sim.Backend.{Backend, Timing}
use reconfig_net_sim.Worker.State.{
  Service, Report, Reply, Recovery, fill_state, mark_unknown, mark_drift, on_backend,
}
use reconfig_net_sim.Worker.Apply.{refusal, applied_reply, transition_reply}

-- What a read of the device makes of the cache.
unfoldable pub compare_cache : {D : Type 0} → ℕ → PairSet → PairSet → Service D → Service D
compare_cache now observed desired s =
    let t = record s { last_reconcile_unix_ns = now; last_verified_unix_ns = now } in
    if set_eq observed s.entries && set_eq desired s.entries
    then record t { cache_status = CacheStatus.ready }
    else mark_drift t

-- `text or default`
abbrev pub or_default : String → String → String
or_default default text = if str_eq text "" then default else text

abbrev pub recovery_mismatch : Raised
recovery_mismatch = other (fmt "Recovery readback does not match desired state" [])

-- What a recovery that returned leaves in the cache.
unfoldable pub commit_recovery : {D : Type 0} → ℕ → PairSet → Service D → Service D
commit_recovery now desired s = record s {
  entries = desired;
  generation = s.generation + 1;
  cache_status = CacheStatus.ready;
  last_write_ack_unix_ns = now;
  last_verified_unix_ns = now;
  last_reconcile_unix_ns = now;
}

-- `self._mark_drift() if error.restored else self._mark_unknown()`
abbrev pub after_failed_recovery : {D : Type 0} → TransitionError → Service D → Service D
after_failed_recovery e s = if restored e then mark_drift s else mark_unknown s

module _ (b : Backend) (now : ℕ) where
  -- `Reconcile`
  unfoldable pub reconcile : List Pair → Exec (Service b.Device) Report
  reconcile desired = do
    observed ← on_backend b b.read_pairs
    modify (compare_cache now observed (to_set [] desired))
    gets (fill_state observed)

  -- The body of the `try` statement of `Recover`, on the device.
  unfoldable pub rewrite : Recovery → Exec b.Device Timing
  rewrite request = do
    observed ← b.read_pairs
    timing ←
        b.apply observed (to_set [] request.desired_entries) (or_default "FULL" request.strategy)
          (Value.int (pos request.delay_us)) (or_default "SEQUENTIAL" request.transport)
    verified ← b.read_pairs
    raise_when (not (set_eq verified (to_set [] request.desired_entries))) recovery_mismatch
    pure (record timing { write_verification = "SOFTWARE_READBACK" })

  unfoldable pub recover_failed : Raised → Exec (Service b.Device) Reply
  recover_failed (Raised.transition e) = do
    modify (after_failed_recovery e)
    gets (transition_reply e)
  recover_failed x = do
    modify mark_unknown
    gets (λ s. refusal false Code.internal (str x) s.entries s)

  -- `Recover`
  unfoldable pub recover : Recovery → Exec (Service b.Device) Reply
  recover request =
      catch
        (do
          timing ← on_backend b (rewrite request)
          modify (commit_recovery now (to_set [] request.desired_entries))
          gets (applied_reply timing))
        recover_failed
