-- ===== src/Worker/Apply.antt =====
-- `ApplyTransition` of agent/python/ocs_agent/device_worker.py.
use reconfig_net_sim.Prelude.{
  ℕ, ◌+◌, String, Bool, true, false, not, none, some, [], ◌∷◌, str_eq, ◌==◌, if◌then◌else◌,
}
use reconfig_net_sim.Prelude.Int.{pos}
use reconfig_net_sim.Value.{Value}
use reconfig_net_sim.Errors.{Code, Message, fmt, Arg, Raised, TransitionError, restored, str}
use reconfig_net_sim.Exec.{Exec, pure, gets, modify, catch, ◌>>=◌, ◌>>◌}
use reconfig_net_sim.Modes.{CacheStatus, cache_word, is_ready}
use reconfig_net_sim.PairSet.{PairSet, set_eq, to_set}
use reconfig_net_sim.Backend.{Backend, Timing}
use reconfig_net_sim.Worker.State.{
  Service, Reply, Transition, fill_state, mark_unknown, mark_drift, on_backend,
}

-- A reply that reports an error, with the entries to report.
unfoldable pub refusal : {D : Type 0} → Bool → Code → Message → PairSet → Service D → Reply
refusal restored code message entries s = record {
  success = false;
  restored = restored;
  error_code = some code;
  error = some message;
  rollback_error = none;
  timing = none;
  report = fill_state entries s;
}

unfoldable pub applied_reply : {D : Type 0} → Timing → Service D → Reply
applied_reply timing s = record {
  success = true;
  restored = true;
  error_code = none;
  error = none;
  rollback_error = none;
  timing = some timing;
  report = fill_state s.entries s;
}

abbrev pub transition_code : TransitionError → Code
transition_code e = if restored e then Code.aborted else Code.internal

unfoldable pub transition_reply : {D : Type 0} → TransitionError → Service D → Reply
transition_reply e s = record {
  success = false;
  restored = restored e;
  error_code = some (transition_code e);
  error = some e.update_error;
  rollback_error = e.rollback_error;
  timing = none;
  report = fill_state s.entries s;
}

abbrev or_kept : String → String → String
or_kept old source = if str_eq source "" then old else source

-- What a write that returned leaves in the cache.
unfoldable pub commit : {D : Type 0} → ℕ → PairSet → Timing → Service D → Service D
commit now target timing s = record s {
  entries = target;
  generation = s.generation + 1;
  cache_status = CacheStatus.ready;
  last_write_ack_unix_ns = now;
  write_verification = timing.write_verification;
  readback_source = or_kept s.readback_source timing.readback_source;
  last_verified_unix_ns =
      if str_eq timing.write_verification "ACK" then s.last_verified_unix_ns else now;
}

-- What a write whose rollback is known to have gone well leaves, and any other failed write.
unfoldable pub after_failure : {D : Type 0} → ℕ → PairSet → TransitionError → Service D → Service D
after_failure now previous e s =
    if restored e
    then record s {
      entries = previous;
      cache_status = CacheStatus.ready;
      last_verified_unix_ns = now;
    }
    else mark_unknown s

abbrev pub cache_message : CacheStatus → Message
cache_message status = fmt "Device cache is {}" (Arg.name (cache_word status) ∷ [])

abbrev pub generation_message : Message
generation_message = fmt "Device generation does not match expected generation" []

abbrev pub entries_message : Message
entries_message = fmt "Core state does not match Worker cache" []

module _ (b : Backend) (now : ℕ) where
  -- The `except` clauses around the write.
  unfoldable pub apply_failed : PairSet → Raised → Exec (Service b.Device) Reply
  apply_failed previous (Raised.transition e) = do
    modify (after_failure now previous e)
    gets (transition_reply e)
  apply_failed previous x = do
    modify mark_unknown
    gets (λ s. refusal false Code.internal (str x) s.entries s)

  -- The `try` statement: the write of the device.
  unfoldable pub write_device : Transition → PairSet → Exec (Service b.Device) Reply
  write_device request previous =
      catch
        (do
          timing ← on_backend b (
              b.apply previous (to_set [] request.target_entries) request.strategy
                (Value.int (pos request.delay_us)) request.transport)
          modify (commit now (to_set [] request.target_entries) timing)
          gets (applied_reply timing))
        (apply_failed previous)

  -- The read before a write in `STRICT_DEVICE` mode. An exception of the read passes.
  unfoldable pub read_then_write : Transition → PairSet → Exec (Service b.Device) Reply
  read_then_write request previous = do
    observed ← on_backend b b.read_pairs
    if set_eq observed previous then write_device request previous else do
      modify (λ s. record (mark_drift s) { last_reconcile_unix_ns = now })
      gets (
          refusal false Code.failed_precondition (fmt "Device state does not match Worker cache" [])
            observed)

  -- `ApplyTransition`: the checks of the cache, then the write.
  unfoldable pub apply_transition : Transition → Exec (Service b.Device) Reply
  apply_transition request s =
      if not (is_ready s.cache_status)
      then (pure
            (refusal false Code.failed_precondition (cache_message s.cache_status) s.entries s))
          s
      else if not (request.expected_generation == s.generation)
      then (pure (refusal true Code.failed_precondition generation_message s.entries s)) s
      else if not (set_eq (to_set [] request.expected_entries) s.entries)
      then (pure (refusal true Code.failed_precondition entries_message s.entries s)) s
      else if str_eq s.consistency_mode "STRICT_DEVICE"
      then read_then_write request s.entries s
      else write_device request s.entries s
