-- ===== src/Worker/Outcome.antt =====
-- What each call of the worker may change (agent/python/ocs_agent/device_worker.py), over any backend.
use reconfig_net_sim.Prelude.{
  ℕ, ◌+◌, ◌≡◌, refl, ◌⊎◌, inl, inr, true, false, none, some, [], Bool-cases, str_eq, ◌==◌,
}
use reconfig_net_sim.Prelude.Int.{pos}
use reconfig_net_sim.Value.{Value}
use reconfig_net_sim.Errors.{Code, Raised, transition, restored, Result, ok, err}
use reconfig_net_sim.Exec.{outcome}
use reconfig_net_sim.Modes.{CacheStatus, is_ready}
use reconfig_net_sim.PairSet.{PairSet, set_eq, to_set}
use reconfig_net_sim.Backend.{Backend}
use reconfig_net_sim.Worker.State.{Service, Reply, Transition, mark_drift, fill_state}
use reconfig_net_sim.Worker.Apply.{
  refusal, applied_reply, transition_reply, commit, after_failure, apply_failed, write_device,
  read_then_write, apply_transition,
}

module _ (b : Backend) where
  -- The cache of one state is that of another, but for its status.
  abbrev pub SameCache : Service b.Device → Service b.Device → Type 0
  SameCache s t = (t.entries ≡ s.entries) × (t.generation ≡ s.generation)

  -- What a write reports, and what it leaves in the cache. `target` is what it was to install.
  abbrev pub IsApplied : PairSet → Service b.Device → Result Reply × Service b.Device → Type 0
  IsApplied target s (ok r, t) =
      ((r.success ≡ true)
        × (r.error_code ≡ none)
        × (t.entries ≡ target)
        × (t.generation ≡ s.generation + 1)
        × (t.cache_status ≡ CacheStatus.ready)
        × (r.report ≡ fill_state target t))
      ⊎ ((r.success ≡ false)
          × ((code : Code) × (r.error_code ≡ some code))
          × SameCache s t
          × (r.report.generation ≡ s.generation))
  IsApplied target s (err x, t) = SameCache s t

  -- A write starts from the cached entries.
  apply_failed-IsApplied :
      (now : ℕ) (target : PairSet) (x : Raised) (s : Service b.Device)
      → IsApplied target s (apply_failed b now s.entries x s)
  unfolding apply_failed after_failure transition_reply refusal fill_state
  apply_failed-IsApplied now target (transition e) s = elim (Bool-cases (restored e)) [
    | inl clean ↦ rw clean (inr (refl, (_, refl), (refl, refl), refl))
    | inr dirty ↦ rw dirty (inr (refl, (_, refl), (refl, refl), refl))
  ]
  apply_failed-IsApplied now target (Raised.ocs e) s = inr (refl, (_, refl), (refl, refl), refl)
  apply_failed-IsApplied now target (Raised.other m) s = inr (refl, (_, refl), (refl, refl), refl)
  apply_failed-IsApplied now target (Raised.unavailable m) s =
      inr (refl, (_, refl), (refl, refl), refl)
  apply_failed-IsApplied now target (Raised.precondition m) s =
      inr (refl, (_, refl), (refl, refl), refl)
  apply_failed-IsApplied now target (Raised.bad_value m) s =
      inr (refl, (_, refl), (refl, refl), refl)

  write_device-IsApplied :
      (now : ℕ) (request : Transition) (s : Service b.Device)
      → IsApplied (to_set [] request.target_entries) s (write_device b now request s.entries s)
  unfolding write_device commit applied_reply
  write_device-IsApplied now request s =
      let target = to_set [] request.target_entries in
      let delay = Value.int (pos request.delay_us) in
      elim (outcome (b.apply s.entries target request.strategy delay request.transport s.device)) [
        | inl (timing, d, e) ↦ rw e (inl (refl, refl, refl, refl, refl, refl))
        | inr (x, d, e) ↦ rw e (apply_failed-IsApplied now target x (record s { device = d }))
      ]

  read_then_write-IsApplied :
      (now : ℕ) (request : Transition) (s : Service b.Device)
      → IsApplied (to_set [] request.target_entries) s (read_then_write b now request s.entries s)
  unfolding read_then_write mark_drift refusal fill_state
  read_then_write-IsApplied now request s = elim (outcome (b.read_pairs s.device)) [
    | inr (x, d, e) ↦ rw e (refl, refl)
    | inl (observed, d, e) ↦ rw e (elim (Bool-cases (set_eq observed s.entries)) [
      | inl same ↦ rw same (write_device-IsApplied now request (record s { device = d }))
      | inr differ ↦ rw differ (inr (refl, (_, refl), (refl, refl), refl))
    ])
  ]

  -- A write is all or nothing in the worker's cache. A reply that reports success comes with the target
  -- as the entries, the next generation and a READY cache, and reports this state; a reply that does
  -- not has an error code, and entries and generation are as before, as they are where the read before
  -- the write raises.
  pub apply_transition-IsApplied :
      (now : ℕ) (request : Transition) (s : Service b.Device)
      → IsApplied (to_set [] request.target_entries) s (apply_transition b now request s)
  unfolding apply_transition refusal fill_state
  apply_transition-IsApplied now request s = elim (Bool-cases (is_ready s.cache_status)) [
    | inr stale ↦ rw stale (inr (refl, (_, refl), (refl, refl), refl))
    | inl fresh ↦ rw fresh (elim (Bool-cases (request.expected_generation == s.generation)) [
      | inr late ↦ rw late (inr (refl, (_, refl), (refl, refl), refl))
      | inl on_time ↦
          rw on_time (elim (Bool-cases (set_eq (to_set [] request.expected_entries) s.entries)) [
            | inr other ↦ rw other (inr (refl, (_, refl), (refl, refl), refl))
            | inl agreed ↦
                rw agreed (elim (Bool-cases (str_eq s.consistency_mode "STRICT_DEVICE")) [
                  | inl strict ↦ rw strict (read_then_write-IsApplied now request s)
                  | inr cached ↦ rw cached (write_device-IsApplied now request s)
                ])
          ])
    ])
  ]
