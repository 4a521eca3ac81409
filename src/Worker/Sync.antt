-- ===== src/Worker/Sync.antt =====
-- The worker's promise (agent/python/ocs_agent/device_worker.py): while its cache is READY, the device
-- holds the cached entries, over any backend that keeps its contract.
use reconfig_net_sim.Prelude.{
  ℕ, String, ◌≡◌, refl, ap, ◌∙◌, inl, inr, true, not, ◌&&◌, none, List, [], arith, Bool-cases,
  str_eq, ◌==◌, and-split,
}
use reconfig_net_sim.Prelude.Int.{pos}
use reconfig_net_sim.Value.{Value}
use reconfig_net_sim.Errors.{Raised, transition, TransitionError, restored, Result, ok}
use reconfig_net_sim.Exec.{outcome, raise_when, bind-eq-ok, raise_when-eq-ok}
use reconfig_net_sim.Modes.{CacheStatus, is_ready}
use reconfig_net_sim.PairSet.{Pair, PairSet, set_eq, to_set}
use reconfig_net_sim.Backend.{Backend, Timing}
use reconfig_net_sim.Backend.Laws.{IsFaithful}
use reconfig_net_sim.Worker.State.{
  Service, Transition, Recovery, make_service, first_service, is_consistency_mode, mark_drift,
}
use reconfig_net_sim.Worker.Apply.{
  commit, after_failure, apply_failed, write_device, read_then_write, apply_transition,
}
use reconfig_net_sim.Worker.Recover
use reconfig_net_sim.Worker.Recover.{
  compare_cache, commit_recovery, recovery_mismatch, or_default, reconcile, rewrite, recover_failed,
}
use reconfig_net_sim.Worker.Run.{Call, read, serve, serve_all, serve_all-induction}

clean_of_restored : (e : TransitionError) → restored e ≡ true → e.rollback_error ≡ none
clean_of_restored e h = ground arith

module _ (b : Backend) (Holds : b.Device → PairSet → Type 0) (faithful : IsFaithful b Holds) where
  abbrev InSync : Service b.Device → Type 0
  InSync s = s.cache_status ≡ CacheStatus.ready → Holds s.device s.entries

  -- The `except` clauses, on a device that the failed write has left.
  apply_failed-InSync :
      (now : ℕ) (previous : PairSet) (x : Raised) (s : Service b.Device)
      → ((e : TransitionError)
          → x ≡ transition e
          → e.rollback_error ≡ none
          → Holds s.device previous)
      → InSync (apply_failed b now previous x s).1
  unfolding apply_failed after_failure
  apply_failed-InSync now previous (transition e) s h = elim (Bool-cases (restored e)) [
    | inl clean ↦ rw clean (λ ready. h e refl (clean_of_restored e clean))
    | inr dirty ↦ rw dirty (λ ready. absurd (cc))
  ]
  apply_failed-InSync now previous (Raised.ocs e) s h = λ ready. absurd (cc)
  apply_failed-InSync now previous (Raised.other m) s h = λ ready. absurd (cc)
  apply_failed-InSync now previous (Raised.unavailable m) s h = λ ready. absurd (cc)
  apply_failed-InSync now previous (Raised.precondition m) s h = λ ready. absurd (cc)
  apply_failed-InSync now previous (Raised.bad_value m) s h = λ ready. absurd (cc)

  write_device-InSync :
      (now : ℕ) (request : Transition) (previous : PairSet) (s : Service b.Device)
      → InSync (write_device b now request previous s).1
  unfolding write_device commit
  write_device-InSync now request previous s =
      let target = to_set [] request.target_entries in
      let delay = Value.int (pos request.delay_us) in
      elim (outcome (b.apply previous target request.strategy delay request.transport s.device)) [
        | inl (timing, d, e) ↦ rw e (λ ready.
            faithful.written previous target request.strategy request.transport delay timing
              s.device d e)
        | inr (x, d, e) ↦ rw e (
            apply_failed-InSync now previous x (record s { device = d })
              (λ f same.
                faithful.rolled_back previous target request.strategy request.transport delay f
                  s.device d (e ∙ rw same refl)))
      ]

  read_then_write-InSync :
      (now : ℕ) (request : Transition) (s : Service b.Device)
      → InSync s
      → InSync (read_then_write b now request s.entries s).1
  unfolding read_then_write mark_drift
  read_then_write-InSync now request s h = elim (outcome (b.read_pairs s.device)) [
    | inr (x, d, e) ↦ rw e (λ ready. rw e at (faithful.reads.keeps s.device s.entries (h ready)))
    | inl (observed, d, e) ↦ rw e (elim (Bool-cases (set_eq observed s.entries)) [
      | inl same ↦ rw same (write_device-InSync now request s.entries (record s { device = d }))
      | inr differ ↦ rw differ (λ ready. absurd (cc))
    ])
  ]

  apply_transition-InSync :
      (now : ℕ) (request : Transition) (s : Service b.Device)
      → InSync s
      → InSync (apply_transition b now request s).1
  unfolding apply_transition
  apply_transition-InSync now request s h = elim (Bool-cases (is_ready s.cache_status)) [
    | inr stale ↦ rw stale h
    | inl fresh ↦ rw fresh (elim (Bool-cases (request.expected_generation == s.generation)) [
      | inr late ↦ rw late h
      | inl on_time ↦
          rw on_time (elim (Bool-cases (set_eq (to_set [] request.expected_entries) s.entries)) [
            | inr other ↦ rw other h
            | inl agreed ↦
                rw agreed (elim (Bool-cases (str_eq s.consistency_mode "STRICT_DEVICE")) [
                  | inl strict ↦ rw strict (read_then_write-InSync now request s h)
                  | inr cached ↦ rw cached (write_device-InSync now request s.entries s)
                ])
          ])
    ])
  ]

  reconcile-InSync :
      (now : ℕ) (desired : List Pair) (s : Service b.Device)
      → InSync s
      → InSync (reconcile b now desired s).1
  unfolding reconcile compare_cache mark_drift
  reconcile-InSync now desired s h = elim (outcome (b.read_pairs s.device)) [
    | inr (x, d, e) ↦ rw e (λ ready. rw e at (faithful.reads.keeps s.device s.entries (h ready)))
    | inl (observed, d, e) ↦
        rw e
          (elim (Bool-cases (set_eq observed s.entries && set_eq (to_set [] desired) s.entries)) [
            | inr differ ↦ rw differ (λ ready. absurd (cc))
            | inl same ↦
                let (equal, _) =
                  and-split (set_eq observed s.entries) (set_eq (to_set [] desired) s.entries)
                    same in
                rw same (λ ready.
                  faithful.respects d observed s.entries equal
                    (faithful.reads.reports s.device d observed e))
          ])
  ]

  rewrite-Holds :
      (now : ℕ) (request : Recovery) (timing : Timing) (d e : b.Device)
      → rewrite b now request d ≡ (ok timing, e)
      → Holds e (to_set [] request.desired_entries)
  unfolding rewrite
  rewrite-Holds now request timing d e h =
      let desired = to_set [] request.desired_entries in
      let (observed, d1, _, h1) = bind-eq-ok b.read_pairs _ d h in
      let (t, d2, _, h2) =
        bind-eq-ok
          (b.apply observed desired (or_default "FULL" request.strategy)
            (Value.int (pos request.delay_us)) (or_default "SEQUENTIAL" request.transport))
          _ d1 h1 in
      let (verified, d3, read, h3) = bind-eq-ok b.read_pairs _ d2 h2 in
      let (_, d4, check, last) =
        bind-eq-ok (raise_when (not (set_eq verified desired)) recovery_mismatch) _ d3 h3 in
      let (equal, same) =
        raise_when-eq-ok (not (set_eq verified desired)) recovery_mismatch d3 d4 check in
      let ended = ap (λ (r : Result Timing × b.Device). r.1) last in
      rw (← ended, ← same)
        (faithful.respects d3 verified desired (ground arith)
          (faithful.reads.reports d2 d3 verified read))

  recover_failed-InSync :
      (now : ℕ) (x : Raised) (s : Service b.Device) → InSync (recover_failed b now x s).1
  unfolding recover_failed mark_drift
  recover_failed-InSync now (transition e) s = elim (Bool-cases (restored e)) [
    | inl clean ↦ rw clean (λ ready. absurd (cc))
    | inr dirty ↦ rw dirty (λ ready. absurd (cc))
  ]
  recover_failed-InSync now (Raised.ocs e) s = λ ready. absurd (cc)
  recover_failed-InSync now (Raised.other m) s = λ ready. absurd (cc)
  recover_failed-InSync now (Raised.unavailable m) s = λ ready. absurd (cc)
  recover_failed-InSync now (Raised.precondition m) s = λ ready. absurd (cc)
  recover_failed-InSync now (Raised.bad_value m) s = λ ready. absurd (cc)

  recover-InSync :
      (now : ℕ) (request : Recovery) (s : Service b.Device)
      → InSync (Recover.recover b now request s).1
  unfolding Recover.recover commit_recovery
  recover-InSync now request s = elim (outcome (rewrite b now request s.device)) [
    | inl (timing, d, e) ↦ rw e (λ ready. rewrite-Holds now request timing s.device d e)
    | inr (x, d, e) ↦ rw e (recover_failed-InSync now x (record s { device = d }))
  ]

  serve-InSync : (now : ℕ) (c : Call) (s : Service b.Device) → InSync s → InSync (serve b now c s)
  unfolding serve read
  serve-InSync now Call.read_entries s h = h
  serve-InSync now (Call.apply request) s h = apply_transition-InSync now request s h
  serve-InSync now (Call.reconcile_with desired) s h = reconcile-InSync now desired s h
  serve-InSync now (Call.recover_with request) s h = recover-InSync now request s

  make_service-InSync :
      (now : ℕ) (mode : String) (d : b.Device) (s : Service b.Device)
      → make_service b now mode d ≡ ok s
      → InSync s
  unfolding make_service
  make_service-InSync now mode d s h = elim (Bool-cases (is_consistency_mode mode)) [
    | inr unknown ↦ absurd (cc (rw unknown at h))
    | inl known ↦ elim (outcome (b.read_pairs d)) [
      | inr (x, t, e) ↦ absurd (cc (rw (known, e) at h))
      | inl (pairs, t, e) ↦
          let same : first_service b now mode pairs t ≡ s = cc (rw (known, e) at h) in
          rw (← same) (λ ready. faithful.reads.reports d t pairs e)
    ]
  ]

  -- Over a backend that keeps its contract, after a construction that returned and any sequence of
  -- calls, those that raise or reply with an error included: if the cache is READY, then the device
  -- holds exactly the cached entries.
  pub serve_all-Holds :
      (now : ℕ) (mode : String) (d : b.Device) (s : Service b.Device) (calls : List (ℕ × Call))
      → make_service b now mode d ≡ ok s
      → (serve_all b calls s).cache_status ≡ CacheStatus.ready
      → Holds (serve_all b calls s).device (serve_all b calls s).entries
  serve_all-Holds now mode d s calls made =
      serve_all-induction b InSync serve-InSync calls s (make_service-InSync now mode d s made)
