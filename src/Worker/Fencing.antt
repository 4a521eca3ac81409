-- ===== src/Worker/Fencing.antt =====
-- The generation of the worker fences off writes that are out of date (agent/python/ocs_agent/
-- device_worker.py).
use reconfig_net_sim.Prelude.{
  ℕ, ◌+◌, ◌≤◌, ◌≡◌, ◌≢◌, refl, inl, inr, true, false, List, [], ◌∷◌, arith, length, Bool-cases,
  ◌==◌,
}
use reconfig_net_sim.Errors.{Code, Raised, transition, Result, ok, err}
use reconfig_net_sim.Exec.{outcome}
use reconfig_net_sim.Modes.{is_ready}
use reconfig_net_sim.PairSet.{Pair, PairSet, to_set}
use reconfig_net_sim.Backend.{Backend}
use reconfig_net_sim.Worker.State.{Service, Reply, Transition, Recovery, mark_drift}
use reconfig_net_sim.Worker.Apply.{cache_message, generation_message, refusal, apply_transition}
use reconfig_net_sim.Worker.Recover
use reconfig_net_sim.Worker.Recover.{
  compare_cache, commit_recovery, reconcile, rewrite, recover_failed,
}
use reconfig_net_sim.Worker.Run.{Call, read, serve, serve_all}
use reconfig_net_sim.Worker.Outcome.{IsApplied, apply_transition-IsApplied}

module _ (b : Backend) where
  -- A generation that does not go down, and goes up by one at most.
  abbrev Advances : Service b.Device → Service b.Device → Type 0
  Advances s t = (s.generation ≤ t.generation) × (t.generation ≤ s.generation + 1)

  IsApplied-Advances :
      (target : PairSet) (s : Service b.Device) (r : Result Reply × Service b.Device)
      → IsApplied b target s r
      → Advances s r.1
  IsApplied-Advances target s (ok r, t) (inl h) = (omega (arith, h.3), omega (arith, h.3))
  IsApplied-Advances target s (ok r, t) (inr h) = (omega (arith, h.2.1), omega (arith, h.2.1))
  IsApplied-Advances target s (err x, t) h = (omega (arith, h.1), omega (arith, h.1))

  reconcile-Advances :
      (now : ℕ) (desired : List Pair) (s : Service b.Device)
      → Advances s (reconcile b now desired s).1
  unfolding reconcile compare_cache mark_drift
  reconcile-Advances now desired s = elim (outcome (b.read_pairs s.device)) [
    | inr (x, d, e) ↦ rw e (omega arith, omega arith)
    | inl (observed, d, e) ↦ rw e (ground arith)
  ]

  recover_failed-Advances :
      (now : ℕ) (x : Raised) (s : Service b.Device) → Advances s (recover_failed b now x s).1
  unfolding recover_failed mark_drift
  recover_failed-Advances now (transition e) s = ground arith
  recover_failed-Advances now (Raised.ocs e) s = (omega arith, omega arith)
  recover_failed-Advances now (Raised.other m) s = (omega arith, omega arith)
  recover_failed-Advances now (Raised.unavailable m) s = (omega arith, omega arith)
  recover_failed-Advances now (Raised.precondition m) s = (omega arith, omega arith)
  recover_failed-Advances now (Raised.bad_value m) s = (omega arith, omega arith)

  recover-Advances :
      (now : ℕ) (request : Recovery) (s : Service b.Device)
      → Advances s (Recover.recover b now request s).1
  unfolding Recover.recover commit_recovery
  recover-Advances now request s = elim (outcome (rewrite b now request s.device)) [
    | inl (timing, d, e) ↦ rw e (omega arith, omega arith)
    | inr (x, d, e) ↦ rw e (recover_failed-Advances now x (record s { device = d }))
  ]

  serve-Advances : (now : ℕ) (c : Call) (s : Service b.Device) → Advances s (serve b now c s)
  unfolding serve read
  serve-Advances now Call.read_entries s = (omega arith, omega arith)
  serve-Advances now (Call.apply request) s =
      IsApplied-Advances (to_set [] request.target_entries) s (apply_transition b now request s)
        (apply_transition-IsApplied b now request s)
  serve-Advances now (Call.reconcile_with desired) s = reconcile-Advances now desired s
  serve-Advances now (Call.recover_with request) s = recover-Advances now request s

  -- After n calls the generation is at most n higher, and no lower.
  pub serve_all_bounds :
      (calls : List (ℕ × Call)) (s : Service b.Device)
      → (s.generation ≤ (serve_all b calls s).generation)
        × ((serve_all b calls s).generation ≤ s.generation + length calls)
  unfolding serve_all
  serve_all_bounds [] s = (omega arith, omega arith)
  serve_all_bounds ((now, c) ∷ rest) s =
      let (low, high) = serve-Advances now c s in
      let (low', high') = serve_all_bounds rest (serve b now c s) in (omega arith, omega arith)

  -- A write for another generation is refused, and changes nothing.
  pub apply_transition-refused :
      (now : ℕ) (request : Transition) (s : Service b.Device)
      → request.expected_generation ≢ s.generation
      → (r : Reply) × (apply_transition b now request s ≡ (ok r, s)) × (r.success ≡ false)
  unfolding apply_transition refusal
  apply_transition-refused now request s other = elim (Bool-cases (is_ready s.cache_status)) [
    | inr stale ↦ (
      refusal false Code.failed_precondition (cache_message s.cache_status) s.entries s,
      rw stale refl,
      refl,
    )
    | inl fresh ↦ elim (Bool-cases (request.expected_generation == s.generation)) [
      | inr late ↦ (
        refusal true Code.failed_precondition generation_message s.entries s,
        rw (fresh, late) refl,
        refl,
      )
      | inl on_time ↦ absurd (other (ground arith))
    ]
  ]

  -- A write that succeeds was for the generation of the cache, and takes it to the next.
  success_generation :
      (now : ℕ) (request : Transition) (s t : Service b.Device) (r : Reply)
      → apply_transition b now request s ≡ (ok r, t)
      → r.success ≡ true
      → (request.expected_generation ≡ s.generation) × (t.generation ≡ s.generation + 1)
  success_generation now request s t r h success =
      elim (Bool-cases (request.expected_generation == s.generation)) [
        | inr late ↦
            let (q, refused, failed) = apply_transition-refused now request s (ground arith) in
            absurd (cc)
        | inl on_time ↦
            (ground arith, raised (rw h at (apply_transition-IsApplied b now request s)))
      ]
    where
      raised :
          IsApplied b (to_set [] request.target_entries) s (ok r, t)
          → t.generation ≡ s.generation + 1
      raised (inl k) = k.3
      raised (inr k) = absurd (cc (success, k.0))

  -- An expected generation is good for one successful write: once a write with it has succeeded, every
  -- later write with the same expected generation, whatever calls come between, is refused and changes
  -- nothing.
  pub apply_transition_once :
      (now later : ℕ) (request again : Transition) (s t : Service b.Device) (r : Reply)
      (calls : List (ℕ × Call))
      → apply_transition b now request s ≡ (ok r, t)
      → r.success ≡ true
      → again.expected_generation ≡ request.expected_generation
      → (q : Reply) × (apply_transition b later again (serve_all b calls t)
          ≡ (ok q, serve_all b calls t))
        × (q.success ≡ false)
  apply_transition_once now later request again s t r calls h success same =
      let (current, next) = success_generation now request s t r h success in
      let (low, high) = serve_all_bounds calls t in
      apply_transition-refused later again (serve_all b calls t) (λ e. omega arith)
