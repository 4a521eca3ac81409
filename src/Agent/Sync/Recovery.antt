-- ===== src/Agent/Sync/Recovery.antt =====
-- `recover_device_state` keeps the Agent's promise (agent/python/ocs_agent/core.py).
use reconfig_net_sim.Prelude.{
  ℕ, ◌+◌, String, ◌≡◌, refl, ap, inl, inr, false, not, Option, none, some, arith,
}
use reconfig_net_sim.Value.{Value}
use reconfig_net_sim.Errors.{Result, ok, err, Result-cases}
use reconfig_net_sim.Exec.{Exec, raise_when, outcome, bind-eq-ok, raise_when-eq-ok}
use reconfig_net_sim.Modes.{Status}
use reconfig_net_sim.PairSet.{PairSet, set_eq}
use reconfig_net_sim.Backend.{Backend, Timing}
use reconfig_net_sim.Backend.Laws.{IsFaithful}
use reconfig_net_sim.Lease.{Clock, require_lease}
use reconfig_net_sim.Agent.State.{
  Agent, Response, WriteOptions, capture, current_device_pairs, next_request_id, check_revision,
}
use reconfig_net_sim.Agent.Recovery.{
  mismatch, reapply, recover_device, recover_with, recovery_failed, commit_recovery, recover,
  recover_device_state,
}
use reconfig_net_sim.Agent.Sync.Program.{InSync}

module _ (b : Backend) (Holds : b.Device → PairSet → Type 0) (faithful : IsFaithful b Holds) where
  -- Recovery that returns has brought the device to the desired pairs.
  reapply-Holds :
      (desired : PairSet) (options : WriteOptions) (timing : Timing) (d e : b.Device)
      → reapply b desired options d ≡ (ok timing, e)
      → Holds e desired
  unfolding reapply
  reapply-Holds desired options timing d e h =
      let (observed, d1, _, h1) = bind-eq-ok b.read_pairs _ d h in
      let (t, d2, applied, h2) =
        bind-eq-ok (b.apply observed desired options.strategy options.delay_us options.transport) _
          d1 h1 in
      let (verified, d3, read, h3) = bind-eq-ok b.read_pairs _ d2 h2 in
      let (_, d4, check, last) =
        bind-eq-ok (raise_when (not (set_eq verified desired)) mismatch) _ d3 h3 in
      let (equal, same) = raise_when-eq-ok (not (set_eq verified desired)) mismatch d3 d4 check in
      let ended = ap (λ (r : Result Timing × b.Device). r.1) last in
      rw (← ended, ← same)
        (faithful.respects d3 verified desired (ground arith)
          (faithful.reads.reports d2 d3 verified read))

  recover_with-Holds :
      (m : Option (PairSet → String → Value → String → Exec b.Device Timing)) (desired : PairSet)
      (options : WriteOptions) (timing : Timing) (d e : b.Device)
      → b.recover ≡ m
      → recover_with b m desired options d ≡ (ok timing, e)
      → Holds e desired
  unfolding recover_with
  recover_with-Holds none desired options timing d e absent h =
      reapply-Holds desired options timing d e h
  recover_with-Holds (some r) desired options timing d e present h =
      faithful.recovers r desired options.strategy options.transport options.delay_us timing d e
        present h

  recover-InSync :
      (clock : Clock) (options : WriteOptions) (rid : ℕ) (a : Agent b.Device)
      → InSync b Holds faithful (recover b clock options rid a).1
  unfolding recover recovery_failed commit_recovery capture current_device_pairs
  recover-InSync clock options rid a =
      let desired = current_device_pairs b a in
      elim (outcome (recover_device b desired options a.device)) [
        | inl (timing, d, run) ↦
            rw run
              (λ ready. recover_with-Holds b.recover desired options timing a.device d refl run)
        | inr (x, d, run) ↦ rw run (λ ready. absurd (cc))
      ]

  -- Recovery keeps the promise on every branch, and establishes it where it succeeds.
  pub recover_device_state-InSync :
      (clock : Clock) (options : WriteOptions) (a : Agent b.Device)
      → InSync b Holds faithful a
      → InSync b Holds faithful (recover_device_state b clock options a).1
  unfolding recover_device_state next_request_id current_device_pairs
  recover_device_state-InSync clock options a h =
      let rid = a.request_id + 1 in
      elim (outcome (require_lease clock options.lease_token a.lease)) [
        | inr (x, l, e) ↦ rw e h
        | inl (_, l, e) ↦
            rw e (elim (Result-cases (check_revision a.revision options.expected_revision)) [
              | inr (x, f) ↦ rw f h
              | inl (_, f) ↦
                  rw f (recover-InSync clock options rid (record a { request_id = rid; lease = l }))
            ])
      ]

  -- What a recovery leaves when it returns, and when it raises.
  abbrev pub IsRecovered : Agent b.Device → Result Response × Agent b.Device → Type 0
  IsRecovered a (ok r, s) =
      (s.status ≡ Status.ready)
      × (s.startup_recovery_required ≡ false)
      × (s.revision ≡ a.revision + 1)
      × (s.connections ≡ a.connections)
      × (s.mode ≡ a.mode)
      × Holds s.device (current_device_pairs b a)
  IsRecovered a (err x, s) =
      (s.startup_recovery_required ≡ a.startup_recovery_required)
      × (s.revision ≡ a.revision)
      × (s.connections ≡ a.connections)
      × (s.mode ≡ a.mode)

  recover-IsRecovered :
      (clock : Clock) (options : WriteOptions) (rid : ℕ) (a : Agent b.Device)
      → IsRecovered a (recover b clock options rid a)
  unfolding recover recovery_failed commit_recovery capture
  recover-IsRecovered clock options rid a =
      let desired = current_device_pairs b a in
      elim (outcome (recover_device b desired options a.device)) [
        | inl (timing, d, run) ↦ rw run (
          refl,
          refl,
          refl,
          refl,
          refl,
          recover_with-Holds b.recover desired options timing a.device d refl run,
        )
        | inr (x, d, run) ↦ rw run (refl, refl, refl, refl)
      ]

  -- A recovery that returns leaves a `ready` Agent that needs no startup recovery, at the next
  -- revision, with the connections and the mode it had, over a device that holds exactly their pairs,
  -- whatever state it started from. One that raises keeps the need, the revision, the connections and
  -- the mode.
  pub recover_device_state-IsRecovered :
      (clock : Clock) (options : WriteOptions) (a : Agent b.Device)
      → IsRecovered a (recover_device_state b clock options a)
  unfolding recover_device_state next_request_id current_device_pairs
  recover_device_state-IsRecovered clock options a =
      let rid = a.request_id + 1 in
      elim (outcome (require_lease clock options.lease_token a.lease)) [
        | inr (x, l, e) ↦ rw e (refl, refl, refl, refl)
        | inl (_, l, e) ↦
            rw e (elim (Result-cases (check_revision a.revision options.expected_revision)) [
              | inr (x, f) ↦ rw f (refl, refl, refl, refl)
              | inl (_, f) ↦
                  rw f (
                    recover-IsRecovered clock options rid
                      (record a { request_id = rid; lease = l }))
            ])
      ]
