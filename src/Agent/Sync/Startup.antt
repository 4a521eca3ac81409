-- ===== src/Agent/Sync/Startup.antt =====
-- Startup establishes the Agent's promise (agent/python/ocs_agent/core.py).
use reconfig_net_sim.Prelude.{
  ◌≡◌, ◌≢◌, refl, sym, ap, ◌∙◌, ◌⊎◌, inl, inr, arith, Bool-cases, str_eq, ◌||◌,
}
use reconfig_net_sim.Errors.{Result, ok}
use reconfig_net_sim.Exec.{bind-eq-ok}
use reconfig_net_sim.Modes.{Status, Mode}
use reconfig_net_sim.PairSet.{PairSet, set_eq}
use reconfig_net_sim.Backend.{Backend, Timing}
use reconfig_net_sim.Backend.Laws.{IsFaithful}
use reconfig_net_sim.Lease.{Clock}
use reconfig_net_sim.Agent.State.{
  Agent, pairs_of, mode_pairs, capture, on_device, current_device_pairs,
}
use reconfig_net_sim.Agent.Startup.{Config, no_delay, settle, initial, align, start, make_agent}
use reconfig_net_sim.Agent.Sync.Program.{InSync}

module _ (b : Backend) (Holds : b.Device → PairSet → Type 0) (faithful : IsFaithful b Holds) where
  -- The pairs that the Agent starts from are those of its file.
  abbrev Fresh : Agent b.Device → Agent b.Device → Type 0
  Fresh a t = (t.mode ≡ a.mode) × (t.inventory ≡ a.inventory) × (t.connections ≡ a.connections)

  align-Fresh :
      (observed desired : PairSet) (a : Agent b.Device) → Fresh a (align b observed desired a).1
  unfolding align
  align-Fresh observed desired a = (ground arith, ground arith, ground arith)

  align-Holds :
      (observed desired : PairSet) (timing : Timing) (a t : Agent b.Device)
      → Holds a.device observed
      → align b observed desired a ≡ (ok timing, t)
      → (t.status ≡ Status.error) ⊎ Holds t.device desired
  unfolding align
  align-Holds observed desired timing a t held h = elim (Bool-cases (set_eq observed desired)) [
    | inl same ↦
        let ended = ap (λ (p : Result Timing × Agent b.Device). p.1.device) (rw same at h) in
        inr (rw (← ended) (faithful.respects a.device observed desired same held))
    | inr differ ↦ elim (Bool-cases (str_eq a.startup_policy "REQUIRE_MATCH")) [
      | inl refuse ↦
          inl (
            sym
              (ap (λ (p : Result Timing × Agent b.Device). p.1.status) (rw (differ, refuse) at h)))
      | inr reapply ↦
          let applied =
            ap (λ (p : Result Timing × Agent b.Device). (p.0, p.1.device))
              (rw (differ, reapply) at h) in
          inr (
            faithful.written observed desired "FULL" "SEQUENTIAL" no_delay timing a.device t.device
              applied)
    ]
  ]

  settled : (s : Status) → settle s ≡ Status.ready → s ≢ Status.error
  settled s h e = cc (ap settle e)

  start-InSync :
      (clock : Clock) (a s : Agent b.Device)
      → a.mode ≡ Mode.ocs
      → start b clock a ≡ (ok tt, s)
      → InSync b Holds faithful s
  unfolding start capture current_device_pairs mode_pairs
  start-InSync clock a s mode h =
      let (observed, s1, read, h1) = bind-eq-ok (on_device b b.read_pairs) _ a h in
      let desired = pairs_of s1.connections in
      let (timing, t, aligned, h2) = bind-eq-ok (align b observed desired) _ s1 h1 in
      let held =
        faithful.reads.reports a.device s1.device observed
          (ap (λ (p : Result PairSet × Agent b.Device). (p.0, p.1.device)) read) in
      let at_start = ap (λ (p : Result PairSet × Agent b.Device). p.1.mode) read in
      let fresh : Fresh s1 t = rw aligned at (align-Fresh observed desired s1) in
      let status = ap (λ (p : Result (Unit {0}) × Agent b.Device). p.1.status) h2 in
      let device = ap (λ (p : Result (Unit {0}) × Agent b.Device). p.1.device) h2 in
      let mode' = ap (λ (p : Result (Unit {0}) × Agent b.Device). p.1.mode) h2 in
      let same = ap (λ (p : Result (Unit {0}) × Agent b.Device). p.1.connections) h2 in
      λ ready. elim (align-Holds observed desired timing s1 t held aligned) [
        | inl failed ↦ absurd (settled t.status (status ∙ ready) failed)
        | inr there ↦ rw (← device, ← mode', ← same, fresh.0, ← at_start, mode, fresh.2) there
      ]

  -- An Agent that starts and reports `ready` is in sync, on each branch of the startup policy.
  pub make_agent-InSync :
      (clock : Clock) (config : Config) (d : b.Device) (s : Agent b.Device)
      → make_agent b clock config d ≡ (ok tt, s)
      → InSync b Holds faithful s
  unfolding make_agent
  make_agent-InSync clock config d s h =
      elim (Bool-cases (
        str_eq config.startup_policy "REQUIRE_MATCH"
        || str_eq config.startup_policy "REAPPLY_DESIRED")) [
          | inl known ↦ start-InSync clock (initial config d) s refl (rw known at h)
          | inr unknown ↦ absurd (cc (rw unknown at h))
        ]
