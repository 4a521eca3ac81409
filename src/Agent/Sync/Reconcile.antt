-- ===== src/Agent/Sync/Reconcile.antt =====
-- Reconciliation and startup establish the Agent's promise (agent/python/ocs_agent/core.py).
use reconfig_net_sim.Prelude.{
  ◌≡◌, refl, sym, ◌∙◌, ◌⊎◌, inl, inr, Bool, true, false, Option, none, some, arith,
}
use reconfig_net_sim.Errors.{Result, ok}
use reconfig_net_sim.Exec.{Exec, pure, modify, ◌>>=◌, ◌>>◌, outcome}
use reconfig_net_sim.Modes.{Status}
use reconfig_net_sim.PairSet.{PairSet, set_eq}
use reconfig_net_sim.Backend.{Backend}
use reconfig_net_sim.Backend.Laws.{IsRead, IsFaithful}
use reconfig_net_sim.Lease.{Clock}
use reconfig_net_sim.Agent.State.{Agent, Cache, capture, on_device, current_device_pairs}
use reconfig_net_sim.Agent.Reconcile.{
  observe_with, observe, judge, reconcile_failed, reconcile_device_state, after_read,
}
use reconfig_net_sim.Agent.Sync.Program.{InSync}

module _ (b : Backend) (Holds : b.Device → PairSet → Type 0) (faithful : IsFaithful b Holds) where
  -- What was observed: the device holds it, and the device lost nothing by being read. The request
  -- leaves the status and the pairs of the Agent alone.
  abbrev Observed : Agent b.Device → Result PairSet × Agent b.Device → Type 0
  Observed a (r, s) =
      ((pairs : PairSet) → Holds a.device pairs → Holds s.device pairs)
      × (s.status ≡ a.status)
      × (current_device_pairs b s ≡ current_device_pairs b a)
      × ((o : PairSet) → r ≡ ok o → Holds s.device o)

  read-Observed :
      (m : Exec b.Device PairSet) (after : PairSet → Agent b.Device → Cache) (a : Agent b.Device)
      → IsRead Holds m
      → Observed a ((do o ← on_device b m; modify (λ s. record s { cache = after o s }); pure o) a)
  unfolding current_device_pairs
  read-Observed m after a is_read = elim (outcome (m a.device)) [
    | inl (r, d, e) ↦ rw e (
      λ pairs h. rw e at (is_read.keeps a.device pairs h),
      refl,
      refl,
      λ o same. let agrees : r ≡ o = cc in rw (← agrees) (is_read.reports a.device d r e),
    )
    | inr (x, d, e) ↦
        rw e
          (λ pairs h. rw e at (is_read.keeps a.device pairs h), refl, refl, λ o same. absurd (cc))
  ]

  observe_with-Observed :
      (m : Option (PairSet → Exec b.Device PairSet)) (clock : Clock) (desired : PairSet)
      (a : Agent b.Device)
      → b.reconcile ≡ m
      → Observed a (observe_with b m clock desired a)
  unfolding observe_with capture
  observe_with-Observed none clock desired a absent =
      read-Observed b.read_pairs (λ o s. after_read b clock (set_eq o desired) s.cache) a
        faithful.reads
  observe_with-Observed (some reconcile) clock desired a present =
      read-Observed (reconcile desired) (λ o s. (capture b clock false s).cache) a
        (faithful.reconciles reconcile desired present)

  judge_frame :
      (agrees : Bool) (a : Agent b.Device)
      → ((judge b agrees a).device ≡ a.device)
        × (current_device_pairs b (judge b agrees a) ≡ current_device_pairs b a)
  unfolding judge current_device_pairs
  judge_frame agrees a = (ground arith, ground arith)

  -- The verdict makes the Agent ready only where it was, or where the read agreed.
  judge_ready :
      (agrees : Bool) (a : Agent b.Device)
      → (judge b agrees a).status ≡ Status.ready
      → (a.status ≡ Status.ready) ⊎ (agrees ≡ true)
  unfolding judge
  judge_ready agrees a h = ground arith

  judge-InSync :
      (o desired : PairSet) (a : Agent b.Device)
      → current_device_pairs b a ≡ desired
      → InSync b Holds faithful a
      → Holds a.device o
      → InSync b Holds faithful (judge b (set_eq o desired) a)
  unfolding current_device_pairs
  judge-InSync o desired a wanted h held = λ ready.
      let (device, pairs) = judge_frame (set_eq o desired) a in
      rw (device, pairs)
        (elim (judge_ready (set_eq o desired) a ready) [
          | inl before ↦ h before
          | inr same ↦ rw wanted (faithful.respects a.device o desired same held)
        ])

  -- Reconciliation keeps the promise, whatever it finds.
  pub reconcile_device_state-InSync :
      (clock : Clock) (a : Agent b.Device)
      → InSync b Holds faithful a
      → InSync b Holds faithful (reconcile_device_state b clock a).1
  unfolding reconcile_device_state reconcile_failed
  reconcile_device_state-InSync clock a h =
      let desired = current_device_pairs b a in
      let seen = observe_with-Observed b.reconcile clock desired a refl in
      elim (outcome (observe b clock desired a)) [
        | inr (x, s, e) ↦ rw e (λ ready. absurd (cc))
        | inl (o, s, e) ↦
            let (keeps, status, pairs, found) = rw e at seen in
            rw e (
              judge-InSync o desired s pairs
                (λ ready. rw pairs (keeps desired (h (sym status ∙ ready)))) (found o refl))
      ]
