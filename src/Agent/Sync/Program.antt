-- ===== src/Agent/Sync/Program.antt =====
-- How the `try` block of a write can end, and what its `except` clauses leave behind (agent/python/
-- ocs_agent/core.py), for any backend that keeps its contract.
use reconfig_net_sim.Prelude.{
  ℕ, String, ◌≡◌, ◌≢◌, refl, ap, inl, inr, false, Option, none, arith, Bool-cases,
}
use reconfig_net_sim.Value.{Value}
use reconfig_net_sim.Errors.{
  Message, Raised, transition, TransitionError, restored, Result, ok, err,
}
use reconfig_net_sim.Exec.{Exec, outcome, bind-eq-err}
use reconfig_net_sim.Modes.{Status}
use reconfig_net_sim.PairSet.{PairSet}
use reconfig_net_sim.Backend.{Backend, Timing}
use reconfig_net_sim.Backend.Laws.{IsFaithful, is_transition}
use reconfig_net_sim.Lease.{Clock}
use reconfig_net_sim.Agent.State.{
  Agent, WriteOptions, capture, on_device, current_device_pairs, pre_read, read_and_compare,
  is_strict_blind,
}
use reconfig_net_sim.Agent.Write.{transition_failed, device_failed, program, after_transition}

module _ (b : Backend) (Holds : b.Device → PairSet → Type 0) (faithful : IsFaithful b Holds) where
  abbrev pub InSync : Agent b.Device → Type 0
  InSync a = a.status ≡ Status.ready → Holds a.device (current_device_pairs b a)

  -- How the `try` block can end.
  abbrev pub Programmed : PairSet → PairSet → Result Timing × Agent b.Device → Type 0
  Programmed previous target (ok timing, a) = Holds a.device target
  Programmed previous target (err (transition e), a) =
      e.rollback_error ≡ none → Holds a.device previous
  Programmed previous target (err x, a) = Unit

  on_device-eq :
      {A : Type 0} (m : Exec b.Device A) (a s : Agent b.Device) {r : Result A}
      → on_device b m a ≡ (r, s)
      → m a.device ≡ (r, s.device)
  on_device-eq {A} m a s h = ap (λ (p : Result A × Agent b.Device). (p.0, p.1.device)) h

  read_and_compare-plain :
      (mark : Agent b.Device → Agent b.Device) (previous : PairSet) (a s : Agent b.Device)
      (x : Raised)
      → read_and_compare b mark previous a ≡ (err x, s)
      → is_transition x ≡ false
  unfolding read_and_compare
  read_and_compare-plain mark previous a s x h =
      elim (bind-eq-err (on_device b b.read_pairs) _ a h) [
        | inl failed ↦
            faithful.reads.plain a.device s.device x (on_device-eq b.read_pairs a s failed)
        | inr (r, t, read, compared) ↦ ground arith
      ]

  pre_read-plain :
      (mark : Agent b.Device → Agent b.Device) (previous : PairSet) (a s : Agent b.Device)
      (x : Raised)
      → pre_read b mark previous a ≡ (err x, s)
      → is_transition x ≡ false
  unfolding pre_read
  pre_read-plain mark previous a s x h = elim (Bool-cases (is_strict_blind b a)) [
    | inl strict ↦ read_and_compare-plain mark previous a s x (rw strict at h)
    | inr loose ↦ absurd (cc (rw loose at h))
  ]

  plain-Programmed :
      (previous target : PairSet) (x : Raised) (s : Agent b.Device)
      → is_transition x ≡ false
      → Programmed previous target (err x, s)
  plain-Programmed previous target (transition e) s h = absurd (cc)
  plain-Programmed previous target x s h = tt

  applied :
      (previous target : PairSet) (strategy transport : String) (delay : Value) (s : Agent b.Device)
      (r : Result Timing) (d : b.Device)
      → b.apply previous target strategy delay transport s.device ≡ (r, d)
      → Programmed previous target (r, record s { device = d })
  applied previous target strategy transport delay s (ok timing) d h =
      faithful.written previous target strategy transport delay timing s.device d h
  applied previous target strategy transport delay s (err (transition e)) d h =
      faithful.rolled_back previous target strategy transport delay e s.device d h
  applied previous target strategy transport delay s (err x) d h = tt

  pub program-Programmed :
      (clock : Clock) (mark : Agent b.Device → Agent b.Device) (previous target : PairSet)
      (strategy : String) (options : WriteOptions) (a : Agent b.Device)
      → Programmed previous target (program b clock mark previous target strategy options a)
  unfolding program
  program-Programmed clock mark previous target strategy options a =
      elim (outcome (pre_read b mark previous a)) [
        | inr (x, s, e) ↦
            rw e (plain-Programmed previous target x s (pre_read-plain mark previous a s x e))
        | inl (_, s, e) ↦
            rw e (applied previous target strategy options.transport options.delay_us s _ _ refl)
      ]

  -- A state in the middle of a write: not ready, with the pairs that the write started from.
  pub record IsPending (previous : PairSet) (s : Agent b.Device) : Type 0 where
    pub pending : s.status ≢ Status.ready
    pub started : current_device_pairs b s ≡ previous

  clean_of_ready :
      (e : TransitionError) → after_transition (restored e) ≡ Status.ready → e.rollback_error ≡ none
  clean_of_ready e h = ground arith

  pub failed-InSync :
      (clock : Clock) (rid : ℕ) (message : TransitionError → Message)
      (last : TransitionError → Option Message → Option Message) (previous target : PairSet)
      (x : Raised) (s : Agent b.Device)
      → Programmed previous target (err x, s)
      → IsPending previous s
      → InSync
          (device_failed b {A = Timing} clock rid
            (transition_failed b clock rid message last)
            x
            s).1
  unfolding device_failed transition_failed capture current_device_pairs
  failed-InSync clock rid message last previous target (transition e) s h p =
      λ ready. rw (← p.started) at (h (clean_of_ready e ready))
  failed-InSync clock rid message last previous target (Raised.ocs e) s h p =
      λ ready. absurd (p.pending ready)
  failed-InSync clock rid message last previous target (Raised.other m) s h p =
      λ ready. absurd (p.pending ready)
  failed-InSync clock rid message last previous target (Raised.bad_value m) s h p =
      λ ready. absurd (p.pending ready)
  failed-InSync clock rid message last previous target x s h p = λ ready. absurd (cc)
