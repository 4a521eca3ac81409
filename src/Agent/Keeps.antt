-- ===== src/Agent/Keeps.antt =====
-- What the `try` block of a write leaves alone (agent/python/ocs_agent/core.py), over any backend.
use reconfig_net_sim.Prelude.{ℕ, String, ◌≡◌, refl, inl, inr, Option, Bool-cases}
use reconfig_net_sim.Errors.{Message, Raised, transition, TransitionError, err}
use reconfig_net_sim.Exec.{outcome}
use reconfig_net_sim.PairSet.{PairSet, set_eq}
use reconfig_net_sim.Backend.{Backend, Timing}
use reconfig_net_sim.Lease.{Clock}
use reconfig_net_sim.Agent.State.{
  Agent, WriteOptions, pre_read, read_and_compare, mark_drift, is_strict_blind,
}
use reconfig_net_sim.Agent.Write.{transition_failed, device_failed, program}

module _ (b : Backend) where
  -- What the `try` block leaves alone, if the device, the cache and `mark` do not touch it.
  module _ (P : Agent b.Device → Type 0) (mark : Agent b.Device → Agent b.Device)
      (on_write : (s : Agent b.Device) (d : b.Device) → P s → P (record s { device = d }))
      (on_drift : (s : Agent b.Device)
        → P s
        → P (mark (record s { cache = mark_drift s.cache }))) where
    pre_read-keeps :
        (previous : PairSet) (a : Agent b.Device) → P a → P (pre_read b mark previous a).1
    unfolding pre_read read_and_compare
    pre_read-keeps previous a h = elim (Bool-cases (is_strict_blind b a)) [
      | inr loose ↦ rw loose h
      | inl strict ↦ rw strict (elim (outcome (b.read_pairs a.device)) [
        | inr (x, d, e) ↦ rw e (on_write a d h)
        | inl (r, d, e) ↦ rw e (elim (Bool-cases (set_eq r previous)) [
          | inl same ↦ rw same (on_write a d h)
          | inr differ ↦ rw differ (on_drift (record a { device = d }) (on_write a d h))
        ])
      ])
    ]

    pub program-keeps :
        (clock : Clock) (previous target : PairSet) (strategy : String) (options : WriteOptions)
        (a : Agent b.Device)
        → P a
        → P (program b clock mark previous target strategy options a).1
    unfolding program
    program-keeps clock previous target strategy options a h =
        elim (outcome (pre_read b mark previous a)) [
          | inr (x, s, e) ↦ rw e (rw e at (pre_read-keeps previous a h))
          | inl (_, s, e) ↦ rw e (on_write s _ (rw e at (pre_read-keeps previous a h)))
        ]

  -- The `except` clauses always raise.
  pub device_failed-raises :
      (clock : Clock) (rid : ℕ) (message : TransitionError → Message)
      (last : TransitionError → Option Message → Option Message) (x : Raised) (s : Agent b.Device)
      → (y : Raised) × (device_failed b {A = Timing} clock rid
            (transition_failed b clock rid message last)
            x
            s
          ≡ (
            err y,
            (device_failed b {A = Timing} clock rid
                (transition_failed b clock rid message last)
                x
                s).1,
          ))
  unfolding device_failed transition_failed
  device_failed-raises clock rid message last (transition e) s = (_, refl)
  device_failed-raises clock rid message last (Raised.ocs e) s = (_, refl)
  device_failed-raises clock rid message last (Raised.other m) s = (_, refl)
  device_failed-raises clock rid message last (Raised.unavailable m) s = (_, refl)
  device_failed-raises clock rid message last (Raised.precondition m) s = (_, refl)
  device_failed-raises clock rid message last (Raised.bad_value m) s = (_, refl)
