-- ===== src/Agent/Guards.antt =====
-- `_check_write_preconditions` of agent/python/ocs_agent/core.py as one verdict: it writes to the
-- lease alone.
use reconfig_net_sim.Prelude.{String, ◌≡◌, inl, inr, not, Option, arith, Bool-cases}
use reconfig_net_sim.Value.{Value}
use reconfig_net_sim.Errors
use reconfig_net_sim.Errors.{Raised, Result, ok, err, raise_if, Result-cases}
use reconfig_net_sim.Exec.{outcome}
use reconfig_net_sim.Modes.{is_ready}
use reconfig_net_sim.Backend.{Backend}
use reconfig_net_sim.Lease.{Clock, require_lease}
use reconfig_net_sim.Agent.State.{
  Agent, check_revision, startup_gate, stale_cache, check_write_preconditions,
}

module _ (b : Backend) where
  -- The checks in their order, on the state that the request finds.
  abbrev pub gate : Clock → Option String → Value → Agent b.Device → Result (Unit {0})
  gate clock token expected a = Errors.◌>>◌ (require_lease clock token a.lease).0 (
      Errors.◌>>◌ (check_revision a.revision expected) (
        Errors.◌>>◌ (raise_if a.startup_recovery_required startup_gate)
          (raise_if (not (is_ready a.cache.status)) stale_cache)))

  abbrev pub with_lease : Clock → Option String → Agent b.Device → Agent b.Device
  with_lease clock token a = record a { lease = (require_lease clock token a.lease).1 }

  pub check_write_preconditions-gate :
      (clock : Clock) (token : Option String) (expected : Value) (a : Agent b.Device)
      → check_write_preconditions b clock token expected a
        ≡ (gate clock token expected a, with_lease clock token a)
  unfolding check_write_preconditions
  check_write_preconditions-gate clock token expected a =
      elim (outcome (require_lease clock token a.lease)) [
        | inr (x, l, e) ↦ rw e
        | inl (_, l, e) ↦ rw e (elim (Result-cases (check_revision a.revision expected)) [
          | inr (x, f) ↦ rw f
          | inl (_, f) ↦ rw f (elim (Bool-cases a.startup_recovery_required) [
            | inl yes_required ↦ ground arith
            | inr not_required ↦ ground arith
          ])
        ])
      ]
