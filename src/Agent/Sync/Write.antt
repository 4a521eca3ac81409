-- ===== src/Agent/Sync/Write.antt =====
-- The Agent's promise: while it reports `ready`, the device holds the pairs of its connections or
-- of Debug Mode. A write of connections keeps it, on every branch.
use reconfig_net_sim.Prelude.{ℕ, ◌+◌, ◌≡◌, ◌≢◌, refl, inl, inr, false, some, Bool-cases}
use reconfig_net_sim.Errors.{Result-cases}
use reconfig_net_sim.Exec.{outcome}
use reconfig_net_sim.Modes.{Status, Mode, same_mode}
use reconfig_net_sim.PairSet.{PairSet}
use reconfig_net_sim.ConnectionSet.{ConnectionSet, same_connections}
use reconfig_net_sim.Backend.{Backend, Timing, validate_delay_us}
use reconfig_net_sim.Backend.Laws.{IsFaithful}
use reconfig_net_sim.Lease.{Clock}
use reconfig_net_sim.Agent.State.{
  Agent, WriteOptions, pairs_of, mode_pairs, capture, current_device_pairs, next_request_id,
}
use reconfig_net_sim.Agent.Write.{
  program, commit_target, change_target, unchanged_target, guarded_write, apply_target, mark_failed,
  update_message,
}
use reconfig_net_sim.Agent.Keeps.{program-keeps, device_failed-raises}
use reconfig_net_sim.Agent.Guards.{gate, with_lease, check_write_preconditions-gate}
use reconfig_net_sim.Agent.Sync.Program.{InSync, IsPending, program-Programmed, failed-InSync}

ocs_of_not_debug : (m : Mode) → same_mode m Mode.debug ≡ false → m ≡ Mode.ocs
ocs_of_not_debug Mode.ocs h = refl
ocs_of_not_debug Mode.debug h = cc

module _ (b : Backend) (Holds : b.Device → PairSet → Type 0) (faithful : IsFaithful b Holds) where
  -- After a write of connections that went through.
  commit_target-InSync :
      (clock : Clock) (target : ConnectionSet) (timing : Timing) (s : Agent b.Device)
      → s.mode ≡ Mode.ocs
      → Holds s.device (pairs_of target)
      → InSync b Holds faithful (commit_target b clock target timing s)
  unfolding commit_target capture current_device_pairs mode_pairs
  commit_target-InSync clock target timing s mode h = λ ready. rw mode h

  -- In the middle of a write of connections.
  abbrev Writing : ConnectionSet → Agent b.Device → Type 0
  Writing connections s =
      (s.status ≢ Status.ready) × (s.mode ≡ Mode.ocs) × (s.connections ≡ connections)

  Writing-IsPending :
      (connections : ConnectionSet) (s : Agent b.Device)
      → Writing connections s
      → IsPending b Holds faithful (pairs_of connections) s
  unfolding current_device_pairs mode_pairs
  Writing-IsPending connections s (busy, mode, same) = record {
    pending = busy;
    started = rw (mode, same);
  }

  change_target-InSync :
      (clock : Clock) (target : ConnectionSet) (options : WriteOptions) (rid : ℕ)
      (a : Agent b.Device)
      → a.mode ≡ Mode.ocs
      → InSync b Holds faithful (change_target b clock target options rid a).1
  unfolding change_target
  change_target-InSync clock target options rid a mode =
      let begun = record a { status = Status.updating } in
      let previous = pairs_of a.connections in
      let body =
        program b clock (mark_failed b) previous (pairs_of target) options.strategy options in
      let ended =
        program-Programmed b Holds faithful clock (mark_failed b) previous (pairs_of target)
          options.strategy options begun in
      let kept =
        program-keeps b (Writing a.connections) (mark_failed b) (λ s d h. h)
          (λ s h. (λ e. cc, h.1, h.2)) clock previous (pairs_of target) options.strategy options
          begun (λ e. cc, mode, refl) in
      elim (outcome (body begun)) [
        | inl (timing, s, e) ↦
            rw e (commit_target-InSync clock target timing s (rw e at kept).1 (rw e at ended))
        | inr (x, s, e) ↦
            let (y, raised) =
              device_failed-raises b clock rid update_message (λ e _. some e.update_error) x s in
            rw (e, raised)
              (failed-InSync b Holds faithful clock rid update_message (λ e _. some e.update_error)
                previous (pairs_of target) x s (rw e at ended)
                (Writing-IsPending a.connections s (rw e at kept)))
      ]

  guarded_write-InSync :
      (clock : Clock) (target : ConnectionSet) (options : WriteOptions) (rid : ℕ)
      (a : Agent b.Device)
      → InSync b Holds faithful a
      → InSync b Holds faithful (guarded_write b clock target options rid a).1
  unfolding guarded_write unchanged_target current_device_pairs
  guarded_write-InSync clock target options rid a h =
      let s = with_lease b clock options.lease_token a in
      rw (check_write_preconditions-gate b clock options.lease_token options.expected_revision a)
        (elim (Result-cases (gate b clock options.lease_token options.expected_revision a)) [
          | inr (x, e) ↦ rw e h
          | inl (_, e) ↦ rw e (elim (Bool-cases (same_mode a.mode Mode.debug)) [
            | inl debug ↦ rw debug h
            | inr ocs ↦ rw ocs (elim (Bool-cases (same_connections target a.connections)) [
              | inl same ↦ rw same h
              | inr differ ↦
                  rw differ
                    (change_target-InSync clock target options rid s (ocs_of_not_debug a.mode ocs))
            ])
          ])
        ])

  -- A write of connections keeps the promise on every branch: refused, unchanged, done, failed and
  -- rolled back, or failed for good.
  pub apply_target-InSync :
      (clock : Clock) (target : ConnectionSet) (options : WriteOptions) (a : Agent b.Device)
      → InSync b Holds faithful a
      → InSync b Holds faithful (apply_target b clock target options a).1
  unfolding apply_target next_request_id current_device_pairs
  apply_target-InSync clock target options a h =
      let rid = a.request_id + 1 in
      let s = record a { request_id = rid } in
      elim (Result-cases (validate_delay_us options.delay_us)) [
        | inr (x, e) ↦ rw e h
        | inl (delay, e) ↦ rw e (elim (outcome (guarded_write b clock target options rid s)) [
          | inl (r, t, run) ↦ rw run (rw run at (guarded_write-InSync clock target options rid s h))
          | inr (x, t, run) ↦ rw run (rw run at (guarded_write-InSync clock target options rid s h))
        ])
      ]
