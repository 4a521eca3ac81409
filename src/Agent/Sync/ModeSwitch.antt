-- ===== src/Agent/Sync/ModeSwitch.antt =====
-- `set_mode` keeps the Agent's promise (agent/python/ocs_agent/core.py).
use reconfig_net_sim.Prelude.{ℕ, ◌+◌, ◌≡◌, ◌≢◌, refl, inl, inr, Bool-cases}
use reconfig_net_sim.Value.{Value}
use reconfig_net_sim.Errors.{Result-cases}
use reconfig_net_sim.Exec.{outcome}
use reconfig_net_sim.Modes.{Status, Mode, same_mode}
use reconfig_net_sim.PairSet.{PairSet}
use reconfig_net_sim.Backend.{Backend, Timing, validate_delay_us}
use reconfig_net_sim.Backend.Laws.{IsFaithful}
use reconfig_net_sim.Lease.{Clock}
use reconfig_net_sim.Agent.State.{
  Agent, WriteOptions, mode_pairs, capture, current_device_pairs, next_request_id,
}
use reconfig_net_sim.Agent.Write.{program}
use reconfig_net_sim.Agent.ModeSwitch.{
  parse_mode, mode_message, commit_mode, change_mode, unchanged_mode, set_mode,
}
use reconfig_net_sim.Agent.Keeps.{program-keeps, device_failed-raises}
use reconfig_net_sim.Agent.Guards.{gate, with_lease, check_write_preconditions-gate}
use reconfig_net_sim.Agent.Sync.Program.{InSync, IsPending, program-Programmed, failed-InSync}

module _ (b : Backend) (Holds : b.Device → PairSet → Type 0) (faithful : IsFaithful b Holds) where
  -- In the middle of a change of mode.
  abbrev Switching : Agent b.Device → Agent b.Device → Type 0
  Switching a s =
      (s.status ≢ Status.ready)
      × (s.mode ≡ a.mode)
      × (s.inventory ≡ a.inventory)
      × (s.connections ≡ a.connections)

  Switching-IsPending :
      (a s : Agent b.Device)
      → Switching a s
      → IsPending b Holds faithful (current_device_pairs b a) s
  unfolding current_device_pairs
  Switching-IsPending a s (busy, mode, inventory, connections) = record {
    pending = busy;
    started = rw (mode, inventory, connections);
  }

  commit_mode-InSync :
      (clock : Clock) (target : Mode) (timing : Timing) (a s : Agent b.Device)
      → Switching a s
      → Holds s.device (mode_pairs target a.inventory a.connections)
      → InSync b Holds faithful (commit_mode b clock target timing s)
  unfolding commit_mode capture current_device_pairs
  commit_mode-InSync clock target timing a s (busy, mode, inventory, connections) h =
      λ ready. rw (inventory, connections) h

  change_mode-InSync :
      (clock : Clock) (target : Mode) (options : WriteOptions) (rid : ℕ) (a : Agent b.Device)
      → InSync b Holds faithful (change_mode b clock target options rid a).1
  unfolding change_mode
  change_mode-InSync clock target options rid a =
      let begun = record a { status = Status.updating } in
      let previous = current_device_pairs b a in
      let wanted = mode_pairs target a.inventory a.connections in
      let ended =
        program-Programmed b Holds faithful clock (λ s. s) previous wanted "FULL" options begun in
      let kept =
        program-keeps b (Switching a) (λ s. s) (λ s d h. h) (λ s h. h) clock previous wanted "FULL"
          options begun (λ e. cc, refl, refl, refl) in
      elim (outcome (program b clock (λ s. s) previous wanted "FULL" options begun)) [
        | inl (timing, s, e) ↦
            rw e (commit_mode-InSync clock target timing a s (rw e at kept) (rw e at ended))
        | inr (x, s, e) ↦
            let (y, raised) = device_failed-raises b clock rid mode_message (λ _ old. old) x s in
            rw (e, raised)
              (failed-InSync b Holds faithful clock rid mode_message (λ _ old. old) previous wanted
                x s (rw e at ended) (Switching-IsPending a s (rw e at kept)))
      ]

  -- A change of mode keeps the promise on every branch.
  pub set_mode-InSync :
      (clock : Clock) (requested : Value) (options : WriteOptions) (a : Agent b.Device)
      → InSync b Holds faithful a
      → InSync b Holds faithful (set_mode b clock requested options a).1
  unfolding set_mode next_request_id unchanged_mode current_device_pairs
  set_mode-InSync clock requested options a h =
      let rid = a.request_id + 1 in
      let s = record a { request_id = rid } in
      elim (Result-cases (parse_mode requested)) [
        | inr (x, e) ↦ rw e h
        | inl (target, e) ↦ rw e (elim (Result-cases (validate_delay_us options.delay_us)) [
          | inr (x, f) ↦ rw f h
          | inl (delay, f) ↦
              rw
                (
                  f,
                  check_write_preconditions-gate b clock options.lease_token
                      options.expected_revision s,
                )
                (elim (Result-cases
                  (gate b clock options.lease_token options.expected_revision s)) [
                    | inr (x, g) ↦ rw g h
                    | inl (_, g) ↦ rw g (elim (Bool-cases (same_mode target a.mode)) [
                      | inl same ↦ rw same h
                      | inr differ ↦ rw differ (
                          change_mode-InSync clock target options rid
                            (with_lease b clock options.lease_token s))
                    ])
                  ])
        ])
      ]
