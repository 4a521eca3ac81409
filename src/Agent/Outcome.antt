-- ===== src/Agent/Outcome.antt =====
-- What a write of connections leaves on each of its outcomes (`_apply_target_locked` of
-- agent/python/ocs_agent/core.py), over any backend.
use reconfig_net_sim.Prelude.{
  ℕ, ◌+◌, ◌≡◌, refl, ap, ◌∙◌, ◌⊎◌, inl, inr, true, Option, some, Bool-cases,
}
use reconfig_net_sim.Errors
use reconfig_net_sim.Errors.{
  raise_if, OcsError, Message, Raised, transition, TransitionError, restored, Result, ok, err,
  Result-cases,
}
use reconfig_net_sim.Exec.{outcome}
use reconfig_net_sim.Modes.{Status, Mode, same_mode}
use reconfig_net_sim.ConnectionSet.{ConnectionSet, same_connections}
use reconfig_net_sim.Backend.{Backend, Timing, validate_delay_us}
use reconfig_net_sim.Lease.{Clock, require_lease}
use reconfig_net_sim.Agent.State.{
  Agent, Response, WriteOptions, pairs_of, capture, next_request_id, response, stamp,
}
use reconfig_net_sim.Agent.Write.{
  transition_failed, device_failed, program, commit_target, change_target, unchanged_target,
  guarded_write, apply_target, mark_failed, update_message, debug_active,
}
use reconfig_net_sim.Agent.Keeps.{program-keeps, device_failed-raises}
use reconfig_net_sim.Agent.Guards.{gate, with_lease, check_write_preconditions-gate}

module _ (b : Backend) where
  -- The connections, the mode and the revision of one state are those of another.
  abbrev pub SameDesired : Agent b.Device → Agent b.Device → Type 0
  SameDesired a s = (s.connections ≡ a.connections) × (s.mode ≡ a.mode) × (s.revision ≡ a.revision)

  pub device_failed-SameDesired :
      (clock : Clock) (rid : ℕ) (message : TransitionError → Message)
      (last : TransitionError → Option Message → Option Message) (x : Raised) (s : Agent b.Device)
      → SameDesired s
          (device_failed b {A = Timing} clock rid
            (transition_failed b clock rid message last)
            x
            s).1
  unfolding device_failed transition_failed capture
  device_failed-SameDesired clock rid message last (transition e) s = (refl, refl, refl)
  device_failed-SameDesired clock rid message last (Raised.ocs e) s = (refl, refl, refl)
  device_failed-SameDesired clock rid message last (Raised.other m) s = (refl, refl, refl)
  device_failed-SameDesired clock rid message last (Raised.unavailable m) s = (refl, refl, refl)
  device_failed-SameDesired clock rid message last (Raised.precondition m) s = (refl, refl, refl)
  device_failed-SameDesired clock rid message last (Raised.bad_value m) s = (refl, refl, refl)

  -- What a state keeps when a write raises, and what it becomes when the write returns.
  abbrev pub IsWritten : ConnectionSet → Agent b.Device → Result Response × Agent b.Device → Type 0
  IsWritten target a (ok r, s) =
      ((r.result ≡ "updated")
        × (s.connections ≡ target)
        × (s.mode ≡ a.mode)
        × (s.revision ≡ a.revision + 1)
        × (s.status ≡ Status.ready)
        × (r.revision ≡ s.revision))
      ⊎ ((r.result ≡ "unchanged")
          × (same_connections target a.connections ≡ true)
          × SameDesired a s
          × (s.device ≡ a.device)
          × (r.revision ≡ a.revision))
  IsWritten target a (err x, s) = SameDesired a s

  committed :
      (clock : Clock) (target : ConnectionSet) (timing : Timing) (rid : ℕ) (a s : Agent b.Device)
      → SameDesired a s
      → IsWritten target a (
        ok (response b rid "updated" timing clock (commit_target b clock target timing s)),
        commit_target b clock target timing s,
      )
  unfolding commit_target capture response
  committed clock target timing rid a s (same, mode, revision) =
      inl (refl, refl, mode, ap (λ n. n + 1) revision, refl, refl)

  change_target-IsWritten :
      (clock : Clock) (target : ConnectionSet) (options : WriteOptions) (rid : ℕ)
      (a : Agent b.Device)
      → IsWritten target a (change_target b clock target options rid a)
  unfolding change_target
  change_target-IsWritten clock target options rid a =
      let begun = record a { status = Status.updating } in
      let previous = pairs_of a.connections in
      let body =
        program b clock (mark_failed b) previous (pairs_of target) options.strategy options in
      let kept =
        program-keeps b (SameDesired a) (mark_failed b) (λ s d h. h) (λ s h. h) clock previous
          (pairs_of target) options.strategy options begun (refl, refl, refl) in
      elim (outcome (body begun)) [
        | inl (timing, s, e) ↦ rw e (committed clock target timing rid a s (rw e at kept))
        | inr (x, s, e) ↦
            let (y, raised) =
              device_failed-raises b clock rid update_message (λ e _. some e.update_error) x s in
            let (same, mode, revision) : SameDesired a s = rw e at kept in
            let (same', mode', revision') =
              device_failed-SameDesired clock rid update_message (λ e _. some e.update_error) x s in
            rw (e, raised) (same' ∙ same, mode' ∙ mode, revision' ∙ revision)
      ]

  guarded_write-IsWritten :
      (clock : Clock) (target : ConnectionSet) (options : WriteOptions) (rid : ℕ)
      (a : Agent b.Device)
      → IsWritten target a (guarded_write b clock target options rid a)
  unfolding guarded_write unchanged_target response
  guarded_write-IsWritten clock target options rid a =
      let s = with_lease b clock options.lease_token a in
      rw (check_write_preconditions-gate b clock options.lease_token options.expected_revision a)
        (elim (Result-cases (gate b clock options.lease_token options.expected_revision a)) [
          | inr (x, e) ↦ rw e (refl, refl, refl)
          | inl (_, e) ↦ rw e (elim (Bool-cases (same_mode a.mode Mode.debug)) [
            | inl debug ↦ rw debug (refl, refl, refl)
            | inr ocs ↦ rw ocs (elim (Bool-cases (same_connections target a.connections)) [
              | inl same ↦ rw same (inr (refl, same, (refl, refl, refl), refl, refl))
              | inr differ ↦ rw differ (change_target-IsWritten clock target options rid s)
            ])
          ])
        ])

  -- A write of connections is all or nothing in the Agent's own state. If it returns `updated`, then
  -- the connections are the target, the revision went up by one and the status is `ready`; if it
  -- returns `unchanged`, the target had the same connections, and connections, mode, revision and
  -- device are as before; if it raises, on any path, connections, mode and revision are as before.
  pub apply_target-IsWritten :
      (clock : Clock) (target : ConnectionSet) (options : WriteOptions) (a : Agent b.Device)
      → IsWritten target a (apply_target b clock target options a)
  unfolding apply_target next_request_id
  apply_target-IsWritten clock target options a =
      let rid = a.request_id + 1 in
      let s = record a { request_id = rid } in
      elim (Result-cases (validate_delay_us options.delay_us)) [
        | inr (x, e) ↦ rw e (refl, refl, refl)
        | inl (delay, e) ↦ rw e (elim (outcome (guarded_write b clock target options rid s)) [
          | inl (r, t, run) ↦
              rw run (rw run at (guarded_write-IsWritten clock target options rid s))
          | inr (x, t, run) ↦
              rw run (rw run at (guarded_write-IsWritten clock target options rid s))
        ])
      ]

  -- A write that the checks refuse, in terms of their verdict.
  pub apply_target-gated :
      (clock : Clock) (target : ConnectionSet) (options : WriteOptions) (a : Agent b.Device)
      (delay : ℕ) (x : Raised)
      → validate_delay_us options.delay_us ≡ ok delay
      → Errors.◌>>◌
          (gate b clock options.lease_token options.expected_revision a)
          (raise_if (same_mode a.mode Mode.debug) debug_active)
        ≡ err x
      → apply_target b clock target options a ≡ (
        err (stamp (a.request_id + 1) x),
        record a {
          request_id = a.request_id + 1;
          lease = (require_lease clock options.lease_token a.lease).1;
        },
      )
  unfolding apply_target next_request_id guarded_write
  apply_target-gated clock target options a delay x valid refused =
      let s = record a { request_id = a.request_id + 1 } in
      rw
        (
          valid,
          check_write_preconditions-gate b clock options.lease_token options.expected_revision s,
        )
        (elim (Result-cases (gate b clock options.lease_token options.expected_revision a)) [
          | inr (y, e) ↦ let same : y ≡ x = cc (rw e at refused) in rw (e, ← same)
          | inl (_, e) ↦ elim (Bool-cases (same_mode a.mode Mode.debug)) [
            | inl debug ↦
                let same : debug_active ≡ x = cc (rw (e, debug) at refused) in rw (e, debug, ← same)
            | inr ocs ↦ absurd (cc (rw (e, ocs) at refused))
          ]
        ])
