-- ===== src/Agent/Switched.antt =====
-- What a change of mode leaves on each of its outcomes (`set_mode` of agent/python/ocs_agent/core.py),
-- over any backend.
use reconfig_net_sim.Prelude.{ℕ, ◌+◌, ◌≡◌, refl, sym, ap, ◌∙◌, ◌⊎◌, inl, inr, Bool-cases, true}
use reconfig_net_sim.Value.{Value}
use reconfig_net_sim.Errors.{Result, ok, err, Result-cases}
use reconfig_net_sim.Exec.{outcome}
use reconfig_net_sim.Modes.{Status, Mode, same_mode}
use reconfig_net_sim.Backend.{Backend, Timing, validate_delay_us}
use reconfig_net_sim.Lease.{Clock}
use reconfig_net_sim.Agent.State.{
  Agent, Response, WriteOptions, mode_pairs, capture, current_device_pairs, next_request_id,
  response,
}
use reconfig_net_sim.Agent.Write.{program}
use reconfig_net_sim.Agent.ModeSwitch.{
  parse_mode, mode_message, commit_mode, change_mode, unchanged_mode, set_mode,
}
use reconfig_net_sim.Agent.Keeps.{program-keeps, device_failed-raises}
use reconfig_net_sim.Agent.Guards.{gate, with_lease, check_write_preconditions-gate}
use reconfig_net_sim.Agent.Outcome.{SameDesired, device_failed-SameDesired}

-- Equal modes are one mode.
same_mode-eq : (m n : Mode) → same_mode m n ≡ true → m ≡ n
same_mode-eq Mode.ocs Mode.ocs h = refl
same_mode-eq Mode.debug Mode.debug h = refl
same_mode-eq Mode.ocs Mode.debug h = absurd (cc)
same_mode-eq Mode.debug Mode.ocs h = absurd (cc)

module _ (b : Backend) where
  -- What a change to a mode leaves when it returns.
  abbrev pub IsChanged : Mode → Agent b.Device → Result Response × Agent b.Device → Type 0
  IsChanged target a (ok r, s) =
      ((r.result ≡ "updated")
        × (s.mode ≡ target)
        × (s.connections ≡ a.connections)
        × (s.revision ≡ a.revision + 1)
        × (s.status ≡ Status.ready)
        × (r.mode ≡ target))
      ⊎ ((r.result ≡ "unchanged") × (a.mode ≡ target) × SameDesired b a s × (s.device ≡ a.device))
  IsChanged target a (err x, s) = SameDesired b a s

  committed :
      (clock : Clock) (target : Mode) (timing : Timing) (rid : ℕ) (a s : Agent b.Device)
      → SameDesired b a s
      → IsChanged target a (
        ok (response b rid "updated" timing clock (commit_mode b clock target timing s)),
        commit_mode b clock target timing s,
      )
  unfolding commit_mode capture response
  committed clock target timing rid a s (same, mode, revision) =
      inl (refl, refl, same, ap (λ n. n + 1) revision, refl, refl)

  change_mode-IsChanged :
      (clock : Clock) (target : Mode) (options : WriteOptions) (rid : ℕ) (a : Agent b.Device)
      → IsChanged target a (change_mode b clock target options rid a)
  unfolding change_mode
  change_mode-IsChanged clock target options rid a =
      let begun = record a { status = Status.updating } in
      let previous = current_device_pairs b a in
      let wanted = mode_pairs target a.inventory a.connections in
      let kept =
        program-keeps b (SameDesired b a) (λ s. s) (λ s d h. h) (λ s h. h) clock previous wanted
          "FULL" options begun (refl, refl, refl) in
      elim (outcome (program b clock (λ s. s) previous wanted "FULL" options begun)) [
        | inl (timing, s, e) ↦ rw e (committed clock target timing rid a s (rw e at kept))
        | inr (x, s, e) ↦
            let (y, raised) = device_failed-raises b clock rid mode_message (λ _ old. old) x s in
            let (same, mode, revision) : SameDesired b a s = rw e at kept in
            let (same', mode', revision') =
              device_failed-SameDesired b clock rid mode_message (λ _ old. old) x s in
            rw (e, raised) (same' ∙ same, mode' ∙ mode, revision' ∙ revision)
      ]

  -- What a request for a mode leaves when it returns, and when it raises.
  abbrev pub IsSwitched : Value → Agent b.Device → Result Response × Agent b.Device → Type 0
  IsSwitched requested a (ok r, s) =
      (target : Mode) × (parse_mode requested ≡ ok target) × IsChanged target a (ok r, s)
  IsSwitched requested a (err x, s) = SameDesired b a s

  switched :
      (requested : Value) (target : Mode) (a : Agent b.Device)
      (r : Result Response × Agent b.Device)
      → parse_mode requested ≡ ok target
      → IsChanged target a r
      → IsSwitched requested a r
  switched requested target a (ok r, s) parsed h = (target, parsed, h)
  switched requested target a (err x, s) parsed h = h

  -- A request for a mode is all or nothing in the Agent's own state. If it returns, the request named a
  -- mode; either the result is `updated`, the mode is that one, the connections are as before, the
  -- revision went up by one and the status is `ready`, or the result is `unchanged`, the mode was that
  -- one, and connections, mode, revision and device are as before. If it raises, on any path,
  -- connections, mode and revision are as before.
  pub set_mode-IsSwitched :
      (clock : Clock) (requested : Value) (options : WriteOptions) (a : Agent b.Device)
      → IsSwitched requested a (set_mode b clock requested options a)
  unfolding set_mode next_request_id unchanged_mode response
  set_mode-IsSwitched clock requested options a =
      let rid = a.request_id + 1 in
      let s = record a { request_id = rid } in
      elim (Result-cases (parse_mode requested)) [
        | inr (x, e) ↦ rw e (refl, refl, refl)
        | inl (target, e) ↦ rw e (elim (Result-cases (validate_delay_us options.delay_us)) [
          | inr (x, f) ↦ rw f (refl, refl, refl)
          | inl (delay, f) ↦
              rw
                (
                  f,
                  check_write_preconditions-gate b clock options.lease_token
                      options.expected_revision s,
                )
                (elim (Result-cases
                  (gate b clock options.lease_token options.expected_revision s)) [
                    | inr (x, g) ↦ rw g (refl, refl, refl)
                    | inl (_, g) ↦ rw g (elim (Bool-cases (same_mode target a.mode)) [
                      | inl same ↦ rw same (
                        target,
                        e,
                        inr (refl, sym (same_mode-eq target a.mode same), (refl, refl, refl), refl),
                      )
                      | inr differ ↦
                          let t = with_lease b clock options.lease_token s in
                          rw differ (
                            switched requested target a _ e
                              (change_mode-IsChanged clock target options rid t))
                    ])
                  ])
        ])
      ]
