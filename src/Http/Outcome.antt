-- ===== src/Http/Outcome.antt =====
-- What the status of an answer says of the Agent (agent/python/ocs_agent/nbi/http.py).
use reconfig_net_sim.Prelude.{
  ℕ, ◌+◌, String, ◌≡◌, refl, ◌⊎◌, inl, inr, Bool, true, false, Option, List, str_eq, if◌then◌else◌,
}
use reconfig_net_sim.Value.{Value, Fields, has, get, get_or}
use reconfig_net_sim.Errors.{Raised, ocs, bad_value, Result, ok, err, Result-cases}
use reconfig_net_sim.Exec.{Exec, outcome, catch, pure, lift, ◌>>=◌}
use reconfig_net_sim.Backend.{Backend}
use reconfig_net_sim.Lease.{Clock, acquire, renew, release, require_lease}
use reconfig_net_sim.Agent.State.{
  Agent, WriteOptions, current_device_pairs, next_request_id, check_revision,
}
use reconfig_net_sim.Agent.Control.{acquire_control, renew_control, release_control, control_state}
use reconfig_net_sim.Agent.ModeSwitch
use reconfig_net_sim.Agent.Recovery
use reconfig_net_sim.Agent.Recovery.{recover_device_state, recovery_failed, recover_device}
use reconfig_net_sim.Agent.Outcome.{SameDesired}
use reconfig_net_sim.Agent.Switched.{set_mode-IsSwitched}
use reconfig_net_sim.Agent.Run.{Request}
use reconfig_net_sim.Http.Message.{HttpRequest, read_json, write_options, lease_token}
use reconfig_net_sim.Http.Handler.{
  Answer, Payload, post_failed, post_mode, post_recover, route_write, route_post, do_post,
  is_reapply,
}

module _ (b : Backend) where
  -- An answer other than 200, and an exception, mean that connections, mode and revision are kept.
  abbrev pub IsHonest : Agent b.Device → Result Answer × Agent b.Device → Type 0
  IsHonest a (ok answer, s) = (answer.status ≡ 200) ⊎ SameDesired b a s
  IsHonest a (err x, s) = SameDesired b a s

  IsHonest-if :
      (test : Bool) (m n : Exec (Agent b.Device) Answer) (a : Agent b.Device)
      → IsHonest a (m a)
      → IsHonest a (n a)
      → IsHonest a ((if test then m else n) a)
  IsHonest-if true m n a h k = h
  IsHonest-if false m n a h k = k

  abbrev KeptOnError : {A : Type 0} → Agent b.Device → Result A × Agent b.Device → Type 0
  KeptOnError a (ok v, s) = Unit
  KeptOnError a (err x, s) = SameDesired b a s

  -- A call of the Agent whose reply is sent with status 200.
  IsHonest-call :
      {A : Type 0} (m : Exec (Agent b.Device) A) (payload : A → Payload) (a : Agent b.Device)
      → KeptOnError a (m a)
      → IsHonest a ((m >>= λ v. pure (record { status = 200; payload = payload v })) a)
  IsHonest-call m payload a h = elim (outcome (m a)) [
    | inl (v, s, e) ↦ rw e (inl refl)
    | inr (x, s, e) ↦ rw e (rw e at h)
  ]

  post_failed-IsHonest :
      (x : Raised) (a s : Agent b.Device) → SameDesired b a s → IsHonest a (post_failed x s)
  unfolding post_failed
  post_failed-IsHonest (bad_value m) a s h = inr h
  post_failed-IsHonest (ocs e) a s h = inr h
  post_failed-IsHonest x a s h = h

  IsHonest-catch :
      (m : Exec (Agent b.Device) Answer) (a : Agent b.Device)
      → IsHonest a (m a)
      → IsHonest a (catch m post_failed a)
  IsHonest-catch m a h = elim (outcome (m a)) [
    | inl (v, s, e) ↦ rw e (rw e at h)
    | inr (x, s, e) ↦ rw e (post_failed-IsHonest x a s (rw e at h))
  ]

  acquire_control-kept :
      (clock : Clock) (fresh : String) (client wanted : Value) (a : Agent b.Device)
      → KeptOnError a (acquire_control b clock fresh client wanted a)
  unfolding acquire_control
  acquire_control-kept clock fresh client wanted a =
      elim (outcome (acquire clock fresh client wanted a.lease)) [
        | inl (_, l, e) ↦ rw e tt
        | inr (x, l, e) ↦ rw e (refl, refl, refl)
      ]

  renew_control-kept :
      (clock : Clock) (token : Option String) (wanted : Value) (a : Agent b.Device)
      → KeptOnError a (renew_control b clock token wanted a)
  unfolding renew_control
  renew_control-kept clock token wanted a = elim (outcome (renew clock token wanted a.lease)) [
    | inl (_, l, e) ↦ rw e tt
    | inr (x, l, e) ↦ rw e (refl, refl, refl)
  ]

  release_control-kept :
      (clock : Clock) (token : Option String) (a : Agent b.Device)
      → KeptOnError a (release_control b clock token a)
  unfolding release_control control_state
  release_control-kept clock token a = elim (outcome (release clock token a.lease)) [
    | inl (_, l, e) ↦ rw e tt
    | inr (x, l, e) ↦ rw e (refl, refl, refl)
  ]

  set_mode-kept :
      (clock : Clock) (requested : Value) (options : WriteOptions) (a : Agent b.Device)
      → KeptOnError a (ModeSwitch.set_mode b clock requested options a)
  set_mode-kept clock requested options a =
      elim (outcome (ModeSwitch.set_mode b clock requested options a)) [
        | inl (v, s, e) ↦ rw e tt
        | inr (x, s, e) ↦ rw e (rw e at (set_mode-IsSwitched b clock requested options a))
      ]

  recover-kept :
      (clock : Clock) (options : WriteOptions) (rid : ℕ) (a : Agent b.Device)
      → KeptOnError a (Recovery.recover b clock options rid a)
  unfolding Recovery.recover recovery_failed
  recover-kept clock options rid a =
      elim (outcome (recover_device b (current_device_pairs b a) options a.device)) [
        | inl (timing, d, e) ↦ rw e tt
        | inr (x, d, e) ↦ rw e (refl, refl, refl)
      ]

  recover_device_state-kept :
      (clock : Clock) (options : WriteOptions) (a : Agent b.Device)
      → KeptOnError a (recover_device_state b clock options a)
  unfolding recover_device_state next_request_id
  recover_device_state-kept clock options a =
      let rid = a.request_id + 1 in
      elim (outcome (require_lease clock options.lease_token a.lease)) [
        | inr (x, l, e) ↦ rw e (refl, refl, refl)
        | inl (_, l, e) ↦
            rw e (elim (Result-cases (check_revision a.revision options.expected_revision)) [
              | inr (x, f) ↦ rw f (refl, refl, refl)
              | inl (_, f) ↦
                  rw f (recover-kept clock options rid (record a { request_id = rid; lease = l }))
            ])
      ]

  module _ (between : List (Clock × Request)) (r : HttpRequest) where
    route_write-IsHonest :
        (body : Fields) (options : WriteOptions) (a : Agent b.Device)
        → str_eq r.path "/ocs_mapping" ≡ false
        → IsHonest a (route_write b between r body options a)
    unfolding route_write post_mode post_recover
    route_write-IsHonest body options a other = rw other (
        IsHonest-if (str_eq r.path "/ocs_mode") _ _ a
          (IsHonest-if (has body "mode") _ _ a
            (IsHonest-call (ModeSwitch.set_mode b r.clock (get body "mode") options) Payload.written
              a (set_mode-kept r.clock (get body "mode") options a))
            (refl, refl, refl))
          (IsHonest-if (str_eq r.path "/ocs_recover") _ _ a
            (IsHonest-if (is_reapply (get_or (Value.text "REAPPLY_DESIRED") body "mode")) _ _ a
              (IsHonest-call (recover_device_state b r.clock options) Payload.written a
                (recover_device_state-kept r.clock options a))
              (refl, refl, refl))
            (inr (refl, refl, refl))))

    route_post-IsHonest :
        (body : Fields) (a : Agent b.Device)
        → str_eq r.path "/ocs_mapping" ≡ false
        → IsHonest a (route_post b between r body a)
    unfolding route_post
    route_post-IsHonest body a other =
        let token = lease_token r body in
        let wanted = get body "requested_lease_seconds" in
        let client = get_or (Value.text "") body "client_id" in
        IsHonest-if (str_eq r.path "/ocs_control/acquire") _ _ a
          (IsHonest-call (acquire_control b r.clock r.fresh client wanted) Payload.lease a
            (acquire_control-kept r.clock r.fresh client wanted a))
          (IsHonest-if (str_eq r.path "/ocs_control/renew") _ _ a
            (IsHonest-call (renew_control b r.clock token wanted) Payload.lease a
              (renew_control-kept r.clock token wanted a))
            (IsHonest-if (str_eq r.path "/ocs_control/release") _ _ a
              (IsHonest-call (release_control b r.clock token) Payload.control a
                (release_control-kept r.clock token a))
              (elim (Result-cases (write_options r body)) [
                | inl (options, e) ↦ rw e (route_write-IsHonest body options a other)
                | inr (x, e) ↦ rw e (refl, refl, refl)
              ])))

    -- A POST for any path but /ocs_mapping that is answered with a status other than 200, or that ends
    -- in an exception, leaves connections, mode and revision as they are.
    pub do_post-IsHonest :
        (a : Agent b.Device)
        → str_eq r.path "/ocs_mapping" ≡ false
        → IsHonest a (do_post b between r a)
    unfolding do_post
    do_post-IsHonest a other =
        IsHonest-catch (λ s. (lift (read_json r) >>= λ body. route_post b between r body) s) a
          (elim (Result-cases (read_json r)) [
            | inl (body, e) ↦ rw e (route_post-IsHonest body a other)
            | inr (x, e) ↦ rw e (refl, refl, refl)
          ])
