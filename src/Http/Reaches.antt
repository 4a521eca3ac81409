-- ===== src/Http/Reaches.antt =====
-- The HTTP interface adds no state of its own (agent/python/ocs_agent/nbi/http.py): what its requests do
-- to the Agent is what a sequence of the Agent's own requests does.
use reconfig_net_sim.Prelude.{
  ℕ, if◌then◌else◌, ◌≡◌, refl, sym, ap, ◌∙◌, inl, inr, Bool, true, false, List, [], ◌∷◌, ◌++◌,
  Bool-cases, str_eq,
}
use reconfig_net_sim.Value.{Value, Fields, has, get, get_or}
use reconfig_net_sim.Errors.{Raised, ocs, bad_value}
use reconfig_net_sim.Exec.{Exec, outcome, catch, pure, lift, modify, ◌>>=◌}
use reconfig_net_sim.Modes.{Mode, same_mode}
use reconfig_net_sim.Backend.{Backend}
use reconfig_net_sim.Lease.{Clock}
use reconfig_net_sim.Agent.State.{Agent, WriteOptions}
use reconfig_net_sim.Agent.Control.{
  acquire_control, renew_control, release_control, control_state, snapshot, get_permutation,
}
use reconfig_net_sim.Agent.ModeSwitch
use reconfig_net_sim.Agent.Recovery.{recover_device_state}
use reconfig_net_sim.Agent.Requests.{WriteRequest, handle_write, apply_permutation}
use reconfig_net_sim.Agent.Run.{Request, handle, run}
use reconfig_net_sim.Http.Message.{HttpRequest, read_json, write_options, lease_token}
use reconfig_net_sim.Http.Handler.{
  Answer, get_failed, post_failed, route_get, do_get, post_mapping, post_mode, post_recover,
  route_write, route_post, do_post, is_reapply,
}
use reconfig_net_sim.Http.Session.{Served, answer, answer_all}

module _ (b : Backend) where
  run-append :
      (xs ys : List (Clock × Request)) (a : Agent b.Device)
      → run b (xs ++ ys) a ≡ run b ys (run b xs a)
  unfolding run
  run-append [] ys a = refl
  run-append ((clock, r) ∷ xs) ys a = run-append xs ys (handle b clock r a)

  -- Some sequence of requests takes one state to the other.
  abbrev pub Reaches : Agent b.Device → Agent b.Device → Type 0
  Reaches a s = (requests : List (Clock × Request)) × (s ≡ run b requests a)

  Reaches-refl : (a : Agent b.Device) → Reaches a a
  unfolding run
  Reaches-refl a = ([], refl)

  Reaches-trans : (a s t : Agent b.Device) → Reaches a s → Reaches s t → Reaches a t
  Reaches-trans a s t (xs, h) (ys, k) = (xs ++ ys, k ∙ ap (run b ys) h ∙ sym (run-append xs ys a))

  Reaches-handle :
      (clock : Clock) (r : Request) (a : Agent b.Device) → Reaches a (handle b clock r a)
  unfolding run
  Reaches-handle clock r a = ((clock, r) ∷ [], refl)

  -- A handler of exceptions that leaves the state alone.
  catch-state :
      (m : Exec (Agent b.Device) Answer) (handler : Raised → Exec (Agent b.Device) Answer)
      (a : Agent b.Device)
      → ((x : Raised) (s : Agent b.Device) → (handler x s).1 ≡ s)
      → (catch m handler a).1 ≡ (m a).1
  catch-state m handler a still = elim (outcome (m a)) [
    | inl (v, s, e) ↦ rw e refl
    | inr (x, s, e) ↦ rw e (still x s)
  ]

  get_failed-state : (x : Raised) (s : Agent b.Device) → (get_failed x s).1 ≡ s
  unfolding get_failed
  get_failed-state (ocs e) s = refl
  get_failed-state x s = refl

  post_failed-state : (x : Raised) (s : Agent b.Device) → (post_failed x s).1 ≡ s
  unfolding post_failed
  post_failed-state (bad_value m) s = refl
  post_failed-state (ocs e) s = refl
  post_failed-state x s = refl

  -- A call of the Agent, and what follows it.
  Reaches-bind :
      {A B : Type 0} (m : Exec (Agent b.Device) A) (next : A → Exec (Agent b.Device) B)
      (a : Agent b.Device)
      → Reaches a (m a).1
      → ((v : A) (s : Agent b.Device) → Reaches s (next v s).1)
      → Reaches a ((m >>= next) a).1
  Reaches-bind m next a first rest = elim (outcome (m a)) [
    | inl (v, s, e) ↦ rw e (Reaches-trans a s (next v s).1 (rw e at first) (rest v s))
    | inr (x, s, e) ↦ rw e (rw e at first)
  ]

  Reaches-if :
      {A : Type 0} (test : Bool) (m n : Exec (Agent b.Device) A) (a : Agent b.Device)
      → Reaches a (m a).1
      → Reaches a (n a).1
      → Reaches a ((if test then m else n) a).1
  Reaches-if true m n a h k = h
  Reaches-if false m n a h k = k

  get_permutation-Reaches : (a : Agent b.Device) → Reaches a (get_permutation b a).1
  unfolding get_permutation
  get_permutation-Reaches a = elim (Bool-cases (same_mode a.mode Mode.debug)) [
    | inl debug ↦ rw debug (Reaches-refl a)
    | inr live ↦ rw live (Reaches-refl a)
  ]

  module _ (between : List (Clock × Request)) (r : HttpRequest) where
    -- The requests of others, then a read of the permutation for the answer.
    Reaches-then_permutation :
        (answer : List ℕ → Answer) (a : Agent b.Device)
        → Reaches a
            ((modify (run b between) >>= λ _. get_permutation b >>= λ pi. pure (answer pi)) a).1
    Reaches-then_permutation answer a =
        Reaches-bind (modify (run b between)) (λ _. get_permutation b >>= λ pi. pure (answer pi)) a
          (between, refl)
          (λ _ s.
            Reaches-bind (get_permutation b) (λ pi. pure (answer pi)) s (get_permutation-Reaches s)
              (λ pi t. Reaches-refl t))

    route_get-Reaches : (a : Agent b.Device) → Reaches a (route_get b between r a).1
    unfolding route_get handle
    route_get-Reaches a =
        Reaches-if (str_eq r.path "/ocs_control") _ _ a
          (Reaches-bind (control_state b r.clock) _ a (Reaches-handle r.clock Request.control a)
            (λ _ s. Reaches-refl s))
          (Reaches-if (str_eq r.path "/ocs_mapping") _ _ a
            (Reaches-bind (snapshot b r.clock) _ a (Reaches-handle r.clock Request.view a)
              (λ seen s. Reaches-then_permutation _ s))
            (Reaches-if (str_eq r.path "/ocs_mode") _ _ a
              (Reaches-bind (snapshot b r.clock) _ a (Reaches-handle r.clock Request.view a)
                (λ _ s. Reaches-refl s))
              (Reaches-refl a)))

    post_mapping-Reaches :
        (body : Fields) (options : WriteOptions) (a : Agent b.Device)
        → Reaches a (post_mapping b between r body options a).1
    unfolding post_mapping handle handle_write
    post_mapping-Reaches body options a =
        Reaches-if (has body "new_pi") _ _ a
          (Reaches-bind (apply_permutation b r.clock (get body "new_pi") options) _ a
            (Reaches-handle r.clock
              (Request.write (WriteRequest.permutation (get body "new_pi")) options) a)
            (λ result s. Reaches-then_permutation _ s))
          (Reaches-refl a)

    post_mode-Reaches :
        (body : Fields) (options : WriteOptions) (a : Agent b.Device)
        → Reaches a (post_mode b between r body options a).1
    unfolding post_mode handle
    post_mode-Reaches body options a =
        Reaches-if (has body "mode") _ _ a
          (Reaches-bind (ModeSwitch.set_mode b r.clock (get body "mode") options) _ a
            (Reaches-handle r.clock (Request.set_mode (get body "mode") options) a)
            (λ _ s. Reaches-refl s))
          (Reaches-refl a)

    post_recover-Reaches :
        (body : Fields) (options : WriteOptions) (a : Agent b.Device)
        → Reaches a (post_recover b between r body options a).1
    unfolding post_recover handle
    post_recover-Reaches body options a =
        Reaches-if (is_reapply (get_or (Value.text "REAPPLY_DESIRED") body "mode")) _ _ a
          (Reaches-bind (recover_device_state b r.clock options) _ a
            (Reaches-handle r.clock (Request.recover options) a) (λ _ s. Reaches-refl s))
          (Reaches-refl a)

    route_post-Reaches :
        (body : Fields) (a : Agent b.Device) → Reaches a (route_post b between r body a).1
    unfolding route_post route_write handle
    route_post-Reaches body a =
        let token = lease_token r body in
        let wanted = get body "requested_lease_seconds" in
        let client = get_or (Value.text "") body "client_id" in
        Reaches-if (str_eq r.path "/ocs_control/acquire") _ _ a
          (Reaches-bind (acquire_control b r.clock r.fresh client wanted) _ a
            (Reaches-handle r.clock (Request.acquire r.fresh client wanted) a)
            (λ _ s. Reaches-refl s))
          (Reaches-if (str_eq r.path "/ocs_control/renew") _ _ a
            (Reaches-bind (renew_control b r.clock token wanted) _ a
              (Reaches-handle r.clock (Request.renew token wanted) a) (λ _ s. Reaches-refl s))
            (Reaches-if (str_eq r.path "/ocs_control/release") _ _ a
              (Reaches-bind (release_control b r.clock token) _ a
                (Reaches-handle r.clock (Request.release token) a) (λ _ s. Reaches-refl s))
              (Reaches-bind (lift (write_options r body)) (route_write b between r body) a
                (Reaches-refl a)
                (λ options s.
                  Reaches-if (str_eq r.path "/ocs_mapping") _ _ s
                    (post_mapping-Reaches body options s)
                    (Reaches-if (str_eq r.path "/ocs_mode") _ _ s (post_mode-Reaches body options s)
                      (Reaches-if (str_eq r.path "/ocs_recover") _ _ s
                        (post_recover-Reaches body options s) (Reaches-refl s)))))))

  answer-Reaches : (s : Served) (a : Agent b.Device) → Reaches a (answer b s a)
  unfolding answer do_get do_post
  answer-Reaches (Served.gets between r) a =
      rw (catch-state (route_get b between r) get_failed a get_failed-state)
        (route_get-Reaches between r a)
  answer-Reaches (Served.posts between r) a =
      rw
        (catch-state (λ s. (lift (read_json r) >>= λ body. route_post b between r body) s)
          post_failed a post_failed-state)
        (Reaches-bind (lift (read_json r)) (route_post b between r) a (Reaches-refl a)
          (λ body s. route_post-Reaches between r body s))

  -- The state after any requests over HTTP, refused and failed ones included, and whatever runs between
  -- the calls that one of them makes, is the state after some sequence of requests of the Agent.
  pub answer_all-Reaches :
      (served : List Served) (a : Agent b.Device) → Reaches a (answer_all b served a)
  unfolding answer_all
  answer_all-Reaches [] a = Reaches-refl a
  answer_all-Reaches (s ∷ rest) a =
      Reaches-trans a (answer b s a) (answer_all b rest (answer b s a)) (answer-Reaches s a)
        (answer_all-Reaches rest (answer b s a))
