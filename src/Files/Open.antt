-- ===== src/Files/Open.antt =====
-- What the checks of an endpoint ensure (agent/python/ocs_agent/config.py).
use reconfig_net_sim.Prelude.{
  ℕ, zero, suc, ◌*◌, ◌≤◌, ◌<◌, String, ◌≡◌, ◌≢◌, refl, inl, inr, Bool, true, false, ◌&&◌, none,
  arith, Bool-cases, str_eq, ◌==◌,
}
use reconfig_net_sim.Prelude.Int.{pos}
use reconfig_net_sim.Value.{Value, Fields, get_or}
use reconfig_net_sim.Errors.{Raised}
use reconfig_net_sim.Files.Ensures.{
  Ensures, Ensures-intro, Ensures-guard, Ensures-bind, Ensures-skip, Ensures-weaken,
}
use reconfig_net_sim.Files.Objects.{text_or}
use reconfig_net_sim.Files.Endpoints.{
  Listener, WorkerTarget, check_port, check_access_log, access_flag, listener_object,
  known_listener, host_of, worker_object, known_worker, target_of, go_object, known_go, listener,
  positive_number, positive, nanoseconds_of, worker_target, go_binary,
}
use reconfig_net_sim.Files.Config
use reconfig_net_sim.Files.Config.{
  Endpoint, AgentConfig, same_text, control_object, known_control, one_of, device_object,
  known_device, mode_value, consistency_modes, startup_policies, known_fields, required, file_path,
  root_object, backend_object, backend_name, settings_of, config_of, load_agent_config,
}
use reconfig_net_sim.Files.Deployment.{Deployment}

abbrev pub InRange : ℕ → Type 0
InRange n = (1 ≤ n) × (n ≤ 65535)

-- An endpoint that passed the checks: on the Tofino target the BF-SDE control process owns port 5000.
abbrev pub IsOpen : String → Endpoint → Type 0
IsOpen backend_type (Endpoint.http_api l) =
    InRange l.port × (l.access_log ≢ none) × (backend_type ≡ "bfrt" → l.port ≢ 5000)
IsOpen backend_type (Endpoint.grpc_api l w binary) =
    InRange l.port × (0 < w.timeout) × (w.target ≢ "") × (binary ≢ "")

check_port-InRange : (name : String) (v : Value) → Ensures InRange (check_port name v)
unfolding check_port
check_port-InRange name (Value.int (pos n)) =
    Ensures-intro InRange _ (λ m h. (ground arith, ground arith))
check_port-InRange name v = tt

pub positive_number-pos :
    (raw : Fields) (name : String) (default : ℕ)
    → Ensures (λ n. 0 < n) (positive_number raw name default)
unfolding positive_number
positive_number-pos raw name default = seconds (get_or (Value.int (pos default)) raw name)
  where
    at_least_one : (n : ℕ) → Ensures (λ n. 0 < n) (positive name n)
    at_least_one zero = tt
    at_least_one (suc n) = omega arith

    seconds : (v : Value) → Ensures (λ n. 0 < n) (nanoseconds_of name v)
    seconds (Value.int (pos n)) = at_least_one (n * 1000000000)
    seconds (Value.float (pos n)) = at_least_one n
    seconds v = tt

text_or-non_empty : (e : Raised) (v : Value) → Ensures (λ s. s ≢ "") (text_or e v)
text_or-non_empty e (Value.text s) = elim (Bool-cases (str_eq s "")) [
  | inl empty ↦ rw empty tt
  | inr full ↦ rw full (λ same. absurd (cc (rw same at full)))
]
text_or-non_empty e v = tt

check_access_log-some :
    (name : String) (f : Fields) → Ensures (λ o. o ≢ none) (check_access_log name true f)
unfolding check_access_log
check_access_log-some name f = flag (get_or (Value.bool false) f "access_log")
  where
    flag : (v : Value) → Ensures (λ o. o ≢ none) (access_flag name v)
    flag (Value.bool b) = λ same. absurd (cc)
    flag v = tt

-- The port of a listener, and its flag where it takes one.
abbrev IsListener : Bool → Listener → Type 0
IsListener access_log l = InRange l.port × (access_log ≡ true → l.access_log ≢ none)

listener-IsListener :
    (raw : Fields) (name : String) (port : ℕ) (access_log : Bool)
    → Ensures (IsListener access_log) (listener raw name port access_log)
unfolding listener
listener-IsListener raw name port access_log =
    let P = IsListener access_log in
    Ensures-skip P (listener_object raw name) _ (λ f.
      Ensures-skip P (known_listener name access_log f) _ (λ _.
        Ensures-skip P (host_of name f) _ (λ host.
          Ensures-bind P InRange (check_port name (get_or (Value.int (pos port)) f "port")) _
            (check_port-InRange name (get_or (Value.int (pos port)) f "port"))
            (λ n range.
              Ensures-bind P (λ o. access_log ≡ true → o ≢ none)
                (check_access_log name access_log f) _ (flagged access_log f)
                (λ o there. (range, there))))))
  where
    flagged :
        (a : Bool) (f : Fields) → Ensures (λ o. a ≡ true → o ≢ none) (check_access_log name a f)
    flagged false f = λ h. absurd (cc)
    flagged true f =
        Ensures-weaken (check_access_log name true f) (λ o h _. h) (check_access_log-some name f)

worker_target-IsSet :
    (raw : Fields) → Ensures (λ w. (0 < w.timeout) × (w.target ≢ "")) (worker_target raw)
unfolding worker_target
worker_target-IsSet raw =
    let P = λ (w : WorkerTarget). (0 < w.timeout) × (w.target ≢ "") in
    Ensures-skip P (worker_object raw) _ (λ f. Ensures-skip P (known_worker f) _ (λ _.
      Ensures-bind P (λ s. s ≢ "") (target_of f) _ (text_or-non_empty _ (get_or _ f "target"))
        (λ s named.
          Ensures-bind P (λ n. 0 < n) (positive_number f "timeout_seconds" 10) _
            (positive_number-pos f "timeout_seconds" 10) (λ n long. (long, named)))))

go_binary-named : (raw : Fields) → Ensures (λ s. s ≢ "") (go_binary raw)
unfolding go_binary
go_binary-named raw =
    let P = λ (s : String). s ≢ "" in
    Ensures-skip P (go_object raw) _
      (λ f. Ensures-skip P (known_go f) _ (λ _. text_or-non_empty _ (get_or _ f "binary")))

pub endpoint-IsOpen :
    (d : Deployment) (backend_type : String) (raw : Fields)
    → Ensures (IsOpen backend_type) (Config.endpoint d backend_type raw)
unfolding Config.endpoint
endpoint-IsOpen Deployment.python_monolith_http_direct backend_type raw =
    let P = IsOpen backend_type in
    Ensures-bind P (IsListener true) (listener raw "http_api" 5000 true) _
      (listener-IsListener raw "http_api" 5000 true)
      (λ l h.
        Ensures-guard P (str_eq backend_type "bfrt" && l.port == 5000) _ _
          (λ apart. (h.0, h.1 refl, λ same taken. absurd (cc (rw (same, taken) at apart)))))
endpoint-IsOpen Deployment.go_split_grpc backend_type raw =
    let P = IsOpen backend_type in
    Ensures-bind P (IsListener false) (listener raw "grpc_api" 9339 false) _
      (listener-IsListener raw "grpc_api" 9339 false)
      (λ l h.
        Ensures-bind P (λ w. (0 < w.timeout) × (w.target ≢ "")) (worker_target raw) _
          (worker_target-IsSet raw)
          (λ w k.
            Ensures-bind P (λ s. s ≢ "") (go_binary raw) _ (go_binary-named raw)
              (λ s named. (h.0, k.0, k.1, named))))
