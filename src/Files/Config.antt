-- ===== src/Files/Config.antt =====
-- `load_agent_config` of agent/python/ocs_agent/config.py: the JSON file that an Agent is started from.
use reconfig_net_sim.Prelude.{
  ℕ, String, Bool, true, false, not, ◌&&◌, Option, none, some, List, [], ◌∷◌, str_eq, ◌==◌,
  if◌then◌else◌,
}
use reconfig_net_sim.Value.{Value, Fields, end, field, get, get_or}
use reconfig_net_sim.Errors.{Arg, Raised, Result, ok, err, raise_if, ◌>>=◌, ◌>>◌}
use reconfig_net_sim.Files.Objects.{Process, keys, refuse_unknown, object_or, text_or, is_in}
use reconfig_net_sim.Files.Model.{Model, load_model}
use reconfig_net_sim.Files.Capabilities.{load_capability_profile}
use reconfig_net_sim.Files.Endpoints.{
  value_error, Listener, listener, positive_number, WorkerTarget, worker_target, go_binary,
}
use reconfig_net_sim.Files.Deployment.{Deployment, deployment_profile, allowed_fields, resolve}

unfoldable pub one_of : List String → Raised → Value → Result String
one_of allowed e (Value.text s) = if is_in allowed s then ok s else err e
one_of allowed e v = err e

abbrev pub consistency_modes : List String
consistency_modes = "CACHED_ACK" ∷ "CACHED_SYNC" ∷ "STRICT_DEVICE" ∷ []

abbrev pub startup_policies : List String
startup_policies = "REQUIRE_MATCH" ∷ "REAPPLY_DESIRED" ∷ []

abbrev pub backend_types : List String
backend_types = "bfrt" ∷ "p4app" ∷ []

abbrev pub mode_value : Option String → Fields → Value
mode_value none device = get_or (Value.text "CACHED_ACK") device "consistency_mode"
mode_value (some s) device = Value.text s

abbrev pub device_object : Fields → Result Fields
device_object raw =
    object_or (value_error "device must be an object" []) (get_or (Value.dict end) raw "device")

abbrev pub known_device : Fields → Result (Unit {0})
known_device device =
    refuse_unknown value_error "device contains unknown fields: {}" ("consistency_mode" ∷ [])
      (keys device)

unfoldable pub consistency_mode : Process → Fields → Result String
unfolding refuse_unknown
consistency_mode process raw = device_object raw >>= λ device.
    known_device device
    >> one_of consistency_modes
        (value_error "device.consistency_mode must be CACHED_ACK, CACHED_SYNC, or STRICT_DEVICE" [])
        (mode_value (process.environ "OCS_CONSISTENCY_MODE") device)

unfoldable pub startup_policy : Fields → Result String
startup_policy raw =
    one_of startup_policies
      (value_error "startup_policy must be REQUIRE_MATCH or REAPPLY_DESIRED" [])
      (get_or (Value.text "REQUIRE_MATCH") raw "startup_policy")

abbrev pub backend_object : Fields → Result Fields
backend_object raw =
    object_or (value_error "backend must be an object" [])
      (get_or (Value.dict (field "type" (Value.text "p4app") end)) raw "backend")

-- `backend.get('type', 'p4app')`, which the source also writes back.
unfoldable pub backend_name : Fields → Result String
backend_name backend =
    one_of backend_types (value_error "backend.type must be bfrt or p4app" [])
      (get_or (Value.text "p4app") backend "type")

abbrev pub control_object : Fields → Result Fields
control_object raw =
    object_or (value_error "control must be an object" []) (get_or (Value.dict end) raw "control")

abbrev pub known_control : Fields → Result (Unit {0})
known_control control =
    refuse_unknown value_error "control contains unknown fields: {}"
      ("lease_seconds" ∷ "reconcile_interval_seconds" ∷ []) (keys control)

-- The two numbers of `control`.
unfoldable pub control_seconds : Fields → Result (ℕ × ℕ)
unfolding positive_number refuse_unknown
control_seconds raw = control_object raw >>= λ control.
    known_control control
    >> (positive_number control "lease_seconds" 30 >>= λ lease.
        positive_number control "reconcile_interval_seconds" 30 >>= λ reconcile.
        ok (lease, reconcile))

pub data Endpoint : Type 0 where
  http_api : Listener → Endpoint
  grpc_api : Listener → WorkerTarget → String → Endpoint

unfoldable pub endpoint : Deployment → String → Fields → Result Endpoint
unfolding listener worker_target go_binary
endpoint Deployment.python_monolith_http_direct backend_type raw =
    listener raw "http_api" 5000 true >>= λ l.
    raise_if (str_eq backend_type "bfrt" && l.port == 5000) (
      value_error
        "Tofino HTTP Agent must not use port 5000 while the BF-SDE control process owns it" [])
    >> ok (Endpoint.http_api l)
endpoint Deployment.go_split_grpc backend_type raw = listener raw "grpc_api" 9339 false >>= λ l.
    worker_target raw >>= λ w. go_binary raw >>= λ binary. ok (Endpoint.grpc_api l w binary)

pub record AgentConfig : Type 0 where
  pub path : String
  pub deployment : Deployment
  pub model_file : String
  pub capability_profile_file : String
  pub model : Model
  pub capability_profile : Fields
  pub consistency_mode : String
  pub startup_policy : String
  pub backend_type : String
  pub backend : Fields
  pub lease_seconds : ℕ
  pub reconcile_interval_seconds : ℕ
  pub endpoint : Endpoint

abbrev pub same_text : String → Value → Bool
same_text s (Value.text t) = str_eq s t
same_text s v = false

abbrev pub known_fields : Deployment → Fields → Result (Unit {0})
known_fields deployment raw =
    refuse_unknown value_error "configuration contains unknown fields: {}"
      (allowed_fields deployment) (keys raw)

abbrev pub required : Fields → String → Result String
required raw key = text_or (value_error "{} is required" (Arg.name key ∷ [])) (get raw key)

-- The part of `load_agent_config` after the two other files are read.
unfoldable pub settings_of :
    Process → String → Fields → Deployment → String × String → Model → Fields → Result AgentConfig
settings_of process path raw deployment files model capability =
    raise_if (not (same_text model.profile (get capability "profile")))
      (value_error "model and capability profile must match" [])
    >> (consistency_mode process raw >>= λ mode. startup_policy raw >>= λ policy.
        backend_object raw >>= λ backend. backend_name backend >>= λ type.
        control_seconds raw >>= λ seconds. endpoint deployment type raw >>= λ place. ok (record {
          path = process.abspath path;
          deployment = deployment;
          model_file = files.0;
          capability_profile_file = files.1;
          model = model;
          capability_profile = capability;
          consistency_mode = mode;
          startup_policy = policy;
          backend_type = type;
          backend = backend;
          lease_seconds = seconds.0;
          reconcile_interval_seconds = seconds.1;
          endpoint = place;
        }))

-- The path of a file that the configuration names.
abbrev pub file_path : Process → String → String → String
file_path process path name =
    process.abspath (resolve (process.dirname (process.abspath path)) name)

-- `load_agent_config`, from the parsed file on.
unfoldable pub config_of : Process → String → Fields → Result AgentConfig
unfolding settings_of
config_of process path raw = deployment_profile raw >>= λ deployment.
    known_fields deployment raw
    >> (required raw "model_file" >>= λ model_file.
        required raw "capability_profile_file" >>= λ capability_file.
        load_model process (file_path process path model_file) >>= λ model.
        load_capability_profile process (file_path process path capability_file) >>= λ capability.
        settings_of process path raw deployment
          (file_path process path model_file, file_path process path capability_file) model
          capability)

abbrev pub root_object : Value → Result Fields
root_object v = object_or (value_error "configuration root must be an object" []) v

-- `load_agent_config`
unfoldable pub load_agent_config : Process → String → Result AgentConfig
unfolding config_of
load_agent_config process path = process.json path >>= λ v. root_object v >>= config_of process path
