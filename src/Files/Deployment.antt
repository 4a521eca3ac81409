-- ===== src/Files/Deployment.antt =====
-- The deployment profiles, the fields that each allows, and the paths in a configuration (agent/python/
-- ocs_agent/config.py).
use Prim.Native.String.{◌++◌ as text_append}
use reconfig_net_sim.Prelude.{
  ℕ, String, Bool, true, false, not, ◌||◌, List, [], ◌∷◌, ◌++◌, map, keep, str_eq, ◌==◌, codes,
  if◌then◌else◌,
}
use reconfig_net_sim.Value.{Value, Fields, has, get}
use reconfig_net_sim.Errors.{Arg, Raised, Result, ok, err, raise_if, ◌>>◌}
use reconfig_net_sim.Files.Objects.{sorted_names}
use reconfig_net_sim.Files.Endpoints.{value_error}

-- `PYTHON_MONOLITH_HTTP_DIRECT` and `GO_SPLIT_GRPC`
pub data Deployment : Type 0 where
  python_monolith_http_direct go_split_grpc : Deployment

abbrev deprecated_fields : List String
deprecated_fields =
    "agent_runtime" ∷ "enable_rest_api" ∷ "enable_grpc_api" ∷ "rest_api" ∷ "device_worker" ∷ []

abbrev common_fields : List String
common_fields =
    "deployment_profile" ∷ "model_file" ∷ "capability_profile_file" ∷ "mode" ∷ "enable_debugger"
    ∷ "device" ∷ "startup_policy" ∷ "control" ∷ "backend" ∷ []

abbrev is_empty : List String → Bool
is_empty [] = true
is_empty (s ∷ ss) = false

abbrev unsupported : List String → Raised
unsupported names =
    value_error
      "deprecated OCS configuration fields {} are not supported; set deployment_profile to python-monolith-http-direct or go-split-grpc and follow docs/ocs-agent-architecture.md"
      (map Arg.name (sorted_names names))

abbrev bad_deployment : Raised
bad_deployment =
    value_error "deployment_profile must be python-monolith-http-direct or go-split-grpc" []

abbrev deployment_of : Value → Result Deployment
deployment_of (Value.text s) =
    if str_eq s "python-monolith-http-direct"
    then ok Deployment.python_monolith_http_direct
    else if str_eq s "go-split-grpc"
    then ok Deployment.go_split_grpc
    else err bad_deployment
deployment_of v = err bad_deployment

-- `deployment_profile`
unfoldable pub deployment_profile : Fields → Result Deployment
deployment_profile raw =
    let deprecated = keep (has raw) deprecated_fields in
    raise_if (not (is_empty deprecated)) (unsupported deprecated)
    >> deployment_of (get raw "deployment_profile")

abbrev pub allowed_fields : Deployment → List String
allowed_fields Deployment.python_monolith_http_direct = common_fields ++ "http_api" ∷ []
allowed_fields Deployment.go_split_grpc = common_fields ++ "grpc_api" ∷ "worker" ∷ "go_agent" ∷ []

-- `os.path.join(base, value)` of a relative path, and `os.path.isabs`.
abbrev is_absolute : List ℕ → Bool
is_absolute [] = false
is_absolute (c ∷ s) = c == b'/'

abbrev ends_in_slash : List ℕ → Bool
ends_in_slash [] = false
ends_in_slash (c ∷ []) = c == b'/'
ends_in_slash (c ∷ d ∷ s) = ends_in_slash (d ∷ s)

abbrev join : String → String → String
join base value =
    if ends_in_slash (codes base) || str_eq base ""
    then text_append base value
    else text_append base (text_append "/" value)

-- `_resolve`
unfoldable pub resolve : String → String → String
resolve base value = if is_absolute (codes value) then value else join base value
