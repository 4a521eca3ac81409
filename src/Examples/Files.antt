-- ===== src/Examples/Files.antt =====
-- The theorems on files, applied to a small configuration.
use reconfig_net_sim.Prelude.{
  String, Bool, ◌≡◌, refl, true, false, none, some, str_eq, if◌then◌else◌,
}
use reconfig_net_sim.Value.{Value, nil, cons, Fields, end, field}
use reconfig_net_sim.Errors.{Result, ok, err, Raised}
use reconfig_net_sim.Files.Objects.{Process}
use reconfig_net_sim.Files.Capabilities.{load_capability_profile}
use reconfig_net_sim.Files.Config.{AgentConfig, load_agent_config}
use reconfig_net_sim.Files.Accepted.{IsAccepted, load_agent_config-IsAccepted}
use reconfig_net_sim.Files.Indexed.{IsIndexed, load_capability_profile-IsIndexed}
use reconfig_net_sim.Examples.Model.{model}
use reconfig_net_sim.Examples.FilesModel.{files_model}

abbrev word : String → Value
word s = Value.text s

abbrev one : Value → Value
one v = Value.list (cons v nil)

abbrev component : String → Value
component name = Value.dict (field "name" (word name) end)

abbrev model_file : Fields
model_file = field "profile" (word "p4app-v1") (
    field "openconfig-platform:components"
      (Value.dict (
        field "component" (Value.list (cons (component "port-1") (cons (component "port-2") nil)))
          end))
      (field "oc-optical-switch-connections:optical-switch-connections"
        (Value.dict (
          field "port-connection"
            (one (
              Value.dict (
                field "connection-name" (word "first") (
                  field "near-port-name" (word "port-1")
                    (field "far-port-name" (word "port-2") end)))))
            end))
        end))

abbrev gnmi : Fields
gnmi = field "version" (word "0.8.0") (
    field "encodings" (one (word "JSON_IETF")) (
      field "models"
        (one (
          Value.dict (
            field "name" (word "m")
              (field "organization" (word "o") (field "version" (word "1") end)))))
        end))

abbrev capability_file : Fields
capability_file = field "profile" (word "p4app-v1") (
    field "model-version" (word "1") (
      field "capabilities"
        (one (Value.dict (field "id" (word "a") (field "status" (word "SUPPORTED") end))))
        (field "gnmi" (Value.dict gnmi) end)))

abbrev config_file : String → Fields
config_file policy = field "deployment_profile" (word "python-monolith-http-direct") (
    field "model_file" (word "model.yaml") (
      field "capability_profile_file" (word "/etc/capabilities.yaml")
        (field "startup_policy" (word policy) end)))

abbrev process : String → Process
process policy = record {
  has_yaml = true;
  yaml = λ path.
      if str_eq path "/etc/model.yaml"
      then some (ok (Value.dict model_file))
      else if str_eq path "/etc/capabilities.yaml"
      then some (ok (Value.dict capability_file))
      else none;
  json = λ path. ok (Value.dict (config_file policy));
  abspath = λ path. path;
  dirname = λ path. "/etc";
  environ = λ name. none;
}

loaded : (c : AgentConfig) × (load_agent_config (process "REQUIRE_MATCH") "/etc/agent.json" ≡ ok c)
unfolding model files_model
loaded = (_, refl)

load_agent_config-IsAccepted_example : IsAccepted loaded.0
load_agent_config-IsAccepted_example =
    load_agent_config-IsAccepted (process "REQUIRE_MATCH") "/etc/agent.json" loaded.0 loaded.1

capability_file_ok :
    load_capability_profile (process "REQUIRE_MATCH") "/etc/capabilities.yaml" ≡ ok capability_file
unfolding model files_model
capability_file_ok = refl

load_capability_profile-IsIndexed_example : IsIndexed capability_file
load_capability_profile-IsIndexed_example =
    load_capability_profile-IsIndexed (process "REQUIRE_MATCH") "/etc/capabilities.yaml"
      capability_file capability_file_ok

-- An unknown startup policy is a ValueError.
abbrev is_value_error : {A : Type 0} → Result A → Bool
is_value_error (err (Raised.bad_value m)) = true
is_value_error r = false

unknown_policy_test : is_value_error (load_agent_config (process "NEVER") "/etc/agent.json") ≡ true
unfolding model files_model
unknown_policy_test = refl
