-- ===== src/Files/Accepted.antt =====
-- What the checks of a configuration ensure (agent/python/ocs_agent/config.py).
use reconfig_net_sim.Prelude.{
  ℕ, ◌<◌, String, ◌≡◌, sym, ap, inl, inr, true, not, List, arith, Bool-cases, eq_iff,
}
use reconfig_net_sim.Value.{Value, Fields, get, get_or}
use reconfig_net_sim.Errors.{Raised, ok}
use reconfig_net_sim.Worker.State.{is_consistency_mode}
use reconfig_net_sim.Agent.Startup.{is_startup_policy}
use reconfig_net_sim.Files.Ensures.{
  Ensures, Ensures-elim, Ensures-guard, Ensures-bind, Ensures-skip, Ensures-weaken,
}
use reconfig_net_sim.Files.Objects.{is_in, Process}
use reconfig_net_sim.Files.Model.{Model, load_model}
use reconfig_net_sim.Files.Endpoints.{positive_number}
use reconfig_net_sim.Files.Capabilities.{load_capability_profile}
use reconfig_net_sim.Files.Config
use reconfig_net_sim.Files.Config.{
  Endpoint, AgentConfig, same_text, control_object, known_control, one_of, device_object,
  known_device, mode_value, consistency_modes, startup_policies, known_fields, required, file_path,
  root_object, backend_object, backend_name, settings_of, config_of, load_agent_config,
}
use reconfig_net_sim.Files.Deployment.{Deployment, deployment_profile}
use reconfig_net_sim.Files.Laws.{IsModel, load_model-IsModel}
use reconfig_net_sim.Files.Open.{IsOpen, positive_number-pos, endpoint-IsOpen}

-- What the checks ensure in a configuration.
pub record IsAccepted (c : AgentConfig) : Type 0 where
  pub model : IsModel c.model
  pub profile : get c.capability_profile "profile" ≡ Value.text c.model.profile
  pub mode : is_consistency_mode c.consistency_mode ≡ true
  pub policy : is_startup_policy c.startup_policy ≡ true
  pub lease : 0 < c.lease_seconds
  pub interval : 0 < c.reconcile_interval_seconds
  pub place : IsOpen c.backend_type c.endpoint

same_text-eq : (s : String) (v : Value) → same_text s v ≡ true → v ≡ Value.text s
same_text-eq s (Value.text t) h = ap Value.text (sym ((eq_iff s t).0 h))
same_text-eq s Value.null h = absurd (cc)
same_text-eq s (Value.bool b) h = absurd (cc)
same_text-eq s (Value.int z) h = absurd (cc)
same_text-eq s (Value.float z) h = absurd (cc)
same_text-eq s (Value.list z) h = absurd (cc)
same_text-eq s (Value.dict z) h = absurd (cc)

control_seconds-pos :
    (raw : Fields) → Ensures (λ p. (0 < p.0) × (0 < p.1)) (Config.control_seconds raw)
unfolding Config.control_seconds
control_seconds-pos raw =
    let P = λ (p : ℕ × ℕ). (0 < p.0) × (0 < p.1) in
    Ensures-skip P (control_object raw) _ (λ control. Ensures-skip P (known_control control) _ (λ _.
      Ensures-bind P (λ n. 0 < n) (positive_number control "lease_seconds" 30) _
        (positive_number-pos control "lease_seconds" 30)
        (λ lease long.
          Ensures-bind P (λ n. 0 < n) (positive_number control "reconcile_interval_seconds" 30) _
            (positive_number-pos control "reconcile_interval_seconds" 30)
            (λ interval also. (long, also)))))

one_of-in :
    (allowed : List String) (e : Raised) (v : Value)
    → Ensures (λ s. is_in allowed s ≡ true) (one_of allowed e v)
unfolding one_of
one_of-in allowed e (Value.text s) = elim (Bool-cases (is_in allowed s)) [
  | inl there ↦ rw there there
  | inr missing ↦ rw missing tt
]
one_of-in allowed e v = tt

consistency_modes-known :
    (s : String) → is_in consistency_modes s ≡ true → is_consistency_mode s ≡ true
consistency_modes-known s h = ground arith

startup_policies-known : (s : String) → is_in startup_policies s ≡ true → is_startup_policy s ≡ true
startup_policies-known s h = ground arith

consistency_mode-known :
    (process : Process) (raw : Fields)
    → Ensures (λ s. is_consistency_mode s ≡ true) (Config.consistency_mode process raw)
unfolding Config.consistency_mode
consistency_mode-known process raw =
    let P = λ (s : String). is_consistency_mode s ≡ true in
    Ensures-skip P (device_object raw) _ (λ device. Ensures-skip P (known_device device) _ (λ _.
      Ensures-weaken
        (one_of consistency_modes _ (mode_value (process.environ "OCS_CONSISTENCY_MODE") device))
        consistency_modes-known (one_of-in consistency_modes _ _)))

startup_policy-known :
    (raw : Fields) → Ensures (λ s. is_startup_policy s ≡ true) (Config.startup_policy raw)
unfolding Config.startup_policy
startup_policy-known raw =
    Ensures-weaken (one_of startup_policies _ (get_or _ raw "startup_policy"))
      startup_policies-known (one_of-in startup_policies _ _)

settings_of-IsAccepted :
    (process : Process) (path : String) (raw : Fields) (d : Deployment) (files : String × String)
    (m : Model) (capability : Fields)
    → IsModel m
    → Ensures IsAccepted (settings_of process path raw d files m capability)
unfolding settings_of
settings_of-IsAccepted process path raw d files m capability valid =
    Ensures-guard IsAccepted (not (same_text m.profile (get capability "profile"))) _ _ (λ same.
      Ensures-bind IsAccepted (λ s. is_consistency_mode s ≡ true)
        (Config.consistency_mode process raw) _ (consistency_mode-known process raw)
        (λ mode known.
          Ensures-bind IsAccepted (λ s. is_startup_policy s ≡ true) (Config.startup_policy raw) _
            (startup_policy-known raw)
            (λ policy listed. Ensures-skip IsAccepted (backend_object raw) _ (λ backend.
              Ensures-skip IsAccepted (backend_name backend) _ (λ type.
                Ensures-bind IsAccepted (λ p. (0 < p.0) × (0 < p.1)) (Config.control_seconds raw) _
                  (control_seconds-pos raw)
                  (λ seconds long.
                    Ensures-bind IsAccepted (IsOpen type) (Config.endpoint d type raw) _
                      (endpoint-IsOpen d type raw)
                      (λ place opened. record {
                        model = valid;
                        profile = same_text-eq m.profile (get capability "profile") (ground arith);
                        mode = known;
                        policy = listed;
                        lease = long.0;
                        interval = long.1;
                        place = opened;
                      })))))))

config_of-IsAccepted :
    (process : Process) (path : String) (raw : Fields)
    → Ensures IsAccepted (config_of process path raw)
unfolding config_of
config_of-IsAccepted process path raw = Ensures-skip IsAccepted (deployment_profile raw) _ (λ d.
    Ensures-skip IsAccepted (known_fields d raw) _ (λ _.
      Ensures-skip IsAccepted (required raw "model_file") _ (λ model_file.
        Ensures-skip IsAccepted (required raw "capability_profile_file") _ (λ capability_file.
          Ensures-bind IsAccepted IsModel (load_model process (file_path process path model_file)) _
            (load_model-IsModel process (file_path process path model_file))
            (λ m valid.
              Ensures-skip IsAccepted
                (load_capability_profile process (file_path process path capability_file)) _
                (λ capability.
                  settings_of-IsAccepted process path raw d
                    (file_path process path model_file, file_path process path capability_file) m
                    capability valid))))))

-- In a configuration that loads, of files whose numbers are finite: the ports form an inventory and the
-- connections a matching of them, the capability profile is for the model, the consistency mode and the
-- startup policy are known ones, the two numbers of seconds are positive, and the endpoint listens on a
-- port from 1 to 65535 that is not 5000 for a BFRT backend over HTTP, or, over gRPC, has a worker with a
-- target and a positive timeout, and a binary.
pub load_agent_config-IsAccepted :
    (process : Process) (path : String) (c : AgentConfig)
    → load_agent_config process path ≡ ok c
    → IsAccepted c
unfolding load_agent_config
load_agent_config-IsAccepted process path c =
    Ensures-elim IsAccepted (load_agent_config process path) c (
      Ensures-skip IsAccepted (process.json path) _ (λ v.
        Ensures-skip IsAccepted (root_object v) _ (λ raw. config_of-IsAccepted process path raw)))
