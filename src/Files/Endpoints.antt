-- ===== src/Files/Endpoints.antt =====
-- The parts of an Agent's configuration: the endpoints it listens on, the worker, the Go Agent and the
-- numbers of seconds (agent/python/ocs_agent/config.py).
use reconfig_net_sim.Prelude.{
  ℕ, zero, suc, ◌*◌, String, Bool, true, false, ◌&&◌, Option, none, some, List, [], ◌∷◌, leb,
  if◌then◌else◌,
}
use reconfig_net_sim.Prelude.Int.{pos}
use reconfig_net_sim.Value.{Value, Fields, end, get_or}
use reconfig_net_sim.Errors.{Arg, fmt, Raised, bad_value, Result, ok, err, ◌>>=◌, ◌>>◌}
use reconfig_net_sim.Files.Objects.{keys, refuse_unknown, object_or, text_or}

-- `raise ValueError`
abbrev pub value_error : String → List Arg → Raised
value_error template args = bad_value (fmt template args)

-- The key `access_log` is there where the endpoint takes one.
pub record Listener : Type 0 where
  pub host : String
  pub port : ℕ
  pub access_log : Option Bool

abbrev port_error : String → Raised
port_error name = value_error "{}.port must be between 1 and 65535" (Arg.name name ∷ [])

unfoldable pub check_port : String → Value → Result ℕ
check_port name (Value.int (pos n)) = if leb 1 n && leb n 65535 then ok n else err (port_error name)
check_port name v = err (port_error name)

abbrev pub access_flag : String → Value → Result (Option Bool)
access_flag name (Value.bool b) = ok (some b)
access_flag name v = err (value_error "{}.access_log must be a boolean" (Arg.name name ∷ []))

unfoldable pub check_access_log : String → Bool → Fields → Result (Option Bool)
check_access_log name false f = ok none
check_access_log name true f = access_flag name (get_or (Value.bool false) f "access_log")

abbrev listener_fields : Bool → List String
listener_fields false = "host" ∷ "port" ∷ []
listener_fields true = "host" ∷ "port" ∷ "access_log" ∷ []

abbrev pub listener_object : Fields → String → Result Fields
listener_object raw name =
    object_or (value_error "{} must be an object" (Arg.name name ∷ []))
      (get_or (Value.dict end) raw name)

abbrev pub known_listener : String → Bool → Fields → Result (Unit {0})
known_listener name access_log f =
    refuse_unknown (λ t args. value_error t (Arg.name name ∷ args)) "{} contains unknown fields: {}"
      (listener_fields access_log) (keys f)

abbrev pub host_of : String → Fields → Result String
host_of name f =
    text_or (value_error "{}.host must be non-empty" (Arg.name name ∷ []))
      (get_or (Value.text "127.0.0.1") f "host")

-- `_listener`
unfoldable pub listener : Fields → String → ℕ → Bool → Result Listener
unfolding check_port check_access_log refuse_unknown
listener raw name default_port access_log = listener_object raw name >>= λ f.
    known_listener name access_log f
    >> (host_of name f >>= λ host.
        check_port name (get_or (Value.int (pos default_port)) f "port") >>= λ port.
        check_access_log name access_log f >>= λ enabled.
        ok (record { host = host; port = port; access_log = enabled }))

abbrev pub not_positive : String → Raised
not_positive name = value_error "{} must be positive" (Arg.name name ∷ [])

abbrev pub positive : String → ℕ → Result ℕ
positive name zero = err (not_positive name)
positive name (suc n) = ok (suc n)

-- `_positive_number`, in nanoseconds where the source has a float of seconds.
abbrev pub nanoseconds_of : String → Value → Result ℕ
nanoseconds_of name (Value.int (pos n)) = positive name (n * 1000000000)
nanoseconds_of name (Value.float (pos n)) = positive name n
nanoseconds_of name v = err (not_positive name)

unfoldable pub positive_number : Fields → String → ℕ → Result ℕ
positive_number raw name default = nanoseconds_of name (get_or (Value.int (pos default)) raw name)

pub record WorkerTarget : Type 0 where
  pub target : String
  pub timeout : ℕ

abbrev pub worker_object : Fields → Result Fields
worker_object raw =
    object_or (value_error "worker must be an object" []) (get_or (Value.dict end) raw "worker")

abbrev pub known_worker : Fields → Result (Unit {0})
known_worker f =
    refuse_unknown value_error "worker contains unknown fields: {}"
      ("target" ∷ "timeout_seconds" ∷ []) (keys f)

abbrev pub target_of : Fields → Result String
target_of f =
    text_or (value_error "worker.target is required" [])
      (get_or (Value.text "unix:///tmp/ocs-device-worker.sock") f "target")

unfoldable pub worker_target : Fields → Result WorkerTarget
unfolding positive_number refuse_unknown
worker_target raw = worker_object raw >>= λ f.
    known_worker f
    >> (target_of f >>= λ target. positive_number f "timeout_seconds" 10 >>= λ timeout.
        ok (record { target = target; timeout = timeout }))

abbrev pub go_object : Fields → Result Fields
go_object raw =
    object_or (value_error "go_agent must be an object" []) (get_or (Value.dict end) raw "go_agent")

abbrev pub known_go : Fields → Result (Unit {0})
known_go f =
    refuse_unknown value_error "go_agent contains unknown fields: {}" ("binary" ∷ []) (keys f)

unfoldable pub go_binary : Fields → Result String
unfolding refuse_unknown
go_binary raw = go_object raw >>= λ f.
    known_go f
    >> text_or (value_error "go_agent.binary must be non-empty" [])
        (get_or (Value.text "/usr/local/bin/ocs-go-agent") f "binary")
