-- ===== src/Http/Handler.antt =====
-- `do_GET` and `do_POST` of agent/python/ocs_agent/nbi/http.py. Each connection has a thread of its own,
-- so the requests of others may run between two calls of the Agent: `between` is the list of those.
use reconfig_net_sim.Prelude.{ℕ, Bool, false, List, str_eq, if◌then◌else◌}
use reconfig_net_sim.Value.{Value, Fields, has, get, get_or}
use reconfig_net_sim.Errors.{Code, error_code, OcsError, Message, ocs, Raised, bad_value}
use reconfig_net_sim.Exec.{Exec, pure, raise, lift, modify, catch, ◌>>=◌, ◌>>◌}
use reconfig_net_sim.Backend.{Backend}
use reconfig_net_sim.Lease.{Clock}
use reconfig_net_sim.Agent.State.{Agent, Response, WriteOptions}
use reconfig_net_sim.Agent.Control.{
  LeaseReply, ControlState, Snapshot, acquire_control, renew_control, release_control,
  control_state, snapshot, get_permutation,
}
use reconfig_net_sim.Agent.ModeSwitch
use reconfig_net_sim.Agent.Recovery.{recover_device_state}
use reconfig_net_sim.Agent.Requests.{apply_permutation}
use reconfig_net_sim.Agent.Run.{Request, run}
use reconfig_net_sim.Http.Message.{HttpRequest, value_error, read_json, lease_token, write_options}

-- The JSON object of an answer. Where `pi` is added to a dict, it stands beside it.
pub data Payload : Type 0 where
  control : ControlState → Payload
  lease : LeaseReply → Payload
  mapping : Snapshot → List ℕ → Payload
  view : Snapshot → Payload
  written_mapping : Response → List ℕ → Payload
  written : Response → Payload
  not_found : Payload
  rejected : Message → Payload
  failed : OcsError → Payload

pub record Answer : Type 0 where
  pub status : ℕ
  pub payload : Payload

-- The table of `_error_status`.
unfoldable pub code_status : Code → ℕ
code_status Code.invalid_argument = 400
code_status Code.not_found = 404
code_status Code.failed_precondition = 409
code_status Code.resource_exhausted = 429
code_status Code.aborted = 409
code_status Code.unimplemented = 501
code_status Code.unavailable = 503
code_status Code.internal = 500

-- `_error_status`
unfoldable pub error_status : OcsError → ℕ
unfolding code_status error_code
error_status e = code_status (error_code e.kind)

abbrev success : Payload → Answer
success payload = record { status = 200; payload = payload }

abbrev pub no_page : Answer
no_page = record { status = 404; payload = Payload.not_found }

abbrev error_answer : OcsError → Answer
error_answer e = record { status = error_status e; payload = Payload.failed e }

-- The `except` clause of `do_GET`. Other exceptions end the connection.
unfoldable pub get_failed : {S : Type 0} → Raised → Exec S Answer
get_failed (ocs e) = pure (error_answer e)
get_failed x = raise x

-- The `except` clauses of `do_POST`.
unfoldable pub post_failed : {S : Type 0} → Raised → Exec S Answer
post_failed (bad_value m) = pure (record { status = 400; payload = Payload.rejected m })
post_failed (ocs e) = pure (error_answer e)
post_failed x = raise x

abbrev pub is_reapply : Value → Bool
is_reapply (Value.text s) = str_eq s "REAPPLY_DESIRED"
is_reapply v = false

module _ (b : Backend) (between : List (Clock × Request)) where
  abbrev others : Exec (Agent b.Device) (Unit {0})
  others = modify (run b between)

  unfoldable pub route_get : HttpRequest → Exec (Agent b.Device) Answer
  route_get r =
      if str_eq r.path "/ocs_control"
      then (control_state b r.clock >>= λ reply. pure (success (Payload.control reply)))
      else if str_eq r.path "/ocs_mapping"
      then (do
        seen ← snapshot b r.clock
        others
        pi ← get_permutation b
        pure (success (Payload.mapping seen pi)))
      else if str_eq r.path "/ocs_mode"
      then (snapshot b r.clock >>= λ seen. pure (success (Payload.view seen)))
      else pure no_page

  -- `do_GET`
  unfoldable pub do_get : HttpRequest → Exec (Agent b.Device) Answer
  do_get r = catch (route_get r) get_failed

  unfoldable pub post_mapping : HttpRequest → Fields → WriteOptions → Exec (Agent b.Device) Answer
  post_mapping r body options =
      if has body "new_pi"
      then (do
        result ← apply_permutation b r.clock (get body "new_pi") options
        others
        pi ← get_permutation b
        pure (success (Payload.written_mapping result pi)))
      else raise (value_error "Request body must contain new_pi")

  unfoldable pub post_mode : HttpRequest → Fields → WriteOptions → Exec (Agent b.Device) Answer
  post_mode r body options =
      if has body "mode"
      then (ModeSwitch.set_mode b r.clock (get body "mode") options >>= λ result.
          pure (success (Payload.written result)))
      else raise (value_error "Request body must contain mode")

  unfoldable pub post_recover : HttpRequest → Fields → WriteOptions → Exec (Agent b.Device) Answer
  post_recover r body options =
      if is_reapply (get_or (Value.text "REAPPLY_DESIRED") body "mode")
      then (recover_device_state b r.clock options >>= λ result.
          pure (success (Payload.written result)))
      else raise (value_error "mode must be REAPPLY_DESIRED")

  unfoldable pub route_write : HttpRequest → Fields → WriteOptions → Exec (Agent b.Device) Answer
  route_write r body options =
      if str_eq r.path "/ocs_mapping"
      then post_mapping r body options
      else if str_eq r.path "/ocs_mode"
      then post_mode r body options
      else if str_eq r.path "/ocs_recover"
      then post_recover r body options
      else pure no_page

  unfoldable pub route_post : HttpRequest → Fields → Exec (Agent b.Device) Answer
  route_post r body =
      if str_eq r.path "/ocs_control/acquire"
      then (acquire_control b r.clock r.fresh (get_or (Value.text "") body "client_id")
            (get body "requested_lease_seconds")
          >>= λ reply. pure (success (Payload.lease reply)))
      else if str_eq r.path "/ocs_control/renew"
      then (renew_control b r.clock (lease_token r body) (get body "requested_lease_seconds")
          >>= λ reply. pure (success (Payload.lease reply)))
      else if str_eq r.path "/ocs_control/release"
      then (release_control b r.clock (lease_token r body) >>= λ reply.
          pure (success (Payload.control reply)))
      else (lift (write_options r body) >>= λ options. route_write r body options)

  -- `do_POST`
  unfoldable pub do_post : HttpRequest → Exec (Agent b.Device) Answer
  do_post r = catch (lift (read_json r) >>= λ body. route_post r body) post_failed
