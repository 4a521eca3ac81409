-- ===== src/Agent/Requests.antt =====
-- The requests that change connections (agent/python/ocs_agent/core.py): each computes a target
-- and hands it to `_apply_target_locked`.
use reconfig_net_sim.Prelude.{String, List, [], ◌∷◌}
use reconfig_net_sim.Value.{Value}
use reconfig_net_sim.Errors.{Arg, Result, ok, err, ◌>>=◌}
use reconfig_net_sim.Exec
use reconfig_net_sim.Exec.{Exec, lift}
use reconfig_net_sim.Inventory.{invalid}
use reconfig_net_sim.Connection.{Connection}
use reconfig_net_sim.ConnectionSet
use reconfig_net_sim.ConnectionSet.{ConnectionSet}
use reconfig_net_sim.ConnectionSet.Permutation.{from_permutation}
use reconfig_net_sim.Backend.{Backend}
use reconfig_net_sim.Lease.{Clock}
use reconfig_net_sim.Agent.State.{Agent, Response, WriteOptions}
use reconfig_net_sim.Agent.Write.{apply_target}

-- The `(kind, value)` tuples of `apply_connection_operations`.
pub data Operation : Type 0 where
  delete : String → Operation
  replace : Connection → Operation
  replace_all : ConnectionSet → Operation
  other : String → Operation

unfoldable pub apply_operation : ConnectionSet → Operation → Result ConnectionSet
apply_operation target (Operation.delete name) = ConnectionSet.delete target name
apply_operation target (Operation.replace c) = ConnectionSet.replace target c
apply_operation target (Operation.replace_all s) = ok s
apply_operation target (Operation.other kind) =
    err (invalid "Unknown connection operation {}" (Arg.name kind ∷ []))

unfoldable pub apply_operations : ConnectionSet → List Operation → Result ConnectionSet
apply_operations target [] = ok target
apply_operations target (o ∷ os) = apply_operation target o >>= λ next. apply_operations next os

-- What a request asks for, with the connections that it starts from.
pub data WriteRequest : Type 0 where
  one : Connection → WriteRequest
  without : String → WriteRequest
  whole : ConnectionSet → WriteRequest
  several : List Operation → WriteRequest
  permutation : Value → WriteRequest

module _ (b : Backend) where
  abbrev pub with_target :
      Clock
      → WriteOptions
      → (Agent b.Device → Result ConnectionSet)
      → Exec (Agent b.Device) Response
  with_target clock options target =
      Exec.◌>>=◌ (λ a. lift (target a) a) (λ t. apply_target b clock t options)

  unfoldable pub replace_connection :
      Clock → Connection → WriteOptions → Exec (Agent b.Device) Response
  replace_connection clock c options =
      with_target clock options (λ a. ConnectionSet.replace a.connections c)

  unfoldable pub delete_connection : Clock → String → WriteOptions → Exec (Agent b.Device) Response
  delete_connection clock name options =
      with_target clock options (λ a. ConnectionSet.delete a.connections name)

  unfoldable pub replace_connections :
      Clock → ConnectionSet → WriteOptions → Exec (Agent b.Device) Response
  replace_connections clock s options = apply_target b clock s options

  unfoldable pub apply_connection_operations :
      Clock → List Operation → WriteOptions → Exec (Agent b.Device) Response
  apply_connection_operations clock operations options =
      with_target clock options (λ a. apply_operations a.connections operations)

  unfoldable pub apply_permutation : Clock → Value → WriteOptions → Exec (Agent b.Device) Response
  apply_permutation clock mapping options =
      with_target clock options (λ a. from_permutation a.inventory mapping)

  unfoldable pub handle_write : Clock → WriteRequest → WriteOptions → Exec (Agent b.Device) Response
  handle_write clock (WriteRequest.one c) options = replace_connection clock c options
  handle_write clock (WriteRequest.without name) options = delete_connection clock name options
  handle_write clock (WriteRequest.whole s) options = replace_connections clock s options
  handle_write clock (WriteRequest.several os) options =
      apply_connection_operations clock os options
  handle_write clock (WriteRequest.permutation v) options = apply_permutation clock v options
