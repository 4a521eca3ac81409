-- ===== src/Agent/Control.antt =====
-- The lease methods and the read methods of agent/python/ocs_agent/core.py.
use reconfig_net_sim.Prelude.{ℕ, String, Bool, Option, List, [], length}
use reconfig_net_sim.Value.{Value}
use reconfig_net_sim.Errors.{ErrorKind, Message, fmt, Raised, ocs_error}
use reconfig_net_sim.Exec.{Exec, lift, gets, modify, raise_when, ◌>>=◌, ◌>>◌}
use reconfig_net_sim.Modes.{Status, Mode, same_mode}
use reconfig_net_sim.ConnectionSet.{ConnectionSet, make_set, to_permutation}
use reconfig_net_sim.ConnectionSet.Views.{ConnectionRow, Tree, as_list, openconfig_tree}
use reconfig_net_sim.Backend.{Backend, Timing}
use reconfig_net_sim.Lease.{Clock, is_held, or_empty, expire, acquire, renew, release}
use reconfig_net_sim.Agent.State.{Agent, on_lease, current_device_pairs}
use reconfig_net_sim.Agent.Reconcile.{StateReport, device_state}

pub record LeaseReply : Type 0 where
  pub lease_token : Option String
  pub lease_epoch : ℕ
  pub expires_unix_ns : ℕ
  pub revision : ℕ

pub record ControlState : Type 0 where
  pub active : Bool
  pub client_id : Value
  pub lease_epoch : ℕ
  pub expires_unix_ns : ℕ
  pub revision : ℕ

pub record Snapshot : Type 0 where
  pub status : Status
  pub mode : Mode
  pub revision : ℕ
  pub request_id : ℕ
  pub active_entries : ℕ
  pub connections : List ConnectionRow
  pub last_timing : Option Timing
  pub last_error : Option Message
  pub device : StateReport
  pub control : ControlState

abbrev no_permutation : Raised
no_permutation =
    ocs_error ErrorKind.failed_precondition
      (fmt "Permutation is unavailable while debug mode is active" [])

module _ (b : Backend) where
  -- `_lease_reply_locked`
  unfoldable pub lease_reply : Agent b.Device → LeaseReply
  lease_reply a = record {
    lease_token = a.lease.token;
    lease_epoch = a.lease.epoch;
    expires_unix_ns = a.lease.expires_unix_ns;
    revision = a.revision;
  }

  unfoldable pub control_view : Agent b.Device → ControlState
  control_view a = record {
    active = is_held a.lease;
    client_id = or_empty a.lease.client_id;
    lease_epoch = a.lease.epoch;
    expires_unix_ns = a.lease.expires_unix_ns;
    revision = a.revision;
  }

  abbrev expire_lease : Clock → Agent b.Device → Agent b.Device
  expire_lease clock a = record a { lease = expire clock a.lease }

  unfoldable pub control_state : Clock → Exec (Agent b.Device) ControlState
  control_state clock = do modify (expire_lease clock); gets control_view

  unfoldable pub acquire_control : Clock → String → Value → Value → Exec (Agent b.Device) LeaseReply
  acquire_control clock fresh client requested = do
    on_lease b (acquire clock fresh client requested)
    gets lease_reply

  unfoldable pub renew_control : Clock → Option String → Value → Exec (Agent b.Device) LeaseReply
  renew_control clock token requested = do
    on_lease b (renew clock token requested)
    gets lease_reply

  unfoldable pub release_control : Clock → Option String → Exec (Agent b.Device) ControlState
  release_control clock token = do on_lease b (release clock token); control_state clock

  -- `control_state` comes last: it is the one part that writes.
  unfoldable pub snapshot : Clock → Exec (Agent b.Device) Snapshot
  snapshot clock a =
      (control_state clock >>= λ control. gets λ _. record {
        status = a.status;
        mode = a.mode;
        revision = a.revision;
        request_id = a.request_id;
        active_entries = length (current_device_pairs b a);
        connections = as_list a.status a.mode a.connections;
        last_timing = a.last_timing;
        last_error = a.last_error;
        device = device_state b a;
        control = control;
      })
        a

  unfoldable pub get_tree : Exec (Agent b.Device) Tree
  get_tree = gets λ a. openconfig_tree a.status a.mode a.connections

  unfoldable pub get_connections : Exec (Agent b.Device) ConnectionSet
  get_connections a = lift (make_set a.inventory a.connections.connections) a

  unfoldable pub get_permutation : Exec (Agent b.Device) (List ℕ)
  get_permutation = do
    (λ a. raise_when (same_mode a.mode Mode.debug) no_permutation a)
    (λ a. lift (to_permutation a.connections) a)
