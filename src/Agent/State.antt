-- ===== src/Agent/State.antt =====
-- The state of `OcsAgent` and its small helpers (agent/python/ocs_agent/core.py).
use reconfig_net_sim.Prelude.{
  ℕ, ◌+◌, String, Bool, true, false, not, ◌&&◌, Option, none, some, List, [], ◌∷◌, length, ◌==◌,
  str_eq, if◌then◌else◌,
}
use reconfig_net_sim.Prelude.Int.{pos}
use reconfig_net_sim.Value.{Value}
use reconfig_net_sim.Errors.{ErrorKind, Message, fmt, Arg, ocs, Raised, Result, ok, err, ocs_error}
use reconfig_net_sim.Exec.{Exec, pure, raise, lift, modify, raise_when, ◌>>=◌, ◌>>◌}
use reconfig_net_sim.Modes.{Status, Mode, CacheStatus, is_ready, is_drifted}
use reconfig_net_sim.PairSet.{PairSet, add, set_eq}
use reconfig_net_sim.Inventory.{Port, PortInventory}
use reconfig_net_sim.ConnectionSet.{ConnectionSet, directed_pairs}
use reconfig_net_sim.Backend.{Backend, DeviceState, Timing}
use reconfig_net_sim.Lease.{Clock, Lease, require_lease}

pub record Cache : Type 0 where
  pub generation : ℕ
  pub status : CacheStatus
  pub last_verified_unix_ns : ℕ
  pub last_reconcile_unix_ns : ℕ
  pub drift_count : ℕ

pub record Agent (Device : Type 0) : Type 0 where
  pub inventory : PortInventory
  pub connections : ConnectionSet
  pub mode : Mode
  pub status : Status
  pub revision : ℕ
  pub request_id : ℕ
  pub last_timing : Option Timing
  pub last_error : Option Message
  pub consistency_mode : String
  pub startup_policy : String
  pub startup_recovery_required : Bool
  pub lease : Lease
  pub cache : Cache
  pub device : Device

pub record Response : Type 0 where
  pub result : String
  pub request_id : ℕ
  pub received_unix_ns : ℕ
  pub revision : ℕ
  pub state : Status
  pub mode : Mode
  pub active_entries : ℕ
  pub timing : Timing

-- The arguments that the write requests share.
pub record WriteOptions : Type 0 where
  pub strategy : String
  pub transport : String
  pub delay_us : Value
  pub expected_revision : Value
  pub lease_token : Option String

-- The pairs of a set that the constructor built; there `directed_pairs` does not raise
-- (ConnectionSet/Pairs).
unfoldable pub pairs_of : ConnectionSet → PairSet
pairs_of s = elim (directed_pairs s) [ ok pairs ↦ pairs | err e ↦ [] ]

abbrev cross : Port → PairSet → List Port → PairSet
cross source pairs [] = pairs
cross source pairs (p ∷ ps) =
    cross source (if source.index == p.index then pairs else add (source.index, p.index) pairs) ps

-- Every pair of two ports, which Debug Mode installs.
unfoldable pub all_pairs : PairSet → List Port → List Port → PairSet
all_pairs pairs destinations [] = pairs
all_pairs pairs destinations (source ∷ sources) =
    all_pairs (cross source pairs destinations) destinations sources

unfoldable pub full_mesh : PortInventory → PairSet
unfolding all_pairs
full_mesh inventory = all_pairs [] inventory.ports inventory.ports

-- The pairs of a mode and a connection set.
unfoldable pub mode_pairs : Mode → PortInventory → ConnectionSet → PairSet
mode_pairs Mode.ocs inventory connections = pairs_of connections
mode_pairs Mode.debug inventory connections = full_mesh inventory

unfoldable pub zero_timing : String → String → ℕ → Timing
zero_timing strategy transport active = record {
  strategy = strategy;
  transport = transport;
  delete_entries = 0;
  insert_entries = 0;
  unchanged_entries = active;
  requested_gap_us = 0;
  device_write_requests = 0;
  active_entries = active;
  write_verification = "";
  readback_source = "";
}

-- `_check_expected_revision`
unfoldable pub check_revision : ℕ → Value → Result (Unit {0})
check_revision revision Value.null = err (
    ocs_error ErrorKind.failed_precondition
      (fmt "expected_revision is required for write operations" []))
check_revision revision (Value.int (pos n)) =
    if n == revision
    then ok tt
    else err (
        ocs_error ErrorKind.revision_conflict (
          fmt "Expected revision {} but current revision is {}"
            (Arg.number n ∷ Arg.number revision ∷ [])))
check_revision revision v =
    err (ocs_error ErrorKind.validation (fmt "expected_revision must be a non-negative integer" []))

abbrev pub startup_gate : Raised
startup_gate =
    ocs_error ErrorKind.failed_precondition
      (fmt "Startup device mismatch requires RecoverDeviceState" [])

abbrev pub stale_cache : Raised
stale_cache =
    ocs_error ErrorKind.failed_precondition
      (fmt "Device cache is {}; recover device state first" [])

abbrev is_empty : List Arg → Bool
is_empty [] = true
is_empty (a ∷ args) = false

-- `self._last_error == 'Device drift detected'`
abbrev pub is_drift_message : Option Message → Bool
is_drift_message (some (fmt template args)) =
    str_eq template "Device drift detected" && is_empty args
is_drift_message m = false

abbrev pub drift_message : Message
drift_message = fmt "Device drift detected" []

abbrev or_given : ℕ → Option ℕ → Option ℕ
or_given rid none = some rid
or_given rid (some old) = some old

-- `error.request_id = request_id`, where the error has none yet.
abbrev pub stamp : ℕ → Raised → Raised
stamp rid (ocs e) = ocs (record e { request_id = or_given rid e.request_id })
stamp rid e = e

-- An error that the Agent raises on behalf of a numbered request.
abbrev pub numbered : ErrorKind → Message → ℕ → Raised
numbered kind message rid = ocs (record { kind = kind; message = message; request_id = some rid })

abbrev keep_drifted : Bool → Cache → Cache
keep_drifted true c = record c { status = CacheStatus.drifted }
keep_drifted false c = c

abbrev from_report : DeviceState → Cache
from_report d = record {
  generation = d.generation;
  status = d.cache_status;
  last_verified_unix_ns = d.last_verified_unix_ns;
  last_reconcile_unix_ns = d.last_reconcile_unix_ns;
  drift_count = d.drift_count;
}

abbrev after_success : Clock → Bool → Cache → Cache
after_success clock true c = record c {
  generation = c.generation + 1;
  status = CacheStatus.ready;
  last_verified_unix_ns = clock.unix_ns;
}
after_success clock false c = c

-- One more drift, unless the cache is known to have drifted.
unfoldable pub mark_drift : Cache → Cache
mark_drift c = record c {
  status = CacheStatus.drifted;
  drift_count = if is_drifted c.status then c.drift_count else c.drift_count + 1;
}

module _ (b : Backend) where
  -- `_capture_backend_state`
  unfoldable pub capture : Clock → Bool → Agent b.Device → Agent b.Device
  capture clock success a = record a {
    cache = keep_drifted a.startup_recovery_required (elim b.device_state [
      | none ↦ after_success clock success a.cache
      | some report ↦ from_report (report a.device)
    ]);
  }

  -- A call of the backend: it works on the device.
  abbrev pub on_device : {A : Type 0} → Exec b.Device A → Exec (Agent b.Device) A
  on_device m a = let (r, d) = m a.device in (r, record a { device = d })

  -- A method of the lease.
  abbrev pub on_lease : Exec Lease (Unit {0}) → Exec (Agent b.Device) (Unit {0})
  on_lease m a = let (r, l) = m a.lease in (r, record a { lease = l })

  -- `_current_device_pairs`
  unfoldable pub current_device_pairs : Agent b.Device → PairSet
  current_device_pairs a = mode_pairs a.mode a.inventory a.connections

  -- `_next_request_id`
  unfoldable pub next_request_id : Exec (Agent b.Device) ℕ
  next_request_id a = (ok (a.request_id + 1), record a { request_id = a.request_id + 1 })

  -- `_check_write_preconditions`
  unfoldable pub check_write_preconditions :
      Clock → Option String → Value → Exec (Agent b.Device) (Unit {0})
  check_write_preconditions clock token expected = do
    on_lease (require_lease clock token)
    (λ a. lift (check_revision a.revision expected) a)
    (λ a. raise_when a.startup_recovery_required startup_gate a)
    (λ a. raise_when (not (is_ready a.cache.status)) stale_cache a)

  -- `_response`
  unfoldable pub response : ℕ → String → Timing → Clock → Agent b.Device → Response
  response rid result timing clock a = record {
    result = result;
    request_id = rid;
    received_unix_ns = clock.unix_ns;
    revision = a.revision;
    state = a.status;
    mode = a.mode;
    active_entries = length (current_device_pairs a);
    timing = timing;
  }

  abbrev pub is_strict_blind : Agent b.Device → Bool
  is_strict_blind a =
      str_eq a.consistency_mode "STRICT_DEVICE"
      && (elim b.device_state [ none ↦ true | some report ↦ false ])

  abbrev pub precondition_failed : Raised
  precondition_failed = Raised.precondition (fmt "Device state does not match Agent cache" [])

  unfoldable pub read_and_compare :
      (Agent b.Device → Agent b.Device) → PairSet → Exec (Agent b.Device) (Unit {0})
  read_and_compare mark previous = do
    observed ← on_device b.read_pairs
    if set_eq observed previous then pure tt else do
      modify (λ s. mark (record s { cache = mark_drift s.cache }))
      raise precondition_failed

  -- The read before a write in `STRICT_DEVICE` mode, which is made only where the backend reports
  -- no state of its own. `mark` is what the caller writes besides when the device has drifted.
  unfoldable pub pre_read :
      (Agent b.Device → Agent b.Device) → PairSet → Exec (Agent b.Device) (Unit {0})
  pre_read mark previous a =
      if is_strict_blind a then read_and_compare mark previous a else (ok tt, a)
