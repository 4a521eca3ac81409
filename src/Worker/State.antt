-- ===== src/Worker/State.antt =====
-- The state of the worker, its messages, and the helpers that its methods share (agent/python/
-- ocs_agent/device_worker.py).
use reconfig_net_sim.Prelude.{ℕ, ◌+◌, String, Bool, ◌||◌, Option, List, [], str_eq, if◌then◌else◌}
use reconfig_net_sim.Errors.{Code, Message, fmt, Result, ok, err, Raised}
use reconfig_net_sim.Exec.{Exec}
use reconfig_net_sim.Modes.{CacheStatus, is_drifted}
use reconfig_net_sim.PairSet.{Pair, PairSet, sorted}
use reconfig_net_sim.Backend.{Backend, Timing}

pub record Service (Device : Type 0) : Type 0 where
  pub consistency_mode : String
  pub write_verification : String
  pub readback_source : String
  pub entries : PairSet
  pub generation : ℕ
  pub cache_status : CacheStatus
  pub last_verified_unix_ns : ℕ
  pub last_reconcile_unix_ns : ℕ
  pub last_write_ack_unix_ns : ℕ
  pub drift_count : ℕ
  pub device : Device

-- The fields that `_fill_state` writes, of a `ReadEntriesResponse` and of an `ApplyTransitionResponse`.
pub record Report : Type 0 where
  pub entries : List Pair
  pub generation : ℕ
  pub cache_status : CacheStatus
  pub last_verified_unix_ns : ℕ
  pub last_reconcile_unix_ns : ℕ
  pub drift_count : ℕ
  pub write_verification : String
  pub readback_source : String
  pub last_write_ack_unix_ns : ℕ

-- `ApplyTransitionResponse`; a field that is not set is `none`.
pub record Reply : Type 0 where
  pub success : Bool
  pub restored : Bool
  pub error_code : Option Code
  pub error : Option Message
  pub rollback_error : Option Message
  pub timing : Option Timing
  pub report : Report

-- `ApplyTransitionRequest`
pub record Transition : Type 0 where
  pub expected_entries : List Pair
  pub target_entries : List Pair
  pub strategy : String
  pub transport : String
  pub delay_us : ℕ
  pub expected_generation : ℕ

-- `RecoverRequest`
pub record Recovery : Type 0 where
  pub desired_entries : List Pair
  pub strategy : String
  pub transport : String
  pub delay_us : ℕ

-- `_fill_state`, given the entries that it reports.
unfoldable pub fill_state : {D : Type 0} → PairSet → Service D → Report
fill_state entries s = record {
  entries = sorted entries;
  generation = s.generation;
  cache_status = s.cache_status;
  last_verified_unix_ns = s.last_verified_unix_ns;
  last_reconcile_unix_ns = s.last_reconcile_unix_ns;
  drift_count = s.drift_count;
  write_verification = s.write_verification;
  readback_source = s.readback_source;
  last_write_ack_unix_ns = s.last_write_ack_unix_ns;
}

-- `_mark_unknown`
abbrev pub mark_unknown : {D : Type 0} → Service D → Service D
mark_unknown s = record s { cache_status = CacheStatus.unknown }

-- `_mark_drift`
unfoldable pub mark_drift : {D : Type 0} → Service D → Service D
mark_drift s = record s {
  cache_status = CacheStatus.drifted;
  drift_count = if is_drifted s.cache_status then s.drift_count else s.drift_count + 1;
}

abbrev pub is_consistency_mode : String → Bool
is_consistency_mode m = str_eq m "CACHED_ACK" || str_eq m "CACHED_SYNC" || str_eq m "STRICT_DEVICE"

abbrev unknown_mode : Raised
unknown_mode =
    Raised.bad_value (fmt "consistency_mode must be CACHED_ACK, CACHED_SYNC, or STRICT_DEVICE" [])

module _ (b : Backend) where
  abbrev pub first_service : ℕ → String → PairSet → b.Device → Service b.Device
  first_service now mode pairs device = record {
    consistency_mode = mode;
    write_verification = if str_eq mode "CACHED_ACK" then "ACK" else "SOFTWARE_READBACK";
    readback_source = b.first_readback_source;
    entries = pairs;
    generation = 1;
    cache_status = CacheStatus.ready;
    last_verified_unix_ns = now;
    last_reconcile_unix_ns = 0;
    last_write_ack_unix_ns = 0;
    drift_count = 0;
    device = device;
  }

  abbrev filled : ℕ → String → Result PairSet × b.Device → Result (Service b.Device)
  filled now mode (ok pairs, device) = ok (first_service now mode pairs device)
  filled now mode (err e, device) = err e

  -- `DeviceBackendService.__init__`: the cache starts from a read of the device.
  unfoldable pub make_service : ℕ → String → b.Device → Result (Service b.Device)
  make_service now mode device =
      if is_consistency_mode mode then filled now mode (b.read_pairs device) else err unknown_mode

  -- A call of the backend: it works on the device.
  abbrev pub on_backend : {A : Type 0} → Exec b.Device A → Exec (Service b.Device) A
  on_backend m s = let (r, d) = m s.device in (r, record s { device = d })
