-- ===== src/Backend.antt =====
-- agent/python/ocs_agent/backends/base.py: what the Agent uses of a device backend. The backends of
-- the repository fill this record (Bfrt, P4App); the Agent takes any of them.
pub mod Laws
use reconfig_net_sim.Prelude.{ℕ, String, ◌≡◌, true, arith, Option, [], ◌∷◌, leb, if◌then◌else◌}
use reconfig_net_sim.Prelude.Int.{pos}
use reconfig_net_sim.Value.{Value}
use reconfig_net_sim.Errors.{ErrorKind, fmt, Arg, Raised, Result, ok, err, ocs_error, is_ocs}
use reconfig_net_sim.Exec.{Exec}
use reconfig_net_sim.Modes.{CacheStatus}
use reconfig_net_sim.PairSet.{PairSet}

abbrev pub max_delay_us : ℕ
max_delay_us = 1000000

abbrev pub validation : String → Raised
validation message = ocs_error ErrorKind.validation (fmt message [])

-- `validate_delay_us`
unfoldable pub validate_delay_us : Value → Result ℕ
validate_delay_us (Value.int (pos n)) =
    if leb n max_delay_us
    then ok n
    else err (
        ocs_error ErrorKind.validation
          (fmt "delay_us must be between 0 and {}" (Arg.number max_delay_us ∷ [])))
validate_delay_us (Value.int z) = err (
    ocs_error ErrorKind.validation
      (fmt "delay_us must be between 0 and {}" (Arg.number max_delay_us ∷ [])))
validate_delay_us v = err (validation "delay_us must be an integer")

pub validate_delay_us-ocs : (v : Value) (x : Raised) → validate_delay_us v ≡ err x → is_ocs x ≡ true
unfolding validate_delay_us
validate_delay_us-ocs (Value.int (pos n)) x h = ground arith
validate_delay_us-ocs (Value.int z) x h = ground arith
validate_delay_us-ocs v x h = ground arith

-- The timing dict of a write, without its measured durations.
pub record Timing : Type 0 where
  pub strategy : String
  pub transport : String
  pub delete_entries : ℕ
  pub insert_entries : ℕ
  pub unchanged_entries : ℕ
  pub requested_gap_us : ℕ
  pub device_write_requests : ℕ
  pub active_entries : ℕ
  pub write_verification : String
  pub readback_source : String

-- What `device_state()` of a backend reports.
pub record DeviceState : Type 0 where
  pub generation : ℕ
  pub cache_status : CacheStatus
  pub last_verified_unix_ns : ℕ
  pub last_reconcile_unix_ns : ℕ
  pub last_write_ack_unix_ns : ℕ
  pub drift_count : ℕ
  pub write_verification : String
  pub readback_source : String

-- An optional method is `none` where `hasattr(backend, …)` fails.
pub record Backend : Type 1 where
  pub Device : Type 0
  pub backend_name : String
  pub first_readback_source : String
  pub device_state : Option (Device → DeviceState)
  pub reconcile : Option (PairSet → Exec Device PairSet)
  pub recover : Option (PairSet → String → Value → String → Exec Device Timing)
  pub read_pairs : Exec Device PairSet
  pub apply : PairSet → PairSet → String → Value → String → Exec Device Timing
