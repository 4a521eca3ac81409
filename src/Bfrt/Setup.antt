-- ===== src/Bfrt/Setup.antt =====
-- The state of `BFRTBackend` and its constructor (agent/python/ocs_agent/backends/bfrt.py).
use reconfig_net_sim.Prelude.{ℕ, String, ◌||◌, List, str_eq, if◌then◌else◌}
use reconfig_net_sim.Errors.{
  ErrorKind, fmt, Arg, Raised, other, transition, ocs_error, raise_if, Result, ok, err, str,
  failure_of,
}
use reconfig_net_sim.Errors
use reconfig_net_sim.Modes.{CacheStatus}
use reconfig_net_sim.Backend.{validation}
use reconfig_net_sim.Bfrt.Ports.{PortMap, PortKey, normalize_port_map}

-- `hardware` is the state behind the client.
pub record Adapter (Hardware : Type 0) : Type 0 where
  pub write_verification : String
  pub readback_source : String
  pub port_map : PortMap
  pub generation : ℕ
  pub cache_status : CacheStatus
  pub last_verified_unix_ns : ℕ
  pub last_reconcile_unix_ns : ℕ
  pub last_write_ack_unix_ns : ℕ
  pub drift_count : ℕ
  pub hardware : Hardware

-- `BFRTBackend.__init__`, without the session with the client.
unfoldable pub make_adapter : {H : Type 0} → String → List PortKey → H → Result (Adapter H)
unfolding normalize_port_map
make_adapter consistency_mode ports hardware =
    if str_eq consistency_mode "CACHED_ACK"
      || str_eq consistency_mode "CACHED_SYNC"
      || str_eq consistency_mode "STRICT_DEVICE"
    then (Errors.◌>>=◌ (normalize_port_map ports) λ m. ok (record {
      write_verification =
          if str_eq consistency_mode "CACHED_ACK" then "ACK" else "SOFTWARE_READBACK";
      readback_source = "BFRT_SOFTWARE";
      port_map = m;
      generation = 0;
      cache_status = CacheStatus.unknown;
      last_verified_unix_ns = 0;
      last_reconcile_unix_ns = 0;
      last_write_ack_unix_ns = 0;
      drift_count = 0;
      hardware = hardware;
    }))
    else err (validation "consistency_mode must be CACHED_ACK, CACHED_SYNC, or STRICT_DEVICE")
