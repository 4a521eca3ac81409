-- ===== src/Agent/Startup.antt =====
-- `OcsAgent.__init__` of agent/python/ocs_agent/core.py: the Agent starts from the connections of
-- its YAML file and brings the device to them, or refuses to write.
use reconfig_net_sim.Prelude.{
  ℕ, String, Bool, true, false, ◌||◌, none, some, [], length, str_eq, if◌then◌else◌,
}
use reconfig_net_sim.Prelude.Int.{pos}
use reconfig_net_sim.Value.{Value}
use reconfig_net_sim.Errors.{fmt, Result, ok, err}
use reconfig_net_sim.Exec.{Exec, pure, gets, modify, ◌>>=◌}
use reconfig_net_sim.Modes.{Status, Mode, CacheStatus}
use reconfig_net_sim.PairSet.{PairSet, set_eq}
use reconfig_net_sim.Inventory.{PortInventory}
use reconfig_net_sim.ConnectionSet.{ConnectionSet}
use reconfig_net_sim.Backend.{Backend, Timing, validation}
use reconfig_net_sim.Lease.{Clock, Lease}
use reconfig_net_sim.Agent.State.{Agent, Cache, pairs_of, zero_timing, capture, on_device}

pub record Config : Type 0 where
  pub inventory : PortInventory
  pub initial_connections : ConnectionSet
  pub consistency_mode : String
  pub lease_seconds : ℕ
  pub startup_policy : String

abbrev no_lease : ℕ → Lease
no_lease seconds = record {
  seconds = seconds;
  token = none;
  client_id = Value.null;
  epoch = 0;
  expires_monotonic = 0;
  expires_unix_ns = 0;
}

abbrev blank_cache : Cache
blank_cache = record {
  generation = 0;
  status = CacheStatus.unknown;
  last_verified_unix_ns = 0;
  last_reconcile_unix_ns = 0;
  drift_count = 0;
}

-- The fields that the constructor sets before it looks at the device.
abbrev pub initial : {D : Type 0} → Config → D → Agent D
initial config device = record {
  inventory = config.inventory;
  connections = config.initial_connections;
  mode = Mode.ocs;
  status = Status.updating;
  revision = 0;
  request_id = 0;
  last_timing = none;
  last_error = none;
  consistency_mode = config.consistency_mode;
  startup_policy = config.startup_policy;
  startup_recovery_required = false;
  lease = no_lease config.lease_seconds;
  cache = blank_cache;
  device = device;
}

abbrev mark_mismatch : {D : Type 0} → Agent D → Agent D
mark_mismatch a = record a {
  status = Status.error;
  cache = record a.cache { status = CacheStatus.drifted };
  startup_recovery_required = true;
  last_error = some (fmt "Device state does not match YAML desired state" []);
}

abbrev pub settle : Status → Status
settle Status.error = Status.error
settle _ = Status.ready

abbrev pub no_delay : Value
no_delay = Value.int (pos 0)

abbrev pub is_startup_policy : String → Bool
is_startup_policy p = str_eq p "REQUIRE_MATCH" || str_eq p "REAPPLY_DESIRED"

module _ (b : Backend) where
  abbrev startup_timing : PairSet → String → Timing
  startup_timing pairs verification = record (zero_timing "FULL" "SEQUENTIAL" (length pairs)) {
    write_verification = verification;
    readback_source = b.first_readback_source;
  }

  -- The three branches on what the device holds.
  unfoldable pub align : PairSet → PairSet → Exec (Agent b.Device) Timing
  align observed desired a =
      if set_eq observed desired
      then pure (startup_timing desired "STARTUP_MATCH") a
      else if str_eq a.startup_policy "REQUIRE_MATCH"
      then (ok (startup_timing observed "STARTUP_MISMATCH"), mark_mismatch a)
      else on_device b (b.apply observed desired "FULL" no_delay "SEQUENTIAL") a

  unfoldable pub start : Clock → Exec (Agent b.Device) (Unit {0})
  start clock = do
    observed ← on_device b b.read_pairs
    desired ← gets (λ a. pairs_of a.connections)
    timing ← align observed desired
    modify
        λ a. capture b clock true (record a { status = settle a.status; last_timing = some timing })

  -- `OcsAgent.__init__`
  unfoldable pub make_agent : Clock → Config → b.Device → Result (Unit {0}) × Agent b.Device
  make_agent clock config device =
      if is_startup_policy config.startup_policy then start clock (initial config device) else (
        err (validation "startup_policy must be REQUIRE_MATCH or REAPPLY_DESIRED"),
        initial config device,
      )
