-- ===== src/Modes.antt =====
-- The words by which the Agent reports what it does: `_status`, `_mode` and the cache status.
use reconfig_net_sim.Prelude.{String, Bool, true, false}

pub data Status : Type 0 where
  updating ready error : Status

pub data Mode : Type 0 where
  ocs debug : Mode

pub data CacheStatus : Type 0 where
  unknown ready drifted : CacheStatus

abbrev pub is_ready : CacheStatus → Bool
is_ready CacheStatus.ready = true
is_ready _ = false

abbrev pub is_drifted : CacheStatus → Bool
is_drifted CacheStatus.drifted = true
is_drifted _ = false

abbrev pub same_mode : Mode → Mode → Bool
same_mode ocs ocs = true
same_mode debug debug = true
same_mode _ _ = false

-- The words for the cache status.
abbrev pub cache_word : CacheStatus → String
cache_word CacheStatus.unknown = "UNKNOWN"
cache_word CacheStatus.ready = "READY"
cache_word CacheStatus.drifted = "DRIFTED"
