-- ===== src/Transition.antt =====
-- The plan of a write that both backends compute (agent/python/ocs_agent/backends/p4app.py and
-- bfrt.py): what to delete, what to insert, and what stays.
use reconfig_net_sim.Prelude.{ℕ, String, not, ◌||◌, [], length, str_eq, if◌then◌else◌}
use reconfig_net_sim.Errors.{Result, raise_if}
use reconfig_net_sim.PairSet.{PairSet, diff, inter}
use reconfig_net_sim.Backend.{Timing, validation}

pub record Plan : Type 0 where
  pub removed : PairSet
  pub added : PairSet
  pub unchanged : PairSet

unfoldable pub plan : String → PairSet → PairSet → Plan
plan strategy previous target =
    if str_eq strategy "FULL"
    then record { removed = previous; added = target; unchanged = [] }
    else record {
      removed = diff previous target;
      added = diff target previous;
      unchanged = inter previous target;
    }

-- `strategy not in ('FULL', 'DELTA')`
abbrev pub check_strategy : String → Result (Unit {0})
check_strategy strategy =
    raise_if (not (str_eq strategy "FULL" || str_eq strategy "DELTA"))
      (validation "strategy must be FULL or DELTA")

abbrev pub plan_timing : Plan → String → String → ℕ → ℕ → ℕ → String → String → Timing
plan_timing p strategy transport delay requests active verification source = record {
  strategy = strategy;
  transport = transport;
  delete_entries = length p.removed;
  insert_entries = length p.added;
  unchanged_entries = length p.unchanged;
  requested_gap_us = delay;
  device_write_requests = requests;
  active_entries = active;
  write_verification = verification;
  readback_source = source;
}
