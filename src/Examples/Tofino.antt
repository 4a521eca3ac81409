-- ===== src/Examples/Tofino.antt =====
-- The BFRT backend over a client that keeps its table in a list, and that refuses device port 160.
use reconfig_net_sim.Prelude.{◌≡◌, refl, none, List, [], ◌∷◌, ◌++◌, any, ◌==◌, if◌then◌else◌}
use reconfig_net_sim.Prelude.Int.{pos}
use reconfig_net_sim.Value.{Value}
use reconfig_net_sim.Errors.{Message, fmt, transition, TransitionError, other, ok, err}
use reconfig_net_sim.Modes.{CacheStatus}
use reconfig_net_sim.PairSet.{Pair, PairSet, mem, add, diff, inter, subset, set_eq, sorted}
use reconfig_net_sim.Backend.{Timing, validate_delay_us}
use reconfig_net_sim.Transition.{plan}
use reconfig_net_sim.Bfrt
use reconfig_net_sim.Bfrt.{
  Client, Adapter, State, to_device, to_logical, device_pair, logical_pair, device_pairs,
  logical_pairs, write_batch, verify,
}
use reconfig_net_sim.Backend.Laws.{IsFaithful}
use reconfig_net_sim.Bfrt.{backend}
use reconfig_net_sim.Bfrt.Contract.{IsTable, HoldsVerified, backend-IsFaithful_verified}
use reconfig_net_sim.Bfrt.Readback.{ReadsTable, Holds, IsVerified, apply-Holds, apply-restored}

unfoldable adapter_model : Unit {0}
unfolding mem add diff inter subset set_eq sorted validate_delay_us plan to_device to_logical
    device_pair logical_pair device_pairs logical_pairs write_batch verify Bfrt.read_pairs
    Bfrt.write_each Bfrt.write_pairs Bfrt.restore Bfrt.update Bfrt.roll_back Bfrt.check_request
    Bfrt.perform Bfrt.apply
adapter_model = tt

abbrev refused : Message
refused = fmt "no such port" []

abbrev list_client : Client
list_client = record {
  Hardware = List Pair;
  entry_get = λ from_hw table. (ok table, table);
  entry_del = λ keys table. (ok tt, diff table keys);
  entry_add = λ keys table.
      if any (λ (k : Pair). k.0 == 160) keys
      then (err (other refused), table)
      else (ok tt, table ++ keys);
}

abbrev entries_of : List Pair → List Pair
entries_of table = table

reads : ReadsTable list_client 7 entries_of
reads from_hw s t rows h = cc

abbrev adapter : State list_client 7
adapter = record {
  write_verification = "SOFTWARE_READBACK";
  readback_source = "BFRT_SOFTWARE";
  port_map = (1, 132) ∷ (2, 140) ∷ (3, 160) ∷ (4, 168) ∷ [];
  generation = 0;
  cache_status = CacheStatus.unknown;
  last_verified_unix_ns = 0;
  last_reconcile_unix_ns = 0;
  last_write_ack_unix_ns = 0;
  drift_count = 0;
  hardware = (132, 140) ∷ (140, 132) ∷ [];
}

abbrev previous : PairSet
previous = (1, 2) ∷ (2, 1) ∷ []

abbrev target : PairSet
target = (1, 4) ∷ (4, 1) ∷ []

abbrev impossible : PairSet
impossible = (1, 3) ∷ (3, 1) ∷ []

abbrev no_delay : Value
no_delay = Value.int (pos 0)

abbrev timing : Timing
timing = record {
  strategy = "DELTA";
  transport = "SEQUENTIAL";
  delete_entries = 2;
  insert_entries = 2;
  unchanged_entries = 0;
  requested_gap_us = 0;
  device_write_requests = 4;
  active_entries = 2;
  write_verification = "SOFTWARE_READBACK";
  readback_source = "BFRT_SOFTWARE";
}

abbrev written : State list_client 7
written = (Bfrt.apply list_client 7 previous target "DELTA" no_delay "SEQUENTIAL" adapter).1

written_eq :
    Bfrt.apply list_client 7 previous target "DELTA" no_delay "SEQUENTIAL" adapter
    ≡ (ok timing, written)
unfolding adapter_model
written_eq = refl

adapter-IsVerified : IsVerified list_client 7 entries_of adapter
adapter-IsVerified = refl

apply-Holds_example : Holds list_client 7 entries_of written target
apply-Holds_example =
    apply-Holds list_client 7 entries_of previous target "DELTA" "SEQUENTIAL" no_delay timing
      adapter written reads adapter-IsVerified written_eq

abbrev failed : TransitionError
failed = record { update_error = refused; rollback_error = none }

abbrev restored_adapter : State list_client 7
restored_adapter =
    (Bfrt.apply list_client 7 previous impossible "FULL" no_delay "NATIVE_BATCH" adapter).1

restored_eq :
    Bfrt.apply list_client 7 previous impossible "FULL" no_delay "NATIVE_BATCH" adapter
    ≡ (err (transition failed), restored_adapter)
unfolding adapter_model
restored_eq = refl

apply-restored_example : Holds list_client 7 entries_of restored_adapter previous
apply-restored_example =
    apply-restored list_client 7 entries_of previous impossible "FULL" "NATIVE_BATCH" no_delay
      failed adapter restored_adapter reads restored_eq refl

list_client-IsTable : IsTable list_client 7 entries_of
list_client-IsTable = record {
  reports = reads;
  keeps = λ from_hw s. refl;
  plain = λ from_hw s t x h. absurd (cc h);
}

backend-IsFaithful_verified_example :
    IsFaithful (backend list_client 7) (HoldsVerified list_client 7 entries_of)
backend-IsFaithful_verified_example =
    backend-IsFaithful_verified list_client 7 entries_of list_client-IsTable
