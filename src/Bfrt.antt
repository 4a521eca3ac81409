-- ===== src/Bfrt.antt =====
-- `BFRTBackend` of agent/python/ocs_agent/backends/bfrt.py. The BF Runtime client and the switch
-- behind it are not part of the repository: a parameter, `Client`.
pub mod Ports
mod Keys
mod Setup
pub mod Keeps
pub mod Readback
pub mod Contract
pub use Ports.{PortMap, PortKey}
pub use Setup.{Adapter}
unfoldable pub use Ports.{normalize_port_map, to_device, to_logical}
unfoldable pub use Keys.{device_pair, logical_pair, device_pairs, logical_pairs}
unfoldable pub use Setup.{make_adapter}
use reconfig_net_sim.Prelude.{
  ℕ, ◌+◌, String, Bool, true, false, not, ◌||◌, Option, none, some, List, [], ◌∷◌, length, str_eq,
  if◌then◌else◌,
}
use reconfig_net_sim.Value.{Value}
use reconfig_net_sim.Errors.{
  ErrorKind, fmt, Arg, Raised, other, transition, ocs_error, raise_if, Result, ok, err, str,
  failure_of,
}
use reconfig_net_sim.Errors
use reconfig_net_sim.Exec.{
  Exec, pure, raise, lift, gets, modify, raise_when, attempt, catch, ◌>>=◌, ◌>>◌,
}
use reconfig_net_sim.Modes.{CacheStatus}
use reconfig_net_sim.PairSet.{Pair, PairSet, add, diff, set_eq, sorted}
use reconfig_net_sim.Backend.{Backend, DeviceState, Timing, validation, validate_delay_us}
use reconfig_net_sim.Transition.{Plan, plan, check_strategy, plan_timing}

-- The table calls of the client. A row is the pair of device ports of a key.
pub record Client : Type 1 where
  pub Hardware : Type 0
  pub entry_get : Bool → Exec Hardware (List Pair)
  pub entry_del : List Pair → Exec Hardware (Unit {0})
  pub entry_add : List Pair → Exec Hardware (Unit {0})

pub data Write : Type 0 where
  delete insert : Write

-- The checks of `apply`, which come before anything is written.
unfoldable pub check_request : String → Value → String → Result ℕ
check_request strategy delay_us transport = Errors.◌>>=◌ (validate_delay_us delay_us) λ delay.
    Errors.◌>>◌ (check_strategy strategy) (
      Errors.◌>>◌
        (raise_if (not (str_eq transport "SEQUENTIAL" || str_eq transport "NATIVE_BATCH")) (
          ocs_error ErrorKind.unsupported
            (fmt "Transport {} is not supported by BFRT" (Arg.name transport ∷ []))))
        (ok delay))

-- `now` is the reading of the wall clock that a method takes.
module _ (client : Client) (now : ℕ) where
  abbrev pub State : Type 0
  State = Adapter client.Hardware

  abbrev pub on_client : {A : Type 0} → Exec client.Hardware A → Exec State A
  on_client m a = let (r, h) = m a.hardware in (r, record a { hardware = h })

  abbrev source_name : Bool → String
  source_name true = "BFRT_HARDWARE"
  source_name false = "BFRT_SOFTWARE"

  -- `read_pairs`; `from_hw` is the test of the source `HARDWARE`.
  unfoldable pub read_pairs : Bool → Exec State PairSet
  read_pairs from_hw = do
    rows ← on_client (client.entry_get from_hw)
    result ← (λ a. lift (logical_pairs a.port_map [] rows) a)
    modify (λ a. record a {
      cache_status = CacheStatus.ready;
      last_verified_unix_ns = now;
      readback_source = source_name from_hw;
    })
    pure result

  abbrev pub write_keys : Write → List Pair → Exec client.Hardware (Unit {0})
  write_keys delete = client.entry_del
  write_keys insert = client.entry_add

  unfoldable pub write_batch : Write → List Pair → Exec State ℕ
  write_batch operation pairs = do
    keys ← (λ a. lift (device_pairs a.port_map pairs) a)
    on_client (write_keys operation keys)
    pure 1

  unfoldable pub write_each : Write → List Pair → Exec State (Unit {0})
  write_each operation [] = pure tt
  write_each operation (p ∷ ps) =
      ((λ a. lift (device_pair a.port_map p) a) >>= λ key.
      on_client (write_keys operation (key ∷ [])))
      >> write_each operation ps

  abbrev pub write_ordered : Write → List Pair → String → Exec State ℕ
  write_ordered operation [] transport s = (ok 0, s)
  write_ordered operation (p ∷ ps) transport s =
      if str_eq transport "NATIVE_BATCH"
      then write_batch operation (p ∷ ps) s
      else if str_eq transport "SEQUENTIAL"
      then (write_each operation (p ∷ ps) >> pure (length (p ∷ ps))) s
      else raise
          (ocs_error ErrorKind.unsupported
            (fmt "Unsupported BFRT transport {}" (Arg.name transport ∷ [])))
          s

  -- `_write_pairs`
  unfoldable pub write_pairs : Write → PairSet → String → Exec State ℕ
  write_pairs operation pairs = write_ordered operation (sorted pairs)

  abbrev mismatch : String → PairSet → PairSet → Raised
  mismatch template expected got =
      other (fmt template (Arg.pairs (sorted expected) ∷ Arg.pairs (sorted got) ∷ []))

  -- `_restore`
  unfoldable pub restore : PairSet → Exec State (Unit {0})
  restore previous = do
    current ← read_pairs false
    deletes ← write_pairs delete (diff current previous) "NATIVE_BATCH"
    inserts ← write_pairs insert (diff previous current) "NATIVE_BATCH"
    restored ← read_pairs false
    raise_when (not (set_eq restored previous))
        (mismatch "BFRT rollback readback mismatch: expected {}, got {}" previous restored)

  -- The readback after a write, which `CACHED_ACK` leaves out.
  unfoldable pub verify : PairSet → Exec State (Unit {0})
  verify target a =
      if str_eq a.write_verification "SOFTWARE_READBACK"
      then (read_pairs false >>= λ observed.
            raise_when (not (set_eq observed target))
              (mismatch "BFRT readback mismatch: expected {}, got {}" target observed))
          a
      else (ok tt, a)

  -- The `try` block of `apply`; it returns the number of requests.
  unfoldable pub update : Plan → PairSet → String → Exec State ℕ
  update p target transport = do
    deletes ← write_pairs delete p.removed transport
    inserts ← write_pairs insert p.added transport
    modify (λ a. record a { last_write_ack_unix_ns = now })
    verify target
    pure (deletes + inserts)

  abbrev pub after_rollback : Option Errors.Message → State → State
  after_rollback none a = a
  after_rollback (some m) a = record a { cache_status = CacheStatus.unknown }

  -- `except Exception as update_error`
  unfoldable pub roll_back : {A : Type 0} → PairSet → Raised → Exec State A
  roll_back previous failure = do
    outcome ← attempt (restore previous)
    modify (after_rollback (failure_of outcome))
    raise (transition (record { update_error = str failure; rollback_error = failure_of outcome }))

  abbrev readback_label : String → String
  readback_label verification = if str_eq verification "ACK" then "" else "BFRT_SOFTWARE"

  -- The `try` statement of `apply`, what follows it, and the timing.
  unfoldable pub perform : Plan → PairSet → PairSet → String → String → ℕ → Exec State Timing
  perform p previous target strategy transport delay = do
    requests ← catch (update p target transport) (roll_back previous)
    modify (λ a. record a { generation = a.generation + 1; cache_status = CacheStatus.ready })
    gets λ a.
        plan_timing p strategy transport delay requests (length target) a.write_verification
          (readback_label a.write_verification)

  -- `apply`
  unfoldable pub apply : PairSet → PairSet → String → Value → String → Exec State Timing
  apply previous target strategy delay_us transport = do
    delay ← lift (check_request strategy delay_us transport)
    perform (plan strategy previous target) previous target strategy transport delay

  -- `device_state`
  unfoldable pub device_state : State → DeviceState
  device_state a = record {
    generation = a.generation;
    cache_status = a.cache_status;
    last_verified_unix_ns = a.last_verified_unix_ns;
    last_reconcile_unix_ns = a.last_reconcile_unix_ns;
    last_write_ack_unix_ns = a.last_write_ack_unix_ns;
    drift_count = a.drift_count;
    write_verification = a.write_verification;
    readback_source = a.readback_source;
  }

  -- The backend as the Agent sees it.
  abbrev pub backend : Backend
  backend = record {
    Device = State;
    backend_name = "tofino-bfrt-grpc";
    first_readback_source = "BFRT_SOFTWARE";
    device_state = some device_state;
    reconcile = none;
    recover = none;
    read_pairs = read_pairs false;
    apply = apply;
  }
