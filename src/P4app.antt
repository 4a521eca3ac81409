-- ===== src/P4app.antt =====
-- `P4AppBackend` of agent/python/ocs_agent/backends/p4app.py. The switch is code of p4app and
-- P4Runtime: a parameter, `Switch`. Proofs are in the modules below.
pub mod Readback
pub mod Decode
pub mod Rows
pub mod Contract
pub mod Working
pub mod Success
use reconfig_net_sim.Prelude.{
  ℕ, zero, suc, ◌+◌, ◌*◌, String, Bool, not, ◌&&◌, ◌||◌, Option, none, some, List, [], ◌∷◌, length,
  ◌==◌, str_eq, if◌then◌else◌,
}
use reconfig_net_sim.Value.{Value}
use reconfig_net_sim.Errors
use reconfig_net_sim.Errors.{
  ErrorKind, Message, fmt, Arg, Raised, other, transition, ocs_error, raise_if, Result, ok, str,
  failure_of,
}
use reconfig_net_sim.Exec.{Exec, pure, raise, lift, raise_when, attempt, catch, ◌>>=◌, ◌>>◌}
use reconfig_net_sim.PairSet.{Pair, PairSet, add, diff, set_eq, sorted, to_set}
use reconfig_net_sim.Backend.{Backend, Timing, validate_delay_us}
use reconfig_net_sim.Transition.{Plan, plan, check_strategy, plan_timing}
use reconfig_net_sim.P4app.Decode.{Row, decode_rows}

-- What the backend uses of the switch object. `own_entries` is the attribute `entries` where there
-- is one; the three flags are the `hasattr` tests.
pub record Switch : Type 1 where
  pub State : Type 0
  pub own_entries : Option (State → List Pair)
  pub has_runtime : Bool
  pub can_read_table : Bool
  pub has_client_stub : Bool
  pub table_id : ℕ
  pub read_table : ℕ → Exec State (List Row)
  pub runtime_insert : Pair → Exec State (Unit {0})
  pub runtime_delete : Pair → Exec State (Unit {0})
  pub own_insert : Pair → Exec State (Unit {0})
  pub own_delete : Pair → Exec State (Unit {0})
  pub batch_insert : List Pair → Exec State (Unit {0})
  pub batch_delete : List Pair → Exec State (Unit {0})

pub data Write : Type 0 where
  delete insert : Write

abbrev pub unsupported : String → List Arg → Raised
unsupported template args = ocs_error ErrorKind.unsupported (fmt template args)

-- The text of the NameError.
abbrev pub no_time : Message
no_time = fmt "name 'time' is not defined" []

module _ (sw : Switch) where
  abbrev pub native_batch : Bool
  native_batch = sw.has_runtime && sw.has_client_stub

  -- `read_pairs`
  unfoldable pub read_pairs : Exec sw.State PairSet
  read_pairs s = elim sw.own_entries [
    | some entries ↦ (ok (to_set [] (entries s)), s)
    | none ↦
        if sw.has_runtime && sw.can_read_table
        then (sw.read_table sw.table_id >>= λ rows. pure (decode_rows sw.table_id [] rows)) s
        else raise (unsupported "P4app backend does not support table readback" []) s
  ]

  -- `_delete_pair` and `_insert_pair`
  unfoldable pub write_pair : Write → Pair → Exec sw.State (Unit {0})
  write_pair delete p = if sw.has_runtime then sw.runtime_delete p else sw.own_delete p
  write_pair insert p = if sw.has_runtime then sw.runtime_insert p else sw.own_insert p

  abbrev batch : Write → List Pair → Exec sw.State (Unit {0})
  batch delete = sw.batch_delete
  batch insert = sw.batch_insert

  -- `_native_write`
  unfoldable pub native_write : Write → List Pair → Exec sw.State ℕ
  native_write operation [] s = pure 0 s
  native_write operation (p ∷ ps) s =
      if native_batch
      then (batch operation (p ∷ ps) >> pure 1) s
      else raise (unsupported "P4app backend does not expose native batch writes" []) s

  unfoldable pub write_each : Write → List Pair → Exec sw.State (Unit {0})
  write_each operation [] = pure tt
  write_each operation (p ∷ ps) = write_pair operation p >> write_each operation ps

  -- `_write_pairs`
  unfoldable pub write_pairs : Write → PairSet → String → Exec sw.State ℕ
  write_pairs operation pairs transport s =
      let ordered = sorted pairs in
      if str_eq transport "NATIVE_BATCH"
      then native_write operation ordered s
      else if str_eq transport "SEQUENTIAL"
      then (write_each operation ordered >> pure (length ordered)) s
      else raise (unsupported "Unsupported backend transport {}" (Arg.name transport ∷ [])) s

  abbrev rollback_mismatch : PairSet → PairSet → Raised
  rollback_mismatch expected got = other (
      fmt "Rollback readback mismatch: expected {}, got {}"
        (Arg.pairs (sorted expected) ∷ Arg.pairs (sorted got) ∷ []))

  -- `_restore`
  unfoldable pub restore : PairSet → Exec sw.State (Unit {0})
  restore previous = do
    current ← read_pairs
    write_each delete (sorted (diff current previous))
    write_each insert (sorted (diff previous current))
    restored ← read_pairs
    raise_when (not (set_eq restored previous)) (rollback_mismatch previous restored)

  abbrev readback_mismatch : PairSet → PairSet → Raised
  readback_mismatch expected got = other (
      fmt "Readback mismatch: expected {}, got {}"
        (Arg.pairs (sorted expected) ∷ Arg.pairs (sorted got) ∷ []))

  -- `if delay_us: time.sleep(...)`: the module does not import `time`, so the name is not defined.
  unfoldable pub pause : ℕ → Exec sw.State (Unit {0})
  pause zero s = (ok tt, s)
  pause (suc n) s = raise (other no_time) s

  -- The `try` block of `apply`: delete, pause, insert, read back. It returns the number of requests.
  unfoldable pub update : Plan → PairSet → String → ℕ → Exec sw.State ℕ
  unfolding pause
  update p target transport delay = do
    deletes ← write_pairs delete p.removed transport
    pause delay
    inserts ← write_pairs insert p.added transport
    observed ← read_pairs
    raise_when (not (set_eq observed target)) (readback_mismatch target observed)
    pure (deletes + inserts)

  -- `except Exception as update_error`: roll back and report both.
  unfoldable pub roll_back : {A : Type 0} → PairSet → Raised → Exec sw.State A
  roll_back previous failure = do
    outcome ← attempt (restore previous)
    raise (transition (record { update_error = str failure; rollback_error = failure_of outcome }))

  abbrev supports : String → Bool
  supports transport =
      str_eq transport "SEQUENTIAL" || (native_batch && str_eq transport "NATIVE_BATCH")

  -- The checks of `apply`, which come before anything is written.
  unfoldable pub check_request : String → Value → String → Result ℕ
  check_request strategy delay_us transport = Errors.◌>>=◌ (validate_delay_us delay_us) λ delay.
      Errors.◌>>◌ (check_strategy strategy) (
        Errors.◌>>◌
          (raise_if (not (supports transport))
            (unsupported "Transport {} is not supported by this backend" (Arg.name transport ∷ [])))
          (ok delay))

  -- The `try` statement of `apply`, and its timing.
  unfoldable pub perform : Plan → PairSet → PairSet → String → String → ℕ → Exec sw.State Timing
  perform p previous target strategy transport delay = do
    requests ← catch (update p target transport delay) (roll_back previous)
    pure (
        plan_timing p strategy transport delay requests (length target) "SOFTWARE_READBACK"
          "P4RUNTIME")

  -- `apply`
  unfoldable pub apply : PairSet → PairSet → String → Value → String → Exec sw.State Timing
  apply previous target strategy delay_us transport = do
    delay ← lift (check_request strategy delay_us transport)
    perform (plan strategy previous target) previous target strategy transport delay

  -- The backend as the Agent sees it: it has no `device_state`, `reconcile` or `recover`.
  abbrev pub backend : Backend
  backend = record {
    Device = sw.State;
    backend_name = "p4app";
    first_readback_source = "P4RUNTIME";
    device_state = none;
    reconcile = none;
    recover = none;
    read_pairs = read_pairs;
    apply = apply;
  }
