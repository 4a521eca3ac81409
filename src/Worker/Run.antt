-- ===== src/Worker/Run.antt =====
-- The life of a worker: any sequence of calls, as its lock orders them (agent/python/ocs_agent/
-- device_worker.py).
use reconfig_net_sim.Prelude.{ℕ, List, [], ◌∷◌}
use reconfig_net_sim.Exec.{Exec, gets}
use reconfig_net_sim.PairSet.{Pair}
use reconfig_net_sim.Backend.{Backend}
use reconfig_net_sim.Worker.State.{Service, Report, Transition, Recovery, fill_state}
use reconfig_net_sim.Worker.Apply.{apply_transition}
use reconfig_net_sim.Worker.Recover
use reconfig_net_sim.Worker.Recover.{reconcile}

pub data Call : Type 0 where
  read_entries : Call
  apply : Transition → Call
  reconcile_with : List Pair → Call
  recover_with : Recovery → Call

module _ (b : Backend) where
  -- `ReadEntries`
  unfoldable pub read : Exec (Service b.Device) Report
  read = gets (λ s. fill_state s.entries s)

  -- The state that a call leaves, whether it replies or raises. The number is the wall clock.
  unfoldable pub serve : ℕ → Call → Service b.Device → Service b.Device
  serve now Call.read_entries s = (read s).1
  serve now (Call.apply request) s = (apply_transition b now request s).1
  serve now (Call.reconcile_with desired) s = (reconcile b now desired s).1
  serve now (Call.recover_with request) s = (Recover.recover b now request s).1

  unfoldable pub serve_all : List (ℕ × Call) → Service b.Device → Service b.Device
  serve_all [] s = s
  serve_all ((now, c) ∷ rest) s = serve_all rest (serve now c s)

  -- A relation that every call keeps, and that composes, holds of every life.
  pub serve_all-induction :
      (P : Service b.Device → Type 0)
      → ((now : ℕ) (c : Call) (s : Service b.Device) → P s → P (serve now c s))
      → (calls : List (ℕ × Call)) (s : Service b.Device) → P s
      → P (serve_all calls s)
  unfolding serve_all
  serve_all-induction P step [] s h = h
  serve_all-induction P step ((now, c) ∷ rest) s h =
      serve_all-induction P step rest (serve now c s) (step now c s h)
