-- ===== src/Backend/Laws.antt =====
-- What the Agent relies on in a backend: the contract of `apply` and of the reads, stated for a
-- relation `Holds` between a device and the set of pairs that it forwards.
use reconfig_net_sim.Prelude.{String, ◌≡◌, Bool, true, false, none, some}
use reconfig_net_sim.Value.{Value}
use reconfig_net_sim.Errors.{Raised, transition, TransitionError, ok, err}
use reconfig_net_sim.Exec.{Exec}
use reconfig_net_sim.PairSet.{PairSet, set_eq}
use reconfig_net_sim.Backend.{Backend, Timing}

-- `BackendTransitionError` is raised by `apply` alone.
abbrev pub is_transition : Raised → Bool
is_transition (transition e) = true
is_transition _ = false

-- A read keeps what the device holds, and reports it.
pub record IsRead {D : Type 0} (Holds : D → PairSet → Type 0) (m : Exec D PairSet) : Type 0 where
  pub keeps : (d : D) (pairs : PairSet) → Holds d pairs → Holds (m d).1 pairs
  pub reports : (d e : D) (r : PairSet) → m d ≡ (ok r, e) → Holds e r
  pub plain : (d e : D) (x : Raised) → m d ≡ (err x, e) → is_transition x ≡ false

pub record IsFaithful (b : Backend) (Holds : b.Device → PairSet → Type 0) : Type 0 where
  pub respects : (d : b.Device) (p q : PairSet) → set_eq p q ≡ true → Holds d p → Holds d q
  pub reads : IsRead Holds b.read_pairs
  pub written :
      (previous target : PairSet) (strategy transport : String) (delay : Value) (timing : Timing)
      (d e : b.Device)
      → b.apply previous target strategy delay transport d ≡ (ok timing, e)
      → Holds e target
  pub rolled_back :
      (previous target : PairSet) (strategy transport : String) (delay : Value)
      (x : TransitionError) (d e : b.Device)
      → b.apply previous target strategy delay transport d ≡ (err (transition x), e)
      → x.rollback_error ≡ none
      → Holds e previous
  pub reconciles :
      (reconcile : PairSet → Exec b.Device PairSet) (desired : PairSet)
      → b.reconcile ≡ some reconcile
      → IsRead Holds (reconcile desired)
  pub recovers :
      (recover : PairSet → String → Value → String → Exec b.Device Timing) (desired : PairSet)
      (strategy transport : String) (delay : Value) (timing : Timing) (d e : b.Device)
      → b.recover ≡ some recover
      → recover desired strategy delay transport d ≡ (ok timing, e)
      → Holds e desired
