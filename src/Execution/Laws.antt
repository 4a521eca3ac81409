-- ===== src/Execution/Laws.antt =====
-- The one thread of `DedicatedThreadBackend` (agent/python/ocs_agent/execution.py) against a backend that
-- is called directly.
use reconfig_net_sim.Prelude.{
  String, ℕ, ◌+◌, ◌≡◌, refl, sym, ap, ◌∙◌, inl, inr, Bool, true, false, Option, none, some, List,
  [], ◌∷◌, ◌++◌, Option-cases,
}
use mathlib.Core.Path.{fun_ext}
use mathlib.Core.List.{append_assoc, append-nil}
use reconfig_net_sim.Value.{Value}
use reconfig_net_sim.Errors.{Result}
use reconfig_net_sim.Exec.{Exec, outcome}
use reconfig_net_sim.PairSet.{PairSet}
use reconfig_net_sim.Backend.{Backend, Timing}
use reconfig_net_sim.Execution.{
  Call, Reply, reply, Executor, Event, apply_on_executor, get_method, submit, call, happen_all,
  idle,
}

module _ (b : Backend) where
  -- The call of the backend itself.
  abbrev pub direct : Call → Option (Exec b.Device Reply)
  direct Call.read_pairs = some (reply Reply.pairs b.read_pairs)
  direct (Call.apply previous target strategy delay_us transport) =
      some (reply Reply.timing (b.apply previous target strategy delay_us transport))
  direct (Call.reconcile desired) = elim b.reconcile [
    | none ↦ none
    | some method ↦ some (reply Reply.pairs (method desired))
  ]
  direct (Call.recover desired strategy delay_us transport) = elim b.recover [
    | none ↦ none
    | some method ↦ some (reply Reply.timing (method desired strategy delay_us transport))
  ]

  -- The calls that come before `close`, of methods that the backend has, each with its number.
  abbrev numbered :
      ℕ
      → Option (Exec b.Device Reply)
      → (ℕ → List (ℕ × Exec b.Device Reply))
      → List (ℕ × Exec b.Device Reply)
  numbered n none rest = rest n
  numbered n (some task) rest = (n, task) ∷ rest (n + 1)

  abbrev pub accepted : List (Event b) → ℕ → List (ℕ × Exec b.Device Reply)
  accepted [] n = []
  accepted (Event.requested c ∷ events) n = numbered n (direct c) (accepted events)
  accepted (Event.worked ∷ events) n = accepted events n
  accepted (Event.closed ∷ events) n = []

  -- One call after the other.
  abbrev pub one_by_one :
      List (ℕ × Exec b.Device Reply) → b.Device → List (ℕ × Result Reply) × b.Device
  one_by_one [] d = ([], d)
  one_by_one ((id, task) ∷ tasks) d =
      let (result, d') = task d in
      let (results, last) = one_by_one tasks d' in ((id, result) ∷ results, last)

  -- What is done, and what the queue will give.
  abbrev pub finish : Executor b → List (ℕ × Result Reply) × b.Device
  finish e = let (results, last) = one_by_one e.queue e.device in (e.done ++ results, last)

  apply_on_executor-eq :
      (previous target : PairSet) (strategy : String) (delay_us : Value) (transport : String)
      (d : b.Device)
      → apply_on_executor b previous target strategy delay_us transport d
        ≡ b.apply previous target strategy delay_us transport d
  unfolding apply_on_executor
  apply_on_executor-eq previous target strategy delay_us transport d =
      elim (outcome (b.apply previous target strategy delay_us transport d)) [
        | inl (_, t, e) ↦ rw e refl
        | inr (x, t, e) ↦ rw e refl
      ]

  get_method-direct : (c : Call) → get_method b c ≡ direct c
  unfolding get_method
  get_method-direct Call.read_pairs = refl
  get_method-direct (Call.apply previous target strategy delay_us transport) =
      let plain = b.apply previous target strategy delay_us transport in
      let queued = apply_on_executor b previous target strategy delay_us transport in
      let same : (d : b.Device) → queued d ≡ plain d =
        λ d. apply_on_executor-eq previous target strategy delay_us transport d in
      ap (λ (m : Exec b.Device Timing). some (reply Reply.timing m)) (fun_ext same)
  get_method-direct (Call.reconcile desired) = refl
  get_method-direct (Call.recover desired strategy delay_us transport) = refl

  -- An executor by its parts.
  abbrev parts :
      b.Device → List (ℕ × Exec b.Device Reply) → List (ℕ × Result Reply) → ℕ → Bool → Executor b
  parts d q f n s = record { device = d; queue = q; done = f; next = n; is_shut = s }

  abbrev to_come : Bool → List (Event b) → ℕ → List (ℕ × Exec b.Device Reply)
  to_come true events n = []
  to_come false events n = accepted events n

  -- A task that has run is one that the queue has lost.
  finish-run :
      (d : b.Device) (id : ℕ) (task : Exec b.Device Reply) (q : List (ℕ × Exec b.Device Reply))
      (f : List (ℕ × Result Reply)) (n : ℕ) (s : Bool)
      → finish (parts (task d).1 q (f ++ (id, (task d).0) ∷ []) n s)
        ≡ finish (parts d ((id, task) ∷ q) f n s)
  finish-run d id task q f n s =
      let (results, last) = one_by_one q (task d).1 in
      ap (λ (l : List (ℕ × Result Reply)). (l, last))
        (append_assoc f ((id, (task d).0) ∷ []) results)

  -- What a request leaves, whose method has been looked up.
  abbrev after : Option (Exec b.Device Reply) → Executor b → Executor b
  after none e = e
  after (some task) e = submit b task e

  happen_all-requested :
      (c : Call) (o : Option (Exec b.Device Reply)) (events : List (Event b)) (e : Executor b)
      → direct c ≡ o
      → happen_all b (Event.requested c ∷ events) e ≡ happen_all b events (after o e)
  unfolding happen_all
  happen_all-requested c none events e h =
      let absent : get_method b c ≡ none = get_method-direct c ∙ h in rw (call, absent) refl
  happen_all-requested c (some task) events e h =
      let found : get_method b c ≡ some task = get_method-direct c ∙ h in rw (call, found) refl

  accepted-requested :
      (c : Call) (o : Option (Exec b.Device Reply)) (events : List (Event b)) (n : ℕ)
      → direct c ≡ o
      → accepted (Event.requested c ∷ events) n ≡ numbered n o (accepted events)
  accepted-requested c o events n h =
      ap (λ (p : Option (Exec b.Device Reply)). numbered n p (accepted events)) h

  serial :
      (events : List (Event b)) (d : b.Device) (q : List (ℕ × Exec b.Device Reply))
      (f : List (ℕ × Result Reply)) (n : ℕ) (s : Bool)
      → finish (happen_all b events (parts d q f n s))
        ≡ finish (parts d (q ++ to_come s events n) f n s)
  unfolding happen_all
  serial [] d q f n true = rw (append-nil q) refl
  serial [] d q f n false = rw (append-nil q) refl
  serial (Event.requested c ∷ events) d q f n true = elim (Option-cases (direct c)) [
    | inl missing ↦
        rw (happen_all-requested c none events (parts d q f n true) missing)
          (serial events d q f n true)
    | inr (task, there) ↦
        rw (happen_all-requested c (some task) events (parts d q f n true) there)
          (serial events d q f n true)
  ]
  serial (Event.requested c ∷ events) d q f n false = elim (Option-cases (direct c)) [
    | inl missing ↦
        ap finish (happen_all-requested c none events (parts d q f n false) missing)
        ∙ serial events d q f n false
        ∙ ap (λ (l : List (ℕ × Exec b.Device Reply)). finish (parts d (q ++ l) f n false))
            (sym (accepted-requested c none events n missing))
    | inr (task, there) ↦
        ap finish (happen_all-requested c (some task) events (parts d q f n false) there)
        ∙ serial events d (q ++ (n, task) ∷ []) f (n + 1) false
        ∙ ap (λ (l : List (ℕ × Exec b.Device Reply)). finish (parts d l f n false))
            (append_assoc q ((n, task) ∷ []) (accepted events (n + 1)))
        ∙ ap (λ (l : List (ℕ × Exec b.Device Reply)). finish (parts d (q ++ l) f n false))
            (sym (accepted-requested c (some task) events n there))
  ]
  serial (Event.closed ∷ events) d q f n true = serial events d q f n true
  serial (Event.closed ∷ events) d q f n false = serial events d q f n true
  serial (Event.worked ∷ events) d [] f n true = serial events d [] f n true
  serial (Event.worked ∷ events) d [] f n false = serial events d [] f n false
  serial (Event.worked ∷ events) d ((id, task) ∷ q) f n true =
      serial events (task d).1 q (f ++ (id, (task d).0) ∷ []) n true
      ∙ finish-run d id task (q ++ []) f n true
  serial (Event.worked ∷ events) d ((id, task) ∷ q) f n false =
      serial events (task d).1 q (f ++ (id, (task d).0) ∷ []) n false
      ∙ finish-run d id task (q ++ accepted events n) f n false

  -- However requests, the work of the thread and a `close` interleave: the results that are done, with
  -- those that the queue still gives, and the device after it, are those of the direct calls of the
  -- backend, one after the other in the order of the requests, each under its own number. A request of
  -- a method that the backend does not have, or that comes after the `close`, is not among them.
  pub happen_all-one_by_one :
      (events : List (Event b)) (device : b.Device)
      → finish (happen_all b events (idle b device)) ≡ one_by_one (accepted events 0) device
  happen_all-one_by_one events device = serial events device [] [] 0 false
