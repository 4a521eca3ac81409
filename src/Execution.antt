-- ===== src/Execution.antt =====
-- `DedicatedThreadBackend` of agent/python/ocs_agent/execution.py: the methods of a backend are handed to
-- an executor with one thread, and each caller waits for the result of its own. The executor is
-- `ThreadPoolExecutor(max_workers=1)` of the standard library: a queue that is worked off in order. What
-- callers, thread and `close` do is a sequence of events, in any order; a caller that waits does
-- nothing.
pub mod Laws
use reconfig_net_sim.Prelude.{
  ℕ, ◌+◌, String, Bool, true, false, Option, none, some, List, [], ◌∷◌, ◌++◌, if◌then◌else◌,
}
use reconfig_net_sim.Value.{Value}
use reconfig_net_sim.Errors.{Result}
use reconfig_net_sim.Exec.{Exec, pure, raise, catch, ◌>>=◌}
use reconfig_net_sim.PairSet.{PairSet}
use reconfig_net_sim.Backend.{Backend, Timing}

-- A call of a method that works on the device.
pub data Call : Type 0 where
  read_pairs : Call
  apply : PairSet → PairSet → String → Value → String → Call
  reconcile : PairSet → Call
  recover : PairSet → String → Value → String → Call

pub data Reply : Type 0 where
  pairs : PairSet → Reply
  timing : Timing → Reply

abbrev pub reply : {A D : Type 0} → (A → Reply) → Exec D A → Exec D Reply
reply wrap m = m >>= λ a. pure (wrap a)

module _ (b : Backend) where
  abbrev pub Task : Type 0
  Task = Exec b.Device Reply

  -- `_apply_on_executor`: the time in the queue goes into the timing, also where the update failed; it is
  -- a measured duration, so nothing is left of it here.
  unfoldable pub apply_on_executor :
      PairSet → PairSet → String → Value → String → Exec b.Device Timing
  apply_on_executor previous target strategy delay_us transport = do
    result ← catch (b.apply previous target strategy delay_us transport) (λ error. raise error)
    pure result

  -- The method that a call names: `read_pairs` and `apply`, or an optional one by `__getattr__`, where
  -- the backend has it.
  unfoldable pub get_method : Call → Option Task
  unfolding apply_on_executor
  get_method Call.read_pairs = some (reply pairs b.read_pairs)
  get_method (Call.apply previous target strategy delay_us transport) =
      some (reply timing (apply_on_executor previous target strategy delay_us transport))
  get_method (Call.reconcile desired) = elim b.reconcile [
    | none ↦ none
    | some method ↦ some (reply pairs (method desired))
  ]
  get_method (Call.recover desired strategy delay_us transport) = elim b.recover [
    | none ↦ none
    | some method ↦ some (reply timing (method desired strategy delay_us transport))
  ]

  -- The executor: the tasks that wait, each with the number of its future, and the futures that are
  -- done.
  pub record Executor : Type 0 where
    pub device : b.Device
    pub queue : List (ℕ × Task)
    pub done : List (ℕ × Result Reply)
    pub next : ℕ
    pub is_shut : Bool

  -- `submit`, which raises a RuntimeError after `shutdown`.
  abbrev pub submit : Task → Executor → Executor
  submit task e =
      if e.is_shut
      then e
      else record e { queue = e.queue ++ (e.next, task) ∷ []; next = e.next + 1 }

  -- `_call`, up to the wait for the result. A method that is not there is an AttributeError.
  unfoldable pub call : Call → Executor → Executor
  unfolding get_method
  call c e = elim (get_method c) [ none ↦ e | some task ↦ submit task e ]

  abbrev finished : ℕ → List (ℕ × Task) → Result Reply × b.Device → Executor → Executor
  finished id rest (result, device) e = record e {
    device = device;
    queue = rest;
    done = e.done ++ (id, result) ∷ [];
  }

  abbrev next_task : List (ℕ × Task) → Executor → Executor
  next_task [] e = e
  next_task ((id, task) ∷ rest) e = finished id rest (task e.device) e

  -- The thread takes one task and runs it.
  unfoldable pub work : Executor → Executor
  work e = next_task e.queue e

  pub data Event : Type 0 where
    requested : Call → Event
    worked : Event
    closed : Event

  -- `close` shuts the executor, which still works off its queue.
  unfoldable pub happen : Event → Executor → Executor
  unfolding call work
  happen (Event.requested c) e = call c e
  happen Event.worked e = work e
  happen Event.closed e = record e { is_shut = true }

  unfoldable pub happen_all : List Event → Executor → Executor
  unfolding happen
  happen_all [] e = e
  happen_all (event ∷ events) e = happen_all events (happen event e)

  -- `DedicatedThreadBackend(backend)`
  abbrev pub idle : b.Device → Executor
  idle device = record { device = device; queue = []; done = []; next = 0; is_shut = false }
