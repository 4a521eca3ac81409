-- ===== src/Examples/Threads.antt =====
-- A backend behind its thread: calls of three callers, in an order of their own.
use reconfig_net_sim.Prelude.{◌≡◌, refl, List, [], ◌∷◌, length}
use reconfig_net_sim.Prelude.Int.{pos}
use reconfig_net_sim.Value.{Value}
use reconfig_net_sim.PairSet.{PairSet}
use reconfig_net_sim.Execution.{
  Call, Event, Executor, apply_on_executor, get_method, call, work, happen, happen_all, idle,
}
use reconfig_net_sim.Execution.Laws.{accepted, one_by_one, finish, happen_all-one_by_one}
use reconfig_net_sim.Examples.Model.{model}
use reconfig_net_sim.Examples.Device.{device}

abbrev install : PairSet → Call
install target = Call.apply [] target "FULL" (Value.int (pos 0)) "SEQUENTIAL"

-- A write and a read are requested before the thread takes the first; the backend has no `reconcile`;
-- what is requested after `close` is refused.
abbrev mixed : List (Event device)
mixed =
    Event.requested (install ((1, 2) ∷ []))
    ∷ Event.requested Call.read_pairs
    ∷ Event.worked
    ∷ Event.requested (Call.reconcile [])
    ∷ Event.requested (install ((1, 2) ∷ (3, 4) ∷ []))
    ∷ Event.closed
    ∷ Event.requested Call.read_pairs
    ∷ Event.worked
    ∷ []

abbrev ended : Executor device
ended = happen_all device mixed (idle device [])

ended_done : length ended.done ≡ 2
unfolding model happen_all apply_on_executor get_method call work happen
ended_done = refl

ended_waiting : length ended.queue ≡ 1
unfolding model happen_all apply_on_executor get_method call work happen
ended_waiting = refl

happen_all-one_by_one_example : finish device ended ≡ one_by_one device (accepted device mixed 0) []
happen_all-one_by_one_example = happen_all-one_by_one device mixed []
