-- ===== src/Http/Holds.antt =====
-- What the HTTP interface promises over a backend that keeps its contract (agent/python/ocs_agent/
-- nbi/http.py).
use reconfig_net_sim.Prelude.{◌≡◌, List}
use reconfig_net_sim.Errors.{ok}
use reconfig_net_sim.Modes.{Status}
use reconfig_net_sim.PairSet.{PairSet}
use reconfig_net_sim.Backend.{Backend}
use reconfig_net_sim.Backend.Laws.{IsFaithful}
use reconfig_net_sim.Lease.{Clock}
use reconfig_net_sim.Agent.State.{Agent, current_device_pairs}
use reconfig_net_sim.Agent.Startup.{Config, make_agent}
use reconfig_net_sim.Agent.Sync.Run.{run-Holds}
use reconfig_net_sim.Http.Session.{Served, answer_all}
use reconfig_net_sim.Http.Reaches.{answer_all-Reaches}

-- Over a backend that keeps its contract, after a startup that returned and any requests over HTTP,
-- with whatever runs between the calls of one request: if the Agent's status is `ready`, then its
-- device holds exactly the pairs of its current connections, or of Debug Mode.
pub answer_all-Holds :
    (b : Backend) (Holds : b.Device → PairSet → Type 0)
    → IsFaithful b Holds
    → (clock : Clock) (config : Config) (d : b.Device) (a : Agent b.Device) (served : List Served)
    → make_agent b clock config d ≡ (ok tt, a)
    → (answer_all b served a).status ≡ Status.ready
    → Holds (answer_all b served a).device (current_device_pairs b (answer_all b served a))
answer_all-Holds b Holds faithful clock config d a served started ready =
    let (requests, same) = answer_all-Reaches b served a in
    rw same (run-Holds b Holds faithful clock config d a requests started (rw same at ready))
