-- ===== src/Http/Session.antt =====
-- Sequences of requests over HTTP (agent/python/ocs_agent/nbi/http.py).
use reconfig_net_sim.Prelude.{List, [], ◌∷◌}
use reconfig_net_sim.Backend.{Backend}
use reconfig_net_sim.Lease.{Clock}
use reconfig_net_sim.Agent.State.{Agent}
use reconfig_net_sim.Agent.Run.{Request}
use reconfig_net_sim.Http.Message.{HttpRequest}
use reconfig_net_sim.Http.Handler.{do_get, do_post}

-- A request of a connection, with the requests of other connections that run while it is served.
pub data Served : Type 0 where
  gets : List (Clock × Request) → HttpRequest → Served
  posts : List (Clock × Request) → HttpRequest → Served

module _ (b : Backend) where
  unfoldable pub answer : Served → Agent b.Device → Agent b.Device
  answer (Served.gets between r) a = (do_get b between r a).1
  answer (Served.posts between r) a = (do_post b between r a).1

  unfoldable pub answer_all : List Served → Agent b.Device → Agent b.Device
  answer_all [] a = a
  answer_all (s ∷ rest) a = answer_all rest (answer s a)
