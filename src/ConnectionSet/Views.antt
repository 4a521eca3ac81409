-- ===== src/ConnectionSet/Views.antt =====
-- `ConnectionSet.as_list` and `openconfig_tree` of agent/python/ocs_agent/model.py: the rows that
-- the dicts hold, without their constant fields.
use reconfig_net_sim.Prelude.{
  ℕ, String, Bool, true, false, Option, none, some, List, [], ◌∷◌, map, str_eq, if◌then◌else◌,
}
use reconfig_net_sim.Modes.{Status, Mode}
use reconfig_net_sim.Inventory.{Port}
use reconfig_net_sim.Connection.{Connection}
use reconfig_net_sim.ConnectionSet.{ConnectionSet}

pub data LinkStatus : Type 0 where
  failed unknown connected : LinkStatus

pub data PortStatus : Type 0 where
  failed blocked off tuned : PortStatus

pub record ConnectionRow : Type 0 where
  pub config : Connection
  pub status : LinkStatus

pub record PortRow : Type 0 where
  pub name : String
  pub index : ℕ
  pub status : PortStatus
  pub connected : Bool
  pub peer : Option String

pub record Tree : Type 0 where
  pub components : List PortRow
  pub port_connections : List ConnectionRow

abbrev pub link_status : Status → Mode → LinkStatus
link_status Status.error mode = LinkStatus.failed
link_status status Mode.debug = LinkStatus.unknown
link_status status Mode.ocs = LinkStatus.connected

-- `ConnectionSet.as_list`
unfoldable pub as_list : Status → Mode → ConnectionSet → List ConnectionRow
as_list status mode s =
    map (λ c. record { config = c; status = link_status status mode }) s.connections

-- `peers.get(port)` after the loop over the connections; the last write wins.
unfoldable pub peer_of : String → Option String → List Connection → Option String
peer_of port found [] = found
peer_of port found (c ∷ cs) =
    peer_of port
      (if str_eq c.far_port_name port
        then some c.near_port_name
        else if str_eq c.near_port_name port
        then some c.far_port_name
        else found)
      cs

abbrev pub port_status : Status → Mode → Option String → PortStatus × Bool
port_status Status.error mode peer = (PortStatus.failed, false)
port_status status Mode.debug peer = (PortStatus.blocked, false)
port_status status Mode.ocs none = (PortStatus.off, false)
port_status status Mode.ocs (some p) = (PortStatus.tuned, true)

unfoldable pub port_row : Status → Mode → List Connection → Port → PortRow
unfolding peer_of
port_row status mode connections port =
    let peer = peer_of port.name none connections in
    let reported = port_status status mode peer in
    record {
      name = port.name;
      index = port.index;
      status = reported.0;
      connected = reported.1;
      peer = peer;
    }

-- `ConnectionSet.openconfig_tree`
unfoldable pub openconfig_tree : Status → Mode → ConnectionSet → Tree
unfolding as_list port_row
openconfig_tree status mode s = record {
  components = map (port_row status mode s.connections) s.inventory.ports;
  port_connections = as_list status mode s;
}
