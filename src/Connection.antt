-- ===== src/Connection.antt =====
-- `Connection` of agent/python/ocs_agent/model.py.
use reconfig_net_sim.Prelude.{String, Bool, true, false, not, ◌&&◌, ◌||◌, [], str_eq, if◌then◌else◌}
use reconfig_net_sim.Value.{Value}
use reconfig_net_sim.Errors.{Result, ok, err, ◌>>=◌}
use reconfig_net_sim.Inventory.{invalid}

pub record Connection : Type 0 where
  pub name : String
  pub near_port_name : String
  pub far_port_name : String
  pub bidirectional : Bool

abbrev non_empty_text : String → Value → Result String
non_empty_text message (Value.text s) = if str_eq s "" then err (invalid message []) else ok s
non_empty_text message v = err (invalid message [])

abbrev is_true : Value → Bool
is_true (Value.bool b) = b
is_true v = false

-- `Connection.__init__`
unfoldable pub make_connection : Value → Value → Value → Value → Result Connection
make_connection name near far bidirectional =
    non_empty_text "connection-name must be a non-empty string" name >>= λ n.
    non_empty_text "near-port-name must be a non-empty string" near >>= λ a.
    non_empty_text "far-port-name must be a non-empty string" far >>= λ b.
    if is_true bidirectional
    then ok (record { name = n; near_port_name = a; far_port_name = b; bidirectional = true })
    else err (invalid "Only bidirectional point-to-point connections are supported" [])

abbrev bool_eq : Bool → Bool → Bool
bool_eq true b = b
bool_eq false b = not b

-- `Connection.__eq__`
unfoldable pub connection_eq : Connection → Connection → Bool
connection_eq c d =
    str_eq c.name d.name
    && str_eq c.near_port_name d.near_port_name
    && str_eq c.far_port_name d.far_port_name
    && bool_eq c.bidirectional d.bidirectional

-- One of the two ends is the port.
abbrev pub uses_port : String → Connection → Bool
uses_port port c = str_eq c.near_port_name port || str_eq c.far_port_name port
