-- ===== src/Files/Model.antt =====
-- `load_model` of agent/python/ocs_agent/profile.py: the ports and the connections of a YAML file.
use reconfig_net_sim.Prelude.{String, true, Option, none, some, List, [], ◌∷◌}
use reconfig_net_sim.Value.{Value, Fields, end, field, get, get_or, nil}
use reconfig_net_sim.Errors.{Result, ok, ◌>>=◌, ◌>>◌}
use reconfig_net_sim.Inventory.{PortInventory, make_inventory}
use reconfig_net_sim.Connection.{Connection, make_connection}
use reconfig_net_sim.ConnectionSet.{ConnectionSet, make_set}
use reconfig_net_sim.Files.Objects.{
  Process, invalid, no_method, keys, refuse_unknown, object_or, list_or, text_or, names_of,
  load_yaml,
}

pub record Model : Type 0 where
  pub profile : String
  pub capability_profile : Option String
  pub inventory : PortInventory
  pub connections : ConnectionSet
  pub raw : Fields

-- What the loop over components appends to `ports`.
unfoldable pub port_of : Value → Result Value
unfolding refuse_unknown
port_of component = object_or (invalid "Each component must be an object" []) component >>= λ f.
    refuse_unknown invalid "Unsupported component fields: {}" ("name" ∷ "index" ∷ []) (keys f)
    >> ok (Value.dict (field "name" (get f "name") (field "index" (get f "index") end)))

unfoldable pub ports_of : List Value → Result (List Value)
unfolding port_of
ports_of [] = ok []
ports_of (v ∷ vs) = port_of v >>= λ p. ports_of vs >>= λ ps. ok (p ∷ ps)

-- One turn of the loop over connections.
unfoldable pub connection_of : Value → Result Connection
unfolding refuse_unknown make_connection
connection_of item = object_or (invalid "Each port-connection must be an object" []) item >>= λ f.
    refuse_unknown invalid "Unsupported port-connection fields: {}"
      ("connection-name" ∷ "config" ∷ "bidirectional" ∷ "near-port-name" ∷ "far-port-name" ∷ [])
      (keys f)
    >> (object_or (invalid "Connection config must be an object" [])
          (get_or (Value.dict f) f "config")
        >>= λ g.
            refuse_unknown invalid "Unsupported connection config fields: {}"
              ("connection-name" ∷ "bidirectional" ∷ "near-port-name" ∷ "far-port-name" ∷ [])
              (keys g)
            >> make_connection (get_or (get g "connection-name") f "connection-name")
                (get g "near-port-name") (get g "far-port-name")
                (get_or (Value.bool true) g "bidirectional"))

unfoldable pub connections_of : List Value → Result (List Connection)
unfolding connection_of
connections_of [] = ok []
connections_of (v ∷ vs) = connection_of v >>= λ c. connections_of vs >>= λ cs. ok (c ∷ cs)

abbrev pub optional_text : Value → Result (Option String)
optional_text Value.null = ok none
optional_text v =
    text_or (invalid "capability-profile must be a non-empty string" []) v >>= λ s. ok (some s)

abbrev pub components_root : Fields → Result Fields
components_root file =
    object_or no_method (get_or (Value.dict end) file "openconfig-platform:components")

abbrev pub component_list : Fields → Result (List Value)
component_list root =
    list_or (invalid "openconfig-platform:components.component must be a list" [])
      (get root "component")

abbrev pub profile_name : Fields → Result String
profile_name file =
    text_or (invalid "profile must be a non-empty string" [])
      (get_or (Value.text "p4app-v1") file "profile")

unfoldable pub load_inventory : Fields → Result PortInventory
unfolding ports_of
load_inventory file = components_root file >>= λ root.
    component_list root >>= λ components. ports_of components >>= λ ports. make_inventory ports

unfoldable pub load_connections : Fields → Result (List Connection)
unfolding connections_of refuse_unknown
load_connections file =
    let root =
      get_or (Value.dict end) file "oc-optical-switch-connections:optical-switch-connections" in
    names_of root >>= λ names.
    refuse_unknown invalid "Unsupported connection model fields: {}" ("port-connection" ∷ []) names
    >> (object_or no_method root >>= λ f.
        list_or (invalid "port-connection must be a list" [])
          (get_or (Value.list nil) f "port-connection")
        >>= connections_of)

-- `load_model`, from the parsed file on.
unfoldable pub model_of : Fields → Result Model
model_of file = load_inventory file >>= λ inventory. load_connections file >>= λ connections.
    profile_name file >>= λ profile.
    optional_text (get file "capability-profile") >>= λ capability_profile.
    make_set inventory connections >>= λ s. ok (record {
      profile = profile;
      capability_profile = capability_profile;
      inventory = inventory;
      connections = s;
      raw = file;
    })

-- `load_model`
unfoldable pub load_model : Process → String → Result Model
load_model process path = load_yaml process path >>= model_of
