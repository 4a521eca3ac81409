-- ===== src/Examples/FilesModel.antt =====
-- The definitions that a run of the loading of files computes.
use reconfig_net_sim.Inventory.{port_slot}
use reconfig_net_sim.Connection.{make_connection}
use reconfig_net_sim.Files.Objects.{sorted_names, refuse_unknown, load_yaml}
use reconfig_net_sim.Files.Model.{
  port_of, ports_of, connection_of, connections_of, load_inventory, load_connections, model_of,
  load_model,
}
use reconfig_net_sim.Files.Capabilities.{
  check_each, check_capability, check_gnmi_model, check_gnmi, check_profile,
  load_capability_profile,
}
use reconfig_net_sim.Files.Endpoints.{
  check_port, check_access_log, listener, positive_number, worker_target, go_binary,
}
use reconfig_net_sim.Files.Config
use reconfig_net_sim.Files.Config.{
  one_of, backend_name, control_seconds, settings_of, config_of, load_agent_config,
}
use reconfig_net_sim.Files.Deployment.{deployment_profile, resolve}

unfoldable pub files_model : Unit {0}
unfolding port_slot make_connection sorted_names refuse_unknown load_yaml port_of ports_of
    connection_of connections_of load_inventory load_connections model_of load_model check_each
    check_capability check_gnmi_model check_gnmi check_profile load_capability_profile check_port
    check_access_log listener positive_number worker_target go_binary deployment_profile resolve
    one_of Config.consistency_mode Config.startup_policy backend_name control_seconds
    Config.endpoint settings_of config_of load_agent_config
files_model = tt
