-- ===== src/Examples/HttpModel.antt =====
-- The definitions that a run of the HTTP interface computes.
use reconfig_net_sim.Prelude.{int_of, upper, lower}
use reconfig_net_sim.ConnectionSet.{fill_mapping, to_permutation}
use reconfig_net_sim.ConnectionSet.Permutation.{
  entries, sort_numbers, link, pair_up, from_permutation,
}
use reconfig_net_sim.Connection.{make_connection}
use reconfig_net_sim.Errors.{error_code}
use reconfig_net_sim.Agent.Requests.{apply_permutation}
use reconfig_net_sim.Agent.Control.{get_permutation, lease_reply, control_view}
use reconfig_net_sim.Http.Message.{
  check_delay_ms, check_delay_us, request_delay_us, read_json, lease_token, expected_revision,
  write_options, keep_alive,
}
use reconfig_net_sim.Http.Handler.{
  code_status, error_status, get_failed, post_failed, route_get, do_get, post_mapping, post_mode,
  post_recover, route_write, route_post, do_post,
}
use reconfig_net_sim.Http.Session.{answer, answer_all}

unfoldable pub http_model : Unit {0}
unfolding int_of upper lower fill_mapping to_permutation entries sort_numbers link pair_up
    from_permutation make_connection error_code apply_permutation get_permutation lease_reply
    control_view check_delay_ms check_delay_us request_delay_us read_json lease_token
    expected_revision write_options keep_alive code_status error_status get_failed post_failed
    route_get do_get post_mapping post_mode post_recover route_write route_post do_post answer
    answer_all
http_model = tt
