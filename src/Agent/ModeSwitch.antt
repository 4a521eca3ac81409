-- ===== src/Agent/ModeSwitch.antt =====
-- `set_mode` of agent/python/ocs_agent/core.py.
use reconfig_net_sim.Prelude.{ℕ, ◌+◌, true, some, length, str_eq, if◌then◌else◌}
use reconfig_net_sim.Value.{Value}
use reconfig_net_sim.Errors.{Message, prefixed, Result, ok, err, TransitionError}
use reconfig_net_sim.Exec.{Exec, pure, lift, gets, modify, catch, ◌>>=◌, ◌>>◌}
use reconfig_net_sim.Modes.{Status, Mode, same_mode}
use reconfig_net_sim.Backend.{Backend, Timing, validation, validate_delay_us}
use reconfig_net_sim.Lease.{Clock}
use reconfig_net_sim.Agent.State.{
  Agent, Response, WriteOptions, mode_pairs, current_device_pairs, zero_timing, capture,
  next_request_id, check_write_preconditions, response,
}
use reconfig_net_sim.Agent.Write.{program, device_failed, transition_failed}

-- `target_mode not in ('ocs', 'debug')`
unfoldable pub parse_mode : Value → Result Mode
parse_mode (Value.text s) =
    if str_eq s "ocs"
    then ok Mode.ocs
    else if str_eq s "debug"
    then ok Mode.debug
    else err (validation "mode must be either ocs or debug")
parse_mode v = err (validation "mode must be either ocs or debug")

abbrev pub mode_message : TransitionError → Message
mode_message e = prefixed "Mode update failed: {}" e.update_error

module _ (b : Backend) where
  unfoldable pub commit_mode : Clock → Mode → Timing → Agent b.Device → Agent b.Device
  commit_mode clock target timing a =
      record (capture b clock true
        (record a { mode = target; status = Status.ready; revision = a.revision + 1 })) {
          last_timing = some timing;
        }

  unfoldable pub change_mode : Clock → Mode → WriteOptions → ℕ → Exec (Agent b.Device) Response
  change_mode clock target options rid = do
    previous ← gets (current_device_pairs b)
    wanted ← gets (λ a. mode_pairs target a.inventory a.connections)
    modify (λ a. record a { status = Status.updating })
    timing ←
        catch (program b clock (λ a. a) previous wanted "FULL" options)
          (device_failed b clock rid (transition_failed b clock rid mode_message (λ _ old. old)))
    modify (commit_mode clock target timing)
    gets (response b rid "updated" timing clock)

  unfoldable pub unchanged_mode : Clock → WriteOptions → ℕ → Exec (Agent b.Device) Response
  unchanged_mode clock options rid a =
      pure
        (response b rid "unchanged"
          (zero_timing "FULL" options.transport (length (current_device_pairs b a))) clock a)
        a

  -- `set_mode`
  unfoldable pub set_mode : Clock → Value → WriteOptions → Exec (Agent b.Device) Response
  set_mode clock requested options = do
    target ← lift (parse_mode requested)
    delay ← lift (validate_delay_us options.delay_us)
    rid ← next_request_id b
    check_write_preconditions b clock options.lease_token options.expected_revision
    same ← gets (λ a. same_mode target a.mode)
    if same then unchanged_mode clock options rid else change_mode clock target options rid
