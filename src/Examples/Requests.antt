-- ===== src/Examples/Requests.antt =====
-- The Agent's theorems on runs over the small device.
use reconfig_net_sim.Prelude.{◌+◌, ◌≡◌, refl, false, some, List, [], ◌∷◌}
use reconfig_net_sim.Value.{Value}
use reconfig_net_sim.Errors.{OcsError, Raised, ok, err}
use reconfig_net_sim.Modes.{Status}
use reconfig_net_sim.PairSet.{PairSet, set_eq}
use reconfig_net_sim.Backend.{validate_delay_us}
use reconfig_net_sim.Lease.{Clock, require_lease}
use reconfig_net_sim.P4app
use reconfig_net_sim.P4app.Readback.{Holds}
use reconfig_net_sim.P4app.Contract.{backend-IsFaithful}
use reconfig_net_sim.Agent.State.{Agent, pairs_of, current_device_pairs}
use reconfig_net_sim.Agent.Startup.{initial, make_agent}
use reconfig_net_sim.Agent.Requests.{WriteRequest}
use reconfig_net_sim.Agent.Write.{apply_target}
use reconfig_net_sim.Agent.Recovery.{recover_device_state}
use reconfig_net_sim.Agent.Outcome.{IsWritten, apply_target-IsWritten}
use reconfig_net_sim.Agent.Refused.{IsPermitted, apply_target-refused}
use reconfig_net_sim.Agent.Locked.{IsLocked, mismatch-IsLocked}
use reconfig_net_sim.Agent.Sync.Recovery.{IsRecovered, recover_device_state-IsRecovered}
use reconfig_net_sim.Agent.ModeSwitch
use reconfig_net_sim.Agent.Switched.{IsSwitched, set_mode-IsSwitched}
use reconfig_net_sim.Agent.Run.{Request, run}
use reconfig_net_sim.Agent.Sync.Run.{run-Holds}
use reconfig_net_sim.Examples.Model.{model}
use reconfig_net_sim.Examples.Device.{
  list_switch, list_switch-IsTable, device, other_link, clock, config, options,
}

-- An Agent that starts over an empty table and installs its connections.
abbrev started : Agent PairSet
started = (make_agent device clock (config "REAPPLY_DESIRED") []).1

-- A client takes control and replaces the connections.
abbrev session : List (Clock × Request)
session =
    (clock, Request.acquire "t" (Value.text "client") Value.null)
    ∷ (clock, Request.write (WriteRequest.whole other_link) (options 0 "SEQUENTIAL"))
    ∷ []

abbrev finished : Agent PairSet
finished = run device session started

started_ok : make_agent device clock (config "REAPPLY_DESIRED") [] ≡ (ok tt, started)
unfolding model
started_ok = refl

finished_ready : finished.status ≡ Status.ready
unfolding model
finished_ready = refl

finished_device : finished.device ≡ (3, 4) ∷ (4, 3) ∷ []
unfolding model
finished_device = refl

run-Holds_example :
    Holds list_switch (λ s. s) finished.device (current_device_pairs device finished)
run-Holds_example =
    run-Holds device (Holds list_switch (λ s. s))
      (backend-IsFaithful list_switch (λ s. s) list_switch-IsTable) clock (config "REAPPLY_DESIRED")
      [] started session started_ok finished_ready

-- A client that holds control.
abbrev session_start : List (Clock × Request)
session_start = (clock, Request.acquire "t" (Value.text "client") Value.null) ∷ []

abbrev controlled : Agent PairSet
controlled = run device session_start started

apply_target-IsWritten_example :
    IsWritten device other_link controlled
      (apply_target device clock other_link (options 0 "SEQUENTIAL") controlled)
apply_target-IsWritten_example =
    apply_target-IsWritten device clock other_link (options 0 "SEQUENTIAL") controlled

delay_ok : validate_delay_us (options 0 "SEQUENTIAL").delay_us ≡ ok 0
unfolding model
delay_ok = refl

-- Nobody holds control over an Agent that has just started.
no_control : ¬ IsPermitted device clock (options 0 "SEQUENTIAL") started
unfolding model
no_control permitted = cc (permitted.0.0.0)

apply_target-refused_example :
    (e : OcsError) × (apply_target device clock other_link (options 0 "SEQUENTIAL") started ≡ (
      err (Raised.ocs e),
      record started {
        request_id = started.request_id + 1;
        lease = (require_lease clock (some "t") started.lease).1;
      },
    ))
    × (e.request_id ≡ some (started.request_id + 1))
apply_target-refused_example =
    apply_target-refused device clock other_link (options 0 "SEQUENTIAL") started 0 delay_ok
      no_control

-- The table is not what the file says, and the policy is to wait for a recovery.
abbrev mismatched : Agent PairSet
mismatched = (make_agent device clock (config "REQUIRE_MATCH") ((1, 3) ∷ [])).1

one_way : P4app.read_pairs list_switch ((1, 3) ∷ []) ≡ (ok ((1, 3) ∷ []), (1, 3) ∷ [])
unfolding model
one_way = refl

not_configured :
    set_eq ((1, 3) ∷ []) (pairs_of (config "REQUIRE_MATCH").initial_connections) ≡ false
unfolding model
not_configured = refl

mismatch-IsLocked_example :
    ((make_agent device clock (config "REQUIRE_MATCH") ((1, 3) ∷ [])).0 ≡ ok tt)
    × IsLocked device
        (initial (config "REQUIRE_MATCH") ((1, 3) ∷ []))
        (run device session mismatched)
mismatch-IsLocked_example =
    mismatch-IsLocked device clock (config "REQUIRE_MATCH") ((1, 3) ∷ []) ((1, 3) ∷ [])
      ((1, 3) ∷ []) session refl one_way not_configured (refl, (refl, tt))

abbrev waiting : Agent PairSet
waiting = run device session_start mismatched

recover_device_state-IsRecovered_example :
    IsRecovered device
      (Holds list_switch (λ s. s))
      (backend-IsFaithful list_switch (λ s. s) list_switch-IsTable)
      waiting
      (recover_device_state device clock (options 0 "SEQUENTIAL") waiting)
recover_device_state-IsRecovered_example =
    recover_device_state-IsRecovered device (Holds list_switch (λ s. s))
      (backend-IsFaithful list_switch (λ s. s) list_switch-IsTable) clock (options 0 "SEQUENTIAL")
      waiting

recovered :
    (recover_device_state device clock (options 0 "SEQUENTIAL") waiting).1.device
    ≡ (1, 2) ∷ (2, 1) ∷ []
unfolding model
recovered = refl

-- The switch takes no batches: the error passes, and the status stays `updating`.
stuck_status :
    (apply_target device clock other_link (options 0 "NATIVE_BATCH") controlled).1.status
    ≡ Status.updating
unfolding model
stuck_status = refl

set_mode-IsSwitched_example :
    IsSwitched device
      (Value.text "debug")
      controlled
      (ModeSwitch.set_mode device clock (Value.text "debug") (options 0 "SEQUENTIAL") controlled)
set_mode-IsSwitched_example =
    set_mode-IsSwitched device clock (Value.text "debug") (options 0 "SEQUENTIAL") controlled
