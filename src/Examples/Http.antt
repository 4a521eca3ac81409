-- ===== src/Examples/Http.antt =====
-- The theorems of the HTTP interface on requests to an Agent over the small device.
use reconfig_net_sim.Prelude.{
  ℕ, ◌≤◌, String, ◌≡◌, refl, inl, true, none, some, Option, List, [], ◌∷◌, int_of, upper,
}
use reconfig_net_sim.Prelude.Int.{pos, negsuc}
use reconfig_net_sim.Value.{Value, nil, cons, Fields, end, field}
use reconfig_net_sim.Errors.{Message, ok, err, Result}
use reconfig_net_sim.Modes.{Status}
use reconfig_net_sim.PairSet.{PairSet}
use reconfig_net_sim.Backend.{max_delay_us, validate_delay_us}
use reconfig_net_sim.P4app.Readback.{Holds}
use reconfig_net_sim.P4app.Contract.{backend-IsFaithful}
use reconfig_net_sim.Agent.State.{Agent, current_device_pairs}
use reconfig_net_sim.Agent.Startup.{make_agent}
use reconfig_net_sim.Agent.Run.{Request}
use reconfig_net_sim.Http.Message.{
  HttpRequest, request_delay_us, expected_revision, value_error, keep_alive,
}
use reconfig_net_sim.Http.Handler.{Answer, Payload, do_post}
use reconfig_net_sim.Http.Session.{Served, answer_all}
use reconfig_net_sim.Http.Reaches.{Reaches, answer_all-Reaches}
use reconfig_net_sim.Http.Holds.{answer_all-Holds}
use reconfig_net_sim.Http.Bounds.{request_delay_us-bound}
use reconfig_net_sim.Http.Rejects.{do_post-unrevised}
use reconfig_net_sim.Http.Outcome.{IsHonest, do_post-IsHonest}
use reconfig_net_sim.Examples.Model.{model}
use reconfig_net_sim.Examples.HttpModel.{http_model}
use reconfig_net_sim.Examples.Device.{
  list_switch, list_switch-IsTable, device, clock, config, options,
}

int_of_test : int_of " -1_0 " ≡ some (negsuc 9)
unfolding http_model
int_of_test = refl

upper_test : upper "Sequentıal-2" ≡ "SEQUENTIAL-2"
unfolding http_model
upper_test = refl

abbrev request : String → Option String → Fields → HttpRequest
request path revision body = record {
  path = path;
  request_version = "HTTP/1.1";
  connection = none;
  content_length = some "64";
  control_lease = some "t";
  expected_revision = revision;
  json = some (Value.dict body);
  clock = clock;
  fresh = "t";
}

keep_alive_test : keep_alive (request "/ocs_mode" none end) ≡ true
unfolding http_model
keep_alive_test = refl

abbrev started : Agent PairSet
started = (make_agent device clock (config "REAPPLY_DESIRED") []).1

started_ok : make_agent device clock (config "REAPPLY_DESIRED") [] ≡ (ok tt, started)
unfolding model
started_ok = refl

abbrev number : ℕ → Value
number n = Value.int (pos n)

abbrev crossed : Fields
crossed =
    field "new_pi"
      (Value.list (cons (number 3) (cons (number 4) (cons (number 1) (cons (number 2) nil))))) end

-- A client takes control and sends a permutation.
abbrev served : List Served
served =
    Served.posts [] (request "/ocs_control/acquire" none (field "client_id" (Value.text "c") end))
    ∷ Served.posts [] (request "/ocs_mapping" (some "0") crossed)
    ∷ Served.gets [] (request "/ocs_mapping" none end)
    ∷ []

abbrev finished : Agent PairSet
finished = answer_all device served started

finished_ready : finished.status ≡ Status.ready
unfolding model http_model
finished_ready = refl

finished_revision : finished.revision ≡ 1
unfolding model http_model
finished_revision = refl

answer_all-Reaches_example : Reaches device started finished
answer_all-Reaches_example = answer_all-Reaches device served started

answer_all-Holds_example :
    Holds list_switch (λ s. s) finished.device (current_device_pairs device finished)
answer_all-Holds_example =
    answer_all-Holds device (Holds list_switch (λ s. s))
      (backend-IsFaithful list_switch (λ s. s) list_switch-IsTable) clock (config "REAPPLY_DESIRED")
      [] started served started_ok finished_ready

-- A client in control.
abbrev controlled : Agent PairSet
controlled =
    answer_all device
      (Served.posts []
          (request "/ocs_control/acquire" none (field "client_id" (Value.text "c") end))
        ∷ [])
      started

abbrev status_of : Result Answer × Agent PairSet → ℕ
status_of (ok answer, s) = answer.status
status_of (e, s) = 0

-- The write takes effect, and then another thread of the same client changes to Debug Mode before the
-- handler reads the permutation for its answer.
abbrev raced : Result Answer × Agent PairSet
raced =
    do_post device ((clock, Request.set_mode (Value.text "debug") (options 1 "SEQUENTIAL")) ∷ [])
      (request "/ocs_mapping" (some "0") crossed) controlled

raced_status : status_of raced ≡ 409
unfolding model http_model
raced_status = refl

raced_revision : raced.1.revision ≡ 2
unfolding model http_model
raced_revision = refl

abbrev slow : Fields
slow = field "delay_ms" (number 25) end

slow_ok : request_delay_us slow ≡ ok 25000
unfolding http_model
slow_ok = refl

request_delay_us-bound_example :
    (25000 ≤ max_delay_us) × (validate_delay_us (Value.int (pos 25000)) ≡ ok 25000)
request_delay_us-bound_example = request_delay_us-bound slow 25000 slow_ok

-- A write without the header.
abbrev unrevised : HttpRequest
unrevised = request "/ocs_recover" none end

unrevised_refused :
    expected_revision unrevised ≡ err (value_error "X-OCS-Expected-Revision header is required")
unfolding http_model
unrevised_refused = refl

do_post-unrevised_example :
    (m : Message) × (do_post device [] unrevised controlled
      ≡ (ok (record { status = 400; payload = Payload.rejected m }), controlled))
do_post-unrevised_example = do_post-unrevised device [] unrevised controlled refl (inl refl)

-- A stale revision: the answer is 409.
abbrev stale : HttpRequest
stale = request "/ocs_mode" (some "7") (field "mode" (Value.text "debug") end)

stale_status : status_of (do_post device [] stale controlled) ≡ 409
unfolding model http_model
stale_status = refl

do_post-IsHonest_example : IsHonest device controlled (do_post device [] stale controlled)
do_post-IsHonest_example = do_post-IsHonest device [] stale controlled refl
