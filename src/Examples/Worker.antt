-- ===== src/Examples/Worker.antt =====
-- The worker's theorems on calls over the small device.
use reconfig_net_sim.Prelude.{ℕ, ◌+◌, ◌≤◌, ◌≡◌, refl, true, false, List, [], ◌∷◌, length}
use reconfig_net_sim.Errors.{Code, ok, Result}
use reconfig_net_sim.Modes.{CacheStatus}
use reconfig_net_sim.PairSet.{PairSet, to_set}
use reconfig_net_sim.P4app.Readback.{Holds}
use reconfig_net_sim.P4app.Contract.{backend-IsFaithful}
use reconfig_net_sim.Worker.State.{
  Service, Reply, Transition, Recovery, make_service, first_service,
}
use reconfig_net_sim.Worker.Apply.{apply_transition, refusal, generation_message}
use reconfig_net_sim.Worker.Run.{Call, serve_all}
use reconfig_net_sim.Worker.Sync.{serve_all-Holds}
use reconfig_net_sim.Worker.Outcome.{IsApplied, apply_transition-IsApplied}
use reconfig_net_sim.Worker.Fencing.{apply_transition_once, serve_all_bounds}
use reconfig_net_sim.Examples.Model.{model}
use reconfig_net_sim.Examples.WorkerModel.{worker_model}
use reconfig_net_sim.Examples.Device.{list_switch, list_switch-IsTable, device}

abbrev opened : Service PairSet
opened = first_service device 5 "STRICT_DEVICE" [] []

abbrev install : ℕ → Transition
install generation = record {
  expected_entries = [];
  target_entries = (1, 2) ∷ (2, 1) ∷ [];
  strategy = "FULL";
  transport = "SEQUENTIAL";
  delay_us = 0;
  expected_generation = generation;
}

abbrev repair : Recovery
repair = record {
  desired_entries = (3, 4) ∷ (4, 3) ∷ [];
  strategy = "";
  transport = "";
  delay_us = 0;
}

-- A write, a comparison with other entries, and a recovery to those.
abbrev calls : List (ℕ × Call)
calls =
    (6, Call.apply (install 1))
    ∷ (7, Call.reconcile_with ((3, 4) ∷ []))
    ∷ (8, Call.apply (install 2))
    ∷ (9, Call.recover_with repair)
    ∷ []

opened_ok : make_service device 5 "STRICT_DEVICE" [] ≡ ok opened
unfolding model worker_model
opened_ok = refl

served_ready : (serve_all device calls opened).cache_status ≡ CacheStatus.ready
unfolding model worker_model
served_ready = refl

served_generation : (serve_all device calls opened).generation ≡ 3
unfolding model worker_model
served_generation = refl

served_device : (serve_all device calls opened).device ≡ (3, 4) ∷ (4, 3) ∷ []
unfolding model worker_model
served_device = refl

serve_all-Holds_example :
    Holds list_switch
      (λ s. s)
      (serve_all device calls opened).device
      (serve_all device calls opened).entries
serve_all-Holds_example =
    serve_all-Holds device (Holds list_switch (λ s. s))
      (backend-IsFaithful list_switch (λ s. s) list_switch-IsTable) 5 "STRICT_DEVICE" [] opened
      calls opened_ok served_ready

apply_transition-IsApplied_example :
    IsApplied device
      (to_set [] ((1, 2) ∷ (2, 1) ∷ []))
      opened
      (apply_transition device 6 (install 1) opened)
apply_transition-IsApplied_example = apply_transition-IsApplied device 6 (install 1) opened

serve_all_bounds_example :
    (opened.generation ≤ (serve_all device calls opened).generation)
    × ((serve_all device calls opened).generation ≤ opened.generation + length calls)
serve_all_bounds_example = serve_all_bounds device calls opened

abbrev written : Result Reply × Service PairSet
written = apply_transition device 6 (install 1) opened

abbrev reply_of : Result Reply → Reply
reply_of (ok r) = r
reply_of e = refusal true Code.aborted generation_message [] opened

written_ok : written ≡ (ok (reply_of written.0), written.1)
unfolding model worker_model
written_ok = refl

written_success : (reply_of written.0).success ≡ true
unfolding model worker_model
written_success = refl

-- The same write again, after a reconciliation and a recovery.
abbrev between : List (ℕ × Call)
between = (7, Call.reconcile_with ((3, 4) ∷ [])) ∷ (8, Call.recover_with repair) ∷ []

apply_transition_once_example :
    (q : Reply) × (apply_transition device 9 (install 1) (serve_all device between written.1)
      ≡ (ok q, serve_all device between written.1))
    × (q.success ≡ false)
apply_transition_once_example =
    apply_transition_once device 6 9 (install 1) (install 1) opened written.1 (reply_of written.0)
      between written_ok written_success refl
