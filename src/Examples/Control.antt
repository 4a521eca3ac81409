-- ===== src/Examples/Control.antt =====
-- The theorems on the control lease, on small leases.
use reconfig_net_sim.Prelude.{
  ◌+◌, ◌≤◌, String, ◌≡◌, ◌≢◌, refl, ap, str_eq, true, false, Option, none, some, arith,
}
use reconfig_net_sim.Value.{Value}
use reconfig_net_sim.Errors.{ok, err}
use reconfig_net_sim.Lease.{Lease, already_held, acquire, holds, require_lease}
use reconfig_net_sim.Lease.Laws.{
  InForce, holds_unique, require_lease-InForce, acquire-exclusive, acquire-grants, acquire-fences,
}
use reconfig_net_sim.Examples.Model.{model}
use reconfig_net_sim.Examples.Device.{clock}

abbrev free : Lease
free = record {
  seconds = 30;
  token = none;
  client_id = Value.null;
  epoch = 4;
  expires_monotonic = 0;
  expires_unix_ns = 0;
}

abbrev held : Lease
held = record {
  seconds = 30;
  token = some "t";
  client_id = Value.text "client";
  epoch = 5;
  expires_monotonic = 41;
  expires_unix_ns = 1030;
}

abbrev given : Option String
given = some "t"

abbrev stale : Option String
stale = some "u"

held-InForce : InForce clock held
held-InForce = (refl, omega arith)

acquired : acquire clock "t" (Value.text "client") Value.null free ≡ (ok tt, held)
unfolding model
acquired = refl

passed : require_lease clock (some "t") held ≡ (ok tt, held)
unfolding model
passed = refl

accepts : holds (some "t") held ≡ true
unfolding model
accepts = refl

holds_unique_example : given ≡ given
holds_unique_example = holds_unique given given held accepts accepts

require_lease-InForce_example : (held ≡ held) × InForce clock held × (holds (some "t") held ≡ true)
require_lease-InForce_example = require_lease-InForce clock (some "t") held held passed

acquire-exclusive_example :
    acquire clock "u" (Value.text "other") Value.null held ≡ (err already_held, held)
acquire-exclusive_example =
    acquire-exclusive clock "u" (Value.text "other") Value.null held held-InForce

acquire-grants_example :
    (¬ (InForce clock free))
    × (held.token ≡ some "t")
    × (held.client_id ≡ Value.text "client")
    × (held.epoch ≡ free.epoch + 1)
    × (held.expires_monotonic ≤ clock.granted + free.seconds)
acquire-grants_example =
    acquire-grants clock "t" (Value.text "client") Value.null free held acquired

other_token : stale ≢ given
other_token h =
    let tests : false ≡ true =
      ap (λ (o : Option String). elim o [ none ↦ false | some t ↦ str_eq t "t" ]) h in
    cc

acquire-fences_example : require_lease clock (some "u") held ≢ (ok tt, held)
acquire-fences_example =
    acquire-fences clock clock "t" (Value.text "client") Value.null free held held stale acquired
      other_token
