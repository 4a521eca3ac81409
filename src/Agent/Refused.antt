-- ===== src/Agent/Refused.antt =====
-- The writes of connections that `_apply_target_locked` of agent/python/ocs_agent/core.py refuses, in
-- terms of the state that they find.
use reconfig_net_sim.Prelude.{
  ℕ, ◌+◌, String, ◌≡◌, refl, inl, inr, true, false, not, Option, none, some, arith, Bool,
  Bool-cases, ◌==◌, ◌∙◌,
}
use reconfig_net_sim.Prelude.Int.{pos}
use reconfig_net_sim.Value.{Value}
use reconfig_net_sim.Errors
use reconfig_net_sim.Errors.{
  OcsError, ocs, Raised, Result, ok, err, raise_if, Result-cases, >>=-eq-ok,
}
use reconfig_net_sim.Exec.{outcome}
use reconfig_net_sim.Modes.{CacheStatus, Mode, is_ready, same_mode}
use reconfig_net_sim.ConnectionSet.{ConnectionSet}
use reconfig_net_sim.Backend.{Backend, validate_delay_us}
use reconfig_net_sim.Lease.{Clock, Lease, require_lease, expire, holds}
use reconfig_net_sim.Lease.Laws.{InForce, holds-token, require_lease-InForce}
use reconfig_net_sim.Agent.State.{Agent, WriteOptions, check_revision, startup_gate, stale_cache}
use reconfig_net_sim.Agent.Write.{apply_target, debug_active}
use reconfig_net_sim.Agent.Guards.{gate}
use reconfig_net_sim.Agent.Outcome.{apply_target-gated}

-- The token is that of a lease in force.
abbrev pub Controls : Clock → Option String → Lease → Type 0
Controls clock token l = InForce clock l × ((t : String) × (token ≡ some t) × (l.token ≡ some t))

check_revision-eq :
    (revision : ℕ) (v : Value) → check_revision revision v ≡ ok tt → v ≡ Value.int (pos revision)
unfolding check_revision
check_revision-eq revision Value.null h = absurd (cc)
check_revision-eq revision (Value.int (pos n)) h = ground arith
check_revision-eq revision v h = absurd (cc)

-- An error that has no request number yet.
abbrev IsUnnumbered : Raised → Type 0
IsUnnumbered x = (e : OcsError) × (x ≡ ocs e) × (e.request_id ≡ none)

abbrev RaisesUnnumbered : {A : Type 0} → Result A → Type 0
RaisesUnnumbered (ok a) = Unit {0}
RaisesUnnumbered (err x) = IsUnnumbered x

check_revision-unnumbered :
    (revision : ℕ) (v : Value) → RaisesUnnumbered (check_revision revision v)
unfolding check_revision
check_revision-unnumbered revision Value.null = (_, refl, refl)
check_revision-unnumbered revision (Value.int (pos n)) = elim (Bool-cases (n == revision)) [
  | inl same ↦ rw same tt
  | inr stale ↦ rw stale (_, refl, refl)
]
check_revision-unnumbered revision v = (_, refl, refl)

require_lease-unnumbered :
    (clock : Clock) (token : Option String) (l : Lease)
    → RaisesUnnumbered (require_lease clock token l).0
unfolding require_lease
require_lease-unnumbered clock token l = elim (Bool-cases (holds token (expire clock l))) [
  | inl good ↦ rw good tt
  | inr bad ↦ rw bad (_, refl, refl)
]

raised-IsUnnumbered :
    {A : Type 0} (r : Result A) (x : Raised) → RaisesUnnumbered r → r ≡ err x → IsUnnumbered x
raised-IsUnnumbered (ok a) x h e = absurd (cc)
raised-IsUnnumbered (err y) x h e = let same : y ≡ x = cc in rw same at h

require_lease-Controls :
    (clock : Clock) (token : Option String) (l : Lease)
    → (require_lease clock token l).0 ≡ ok tt
    → Controls clock token l
require_lease-Controls clock token l h = elim (outcome (require_lease clock token l)) [
  | inr (x, t, e) ↦ absurd (cc)
  | inl (_, t, e) ↦
      let (same, current, good) = require_lease-InForce clock token l t e in
      (current, holds-token token l good)
]

raise_if-ok : (test : Bool) (x : Raised) → raise_if test x ≡ ok tt → test ≡ false
raise_if-ok true x h = absurd (cc)
raise_if-ok false x h = refl

is_ready-eq : (s : CacheStatus) → not (is_ready s) ≡ false → s ≡ CacheStatus.ready
is_ready-eq CacheStatus.ready h = refl
is_ready-eq CacheStatus.unknown h = absurd (cc)
is_ready-eq CacheStatus.drifted h = absurd (cc)

same_mode-ocs : (m : Mode) → same_mode m Mode.debug ≡ false → m ≡ Mode.ocs
same_mode-ocs Mode.ocs h = refl
same_mode-ocs Mode.debug h = absurd (cc)

module _ (b : Backend) where
  -- The checks in their order, the one for Debug Mode included.
  abbrev verdict : Clock → WriteOptions → Agent b.Device → Result (Unit {0})
  verdict clock options a =
      Errors.◌>>◌ (gate b clock options.lease_token options.expected_revision a)
        (raise_if (same_mode a.mode Mode.debug) debug_active)

  verdict-unnumbered :
      (clock : Clock) (options : WriteOptions) (a : Agent b.Device)
      → RaisesUnnumbered (verdict clock options a)
  verdict-unnumbered clock options a =
      elim (Result-cases (require_lease clock options.lease_token a.lease).0) [
        | inr (x, e) ↦ rw e (
            raised-IsUnnumbered (require_lease clock options.lease_token a.lease).0 x
              (require_lease-unnumbered clock options.lease_token a.lease) e)
        | inl (_, e) ↦
            rw e (elim (Result-cases (check_revision a.revision options.expected_revision)) [
              | inr (x, f) ↦ rw f (
                  raised-IsUnnumbered (check_revision a.revision options.expected_revision) x
                    (check_revision-unnumbered a.revision options.expected_revision) f)
              | inl (_, f) ↦ rw f (elim (Bool-cases a.startup_recovery_required) [
                | inl locked ↦ rw locked (_, refl, refl)
                | inr clear ↦ rw clear (elim (Bool-cases (is_ready a.cache.status)) [
                  | inr stale ↦ rw stale (_, refl, refl)
                  | inl fresh ↦ rw fresh (elim (Bool-cases (same_mode a.mode Mode.debug)) [
                    | inl debug ↦ rw debug (_, refl, refl)
                    | inr ocs_mode ↦ rw ocs_mode tt
                  ])
                ])
              ])
            ])
      ]

  -- What must hold for a write to be let through.
  abbrev pub IsPermitted : Clock → WriteOptions → Agent b.Device → Type 0
  IsPermitted clock options a =
      Controls clock options.lease_token a.lease
      × (options.expected_revision ≡ Value.int (pos a.revision))
      × (a.startup_recovery_required ≡ false)
      × (a.cache.status ≡ CacheStatus.ready)
      × (a.mode ≡ Mode.ocs)

  verdict-IsPermitted :
      (clock : Clock) (options : WriteOptions) (a : Agent b.Device)
      → verdict clock options a ≡ ok tt
      → IsPermitted clock options a
  verdict-IsPermitted clock options a h =
      let (_, passed, ocs_mode) =
        >>=-eq-ok (gate b clock options.lease_token options.expected_revision a) _ h in
      let (_, leased, h1) =
        >>=-eq-ok (require_lease clock options.lease_token a.lease).0 _ passed in
      let (_, current, h2) = >>=-eq-ok (check_revision a.revision options.expected_revision) _ h1 in
      let (_, clear, fresh) = >>=-eq-ok (raise_if a.startup_recovery_required startup_gate) _ h2 in
      (
        require_lease-Controls clock options.lease_token a.lease leased,
        check_revision-eq a.revision options.expected_revision current,
        raise_if-ok a.startup_recovery_required startup_gate clear,
        is_ready-eq a.cache.status (raise_if-ok (not (is_ready a.cache.status)) stale_cache fresh),
        same_mode-ocs a.mode (raise_if-ok (same_mode a.mode Mode.debug) debug_active ocs_mode),
      )

  -- A write with a valid `delay_us` that is not permitted, since its token is not that of a lease in
  -- force, its expected revision is not the current one, a startup recovery is required, the cache is not
  -- READY or Debug Mode is active, raises an OcsError that carries the request's number, which is the
  -- next one, and changes nothing in the Agent but the request counter and the lease.
  pub apply_target-refused :
      (clock : Clock) (target : ConnectionSet) (options : WriteOptions) (a : Agent b.Device)
      (delay : ℕ)
      → validate_delay_us options.delay_us ≡ ok delay
      → ¬ IsPermitted clock options a
      → (e : OcsError) × (apply_target b clock target options a ≡ (
        err (ocs e),
        record a {
          request_id = a.request_id + 1;
          lease = (require_lease clock options.lease_token a.lease).1;
        },
      ))
        × (e.request_id ≡ some (a.request_id + 1))
  apply_target-refused clock target options a delay valid refused =
      elim (Result-cases (verdict clock options a)) [
        | inl (_, passed) ↦ absurd (refused (verdict-IsPermitted clock options a passed))
        | inr (x, e) ↦
            let (error, same, unnumbered) =
              raised-IsUnnumbered (verdict clock options a) x (verdict-unnumbered clock options a)
                e in
            (
              record error { request_id = some (a.request_id + 1) },
              apply_target-gated b clock target options a delay x valid e
                  ∙ rw (same, unnumbered) refl,
              refl,
            )
      ]
