-- ===== src/Lease/Laws.antt =====
-- The control lease admits one writer at a time (the lease methods of agent/python/ocs_agent/
-- core.py).
use reconfig_net_sim.Prelude.{
  ℕ, zero, suc, ◌+◌, ◌≤◌, ◌<◌, String, ◌≡◌, ◌≢◌, refl, sym, ap, ◌∙◌, inl, inr, true, false, not,
  ◌&&◌, Option, none, some, arith, leb, str_eq, eq_iff, and-split, Bool-cases, Option-cases,
}
use reconfig_net_sim.Prelude.Int.{pos}
use reconfig_net_sim.Value.{Value}
use reconfig_net_sim.Errors.{Result, ok, err}
use reconfig_net_sim.Exec.{lift, raise_when, bind-eq-ok, raise_when-eq-ok}
use reconfig_net_sim.Lease.{
  Clock, Lease, is_held, cleared, expire, lease_duration, already_held, or_empty, acquire, holds,
  no_lease, require_lease,
}

-- A lease in force: it has a token, and its time has not come.
abbrev pub InForce : Clock → Lease → Type 0
InForce clock l = (is_held l ≡ true) × (clock.monotonic < l.expires_monotonic)

-- A lease in force does not expire.
expire_lem : (clock : Clock) (l : Lease) → InForce clock l → expire clock l ≡ l
unfolding expire
expire_lem clock l (held, soon) = ground arith

-- A token that passes is the token of the lease.
pub holds-token :
    (token : Option String) (l : Lease)
    → holds token l ≡ true
    → (t : String) × (token ≡ some t) × (l.token ≡ some t)
unfolding holds
holds-token none l h = absurd (cc)
holds-token (some t) l h = elim (Option-cases l.token) [
  | inl free ↦ absurd (cc ((and-split (not (str_eq t "")) false (rw free at h)).1))
  | inr (u, held) ↦
      let (given, same) = and-split (not (str_eq t "")) (str_eq t u) (rw held at h) in
      (t, refl, held ∙ ap some (sym ((eq_iff t u).0 same)))
]

-- Two tokens that one lease accepts are the same.
pub holds_unique :
    (token other : Option String) (l : Lease)
    → holds token l ≡ true
    → holds other l ≡ true
    → token ≡ other
holds_unique token other l h k =
    let (t, given, held) = holds-token token l h in
    let (u, given', held') = holds-token other l k in given ∙ sym held ∙ held' ∙ sym given'

holds-cleared : (token : Option String) (l : Lease) → holds token (cleared l) ≡ true → ⊥
holds-cleared token l h = let (t, given, held) = holds-token token (cleared l) h in cc

-- A request passes the lease check only if the lease is in force and its token is the request's;
-- the check then changes nothing.
pub require_lease-InForce :
    (clock : Clock) (token : Option String) (l l' : Lease)
    → require_lease clock token l ≡ (ok tt, l')
    → (l' ≡ l) × InForce clock l × (holds token l ≡ true)
unfolding require_lease expire
require_lease-InForce clock token l l' h =
    elim (Bool-cases (is_held l && leb l.expires_monotonic clock.monotonic)) [
      | inl over ↦
          let (passed, same) =
            raise_when-eq-ok (not (holds token (cleared l))) no_lease (cleared l) l'
              (rw over at h) in
          absurd (holds-cleared token l (ground arith))
      | inr current ↦
          let (passed, same) =
            raise_when-eq-ok (not (holds token l)) no_lease l l' (rw current at h) in
          let good : holds token l ≡ true = ground arith in
          let (t, given, held) = holds-token token l good in
          let there : is_held l ≡ true = rw held in (sym same, (there, ground arith), good)
    ]

-- While a lease is in force, nobody acquires control: the request is refused with
-- RESOURCE_EXHAUSTED and the lease is as before.
pub acquire-exclusive :
    (clock : Clock) (fresh : String) (client requested : Value) (l : Lease)
    → InForce clock l
    → acquire clock fresh client requested l ≡ (err already_held, l)
unfolding acquire
acquire-exclusive clock fresh client requested l h = rw (expire_lem clock l h, h.0)

-- A granted duration is at most the configured one.
lease_duration-bound :
    (seconds : ℕ) (v : Value) (n : ℕ) → lease_duration seconds v ≡ ok n → n ≤ seconds
unfolding lease_duration
lease_duration-bound seconds Value.null n h = ground arith
lease_duration-bound seconds (Value.bool false) n h = ground arith
lease_duration-bound seconds (Value.int (pos zero)) n h = ground arith
lease_duration-bound seconds (Value.float (pos zero)) n h = ground arith
lease_duration-bound seconds (Value.int (pos (suc m))) n h = ground arith
lease_duration-bound seconds (Value.float (pos (suc m))) n h = ground arith
lease_duration-bound seconds v n h = absurd (cc)

expire-keeps :
    (clock : Clock) (l : Lease)
    → ((expire clock l).seconds ≡ l.seconds) × ((expire clock l).epoch ≡ l.epoch)
unfolding expire
expire-keeps clock l = (ground arith, ground arith)

-- Whoever acquires control finds no lease in force, and gets the given token, the next epoch and a
-- lease that ends at most the configured time after it was granted.
pub acquire-grants :
    (clock : Clock) (fresh : String) (client requested : Value) (l l' : Lease)
    → acquire clock fresh client requested l ≡ (ok tt, l')
    → (¬ (InForce clock l))
      × (l'.token ≡ some fresh)
      × (l'.client_id ≡ or_empty client)
      × (l'.epoch ≡ l.epoch + 1)
      × (l'.expires_monotonic ≤ clock.granted + l.seconds)
unfolding acquire
acquire-grants clock fresh client requested l l' h =
    let e = expire clock l in
    let (_, s, check, h1) = bind-eq-ok (raise_when (is_held e) already_held) _ e h in
    let (free, same) = raise_when-eq-ok (is_held e) already_held e s check in
    let (duration, t, granted, h2) =
      bind-eq-ok (lift (lease_duration s.seconds requested)) _ s h1 in
    let given : lease_duration s.seconds requested ≡ ok duration =
      ap (λ (p : Result ℕ × Lease). p.0) granted in
    let there : s ≡ t = ap (λ (p : Result ℕ × Lease). p.1) granted in
    let bound = lease_duration-bound s.seconds requested duration given in
    let (seconds, epoch) = expire-keeps clock l in
    let epoch' : t.epoch ≡ l.epoch =
      sym (ap (λ (q : Lease). q.epoch) there) ∙ sym (ap (λ (q : Lease). q.epoch) same) ∙ epoch in
    let limit : s.seconds ≡ l.seconds = sym (ap (λ (q : Lease). q.seconds) same) ∙ seconds in
    let counted = ap (λ (p : Result (Unit {0}) × Lease). p.1.epoch) h2 in
    let until = ap (λ (p : Result (Unit {0}) × Lease). p.1.expires_monotonic) h2 in
    (
      λ force. cc (acquire-exclusive clock fresh client requested l force),
      sym (ap (λ (p : Result (Unit {0}) × Lease). p.1.token) h2),
      sym (ap (λ (p : Result (Unit {0}) × Lease). p.1.client_id) h2),
      omega (arith, counted, epoch'),
      omega (arith, until, bound, limit),
    )

-- After control was acquired with a token, no other token passes the lease check.
pub acquire-fences :
    (clock later : Clock) (fresh : String) (client requested : Value) (l l' l'' : Lease)
    (token : Option String)
    → acquire clock fresh client requested l ≡ (ok tt, l')
    → token ≢ some fresh
    → require_lease later token l' ≢ (ok tt, l'')
acquire-fences clock later fresh client requested l l' l'' token h other passed =
    let (same, force, good) = require_lease-InForce later token l' l'' passed in
    let (t, given, held) = holds-token token l' good in
    other (given ∙ sym held ∙ (acquire-grants clock fresh client requested l l' h).1)
