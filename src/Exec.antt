-- ===== src/Exec.antt =====
-- Methods of an object, in Python's sense: a method may write to `self` and then raise, and the
-- caller that handles the exception goes on from what was written.
use reconfig_net_sim.Prelude.{◌≡◌, refl, ap, ◌∙◌, ◌⊎◌, inl, inr, Bool, true, false}
use reconfig_net_sim.Errors.{Raised, Result, ok, err}

abbrev pub Exec {ℓ} : Type 0 → Type ℓ → Type ℓ
Exec S A = S → Result A × S

module _ {S : Type 0} where
  abbrev pub pure {ℓ} : {A : Type ℓ} → A → Exec S A
  pure a s = (ok a, s)

  abbrev pub raise {ℓ} : {A : Type ℓ} → Raised → Exec S A
  raise e s = (err e, s)

  abbrev pub lift {ℓ} : {A : Type ℓ} → Result A → Exec S A
  lift r s = (r, s)

  abbrev pub gets {ℓ} : {A : Type ℓ} → (S → A) → Exec S A
  gets f s = (ok (f s), s)

  abbrev pub modify : (S → S) → Exec S (Unit {0})
  modify f s = (ok tt, f s)

  -- `if test: raise error`
  abbrev pub raise_when : Bool → Raised → Exec S (Unit {0})
  raise_when true e s = (err e, s)
  raise_when false e s = (ok tt, s)

module _ {S A B : Type 0} where
  abbrev continue : Result A → (A → Exec S B) → Exec S B
  continue (ok a) f s = f a s
  continue (err e) f s = (err e, s)

  infixl 5 ◌>>=◌
  abbrev pub ◌>>=◌ : Exec S A → (A → Exec S B) → Exec S B
  ◌>>=◌ m f s = let (r, s') = m s in continue r f s'

module _ {S A : Type 0} where
  infixl 5 ◌>>◌
  abbrev pub ◌>>◌ : Exec S (Unit {0}) → Exec S A → Exec S A
  m >> k = m >>= λ _. k

  abbrev handled : Result A → (Raised → Exec S A) → Exec S A
  handled (ok a) handler s = (ok a, s)
  handled (err e) handler s = handler e s

  -- `try: body / except: handler`. The handler starts from the state that the body left.
  abbrev pub catch : Exec S A → (Raised → Exec S A) → Exec S A
  catch m handler s = let (r, s') = m s in handled r handler s'

  -- The body of a `try` whose outcome is kept as a value.
  abbrev pub attempt : Exec S A → Exec S (Result A)
  attempt m s = let (r, s') = m s in (ok r, s')

module _ {S A : Type 0} where
  -- A call returns or raises.
  pub outcome :
      (r : Result A × S)
      → ((a : A) × (t : S) × (r ≡ (ok a, t))) ⊎ ((e : Raised) × (t : S) × (r ≡ (err e, t)))
  outcome (ok a, t) = inl (a, t, refl)
  outcome (err e, t) = inr (e, t, refl)

  -- Inversion of a `try` that succeeds.
  pub catch-eq-ok :
      (m : Exec S A) (handler : Raised → Exec S A) (s : S) {a : A} {s' : S}
      → catch m handler s ≡ (ok a, s')
      → (m s ≡ (ok a, s'))
        ⊎ ((e : Raised) × (t : S) × (m s ≡ (err e, t)) × (handler e t ≡ (ok a, s')))
  catch-eq-ok m handler s h = elim (outcome (m s)) [
    | inl (a, t, e) ↦ inl (e ∙ rw e at h)
    | inr (x, t, e) ↦ inr (x, t, e, rw e at h)
  ]

  -- Inversion of a `try` that raises: so does its handler.
  pub catch-eq-err :
      (m : Exec S A) (handler : Raised → Exec S A) (s : S) {x : Raised} {s' : S}
      → catch m handler s ≡ (err x, s')
      → (e : Raised) × (t : S) × (m s ≡ (err e, t)) × (handler e t ≡ (err x, s'))
  catch-eq-err m handler s h = elim (outcome (m s)) [
    | inl (a, t, e) ↦ absurd (cc (rw e at h))
    | inr (x, t, e) ↦ (x, t, e, rw e at h)
  ]

module _ {S A B : Type 0} where
  -- Inversion of a sequence that succeeds.
  pub bind-eq-ok :
      (m : Exec S A) (f : A → Exec S B) (s : S) {b : B} {s' : S}
      → ◌>>=◌ m f s ≡ (ok b, s')
      → (a : A) × (t : S) × (m s ≡ (ok a, t)) × (f a t ≡ (ok b, s'))
  bind-eq-ok m f s h = elim (outcome (m s)) [
    | inl (a, t, e) ↦ (a, t, e, rw e at h)
    | inr (x, t, e) ↦ absurd (cc (rw e at h))
  ]

  -- Inversion of a sequence that raises.
  pub bind-eq-err :
      (m : Exec S A) (f : A → Exec S B) (s : S) {x : Raised} {s' : S}
      → ◌>>=◌ m f s ≡ (err x, s')
      → (m s ≡ (err x, s')) ⊎ ((a : A) × (t : S) × (m s ≡ (ok a, t)) × (f a t ≡ (err x, s')))
  bind-eq-err m f s h = elim (outcome (m s)) [
    | inl (a, t, e) ↦ inr (a, t, e, rw e at h)
    | inr (x, t, e) ↦ inl (e ∙ cc (rw e at h))
  ]

-- Inversion of a guard that passes.
pub raise_when-eq-ok :
    {S : Type 0} (b : Bool) (e : Raised) (s t : S)
    → raise_when b e s ≡ (ok tt, t)
    → (b ≡ false) × (s ≡ t)
raise_when-eq-ok true e s t h = absurd (cc)
raise_when-eq-ok {S} false e s t h = (refl, ap (λ (r : Result (Unit {0}) × S). r.1) h)
