-- ===== src/Files/Ensures.antt =====
-- What holds of the value of a check, if it returns one.
use reconfig_net_sim.Prelude.{◌≡◌, refl, Bool, true, false}
use reconfig_net_sim.Errors.{Raised, Result, ok, err, raise_if, ◌>>=◌, ◌>>◌}

abbrev pub Ensures : {A : Type 0} → (A → Type 0) → Result A → Type 0
Ensures P (ok v) = P v
Ensures P (err e) = Unit

module _ {A : Type 0} (P : A → Type 0) where
  pub Ensures-elim : (r : Result A) (v : A) → Ensures P r → r ≡ ok v → P v
  Ensures-elim r v h e = rw e at h

  pub Ensures-intro : (r : Result A) → ((v : A) → r ≡ ok v → P v) → Ensures P r
  Ensures-intro (ok v) h = h v refl
  Ensures-intro (err e) h = tt

  -- `if test: raise e`, and what follows.
  pub Ensures-guard :
      (test : Bool) (e : Raised) (rest : Result A)
      → (test ≡ false → Ensures P rest)
      → Ensures P (raise_if test e >> rest)
  Ensures-guard true e rest h = tt
  Ensures-guard false e rest h = h refl

  pub Ensures-if :
      (test : Bool) (e : Raised) (v : A)
      → (test ≡ true → P v)
      → Ensures P (elim test [ true ↦ ok v | false ↦ err e ])
  Ensures-if true e v h = h refl
  Ensures-if false e v h = tt

module _ {A B : Type 0} (P : B → Type 0) where
  -- A check, and what follows it.
  pub Ensures-bind :
      (Q : A → Type 0) (r : Result A) (next : A → Result B)
      → Ensures Q r
      → ((v : A) → Q v → Ensures P (next v))
      → Ensures P (r >>= next)
  Ensures-bind Q (ok v) next h k = k v h
  Ensures-bind Q (err e) next h k = tt

  -- A check of which nothing is kept.
  pub Ensures-skip :
      (r : Result A) (next : A → Result B) → ((v : A) → Ensures P (next v)) → Ensures P (r >>= next)
  Ensures-skip (ok v) next k = k v
  Ensures-skip (err e) next k = tt

module _ {A : Type 0} {P Q : A → Type 0} where
  pub Ensures-weaken : (r : Result A) → ((v : A) → P v → Q v) → Ensures P r → Ensures Q r
  Ensures-weaken (ok v) weaker h = weaker v h
  Ensures-weaken (err e) weaker h = tt
