-- ===== src/Errors.antt =====
-- agent/python/ocs_agent/errors.py and the exceptions of backends/base.py: what a call can raise.
use reconfig_net_sim.Prelude.{
  ℕ, String, ◌≡◌, refl, ◌⊎◌, inl, inr, Bool, true, false, Option, none, some, List, [], ◌∷◌,
}

pub data Arg : Type 0 where
  name : String → Arg
  number : ℕ → Arg
  pairs : List (ℕ × ℕ) → Arg

-- The text of an exception: a template and what is put into it, not rendered.
pub data Message : Type 0 where
  fmt : String → List Arg → Message
  prefixed : String → Message → Message
  joined : String → Message → Message → Message

pub data ErrorKind : Type 0 where
  validation failed_precondition revision_conflict not_found : ErrorKind
  unsupported unavailable resource_exhausted : ErrorKind
  conflict : String → String → ErrorKind
  apply : Bool → ErrorKind

pub data Code : Type 0 where
  invalid_argument failed_precondition aborted not_found unimplemented unavailable : Code
  resource_exhausted internal : Code

-- The class attribute `code`, which `ApplyError` overrides in an instance that is not restored.
unfoldable pub error_code : ErrorKind → Code
error_code ErrorKind.validation = Code.invalid_argument
error_code (ErrorKind.conflict port connection) = Code.failed_precondition
error_code ErrorKind.failed_precondition = Code.failed_precondition
error_code ErrorKind.revision_conflict = Code.aborted
error_code ErrorKind.not_found = Code.not_found
error_code ErrorKind.unsupported = Code.unimplemented
error_code ErrorKind.unavailable = Code.unavailable
error_code ErrorKind.resource_exhausted = Code.resource_exhausted
error_code (ErrorKind.apply true) = Code.aborted
error_code (ErrorKind.apply false) = Code.internal

pub record OcsError : Type 0 where
  pub kind : ErrorKind
  pub message : Message
  pub request_id : Option ℕ

-- `BackendTransitionError`: the update failed, and so perhaps did the rollback.
pub record TransitionError : Type 0 where
  pub update_error : Message
  pub rollback_error : Option Message

abbrev pub restored : TransitionError → Bool
restored e = elim e.rollback_error [ none ↦ true | some m ↦ false ]

-- `bad_value` is a ValueError or a TypeError, `other` any class that the source does not name.
pub data Raised : Type 0 where
  ocs : OcsError → Raised
  transition : TransitionError → Raised
  unavailable precondition : Message → Raised
  bad_value : Message → Raised
  other : Message → Raised

pub data Result {ℓ} (A : Type ℓ) : Type ℓ where
  ok : A → Result A
  err : Raised → Result A

abbrev pub ocs_error : ErrorKind → Message → Raised
ocs_error kind message = ocs (record { kind = kind; message = message; request_id = none })

abbrev pub is_ocs : Raised → Bool
is_ocs (ocs e) = true
is_ocs _ = false

-- `str(error)`
abbrev pub str : Raised → Message
str (ocs e) = e.message
str (transition e) = e.update_error
str (Raised.unavailable m) = m
str (precondition m) = m
str (bad_value m) = m
str (other m) = m

-- The exception of an attempt, as text.
abbrev pub failure_of {ℓ} : {A : Type ℓ} → Result A → Option Message
failure_of (ok a) = none
failure_of (err e) = some (str e)

-- `ConflictError`
abbrev pub conflict_error : String → String → Raised
conflict_error port connection =
    ocs_error (ErrorKind.conflict port connection)
      (fmt "Port {} is already used by connection {}" (name port ∷ name connection ∷ []))

infixl 5 ◌>>=◌
abbrev pub ◌>>=◌ {ℓ} : {A B : Type ℓ} → Result A → (A → Result B) → Result B
err raised >>= next = err raised
ok value >>= next = next value

-- `if test: raise error`
abbrev pub raise_if : Bool → Raised → Result (Unit {0})
raise_if test error = elim test [ true ↦ err error | false ↦ ok tt ]

infixl 5 ◌>>◌
abbrev pub ◌>>◌ : {B : Type 0} → Result (Unit {0}) → Result B → Result B
check >> rest = check >>= λ _. rest

module _ {ℓ} {A B : Type ℓ} where
  -- Inversion of a call and what follows it, where both succeed.
  pub >>=-eq-ok :
      (call : Result A) (next : A → Result B) {result : B}
      → (call >>= next) ≡ ok result
      → (value : A) × (call ≡ ok value) × (next value ≡ ok result)
  >>=-eq-ok (err raised) next h = absurd (cc)
  >>=-eq-ok (ok value) next h = (value, refl, h)

pub Result-cases {ℓ} :
    {A : Type ℓ} (r : Result A) → ((a : A) × (r ≡ ok a)) ⊎ ((e : Raised) × (r ≡ err e))
Result-cases (ok a) = inl (a, refl)
Result-cases (err e) = inr (e, refl)
