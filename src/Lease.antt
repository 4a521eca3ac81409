-- ===== src/Lease.antt =====
-- The control lease of agent/python/ocs_agent/core.py: one writer at a time. Times and durations
-- are whole nanoseconds; the source keeps seconds in floats.
pub mod Laws
use reconfig_net_sim.Prelude.{
  ℕ, zero, ◌+◌, ◌*◌, String, Bool, true, false, not, ◌&&◌, Option, none, some, [], leb, ltb, str_eq,
  if◌then◌else◌,
}
use reconfig_net_sim.Prelude.Int.{pos}
use reconfig_net_sim.Value.{Value, is_falsy}
use reconfig_net_sim.Errors.{ErrorKind, fmt, Raised, Result, ok, err, ocs_error}
use reconfig_net_sim.Exec.{Exec, lift, modify, raise_when, ◌>>=◌, ◌>>◌}
use reconfig_net_sim.Backend.{validation}

-- The readings of the clocks that one request takes: the monotonic clock when a lease is checked
-- and when a lease is granted, and the wall clock.
pub record Clock : Type 0 where
  pub monotonic : ℕ
  pub granted : ℕ
  pub unix_ns : ℕ

pub record Lease : Type 0 where
  pub seconds : ℕ
  pub token : Option String
  pub client_id : Value
  pub epoch : ℕ
  pub expires_monotonic : ℕ
  pub expires_unix_ns : ℕ

abbrev pub is_held : Lease → Bool
is_held l = elim l.token [ none ↦ false | some t ↦ true ]

-- What `release_control` and the expiry of a lease write.
abbrev pub cleared : Lease → Lease
cleared l = record l {
  token = none;
  client_id = Value.null;
  expires_monotonic = 0;
  expires_unix_ns = 0;
}

-- `_expire_lease_locked`
unfoldable pub expire : Clock → Lease → Lease
expire clock l = if is_held l && leb l.expires_monotonic clock.monotonic then cleared l else l

abbrev nanoseconds : ℕ
nanoseconds = 1000000000

abbrev at_most : ℕ → ℕ → ℕ
at_most limit n = if ltb n limit then n else limit

abbrev not_positive : Result ℕ
not_positive = err (validation "requested_lease_seconds must be greater than zero")

-- `_lease_duration`, given the configured `_lease_seconds`.
unfoldable pub lease_duration : ℕ → Value → Result ℕ
lease_duration seconds Value.null = ok seconds
lease_duration seconds (Value.bool false) = ok seconds
lease_duration seconds (Value.int (pos zero)) = ok seconds
lease_duration seconds (Value.float (pos zero)) = ok seconds
lease_duration seconds (Value.int (pos n)) = ok (at_most seconds (n * nanoseconds))
lease_duration seconds (Value.float (pos n)) = ok (at_most seconds n)
lease_duration seconds v = not_positive

-- `_set_lease_expiry`
abbrev set_lease_expiry : Clock → ℕ → Lease → Lease
set_lease_expiry clock duration l = record l {
  expires_monotonic = clock.granted + duration;
  expires_unix_ns = clock.unix_ns + duration;
}

-- `client_id or ''`
abbrev pub or_empty : Value → Value
or_empty v = if is_falsy v then Value.text "" else v

abbrev grant : Clock → String → Value → ℕ → Lease → Lease
grant clock fresh client duration l =
    set_lease_expiry clock duration
      (record l { epoch = l.epoch + 1; token = some fresh; client_id = or_empty client })

abbrev pub already_held : Raised
already_held =
    ocs_error ErrorKind.resource_exhausted (fmt "Control is already held by another writer" [])

-- `acquire_control`; `fresh` is the token that `os.urandom` gives.
unfoldable pub acquire : Clock → String → Value → Value → Exec Lease (Unit {0})
acquire clock fresh client requested = do
  modify (expire clock)
  (λ l. raise_when (is_held l) already_held l)
  duration ← (λ l. lift (lease_duration l.seconds requested) l)
  modify (grant clock fresh client duration)

-- `not (not lease_token or lease_token != self._lease_token)`
unfoldable pub holds : Option String → Lease → Bool
holds none l = false
holds (some t) l = not (str_eq t "") && (elim l.token [ none ↦ false | some held ↦ str_eq t held ])

abbrev pub no_lease : Raised
no_lease = ocs_error ErrorKind.failed_precondition (fmt "A valid control lease is required" [])

-- `_require_lease_locked`
unfoldable pub require_lease : Clock → Option String → Exec Lease (Unit {0})
require_lease clock token = do
  modify (expire clock)
  (λ l. raise_when (not (holds token l)) no_lease l)

-- `renew_control`
unfoldable pub renew : Clock → Option String → Value → Exec Lease (Unit {0})
renew clock token requested = do
  require_lease clock token
  duration ← (λ l. lift (lease_duration l.seconds requested) l)
  modify (set_lease_expiry clock duration)

-- `release_control`
unfoldable pub release : Clock → Option String → Exec Lease (Unit {0})
release clock token = do require_lease clock token; modify cleared
