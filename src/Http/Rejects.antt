-- ===== src/Http/Rejects.antt =====
-- The requests that the HTTP interface itself rejects (agent/python/ocs_agent/nbi/http.py).
use reconfig_net_sim.Prelude.{
  ℕ, ◌*◌, String, ◌≡◌, ◌≢◌, ◌⊎◌, refl, ap, inl, inr, Bool, true, false, ◌&&◌, Option, none, some,
  arith, List, ◌||◌, leb, str_eq, int_of, if◌then◌else◌,
}
use reconfig_net_sim.Prelude.Int.{ℤ, pos, negsuc}
use reconfig_net_sim.Value.{Value, Fields, has, get, get_or}
use reconfig_net_sim.Errors.{Message, Raised, bad_value, Result, ok, err, Result-cases, ◌>>=◌}
use reconfig_net_sim.Backend.{Backend, max_delay_us}
use reconfig_net_sim.Lease.{Clock}
use reconfig_net_sim.Agent.State.{Agent}
use reconfig_net_sim.Agent.Run.{Request}
use reconfig_net_sim.Http.Message.{
  HttpRequest, check_delay_ms, check_delay_us, request_delay_us, read_json, expected_revision,
  write_options, body_size, sized, non_negative, revision_of, is_body_size, json_object,
}
use reconfig_net_sim.Http.Handler.{Payload, post_failed, route_post, do_post}

-- What a check of the interface raises is a ValueError.
abbrev Rejects : {A : Type 0} → Result A → Type 0
Rejects r = (x : Raised) → r ≡ err x → (m : Message) × (x ≡ bad_value m)

Rejects-ok : {A : Type 0} (v : A) → Rejects (ok v)
Rejects-ok v x h = absurd (cc)

Rejects-value : {A : Type 0} (m : Message) → Rejects {A = A} (err (bad_value m))
Rejects-value m x h = (m, cc)

Rejects-if :
    {A : Type 0} (test : Bool) (r s : Result A)
    → Rejects r
    → Rejects s
    → Rejects (if test then r else s)
Rejects-if true r s h k = h
Rejects-if false r s h k = k

Rejects-bind :
    {A B : Type 0} (r : Result A) (next : A → Result B)
    → Rejects r
    → ((v : A) → Rejects (next v))
    → Rejects (r >>= next)
Rejects-bind {B = B} (ok v) next h k = k v
Rejects-bind {B = B} (err x) next h k = λ y e. h y (ap err (ap raised_of e))
  where
    raised_of : Result B → Raised
    raised_of (ok w) = x
    raised_of (err z) = z

check_delay_ms-Rejects : (v : Value) → Rejects (check_delay_ms v)
unfolding check_delay_ms
check_delay_ms-Rejects (Value.int (pos n)) =
    Rejects-if (leb n 1000) _ _ (Rejects-ok n) (Rejects-value _)
check_delay_ms-Rejects (Value.int (negsuc n)) = Rejects-value _
check_delay_ms-Rejects v = Rejects-value _

check_delay_us-Rejects : (v : Value) → Rejects (check_delay_us v)
unfolding check_delay_us
check_delay_us-Rejects (Value.int (pos n)) =
    Rejects-if (leb n max_delay_us) _ _ (Rejects-ok n) (Rejects-value _)
check_delay_us-Rejects (Value.int (negsuc n)) = Rejects-value _
check_delay_us-Rejects v = Rejects-value _

request_delay_us-Rejects : (body : Fields) → Rejects (request_delay_us body)
unfolding request_delay_us
request_delay_us-Rejects body =
    Rejects-if (has body "delay_ms" && has body "delay_us") _ _ (Rejects-value _) (
      Rejects-if (has body "delay_us") _ _ (check_delay_us-Rejects (get body "delay_us")) (
        Rejects-bind (check_delay_ms (get_or (Value.int (pos 0)) body "delay_ms")) _
          (check_delay_ms-Rejects (get_or (Value.int (pos 0)) body "delay_ms"))
          (λ n. check_delay_us-Rejects (Value.int (pos (n * 1000))))))

sized-Rejects : (o : Option ℤ) → Rejects (sized o)
sized-Rejects none = Rejects-value _
sized-Rejects (some z) = Rejects-ok z

body_size-Rejects : (header : Option String) → Rejects (body_size header)
body_size-Rejects none = Rejects-ok _
body_size-Rejects (some s) = sized-Rejects (int_of s)

json_object-Rejects : (json : Option Value) → Rejects (json_object json)
json_object-Rejects none = Rejects-value _
json_object-Rejects (some (Value.dict body)) = Rejects-ok body
json_object-Rejects (some v) = Rejects-value _

read_json-Rejects : (r : HttpRequest) → Rejects (read_json r)
unfolding read_json
read_json-Rejects r =
    Rejects-bind (body_size r.content_length) _ (body_size-Rejects r.content_length)
      (λ size. Rejects-if (is_body_size size) _ _ (json_object-Rejects r.json) (Rejects-value _))

non_negative-Rejects : (o : Option ℤ) → Rejects (non_negative o)
non_negative-Rejects none = Rejects-value _
non_negative-Rejects (some (pos n)) = Rejects-ok n
non_negative-Rejects (some (negsuc n)) = Rejects-value _

revision_of-Rejects : (header : Option String) → Rejects (revision_of header)
revision_of-Rejects none = Rejects-value _
revision_of-Rejects (some s) = non_negative-Rejects (int_of s)

expected_revision-Rejects : (r : HttpRequest) → Rejects (expected_revision r)
unfolding expected_revision
expected_revision-Rejects r = revision_of-Rejects r.expected_revision

-- A write without a revision has no options.
unrevised :
    (r : HttpRequest) (body : Fields) (x : Raised)
    → expected_revision r ≡ err x
    → (m : Message) × (write_options r body ≡ err (bad_value m))
unfolding write_options
unrevised r body x h = elim (Result-cases (request_delay_us body)) [
  | inr (y, e) ↦ let (m, same) = request_delay_us-Rejects body y e in (m, rw (e, same) refl)
  | inl (delay, e) ↦ let (m, same) = expected_revision-Rejects r x h in (m, rw (e, h, same) refl)
]

abbrev pub is_lease_path : String → Bool
is_lease_path path =
    str_eq path "/ocs_control/acquire"
    || str_eq path "/ocs_control/renew"
    || str_eq path "/ocs_control/release"

three :
    (path : String)
    → is_lease_path path ≡ false
    → (str_eq path "/ocs_control/acquire" ≡ false)
      × (str_eq path "/ocs_control/renew" ≡ false)
      × (str_eq path "/ocs_control/release" ≡ false)
three path h = ground arith

-- A request whose headers name no revision: X-OCS-Expected-Revision is missing, or holds no number from
-- 0 up.
abbrev pub IsUnrevised : HttpRequest → Type 0
IsUnrevised r =
    (r.expected_revision ≡ none)
    ⊎ ((s : String) × (r.expected_revision ≡ some s) × ((n : ℕ) → int_of s ≢ some (pos n)))

non_negative-fails :
    (o : Option ℤ) → ((n : ℕ) → o ≢ some (pos n)) → (x : Raised) × (non_negative o ≡ err x)
non_negative-fails none h = (_, refl)
non_negative-fails (some (pos n)) h = absurd (h n refl)
non_negative-fails (some (negsuc n)) h = (_, refl)

revision_of-fails :
    (header : Option String)
    → (header ≡ none) ⊎ ((s : String) × (header ≡ some s) × ((n : ℕ) → int_of s ≢ some (pos n)))
    → (x : Raised) × (revision_of header ≡ err x)
revision_of-fails none h = (_, refl)
revision_of-fails (some s) (inl h) = absurd (cc)
revision_of-fails (some s) (inr (t, given, bad)) =
    let same : t ≡ s = cc in non_negative-fails (int_of s) (rw same at bad)

expected_revision-fails :
    (r : HttpRequest) → IsUnrevised r → (x : Raised) × (expected_revision r ≡ err x)
unfolding expected_revision
expected_revision-fails r h = revision_of-fails r.expected_revision h

module _ (b : Backend) (between : List (Clock × Request)) where
  rejected :
      (r : HttpRequest) (x : Raised) (a : Agent b.Device)
      → is_lease_path r.path ≡ false
      → expected_revision r ≡ err x
      → (m : Message) × (do_post b between r a
          ≡ (ok (record { status = 400; payload = Payload.rejected m }), a))
  unfolding do_post post_failed route_post
  rejected r x a path h = elim (Result-cases (read_json r)) [
    | inr (y, e) ↦ let (m, same) = read_json-Rejects r y e in (m, rw (e, same) refl)
    | inl (body, e) ↦
        let (m, refused) = unrevised r body x h in
        let (acquire, renew, release) = three r.path path in
        (m, rw (e, acquire, renew, release, refused) refl)
  ]

  -- A POST for a path that is none of the lease paths, whose header X-OCS-Expected-Revision is missing or
  -- holds no number from 0 up, is answered with status 400 and a message, and changes nothing in the
  -- Agent.
  pub do_post-unrevised :
      (r : HttpRequest) (a : Agent b.Device)
      → is_lease_path r.path ≡ false
      → IsUnrevised r
      → (m : Message) × (do_post b between r a
          ≡ (ok (record { status = 400; payload = Payload.rejected m }), a))
  do_post-unrevised r a path unrevised =
      let (x, fails) = expected_revision-fails r unrevised in rejected r x a path fails
