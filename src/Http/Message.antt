-- ===== src/Http/Message.antt =====
-- What a request of the HTTP interface carries, and what is read from it (agent/python/ocs_agent/
-- nbi/http.py).
use reconfig_net_sim.Prelude.{
  ℕ, ◌*◌, String, Bool, false, not, ◌&&◌, ◌||◌, Option, none, some, [], ◌∷◌, str_eq, leb, int_of,
  upper, lower, if◌then◌else◌,
}
use reconfig_net_sim.Prelude.Int.{ℤ, pos, negsuc}
use reconfig_net_sim.Value.{Value, Fields, has, get, get_or, plain_text}
use reconfig_net_sim.Errors.{Arg, fmt, Raised, bad_value, Result, ok, err, ◌>>=◌}
use reconfig_net_sim.Backend.{max_delay_us}
use reconfig_net_sim.Lease.{Clock}
use reconfig_net_sim.Agent.State.{WriteOptions}

-- A header that is not there is `none`. `json` is what `json.loads` makes of the `Content-Length` bytes
-- of the body, `none` where they are no JSON in UTF-8. The clock readings and the fresh token are those
-- that the Agent takes in the call.
pub record HttpRequest : Type 0 where
  pub path : String
  pub request_version : String
  pub connection : Option String
  pub content_length : Option String
  pub control_lease : Option String
  pub expected_revision : Option String
  pub json : Option Value
  pub clock : Clock
  pub fresh : String

abbrev pub value_error : String → Raised
value_error message = bad_value (fmt message [])

abbrev delay_range : Raised
delay_range = bad_value (fmt "delay_us must be between 0 and {}" (Arg.number max_delay_us ∷ []))

unfoldable pub check_delay_ms : Value → Result ℕ
check_delay_ms (Value.int (pos n)) =
    if leb n 1000 then ok n else err (value_error "delay_ms must be between 0 and 1000")
check_delay_ms (Value.int (negsuc n)) = err (value_error "delay_ms must be between 0 and 1000")
check_delay_ms v = err (value_error "delay_ms must be an integer")

unfoldable pub check_delay_us : Value → Result ℕ
check_delay_us (Value.int (pos n)) = if leb n max_delay_us then ok n else err delay_range
check_delay_us (Value.int (negsuc n)) = err delay_range
check_delay_us v = err (value_error "delay_us must be an integer")

-- `request_delay_us`
unfoldable pub request_delay_us : Fields → Result ℕ
unfolding check_delay_ms check_delay_us
request_delay_us body =
    if has body "delay_ms" && has body "delay_us"
    then err (value_error "Specify only one of delay_ms or delay_us")
    else if has body "delay_us"
    then check_delay_us (get body "delay_us")
    else check_delay_ms (get_or (Value.int (pos 0)) body "delay_ms") >>= λ n.
        check_delay_us (Value.int (pos (n * 1000)))

abbrev header_or : String → Option String → String
header_or default none = default
header_or default (some s) = s

-- `keep_alive` of `_write_json`: the connection stays open after the reply.
unfoldable pub keep_alive : HttpRequest → Bool
unfolding lower
keep_alive r =
    let requested = lower (header_or "" r.connection) in
    str_eq requested "keep-alive"
    || (str_eq r.request_version "HTTP/1.1" && not (str_eq requested "close"))

abbrev pub sized : Option ℤ → Result ℤ
sized none = err (value_error "Invalid Content-Length")
sized (some z) = ok z

abbrev pub body_size : Option String → Result ℤ
body_size none = ok (pos 0)
body_size (some s) = sized (int_of s)

abbrev pub is_body_size : ℤ → Bool
is_body_size (pos n) = leb 1 n && leb n 65536
is_body_size (negsuc n) = false

abbrev pub json_object : Option Value → Result Fields
json_object none = err (value_error "Request body must be valid JSON")
json_object (some (Value.dict body)) = ok body
json_object (some v) = err (value_error "Request body must be a JSON object")

-- `_read_json`
unfoldable pub read_json : HttpRequest → Result Fields
unfolding int_of
read_json r = body_size r.content_length >>= λ size.
    if is_body_size size
    then json_object r.json
    else err (value_error "Request body must be between 1 and 65536 bytes")

-- A token that is no text equals no token of a lease, so it passes the lease check no more than a
-- missing one.
abbrev token_of_body : Fields → Option String
token_of_body body = plain_text (get body "lease_token")

-- `_lease_token`
unfoldable pub lease_token : HttpRequest → Fields → Option String
lease_token r body = elim r.control_lease [
  | none ↦ token_of_body body
  | some t ↦ if str_eq t "" then token_of_body body else some t
]

abbrev bad_revision : Raised
bad_revision = value_error "X-OCS-Expected-Revision must be a non-negative integer"

abbrev pub non_negative : Option ℤ → Result ℕ
non_negative none = err bad_revision
non_negative (some (pos n)) = ok n
non_negative (some (negsuc n)) = err bad_revision

abbrev pub revision_of : Option String → Result ℕ
revision_of none = err (value_error "X-OCS-Expected-Revision header is required")
revision_of (some s) = non_negative (int_of s)

-- `_expected_revision`
unfoldable pub expected_revision : HttpRequest → Result ℕ
unfolding int_of
expected_revision r = revision_of r.expected_revision

abbrev text_or_error : String → Value → Result String
text_or_error message v = elim (plain_text v) [ none ↦ err (value_error message) | some s ↦ ok s ]

-- The part of `do_POST` that the three paths of writes share, in the order of its checks.
unfoldable pub write_options : HttpRequest → Fields → Result WriteOptions
unfolding request_delay_us expected_revision lease_token upper
write_options r body = request_delay_us body >>= λ delay. expected_revision r >>= λ revision.
    text_or_error "transport must be a string" (get_or (Value.text "SEQUENTIAL") body "transport")
    >>= λ transport.
        text_or_error "strategy must be a string" (get_or (Value.text "FULL") body "strategy")
        >>= λ strategy. ok (record {
          strategy = upper strategy;
          transport = upper transport;
          delay_us = Value.int (pos delay);
          expected_revision = Value.int (pos revision);
          lease_token = lease_token r body;
        })
