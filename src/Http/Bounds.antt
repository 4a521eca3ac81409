-- ===== src/Http/Bounds.antt =====
-- The limits that the HTTP interface sets on what it reads (agent/python/ocs_agent/nbi/http.py).
use reconfig_net_sim.Prelude.{ℕ, ◌*◌, ◌≤◌, ◌≡◌, inl, inr, ◌&&◌, arith, Bool-cases}
use reconfig_net_sim.Prelude.Int.{pos, negsuc}
use reconfig_net_sim.Value.{Value, Fields, has, get, get_or}
use reconfig_net_sim.Errors.{ok, >>=-eq-ok}
use reconfig_net_sim.Backend.{max_delay_us, validate_delay_us}
use reconfig_net_sim.Http.Message.{check_delay_ms, check_delay_us, request_delay_us}

check_delay_us-bound : (v : Value) (n : ℕ) → check_delay_us v ≡ ok n → n ≤ max_delay_us
unfolding check_delay_us
check_delay_us-bound (Value.int (pos m)) n h = ground arith
check_delay_us-bound (Value.int (negsuc m)) n h = absurd (cc)
check_delay_us-bound v n h = absurd (cc)

validate_delay_us-accepts :
    (n : ℕ) → n ≤ max_delay_us → validate_delay_us (Value.int (pos n)) ≡ ok n
unfolding validate_delay_us
validate_delay_us-accepts n h = ground arith

-- A delay that is read from a request is at most a second, whichever unit it was given in, so the
-- Agent's own check of it passes and takes the same number.
pub request_delay_us-bound :
    (body : Fields) (n : ℕ)
    → request_delay_us body ≡ ok n
    → (n ≤ max_delay_us) × (validate_delay_us (Value.int (pos n)) ≡ ok n)
unfolding request_delay_us
request_delay_us-bound body n h = let bound = small in (bound, validate_delay_us-accepts n bound)
  where
    small : n ≤ max_delay_us
    small = elim (Bool-cases (has body "delay_ms" && has body "delay_us")) [
      | inl both ↦ absurd (cc (rw both at h))
      | inr one ↦ elim (Bool-cases (has body "delay_us")) [
        | inl us ↦ check_delay_us-bound (get body "delay_us") n (rw (one, us) at h)
        | inr ms ↦
            let (m, _, last) =
              >>=-eq-ok (check_delay_ms (get_or (Value.int (pos 0)) body "delay_ms")) _
                (rw (one, ms) at h) in
            check_delay_us-bound (Value.int (pos (m * 1000))) n last
      ]
    ]
