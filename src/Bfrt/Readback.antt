-- ===== src/Bfrt/Readback.antt =====
-- What the readback of `BFRTBackend.apply` guarantees where it is made, that is outside `CACHED_ACK`
-- (agent/python/ocs_agent/backends/bfrt.py), whatever the writes of the client did.
use reconfig_net_sim.Prelude.{
  ℕ, String, ◌≡◌, refl, ap, ◌∙◌, inl, inr, Bool, true, false, not, none, List, [], arith, str_eq,
}
use reconfig_net_sim.Value.{Value}
use reconfig_net_sim.Errors.{
  Raised, transition, TransitionError, Result, ok, err, failure_of, str, is_ocs, Result-cases,
}
use reconfig_net_sim.Exec.{
  lift, raise_when, catch, ◌>>=◌, outcome, bind-eq-ok, bind-eq-err, catch-eq-ok, catch-eq-err,
  raise_when-eq-ok,
}
use reconfig_net_sim.PairSet.{Pair, PairSet, diff, set_eq}
use reconfig_net_sim.Backend.{Timing, validate_delay_us, validate_delay_us-ocs}
use reconfig_net_sim.Transition.{Plan, plan}
use reconfig_net_sim.Bfrt.{
  Client, State, delete, insert, logical_pairs, read_pairs, write_pairs, after_rollback, restore,
  verify, update, roll_back, apply, perform, check_request,
}
use reconfig_net_sim.Bfrt.Keeps.{write_pairs-keeps}

module _ (client : Client) (now : ℕ) (entries : client.Hardware → List Pair) where
  -- A read of the table that returns gives its rows, and leaves them.
  abbrev pub ReadsTable : Type 0
  ReadsTable =
      (from_hw : Bool) (s t : client.Hardware) (rows : List Pair)
      → client.entry_get from_hw s ≡ (ok rows, t)
      → rows ≡ entries t

  -- The rows of the table, translated to logical ports, are these pairs.
  abbrev pub Holds : State client now → PairSet → Type 0
  Holds a pairs =
      (observed : PairSet) × (logical_pairs a.port_map [] (entries a.hardware) ≡ ok observed)
      × (set_eq observed pairs ≡ true)

  pub read_pairs-Holds :
      (from_hw : Bool) (a b : State client now) (r : PairSet)
      → ReadsTable
      → read_pairs client now from_hw a ≡ (ok r, b)
      → logical_pairs b.port_map [] (entries b.hardware) ≡ ok r
  unfolding read_pairs
  read_pairs-Holds from_hw a b r table h = elim (outcome (client.entry_get from_hw a.hardware)) [
    | inr (x, t, e) ↦ absurd (cc (rw e at h))
    | inl (rows, t, e) ↦ elim (Result-cases (logical_pairs a.port_map [] rows)) [
      | inr (x, f) ↦ absurd (cc (rw (e, f) at h))
      | inl (p, f) ↦
          let ended = rw (e, f) at h in
          let ports = ap (λ (q : Result PairSet × State client now). q.1.port_map) ended in
          let hardware = ap (λ (q : Result PairSet × State client now). q.1.hardware) ended in
          let same : p ≡ r = cc (ended) in
          rw (← ports, ← hardware, ← table from_hw a.hardware t rows e, ← same) f
    ]
  ]

  -- A read that was compared with a set and found equal.
  compared :
      (target : PairSet) (error : PairSet → Raised) (a b : State client now)
      → ReadsTable
      → (read_pairs client now false >>= λ observed.
            raise_when (not (set_eq observed target)) (error observed))
          a
        ≡ (ok tt, b)
      → Holds b target
  compared target error a b table h =
      let (observed, s, read, check) = bind-eq-ok (read_pairs client now false) _ a h in
      let (equal, same) =
        raise_when-eq-ok (not (set_eq observed target)) (error observed) s b check in
      (observed, rw same at (read_pairs-Holds false a s observed table read), ground arith)

  restore-Holds :
      (previous : PairSet) (a b : State client now)
      → ReadsTable
      → restore client now previous a ≡ (ok tt, b)
      → Holds b previous
  unfolding restore
  restore-Holds previous a b table h =
      let (current, s1, _, h1) = bind-eq-ok (read_pairs client now false) _ a h in
      let (_, s2, _, h2) =
        bind-eq-ok (write_pairs client now delete (diff current previous) "NATIVE_BATCH") _ s1 h1 in
      let (_, s3, _, h3) =
        bind-eq-ok (write_pairs client now insert (diff previous current) "NATIVE_BATCH") _ s2 h2 in
      compared previous _ s3 b table h3

  -- The mode in which a write is read back.
  abbrev pub IsVerified : State client now → Type 0
  IsVerified a = str_eq a.write_verification "SOFTWARE_READBACK" ≡ true

  verify-Holds :
      (target : PairSet) (a b : State client now)
      → ReadsTable
      → IsVerified a
      → verify client now target a ≡ (ok tt, b)
      → Holds b target
  unfolding verify
  verify-Holds target a b table verified h = compared target _ a b table (rw verified at h)

  update-Holds :
      (p : Plan) (target : PairSet) (transport : String) (n : ℕ) (a b : State client now)
      → ReadsTable
      → IsVerified a
      → update client now p target transport a ≡ (ok n, b)
      → Holds b target
  unfolding update verify
  update-Holds p target transport n a b table verified h =
      let (d, s1, deleted, h1) =
        bind-eq-ok (write_pairs client now delete p.removed transport) _ a h in
      let (i, s2, inserted, h2) =
        bind-eq-ok (write_pairs client now insert p.added transport) _ s1 h1 in
      let still : s2.write_verification ≡ a.write_verification =
        write_pairs-keeps client now insert p.added transport i s1 s2 inserted
        ∙ write_pairs-keeps client now delete p.removed transport d a s1 deleted in
      let acked = record s2 { last_write_ack_unix_ns = now } in
      let again : IsVerified acked = rw still verified in
      let (_, s3, checked, last) = bind-eq-ok (verify client now target) _ acked h2 in
      let same : s3 ≡ b = cc in rw (← same) (verify-Holds target acked s3 table again checked)

  pub roll_back-eq :
      {A : Type 0} (previous : PairSet) (failure : Raised) (a : State client now)
      → roll_back client now {A = A} previous failure a ≡ (
        err (
            transition (record {
              update_error = str failure;
              rollback_error = failure_of (restore client now previous a).0;
            })),
        after_rollback client now
            (failure_of (restore client now previous a).0)
            (restore client now previous a).1,
      )
  unfolding roll_back
  roll_back-eq previous failure a = refl

  roll_back-Holds :
      {A : Type 0} (previous : PairSet) (failure : Raised) (a b : State client now)
      (e : TransitionError)
      → ReadsTable
      → roll_back client now {A = A} previous failure a ≡ (err (transition e), b)
      → e.rollback_error ≡ none
      → Holds b previous
  roll_back-Holds {A} previous failure a b e table h clean =
      elim (outcome (restore client now previous a)) [
        | inl (u, t, run) ↦
            let same : t ≡ b = cc (rw run at (roll_back-eq {A = A} previous failure a), h) in
            rw (← same) (restore-Holds previous a t table run)
        | inr (x, t, run) ↦
            absurd (cc (rw run at (roll_back-eq {A = A} previous failure a), h, clean))
      ]

  -- A write that returns has installed the target.
  perform-Holds :
      (p : Plan) (previous target : PairSet) (strategy transport : String) (delay : ℕ)
      (timing : Timing) (a b : State client now)
      → ReadsTable
      → IsVerified a
      → perform client now p previous target strategy transport delay a ≡ (ok timing, b)
      → Holds b target
  unfolding perform
  perform-Holds p previous target strategy transport delay timing a b table verified h =
      let (n, s, tried, last) =
        bind-eq-ok (catch (update client now p target transport) (roll_back client now previous)) _
          a h in
      let ports = ap (λ (q : Result Timing × State client now). q.1.port_map) last in
      let hardware = ap (λ (q : Result Timing × State client now). q.1.hardware) last in
      elim (catch-eq-ok (update client now p target transport) (roll_back client now previous) a
        tried) [
          | inl done ↦
              rw (← ports, ← hardware) (update-Holds p target transport n a s table verified done)
          | inr (e, t, failed, handled) ↦ absurd (cc (handled, roll_back-eq {A = ℕ} previous e t))
        ]

  perform-restored :
      (p : Plan) (previous target : PairSet) (strategy transport : String) (delay : ℕ)
      (e : TransitionError) (a b : State client now)
      → ReadsTable
      → perform client now p previous target strategy transport delay a ≡ (err (transition e), b)
      → e.rollback_error ≡ none
      → Holds b previous
  unfolding perform
  perform-restored p previous target strategy transport delay e a b table h clean =
      elim (bind-eq-err
        (catch (update client now p target transport) (roll_back client now previous)) _ a h) [
          | inl raised ↦
              let (x, s, failed, handled) =
                catch-eq-err (update client now p target transport) (roll_back client now previous)
                  a raised in
              roll_back-Holds {A = ℕ} previous x s b e table handled clean
          | inr (n, s, done, last) ↦ absurd (cc)
        ]

  -- The checks raise errors of the request only.
  check_request-ocs :
      (strategy transport : String) (delay : Value) (x : Raised)
      → check_request strategy delay transport ≡ err x
      → is_ocs x ≡ true
  unfolding check_request
  check_request-ocs strategy transport delay x h = elim (Result-cases (validate_delay_us delay)) [
    | inl (n, e) ↦ ground arith
    | inr (y, e) ↦ ground (arith, validate_delay_us-ocs delay y e)
  ]

  -- Where writes are read back, an `apply` that returns has left the table with exactly the target.
  pub apply-Holds :
      (previous target : PairSet) (strategy transport : String) (delay : Value) (timing : Timing)
      (a b : State client now)
      → ReadsTable
      → IsVerified a
      → apply client now previous target strategy delay transport a ≡ (ok timing, b)
      → Holds b target
  unfolding apply
  apply-Holds previous target strategy transport delay timing a b table verified h =
      let (n, s, checked, rest) =
        bind-eq-ok (lift (check_request strategy delay transport)) _ a h in
      let same : a ≡ s = ap (λ (q : Result ℕ × State client now). q.1) checked in
      perform-Holds (plan strategy previous target) previous target strategy transport n timing s b
        table (rw same at verified) rest

  -- An `apply` that reports a failed update and no failed rollback has left the table with exactly the
  -- previous pairs, whether or not writes are read back.
  pub apply-restored :
      (previous target : PairSet) (strategy transport : String) (delay : Value)
      (e : TransitionError) (a b : State client now)
      → ReadsTable
      → apply client now previous target strategy delay transport a ≡ (err (transition e), b)
      → e.rollback_error ≡ none
      → Holds b previous
  unfolding apply
  apply-restored previous target strategy transport delay e a b table h clean =
      elim (bind-eq-err (lift (check_request strategy delay transport)) _ a h) [
        | inl refused ↦
            let raised : check_request strategy delay transport ≡ err (transition e) =
              ap (λ (q : Result ℕ × State client now). q.0) refused in
            absurd (cc (check_request-ocs strategy transport delay (transition e) raised))
        | inr (n, s, checked, rest) ↦
            perform-restored (plan strategy previous target) previous target strategy transport n e
              s b table rest clean
      ]
