-- ===== src/P4app/Readback.antt =====
-- What the readback of `P4AppBackend.apply` guarantees, whatever the writes of the switch did.
use reconfig_net_sim.Prelude.{ℕ, String, ◌≡◌, inl, inr, refl, sym, ap, ◌∙◌, true, not, none, arith}
use reconfig_net_sim.Value.{Value}
use reconfig_net_sim.Errors.{
  Raised, transition, TransitionError, Result, ok, err, failure_of, str, is_ocs, Result-cases,
}
use reconfig_net_sim.Exec.{
  lift, pure, raise_when, catch, ◌>>=◌, ◌>>◌, outcome, bind-eq-ok, bind-eq-err, catch-eq-ok,
  catch-eq-err, raise_when-eq-ok,
}
use reconfig_net_sim.PairSet.{PairSet, mem, diff, set_eq, sorted}
use reconfig_net_sim.PairSet.Laws.{set_eq_iff}
use reconfig_net_sim.Backend.{Timing, validate_delay_us, validate_delay_us-ocs}
use reconfig_net_sim.Transition.{Plan, plan}
use reconfig_net_sim.P4app.{
  Switch, delete, insert, read_pairs, write_each, write_pairs, restore, update, pause, roll_back,
  apply, perform, check_request,
}

module _ (sw : Switch) (entries : sw.State → PairSet) where
  -- A table read that succeeds reports the entries of the table.
  abbrev pub Reports : Type 0
  Reports =
      (s t : sw.State) (r : PairSet)
      → read_pairs sw s ≡ (ok r, t)
      → (p : ℕ × ℕ) → mem p r ≡ mem p (entries t)

  -- The table holds exactly these pairs.
  abbrev pub Holds : sw.State → PairSet → Type 0
  Holds s pairs = (p : ℕ × ℕ) → mem p (entries s) ≡ mem p pairs

  -- A read that was compared with a set and found equal.
  compared :
      (s t u : sw.State) (r pairs : PairSet) (e : Raised)
      → Reports
      → read_pairs sw s ≡ (ok r, t)
      → raise_when (not (set_eq r pairs)) e t ≡ (ok tt, u)
      → Holds u pairs
  compared s t u r pairs e reports read check p =
      let (equal, same) = raise_when-eq-ok (not (set_eq r pairs)) e t u check in
      let agrees = (set_eq_iff r pairs).0 (ground arith) p in
      sym (rw same at (reports s t r read p)) ∙ agrees

  restore-Holds :
      (previous : PairSet) (s t : sw.State)
      → Reports
      → restore sw previous s ≡ (ok tt, t)
      → Holds t previous
  unfolding restore
  restore-Holds previous s t reports h =
      let (current, s1, _, h1) = bind-eq-ok (read_pairs sw) _ s h in
      let (_, s2, _, h2) =
        bind-eq-ok (write_each sw delete (sorted (diff current previous))) _ s1 h1 in
      let (_, s3, _, h3) =
        bind-eq-ok (write_each sw insert (sorted (diff previous current))) _ s2 h2 in
      let (r, s4, read, check) = bind-eq-ok (read_pairs sw) _ s3 h3 in
      compared s3 s4 t r previous _ reports read check

  -- The end of an update: a read that must agree with the target.
  confirmed :
      (target : PairSet) (mismatch : PairSet → Raised) (n m : ℕ) (s t : sw.State)
      → Reports
      → (read_pairs sw >>= λ r. raise_when (not (set_eq r target)) (mismatch r) >> pure n) s
        ≡ (ok m, t)
      → Holds t target
  confirmed target mismatch n m s t reports h =
      let (r, s1, read, h1) = bind-eq-ok (read_pairs sw) _ s h in
      let (_, s2, check, last) = bind-eq-ok (raise_when (not (set_eq r target)) _) _ s1 h1 in
      let same : s2 ≡ t = cc in rw (← same) (compared s s1 s2 r target _ reports read check)

  update-Holds :
      (p : Plan) (target : PairSet) (transport : String) (delay n : ℕ) (s t : sw.State)
      → Reports
      → update sw p target transport delay s ≡ (ok n, t)
      → Holds t target
  unfolding update
  update-Holds p target transport delay n s t reports h =
      let (_, s1, _, h1) = bind-eq-ok (write_pairs sw delete p.removed transport) _ s h in
      let (_, s2, _, h2) = bind-eq-ok (pause sw delay) _ s1 h1 in
      let (_, s3, _, h3) = bind-eq-ok (write_pairs sw insert p.added transport) _ s2 h2 in
      confirmed target _ _ n s3 t reports h3

  -- A rollback always raises, and it reports no rollback error only where the restoring readback
  -- agreed.
  pub roll_back-eq :
      {A : Type 0} (previous : PairSet) (failure : Raised) (s : sw.State)
      → roll_back sw {A = A} previous failure s ≡ (
        err (
            transition (record {
              update_error = str failure;
              rollback_error = failure_of (restore sw previous s).0;
            })),
        (restore sw previous s).1,
      )
  unfolding roll_back
  roll_back-eq previous failure s = refl

  roll_back-Holds :
      {A : Type 0} (previous : PairSet) (failure : Raised) (s t : sw.State) (e : TransitionError)
      → Reports
      → roll_back sw {A = A} previous failure s ≡ (err (transition e), t)
      → e.rollback_error ≡ none
      → Holds t previous
  roll_back-Holds {A} previous failure s t e reports h clean =
      elim (outcome (restore sw previous s)) [
        | inl (a, u, run) ↦
            let same : u ≡ t = cc (run, roll_back-eq {A = A} previous failure s) in
            restore-Holds previous s t reports (rw same at run)
        | inr (x, u, run) ↦ absurd (cc (run, roll_back-eq {A = A} previous failure s))
      ]

  perform-Holds :
      (p : Plan) (previous target : PairSet) (strategy transport : String) (delay : ℕ)
      (timing : Timing) (s t : sw.State)
      → Reports
      → perform sw p previous target strategy transport delay s ≡ (ok timing, t)
      → Holds t target
  unfolding perform
  perform-Holds p previous target strategy transport delay timing s t reports h =
      let (n, u, tried, last) =
        bind-eq-ok (catch (update sw p target transport delay) (roll_back sw previous)) _ s h in
      let same : u ≡ t = cc in
      elim (catch-eq-ok (update sw p target transport delay) (roll_back sw previous) s tried) [
        | inl done ↦ rw (← same) (update-Holds p target transport delay n s u reports done)
        | inr (e, v, failed, handled) ↦ absurd (cc (handled, roll_back-eq {A = ℕ} previous e v))
      ]

  perform-restored :
      (p : Plan) (previous target : PairSet) (strategy transport : String) (delay : ℕ)
      (e : TransitionError) (s t : sw.State)
      → Reports
      → perform sw p previous target strategy transport delay s ≡ (err (transition e), t)
      → e.rollback_error ≡ none
      → Holds t previous
  unfolding perform
  perform-restored p previous target strategy transport delay e s t reports h clean =
      elim (bind-eq-err (catch (update sw p target transport delay) (roll_back sw previous)) _ s
        h) [
          | inl raised ↦
              let (x, u, failed, handled) =
                catch-eq-err (update sw p target transport delay) (roll_back sw previous) s
                  raised in
              roll_back-Holds {A = ℕ} previous x u t e reports handled clean
          | inr (n, u, done, last) ↦ absurd (cc)
        ]

  -- The checks raise errors of the request only.
  check_request-ocs :
      (strategy transport : String) (delay : Value) (x : Raised)
      → check_request sw strategy delay transport ≡ err x
      → is_ocs x ≡ true
  unfolding check_request
  check_request-ocs strategy transport delay x h = elim (Result-cases (validate_delay_us delay)) [
    | inl (n, e) ↦ ground arith
    | inr (y, e) ↦ ground (arith, validate_delay_us-ocs delay y e)
  ]

  -- A write that returns has brought the table to the target: the table was read back and agreed.
  pub apply-Holds :
      (previous target : PairSet) (strategy transport : String) (delay : Value) (timing : Timing)
      (s t : sw.State)
      → Reports
      → apply sw previous target strategy delay transport s ≡ (ok timing, t)
      → Holds t target
  unfolding apply
  apply-Holds previous target strategy transport delay timing s t reports h =
      let (n, u, checked, rest) =
        bind-eq-ok (lift (check_request sw strategy delay transport)) _ s h in
      perform-Holds (plan strategy previous target) previous target strategy transport n timing u t
        reports rest

  -- A write that failed and reports no rollback error has left the table with the previous pairs.
  pub apply-restored :
      (previous target : PairSet) (strategy transport : String) (delay : Value)
      (e : TransitionError) (s t : sw.State)
      → Reports
      → apply sw previous target strategy delay transport s ≡ (err (transition e), t)
      → e.rollback_error ≡ none
      → Holds t previous
  unfolding apply
  apply-restored previous target strategy transport delay e s t reports h clean =
      elim (bind-eq-err (lift (check_request sw strategy delay transport)) _ s h) [
        | inl refused ↦
            let raised : check_request sw strategy delay transport ≡ err (transition e) =
              ap (λ (r : Result ℕ × sw.State). r.0) refused in
            absurd (cc (raised, check_request-ocs strategy transport delay (transition e) raised))
        | inr (n, u, checked, rest) ↦
            perform-restored (plan strategy previous target) previous target strategy transport n e
              u t reports rest clean
      ]
