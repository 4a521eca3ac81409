-- ===== src/P4app/Success.antt =====
-- `P4AppBackend.apply` over a switch that works (agent/python/ocs_agent/backends/p4app.py).
use reconfig_net_sim.Prelude.{
  ℕ, zero, suc, ◌+◌, String, ◌≡◌, refl, ◌∙◌, inl, inr, true, false, not, ◌&&◌, ◌||◌, none, arith,
  length, str_eq, Bool-cases,
}
use reconfig_net_sim.Value.{Value}
use reconfig_net_sim.Errors.{other, transition, Result, ok, err}
use reconfig_net_sim.PairSet.{Pair, PairSet, mem, set_eq, sorted}
use reconfig_net_sim.PairSet.Laws.{mem-diff, mem-sorted, set_eq_iff}
use reconfig_net_sim.PairSet.Unique.{IsUnique, sorted-IsUnique, diff-IsUnique}
use reconfig_net_sim.Backend.{Timing, validate_delay_us}
use reconfig_net_sim.Transition.{Plan, plan, check_strategy}
use reconfig_net_sim.P4app.{Switch, write_pairs, update, perform, check_request, apply, no_time}
use reconfig_net_sim.P4app.Readback.{Holds, roll_back-eq}
use reconfig_net_sim.P4app.Working.{
  IsWorking, write_each-deletes, write_each-inserts, read_pairs-agrees, restore-succeeds,
}

module _ (sw : Switch) (entries : sw.State → PairSet) (working : IsWorking sw entries) where
  -- A plan that can be carried out on a table.
  record IsFitting (p : Plan) (target : PairSet) (s : sw.State) : Type 0 where
    pub removed_once : IsUnique p.removed
    pub added_once : IsUnique p.added
    pub removed_there : (q : Pair) → mem q p.removed ≡ true → mem q (entries s) ≡ true
    pub added_free :
        (q : Pair) → mem q p.added ≡ true → (mem q (entries s) && not (mem q p.removed)) ≡ false
    pub result :
        (q : Pair) → ((mem q (entries s) && not (mem q p.removed)) || mem q p.added) ≡ mem q target

  update-succeeds :
      (p : Plan) (target : PairSet) (s : sw.State)
      → IsFitting p target s
      → (n : ℕ) × (t : sw.State) × (update sw p target "SEQUENTIAL" 0 s ≡ (ok n, t))
        × Holds sw entries t target
  unfolding update write_pairs
  update-succeeds p target s fit =
      let (s1, done, left) =
        write_each-deletes sw entries working (sorted p.removed) s
          (sorted-IsUnique p.removed fit.removed_once)
          (λ q h. fit.removed_there q (ground (arith, mem-sorted q p.removed))) in
      let (s2, done', left') =
        write_each-inserts sw entries working (sorted p.added) s1
          (sorted-IsUnique p.added fit.added_once)
          (λ q h.
            ground
              (arith, left q, fit.added_free q, mem-sorted q p.removed, mem-sorted q p.added)) in
      let (r, t, read, agrees, stays) = read_pairs-agrees sw entries working s2 in
      let held : (q : Pair) → mem q (entries s2) ≡ mem q target = λ q.
        ground
          (arith, left' q, left q, fit.result q, mem-sorted q p.removed, mem-sorted q p.added) in
      let same : set_eq r target ≡ true = (set_eq_iff r target).1 (λ q. agrees q ∙ held q) in
      (
        length (sorted p.removed) + length (sorted p.added),
        t,
        rw (done, done', read, same) refl,
        λ q. stays q ∙ held q,
      )

  -- With a delay the update stops after the deletes.
  update-stops :
      (p : Plan) (target : PairSet) (n : ℕ) (s : sw.State)
      → IsFitting p target s
      → (t : sw.State) × (update sw p target "SEQUENTIAL" (suc n) s ≡ (err (other no_time), t))
        × ((q : Pair) → mem q (entries t) ≡ (mem q (entries s) && not (mem q p.removed)))
  unfolding update write_pairs
  update-stops p target n s fit =
      let (t, done, left) =
        write_each-deletes sw entries working (sorted p.removed) s
          (sorted-IsUnique p.removed fit.removed_once)
          (λ q h. fit.removed_there q (ground (arith, mem-sorted q p.removed))) in
      (t, rw done refl, λ q. ground (arith, left q, mem-sorted q p.removed))

  plan-IsFitting :
      (strategy : String) (previous target : PairSet) (s : sw.State)
      → IsUnique previous
      → IsUnique target
      → Holds sw entries s previous
      → IsFitting (plan strategy previous target) target s
  unfolding plan
  plan-IsFitting strategy previous target s once again held =
      elim (Bool-cases (str_eq strategy "FULL")) [
        | inl full ↦ rw full (record {
          removed_once = once;
          added_once = again;
          removed_there = λ q h. held q ∙ h;
          added_free = λ q h. ground (arith, held q);
          result = λ q. ground (arith, held q);
        })
        | inr delta ↦ rw delta (record {
          removed_once = diff-IsUnique previous target once;
          added_once = diff-IsUnique target previous again;
          removed_there = λ q h. ground (arith, held q, mem-diff q previous target);
          added_free =
              λ q h. ground (arith, held q, mem-diff q previous target, mem-diff q target previous);
          result =
              λ q. ground (arith, held q, mem-diff q previous target, mem-diff q target previous);
        })
      ]

  check_request-passes :
      (strategy : String) (delay : Value) (n : ℕ)
      → validate_delay_us delay ≡ ok n
      → check_strategy strategy ≡ ok tt
      → check_request sw strategy delay "SEQUENTIAL" ≡ ok n
  unfolding check_request
  check_request-passes strategy delay n valid known = rw (valid, known) refl

  -- What an `apply` with this delay leaves: the target, or, where it has to wait, the previous pairs
  -- and the error of the missing name.
  abbrev pub IsSettled : PairSet → PairSet → ℕ → Result Timing × sw.State → Type 0
  IsSettled previous target zero (ok timing, t) = Holds sw entries t target
  IsSettled previous target (suc n) (err (transition e), t) =
      (e.update_error ≡ no_time) × (e.rollback_error ≡ none) × Holds sw entries t previous
  IsSettled previous target n outcome = ⊥

  perform-IsSettled :
      (strategy : String) (previous target : PairSet) (n : ℕ) (s : sw.State)
      → IsUnique previous
      → IsUnique target
      → Holds sw entries s previous
      → IsSettled previous target n
          (perform sw (plan strategy previous target) previous target strategy "SEQUENTIAL" n s)
  unfolding perform
  perform-IsSettled strategy previous target zero s once again held =
      let (requests, t, done, there) =
        update-succeeds (plan strategy previous target) target s
          (plan-IsFitting strategy previous target s once again held) in
      rw done there
  perform-IsSettled strategy previous target (suc n) s once again held =
      let p = plan strategy previous target in
      let (t, stopped, left) =
        update-stops p target n s (plan-IsFitting strategy previous target s once again held) in
      let (u, restored, back) =
        restore-succeeds sw entries working previous t once
          (λ q h. ground (arith, left q, held q)) in
      rw (stopped, roll_back-eq sw entries {A = ℕ} previous (other no_time) t, restored)
        (refl, refl, back)

  -- Over a switch that works, from a table that holds exactly the previous pairs, every `apply` with a
  -- valid delay and a known strategy, FULL or DELTA, by the transport SEQUENTIAL ends in one of two ways.
  -- Without a delay it returns and leaves exactly the target in the table. With a delay it raises a
  -- BackendTransitionError whose cause is that the name `time` is not defined, and has restored exactly
  -- the previous pairs.
  pub apply-IsSettled :
      (previous target : PairSet) (strategy : String) (delay : Value) (n : ℕ) (s : sw.State)
      → IsUnique previous
      → IsUnique target
      → Holds sw entries s previous
      → validate_delay_us delay ≡ ok n
      → check_strategy strategy ≡ ok tt
      → IsSettled previous target n (apply sw previous target strategy delay "SEQUENTIAL" s)
  unfolding apply
  apply-IsSettled previous target strategy delay n s once again held valid known =
      rw (check_request-passes strategy delay n valid known)
        (perform-IsSettled strategy previous target n s once again held)
