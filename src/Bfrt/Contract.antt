-- ===== src/Bfrt/Contract.antt =====
-- The BFRT backend, where it reads its writes back, keeps the contract that the Agent relies on
-- (agent/python/ocs_agent/backends/bfrt.py).
use reconfig_net_sim.Prelude.{
  ℕ, String, ◌≡◌, refl, sym, ap, ◌∙◌, inl, inr, Bool, false, List, [], ◌∷◌, str_eq, Bool-cases,
  Option-cases,
}
use reconfig_net_sim.Value.{Value}
use reconfig_net_sim.Errors.{Raised, transition, Result, ok, err, Result-cases}
use reconfig_net_sim.Exec.{lift, catch, outcome, bind-eq-ok, catch-eq-ok}
use reconfig_net_sim.PairSet.{Pair, PairSet, add, set_eq}
use reconfig_net_sim.PairSet.Laws.{set_eq_iff}
use reconfig_net_sim.Backend.{Timing}
use reconfig_net_sim.Backend.Laws.{is_transition, IsFaithful}
use reconfig_net_sim.Transition.{Plan, plan}
use reconfig_net_sim.Bfrt.{
  Client, State, delete, insert, PortMap, to_logical, logical_pair, logical_pairs, read_pairs,
  write_pairs, verify, update, roll_back, apply, perform, check_request, backend,
}
use reconfig_net_sim.Bfrt.Keeps.{write_pairs-keeps}
use reconfig_net_sim.Bfrt.Readback.{
  ReadsTable, Holds, IsVerified, read_pairs-Holds, roll_back-eq, apply-Holds, apply-restored,
}

logical_pair-plain :
    (m : PortMap) (row : Pair) (x : Raised) → logical_pair m row ≡ err x → is_transition x ≡ false
unfolding logical_pair
logical_pair-plain m row (transition e) h = elim (Option-cases (to_logical m row.0)) [
  | inl missing ↦ absurd (cc (rw missing at h))
  | inr (i, there) ↦ elim (Option-cases (to_logical m row.1)) [
    | inl missing ↦ absurd (cc (rw (there, missing) at h))
    | inr (j, also) ↦ absurd (cc (rw (there, also) at h))
  ]
]
logical_pair-plain m row x h = refl

logical_pairs-plain :
    (m : PortMap) (pairs : PairSet) (rows : List Pair) (x : Raised)
    → logical_pairs m pairs rows ≡ err x
    → is_transition x ≡ false
unfolding logical_pairs
logical_pairs-plain m pairs [] x h = absurd (cc)
logical_pairs-plain m pairs (row ∷ rows) x h = elim (Result-cases (logical_pair m row)) [
  | inr (y, e) ↦ let same : y ≡ x = cc (rw e at h) in rw (← same) (logical_pair-plain m row y e)
  | inl (p, e) ↦ logical_pairs-plain m (add p pairs) rows x (rw e at h)
]

module _ (client : Client) (now : ℕ) (entries : client.Hardware → List Pair) where
  -- What is relied on in the client: a read reports the table and leaves it alone.
  pub record IsTable : Type 0 where
    pub reports : ReadsTable client now entries
    pub keeps :
        (from_hw : Bool) (s : client.Hardware) → entries (client.entry_get from_hw s).1 ≡ entries s
    pub plain :
        (from_hw : Bool) (s t : client.Hardware) (x : Raised)
        → client.entry_get from_hw s ≡ (err x, t)
        → is_transition x ≡ false

  -- What is said of a table whose writes are read back.
  abbrev pub HoldsVerified : State client now → PairSet → Type 0
  HoldsVerified a pairs = IsVerified client now entries a → Holds client now entries a pairs

  read_pairs-keeps :
      (table : IsTable) (a : State client now) (pairs : PairSet)
      → HoldsVerified a pairs
      → HoldsVerified (read_pairs client now false a).1 pairs
  unfolding read_pairs
  read_pairs-keeps table a pairs h = elim (outcome (client.entry_get false a.hardware)) [
    | inr (x, t, e) ↦ rw e (rw (sym (rw e at (table.keeps false a.hardware))) at h)
    | inl (rows, t, e) ↦ rw e (elim (Result-cases (logical_pairs a.port_map [] rows)) [
      | inr (x, f) ↦ rw f (rw (sym (rw e at (table.keeps false a.hardware))) at h)
      | inl (p, f) ↦ rw f (rw (sym (rw e at (table.keeps false a.hardware))) at h)
    ])
  ]

  read_pairs-plain :
      (table : IsTable) (a b : State client now) (x : Raised)
      → read_pairs client now false a ≡ (err x, b)
      → is_transition x ≡ false
  unfolding read_pairs
  read_pairs-plain table a b x h = elim (outcome (client.entry_get false a.hardware)) [
    | inr (y, t, e) ↦
        let same : y ≡ x = cc (rw e at h) in rw (← same) (table.plain false a.hardware t y e)
    | inl (rows, t, e) ↦ elim (Result-cases (logical_pairs a.port_map [] rows)) [
      | inr (y, f) ↦
          let same : y ≡ x = cc (rw (e, f) at h) in
          rw (← same) (logical_pairs-plain a.port_map [] rows y f)
      | inl (p, f) ↦ absurd (cc (rw (e, f) at h))
    ]
  ]

  verify-keeps :
      (target : PairSet) (a : State client now)
      → (verify client now target a).1.write_verification ≡ a.write_verification
  unfolding verify read_pairs
  verify-keeps target a = elim (Bool-cases (str_eq a.write_verification "SOFTWARE_READBACK")) [
    | inr acked ↦ rw acked refl
    | inl verified ↦ rw verified (elim (outcome (client.entry_get false a.hardware)) [
      | inr (x, t, e) ↦ rw e refl
      | inl (rows, t, e) ↦ rw e (elim (Result-cases (logical_pairs a.port_map [] rows)) [
        | inr (x, f) ↦ rw f refl
        | inl (p, f) ↦ rw f (elim (Bool-cases (set_eq p target)) [
          | inl same ↦ rw same refl
          | inr differ ↦ rw differ refl
        ])
      ])
    ])
  ]

  update-keeps :
      (p : Plan) (target : PairSet) (transport : String) (n : ℕ) (a b : State client now)
      → update client now p target transport a ≡ (ok n, b)
      → b.write_verification ≡ a.write_verification
  unfolding update
  update-keeps p target transport n a b h =
      let (d, s1, deleted, h1) =
        bind-eq-ok (write_pairs client now delete p.removed transport) _ a h in
      let (i, s2, inserted, h2) =
        bind-eq-ok (write_pairs client now insert p.added transport) _ s1 h1 in
      let acked = record s2 { last_write_ack_unix_ns = now } in
      let (_, s3, checked, last) = bind-eq-ok (verify client now target) _ acked h2 in
      let same : s3 ≡ b = cc in
      rw (← same) (
        rw checked at (verify-keeps target acked)
        ∙ write_pairs-keeps client now insert p.added transport i s1 s2 inserted
        ∙ write_pairs-keeps client now delete p.removed transport d a s1 deleted)

  apply-keeps :
      (previous target : PairSet) (strategy transport : String) (delay : Value) (timing : Timing)
      (a b : State client now)
      → apply client now previous target strategy delay transport a ≡ (ok timing, b)
      → b.write_verification ≡ a.write_verification
  unfolding apply perform
  apply-keeps previous target strategy transport delay timing a b h =
      let (n, s, checked, rest) =
        bind-eq-ok (lift (check_request strategy delay transport)) _ a h in
      let p = plan strategy previous target in
      let (k, t, tried, last) =
        bind-eq-ok (catch (update client now p target transport) (roll_back client now previous)) _
          s rest in
      let same : a ≡ s = ap (λ (q : Result ℕ × State client now). q.1) checked in
      let ended = ap (λ (q : Result Timing × State client now). q.1.write_verification) last in
      elim (catch-eq-ok (update client now p target transport) (roll_back client now previous) s
        tried) [
          | inl done ↦
              sym ended
              ∙ update-keeps p target transport k s t done
              ∙ ap (λ (q : State client now). q.write_verification) (sym same)
          | inr (e, u, failed, handled) ↦
              absurd (cc (handled, roll_back-eq client now entries {A = ℕ} previous e u))
        ]

  -- Where the client's reads are sound, the BFRT backend keeps the contract that the Agent relies on, of
  -- what its table holds in every mode but CACHED_ACK, in which it does not read back what it wrote.
  pub backend-IsFaithful_verified : IsTable → IsFaithful (backend client now) HoldsVerified
  backend-IsFaithful_verified table = record {
    respects = λ a p q same held verified.
        let (observed, read, equal) = held verified in
        (
          observed,
          read,
          (set_eq_iff observed q).1
              (λ x. (set_eq_iff observed p).0 equal x ∙ (set_eq_iff p q).0 same x),
        );
    reads = record {
      keeps = read_pairs-keeps table;
      reports = λ a b r h verified. (
        r,
        read_pairs-Holds client now entries false a b r table.reports h,
        (set_eq_iff r r).1 (λ x. refl),
      );
      plain = read_pairs-plain table;
    };
    written = λ previous target strategy transport delay timing a b h verified.
        apply-Holds client now entries previous target strategy transport delay timing a b
          table.reports
          (rw (apply-keeps previous target strategy transport delay timing a b h) at verified) h;
    rolled_back = λ previous target strategy transport delay e a b h clean verified.
        apply-restored client now entries previous target strategy transport delay e a b
          table.reports h clean;
    reconciles = λ reconcile desired there. absurd (cc there);
    recovers = λ recover desired strategy transport delay timing a b there h. absurd (cc there);
  }
