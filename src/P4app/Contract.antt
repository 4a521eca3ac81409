-- ===== src/P4app/Contract.antt =====
-- `P4AppBackend` keeps the contract of a backend (agent/python/ocs_agent/backends/p4app.py), given
-- what the switch promises of its table reads.
use reconfig_net_sim.Prelude.{
  ℕ, ◌≡◌, sym, ◌∙◌, inl, inr, Bool, false, ◌&&◌, none, some, List, [], arith, Bool-cases,
  Option-cases,
}
use reconfig_net_sim.Errors.{Raised, ok, err}
use reconfig_net_sim.Exec.{outcome, bind-eq-ok, bind-eq-err}
use reconfig_net_sim.PairSet.{Pair, PairSet, mem, to_set}
use reconfig_net_sim.PairSet.Laws.{mem-nil, set_eq_iff, mem-to_set}
use reconfig_net_sim.Backend.Laws.{IsRead, IsFaithful, is_transition}
use reconfig_net_sim.P4app.{Switch, read_pairs, backend}
use reconfig_net_sim.P4app.Decode.{Row, decode_rows}
use reconfig_net_sim.P4app.Rows.{Lists, mem-decode_rows}
use reconfig_net_sim.P4app.Readback.{Reports, Holds, apply-Holds, apply-restored}

-- What the switch promises of its reads: a read leaves the entries of the table alone, and a
-- successful one returns a row for each of them. `entries` is the table.
pub record IsTable (sw : Switch) (entries : sw.State → PairSet) : Type 0 where
  pub own :
      (list : sw.State → List Pair)
      → sw.own_entries ≡ some list
      → (s : sw.State) (p : Pair) → mem p (list s) ≡ mem p (entries s)
  pub keeps :
      (id : ℕ) (s : sw.State) (p : Pair)
      → mem p (entries (sw.read_table id s).1) ≡ mem p (entries s)
  pub rows :
      (s t : sw.State) (rows : List Row)
      → sw.read_table sw.table_id s ≡ (ok rows, t)
      → (ps : List Pair) × Lists sw.table_id rows ps × ((p : Pair) → mem p ps ≡ mem p (entries t))
  pub plain :
      (s t : sw.State) (x : Raised)
      → sw.read_table sw.table_id s ≡ (err x, t)
      → is_transition x ≡ false

module _ (sw : Switch) (entries : sw.State → PairSet) (table : IsTable sw entries) where
  abbrev can_read : Bool
  can_read = sw.has_runtime && sw.can_read_table

  -- A read on each of its branches.
  listed :
      (s t : sw.State) (r : PairSet) (list : sw.State → List Pair)
      → sw.own_entries ≡ some list
      → read_pairs sw s ≡ (ok r, t)
      → (p : Pair) → mem p r ≡ mem p (entries t)
  unfolding read_pairs
  listed s t r list attribute h p =
      let same : to_set [] (list s) ≡ r = cc (rw attribute at h) in
      let stays : s ≡ t = cc (rw attribute at h) in
      rw (← same, ← stays)
        (ground (arith, mem-to_set p [] (list s), mem-nil p, table.own list attribute s p))

  scanned :
      (s t : sw.State) (r : PairSet)
      → sw.own_entries ≡ none
      → read_pairs sw s ≡ (ok r, t)
      → (p : Pair) → mem p r ≡ mem p (entries t)
  unfolding read_pairs
  scanned s t r attribute h p = elim (Bool-cases can_read) [
    | inr blind ↦ absurd (cc (rw (attribute, blind) at h))
    | inl reads ↦
        let (found, u, read, last) =
          bind-eq-ok (sw.read_table sw.table_id) _ s (rw (attribute, reads) at h) in
        let same : decode_rows sw.table_id [] found ≡ r = cc in
        let stays : u ≡ t = cc in
        let (ps, lists, agrees) = table.rows s u found read in
        let there : mem p (decode_rows sw.table_id [] found) ≡ mem p (entries u) =
          ground (arith, mem-decode_rows [] lists p, mem-nil p, agrees p) in
        rw (← same, ← stays) there
  ]

  pub read_pairs-Reports : Reports sw entries
  read_pairs-Reports s t r h p = elim (Option-cases sw.own_entries) [
    | inl attribute ↦ scanned s t r attribute h p
    | inr (list, attribute) ↦ listed s t r list attribute h p
  ]

  pub read_pairs-keeps :
      (s : sw.State) (p : Pair) → mem p (entries (read_pairs sw s).1) ≡ mem p (entries s)
  unfolding read_pairs
  read_pairs-keeps s p = elim (Option-cases sw.own_entries) [
    | inr (list, attribute) ↦ rw attribute
    | inl attribute ↦ rw attribute (elim (Bool-cases can_read) [
      | inr blind ↦ rw blind
      | inl reads ↦ rw reads (elim (outcome (sw.read_table sw.table_id s)) [
        | inl (found, t, e) ↦ rw e (rw e at (table.keeps sw.table_id s p))
        | inr (x, t, e) ↦ rw e (rw e at (table.keeps sw.table_id s p))
      ])
    ])
  ]

  read_pairs-plain :
      (s t : sw.State) (x : Raised) → read_pairs sw s ≡ (err x, t) → is_transition x ≡ false
  unfolding read_pairs
  read_pairs-plain s t x h = elim (Option-cases sw.own_entries) [
    | inr (list, attribute) ↦ absurd (cc (rw attribute at h))
    | inl attribute ↦ elim (Bool-cases can_read) [
      | inr blind ↦ ground (arith, rw (attribute, blind) at h)
      | inl reads ↦
          elim (bind-eq-err (sw.read_table sw.table_id) _ s (rw (attribute, reads) at h)) [
            | inl failed ↦ table.plain s t x failed
            | inr (found, u, read, last) ↦ absurd (cc)
          ]
    ]
  ]

  read_pairs-IsRead : IsRead (Holds sw entries) (read_pairs sw)
  read_pairs-IsRead = record {
    keeps = λ s pairs held p. read_pairs-keeps s p ∙ held p;
    reports = λ s t r h p. sym (read_pairs-Reports s t r h p);
    plain = read_pairs-plain;
  }

  -- Where the table's reads are sound, the backend keeps the contract that the Agent relies on,
  -- whatever the writes of the switch do: `read_pairs` returns the table and leaves it alone, an `apply`
  -- that returns has left exactly the target in it, and one that reports a failed update and no failed
  -- rollback has left exactly the previous pairs in it.
  pub backend-IsFaithful : IsFaithful (backend sw) (Holds sw entries)
  backend-IsFaithful = record {
    respects = λ s p q same held x. held x ∙ (set_eq_iff p q).0 same x;
    reads = read_pairs-IsRead;
    written = λ previous target strategy transport delay timing s t h.
        apply-Holds sw entries previous target strategy transport delay timing s t
          read_pairs-Reports h;
    rolled_back = λ previous target strategy transport delay e s t h clean.
        apply-restored sw entries previous target strategy transport delay e s t read_pairs-Reports
          h clean;
    reconciles = λ reconcile desired there. absurd (cc there);
    recovers = λ recover desired strategy transport delay timing s t there h. absurd (cc there);
  }
