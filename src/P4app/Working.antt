-- ===== src/P4app/Working.antt =====
-- A switch that does what it is told, and what the steps of `P4AppBackend` do over it (agent/python/
-- ocs_agent/backends/p4app.py): it never deletes an entry that is not there, and never inserts one that
-- is.
use reconfig_net_sim.Prelude.{
  ◌≡◌, refl, ◌∙◌, ◌⊎◌, inl, inr, true, false, not, ◌&&◌, ◌||◌, none, some, List, [], ◌∷◌, arith,
  Bool-cases,
}
use reconfig_net_sim.Errors.{ok}
use reconfig_net_sim.Exec.{Exec}
use reconfig_net_sim.PairSet.{Pair, PairSet, pair_eq, mem, set_eq, sorted, diff, to_set}
use reconfig_net_sim.PairSet.Laws.{
  mem-nil, mem-cons, mem-diff, mem-sorted, mem-eq, set_eq_iff, pair_eq_refl,
}
use reconfig_net_sim.PairSet.Unique.{IsUnique, sorted-IsUnique, diff-IsUnique}
use reconfig_net_sim.P4app.{Switch, delete, insert, read_pairs, write_pair, write_each, restore}
use reconfig_net_sim.P4app.Decode.{Row, decode_rows}
use reconfig_net_sim.P4app.Readback.{Holds}
use reconfig_net_sim.P4app.Contract.{IsTable, read_pairs-keeps, read_pairs-Reports}

-- A delete of an entry that is there removes it.
abbrev pub Deletes : {S : Type 0} → (S → PairSet) → (Pair → Exec S (Unit {0})) → Type 0
Deletes {S} entries m =
    (p : Pair) (s : S)
    → mem p (entries s) ≡ true
    → (t : S) × (m p s ≡ (ok tt, t))
      × ((q : Pair) → mem q (entries t) ≡ (mem q (entries s) && not (pair_eq q p)))

-- An insert of an entry that is not there adds it.
abbrev pub Inserts : {S : Type 0} → (S → PairSet) → (Pair → Exec S (Unit {0})) → Type 0
Inserts {S} entries m =
    (p : Pair) (s : S)
    → mem p (entries s) ≡ false
    → (t : S) × (m p s ≡ (ok tt, t))
      × ((q : Pair) → mem q (entries t) ≡ (mem q (entries s) || pair_eq q p))

-- Every read of the table succeeds.
abbrev pub Reads : {S : Type 0} → Exec S (List Row) → Type 0
Reads {S} m = (s : S) → (rows : List Row) × (t : S) × (m s ≡ (ok rows, t))

-- What a working switch promises: the methods that it has do what they are told, its reads are sound,
-- and it lists its entries or can be read.
pub record IsWorking (sw : Switch) (entries : sw.State → PairSet) : Type 0 where
  pub table : IsTable sw entries
  pub own : sw.has_runtime ≡ false → Deletes entries sw.own_delete × Inserts entries sw.own_insert
  pub runtime :
      sw.has_runtime ≡ true → Deletes entries sw.runtime_delete × Inserts entries sw.runtime_insert
  pub readable :
      ((list : sw.State → List Pair) × (sw.own_entries ≡ some list))
      ⊎ ((sw.own_entries ≡ none)
          × (sw.has_runtime ≡ true)
          × (sw.can_read_table ≡ true)
          × Reads (sw.read_table sw.table_id))

module _ (sw : Switch) (entries : sw.State → PairSet) (working : IsWorking sw entries) where
  write_pair-Deletes : Deletes entries (write_pair sw delete)
  unfolding write_pair
  write_pair-Deletes p s there = elim (Bool-cases sw.has_runtime) [
    | inl remote ↦ rw remote ((working.runtime remote).0 p s there)
    | inr local ↦ rw local ((working.own local).0 p s there)
  ]

  write_pair-Inserts : Inserts entries (write_pair sw insert)
  unfolding write_pair
  write_pair-Inserts p s free = elim (Bool-cases sw.has_runtime) [
    | inl remote ↦ rw remote ((working.runtime remote).1 p s free)
    | inr local ↦ rw local ((working.own local).1 p s free)
  ]

  read_pairs-returns :
      (s : sw.State) → (r : PairSet) × (t : sw.State) × (read_pairs sw s ≡ (ok r, t))
  unfolding read_pairs
  read_pairs-returns s = elim working.readable [
    | inl (list, attribute) ↦ (to_set [] (list s), s, rw attribute refl)
    | inr (attribute, remote, can, reads) ↦
        let (rows, t, read) = reads s in
        (decode_rows sw.table_id [] rows, t, rw (attribute, remote, can, read) refl)
  ]

  pub read_pairs-agrees :
      (s : sw.State)
      → (r : PairSet) × (t : sw.State) × (read_pairs sw s ≡ (ok r, t))
        × ((q : Pair) → mem q r ≡ mem q (entries s))
        × ((q : Pair) → mem q (entries t) ≡ mem q (entries s))
  read_pairs-agrees s =
      let (r, t, read) = read_pairs-returns s in
      let stays : (q : Pair) → mem q (entries t) ≡ mem q (entries s) =
        λ q. rw read at (read_pairs-keeps sw entries working.table s q) in
      (r, t, read, λ q. read_pairs-Reports sw entries working.table s t r read q ∙ stays q, stays)

  pub write_each-deletes :
      (ps : List Pair) (s : sw.State)
      → IsUnique ps
      → ((q : Pair) → mem q ps ≡ true → mem q (entries s) ≡ true)
      → (t : sw.State) × (write_each sw delete ps s ≡ (ok tt, t))
        × ((q : Pair) → mem q (entries t) ≡ (mem q (entries s) && not (mem q ps)))
  unfolding write_each
  write_each-deletes [] s u there = (s, refl, λ q. ground (arith, mem-nil q))
  write_each-deletes (p ∷ ps) s (fresh, u) there =
      let (s1, done, left) = write_pair-Deletes p s (there p (ground (arith, mem-cons p p ps))) in
      let (t, rest, last) =
        write_each-deletes ps s1 u
          (λ q h. ground (arith, left q, there q, mem-cons q p ps, mem-eq q p ps)) in
      (t, rw done rest, λ q. ground (arith, last q, left q, mem-cons q p ps))

  pub write_each-inserts :
      (ps : List Pair) (s : sw.State)
      → IsUnique ps
      → ((q : Pair) → mem q ps ≡ true → mem q (entries s) ≡ false)
      → (t : sw.State) × (write_each sw insert ps s ≡ (ok tt, t))
        × ((q : Pair) → mem q (entries t) ≡ (mem q (entries s) || mem q ps))
  unfolding write_each
  write_each-inserts [] s u free = (s, refl, λ q. ground (arith, mem-nil q))
  write_each-inserts (p ∷ ps) s (fresh, u) free =
      let (s1, done, left) = write_pair-Inserts p s (free p (ground (arith, mem-cons p p ps))) in
      let (t, rest, last) =
        write_each-inserts ps s1 u
          (λ q h. ground (arith, left q, free q, mem-cons q p ps, mem-eq q p ps)) in
      (t, rw done rest, λ q. ground (arith, last q, left q, mem-cons q p ps))

  -- A list without members has no repetition.
  no_members-IsUnique : (ps : List Pair) → ((q : Pair) → mem q ps ≡ false) → IsUnique ps
  no_members-IsUnique [] none_there = tt
  no_members-IsUnique (p ∷ ps) none_there =
      absurd (ground (arith, none_there p, mem-cons p p ps, pair_eq_refl p))

  -- A rollback from a table that lacks some of the previous pairs puts them back.
  pub restore-succeeds :
      (previous : PairSet) (s : sw.State)
      → IsUnique previous
      → ((q : Pair) → mem q (entries s) ≡ true → mem q previous ≡ true)
      → (t : sw.State) × (restore sw previous s ≡ (ok tt, t)) × Holds sw entries t previous
  unfolding restore
  restore-succeeds previous s once lacks =
      let (current, s1, read, agrees, stays) = read_pairs-agrees s in
      let extra = diff current previous in
      let nothing : (q : Pair) → mem q extra ≡ false =
        λ q. ground (arith, mem-diff q current previous, agrees q, lacks q) in
      let (s2, done, left) =
        write_each-deletes (sorted extra) s1
          (sorted-IsUnique extra (no_members-IsUnique extra nothing))
          (λ q h. absurd (ground (arith, mem-sorted q extra, nothing q))) in
      let lost = diff previous current in
      let (s3, done', left') =
        write_each-inserts (sorted lost) s2
          (sorted-IsUnique lost (diff-IsUnique previous current once))
          (λ q h.
            ground
              (arith, left q, stays q, agrees q, mem-sorted q lost, mem-diff q previous current)) in
      let (r, t, read', agrees', stays') = read_pairs-agrees s3 in
      let held : (q : Pair) → mem q (entries s3) ≡ mem q previous = λ q. ground (
        arith,
        left' q,
        left q,
        stays q,
        agrees q,
        lacks q,
        nothing q,
        mem-sorted q extra,
        mem-sorted q lost,
        mem-diff q previous current,
      ) in
      let same : set_eq r previous ≡ true = (set_eq_iff r previous).1 (λ q. agrees' q ∙ held q) in
      (t, rw (read, done, done', read', same) refl, λ q. stays' q ∙ held q)
