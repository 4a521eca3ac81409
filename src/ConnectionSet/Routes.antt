-- ===== src/ConnectionSet/Routes.antt =====
-- The loop of `from_permutation` links every port to where the permutation maps it (agent/python/
-- ocs_agent/model.py).
use reconfig_net_sim.Prelude.{
  ℕ, zero, suc, ◌+◌, ◌-◌, ◌≤◌, ◌≡◌, ◌≢◌, ap, ◌⊎◌, inl, inr, true, false, not, Option, none, some,
  List, [], ◌∷◌, arith, any, get_elem?, Bool-cases, ◌==◌,
}
use reconfig_net_sim.Errors.{ok, >>=-eq-ok}
use reconfig_net_sim.Inventory.{PortInventory}
use reconfig_net_sim.Inventory.Laws.{IsInventory}
use reconfig_net_sim.Connection.{Connection}
use reconfig_net_sim.ConnectionSet.Permutation.{link, is_at, pair_up}
use reconfig_net_sim.ConnectionSet.Slots.{Joins, Joins-swap, link-Joins}

-- Some connection of the list joins the slots.
abbrev pub Linked : List Connection → ℕ → ℕ → Type 0
Linked [] i j = ⊥
Linked (c ∷ cs) i j = Joins c i j ⊎ Linked cs i j

any-visited :
    (k destination source : ℕ) (visited : List ℕ)
    → any (λ v. v == k) visited ≡ false
    → k ≢ source
    → k ≢ destination
    → any (λ v. v == k) (destination ∷ source ∷ visited) ≡ false
any-visited k destination source visited h a b = ground arith

-- The rest of the loop links every slot from `source` on that is not yet visited to where it is mapped.
abbrev pub Covers : PortInventory → List ℕ → ℕ → List ℕ → Type 0
Covers inventory mapping source rest =
    (visited : List ℕ) (cs : List Connection)
    → pair_up inventory mapping visited source rest ≡ ok cs
    → (k d : ℕ) → get_elem? rest k ≡ some d
    → any (λ v. v == source + k) visited ≡ false
    → Linked cs (source + k) d

is_at-eq : (n : ℕ) (o : Option ℕ) → not (is_at n o) ≡ false → o ≡ some n
is_at-eq n none h = absurd (cc)
is_at-eq n (some m) h = let same : m ≡ n = ground arith in ap some same

module _ (inventory : PortInventory) (mapping : List ℕ) (source destination : ℕ) (rest : List ℕ)
    (v : IsInventory inventory) (positive : 1 ≤ source)
    (part : (k : ℕ) → get_elem? mapping (source - 1 + k) ≡ get_elem? (destination ∷ rest) k)
    (covers : Covers inventory mapping (source + 1) rest) where
  skip-Linked :
      (visited : List ℕ) (cs : List Connection) (k d : ℕ)
      → any (λ v. v == source) visited ≡ true
      → pair_up inventory mapping visited (source + 1) rest ≡ ok cs
      → get_elem? (destination ∷ rest) k ≡ some d
      → any (λ v. v == source + k) visited ≡ false
      → Linked cs (source + k) d
  skip-Linked visited cs zero d seen skipped here new =
      let same : source + 0 ≡ source = omega arith in absurd (cc (rw same at new, seen))
  skip-Linked visited cs (suc k) d seen skipped there new =
      let same : source + suc k ≡ source + 1 + k = omega arith in
      rw same (covers visited cs skipped k d there (rw same at new))

  join-Linked :
      (visited : List ℕ) (c : Connection) (ds : List Connection) (k d : ℕ)
      → get_elem? mapping (destination - 1) ≡ some source
      → link inventory source destination ≡ ok c
      → pair_up inventory mapping (destination ∷ source ∷ visited) (source + 1) rest ≡ ok ds
      → get_elem? (destination ∷ rest) k ≡ some d
      → any (λ v. v == source + k) visited ≡ false
      → Linked (c ∷ ds) (source + k) d
  join-Linked visited c ds zero d reply made more here new =
      let same : source + 0 ≡ source = omega arith in
      let there : destination ≡ d = cc in
      rw (same, ← there) (inl (link-Joins inventory source destination c v made))
  join-Linked visited c ds (suc k) d reply made more there new =
      elim (Bool-cases (source + suc k == destination)) [
        | inl hit ↦
            let place : source + suc k ≡ destination = ground arith in
            let index : destination - 1 ≡ source - 1 + suc k = omega arith in
            let same : source ≡ d = cc (rw index at reply, part (suc k), there) in
            rw (place, ← same)
              (inl (
                Joins-swap c source destination (link-Joins inventory source destination c v made)))
        | inr miss ↦
            let same : source + suc k ≡ source + 1 + k = omega arith in
            let unvisited =
              any-visited (source + 1 + k) destination source visited (rw same at new)
                (λ e. omega arith) (λ e. absurd (ground arith)) in
            inr (rw same (covers (destination ∷ source ∷ visited) ds more k d there unvisited))
      ]

  turn-Covers : Covers inventory mapping source (destination ∷ rest)
  unfolding pair_up
  turn-Covers visited cs h k d e new = elim (Bool-cases (source == destination)) [
    | inl self ↦ absurd (cc (rw self at h))
    | inr moves ↦ elim (Bool-cases (not (is_at source (get_elem? mapping (destination - 1))))) [
      | inl one_way ↦ absurd (cc (rw (moves, one_way) at h))
      | inr two_way ↦ elim (Bool-cases (any (λ v. v == source) visited)) [
        | inl seen ↦ skip-Linked visited cs k d seen (rw (moves, two_way, seen) at h) e new
        | inr fresh ↦
            let (c, made, h1) =
              >>=-eq-ok (link inventory source destination) _ (rw (moves, two_way, fresh) at h) in
            let (ds, more, last) =
              >>=-eq-ok
                (pair_up inventory mapping (destination ∷ source ∷ visited) (source + 1) rest)
                (λ ds. ok (c ∷ ds)) h1 in
            let same : c ∷ ds ≡ cs = cc in
            let reply = is_at-eq source (get_elem? mapping (destination - 1)) two_way in
            rw (← same) (join-Linked visited c ds k d reply made more e new)
      ]
    ]
  ]

pub pair_up-Covers :
    (inventory : PortInventory) (mapping : List ℕ) (source : ℕ) (rest : List ℕ)
    → IsInventory inventory
    → 1 ≤ source
    → ((k : ℕ) → get_elem? mapping (source - 1 + k) ≡ get_elem? rest k)
    → Covers inventory mapping source rest
pair_up-Covers inventory mapping source [] v positive part = λ visited cs h k d e new. absurd (cc)
pair_up-Covers inventory mapping source (destination ∷ rest) v positive part =
    turn-Covers inventory mapping source destination rest v positive part (
      pair_up-Covers inventory mapping (source + 1) rest v (omega arith) (λ k.
        let same : source + 1 - 1 + k ≡ source - 1 + suc k = omega arith in rw same (part (suc k))))
