-- ===== src/ConnectionSet/Accepted.antt =====
-- A permutation that is accepted becomes the pairs that it lists (`from_permutation` of agent/python/
-- ocs_agent/model.py).
use reconfig_net_sim.Prelude.{
  ℕ, zero, suc, ◌+◌, ◌-◌, ◌≤◌, ◌<◌, ◌≡◌, refl, ap, ◌∙◌, ◌⊎◌, inl, inr, true, not, some, List, [],
  ◌∷◌, ◌↔◌, length, arith, All, get_elem?, Bool-cases, ◌==◌,
}
use reconfig_net_sim.Value.{Value, Items, nil, cons}
use reconfig_net_sim.Errors.{ok, ◌>>=◌, >>=-eq-ok}
use reconfig_net_sim.PairSet.{PairSet, mem}
use reconfig_net_sim.Inventory.{PortInventory, size}
use reconfig_net_sim.Inventory.Laws.{IsInventory}
use reconfig_net_sim.Connection.{Connection}
use reconfig_net_sim.ConnectionSet.{ConnectionSet, directed_pairs, make_set}
use reconfig_net_sim.ConnectionSet.Permutation.{
  entry, entries, item_count, pair_up, sort_numbers, counts_from, from_permutation,
}
use reconfig_net_sim.ConnectionSet.Matching.{IsLink, IsMatching, make_set-IsMatching}
use reconfig_net_sim.ConnectionSet.Pairs.{links_pair, mem-add_pairs, directed_pairs-IsInvolution}
use reconfig_net_sim.ConnectionSet.Slots.{find-slot, Joins}
use reconfig_net_sim.ConnectionSet.Routes.{Linked, pair_up-Covers}

entries-length :
    (items : Items) (mapping : List ℕ)
    → entries items ≡ ok mapping
    → length mapping ≡ item_count items
unfolding entries
entries-length nil mapping h = let same : [] ≡ mapping = cc in rw (← same) refl
entries-length (cons v items) mapping h =
    let (n, _, h1) = >>=-eq-ok (entry v) (λ n. entries items >>= λ ns. ok (n ∷ ns)) h in
    let (ns, found, last) = >>=-eq-ok (entries items) (λ ns. ok (n ∷ ns)) h1 in
    let same : n ∷ ns ≡ mapping = cc in rw (← same) (ap suc (entries-length items ns found))

get_elem?-some : (xs : List ℕ) (i : ℕ) → i < length xs → (x : ℕ) × (get_elem? xs i ≡ some x)
get_elem?-some [] i h = absurd (omega (arith, h))
get_elem?-some (x ∷ xs) zero h = (x, refl)
get_elem?-some (x ∷ xs) (suc i) h = get_elem?-some xs i (omega arith)

module _ {inventory : PortInventory} (v : IsInventory inventory) where
  Joins-pair :
      (c : Connection) (l : IsLink inventory c) (i j : ℕ)
      → Joins c i j
      → ((l.near.index ≡ i) × (l.far.index ≡ j)) ⊎ ((l.near.index ≡ j) × (l.far.index ≡ i))
  Joins-pair c l i j (inl (a, b)) =
      let near = find-slot inventory c.near_port_name l.near v l.near_found in
      let far = find-slot inventory c.far_port_name l.far v l.far_found in
      inl (cc (near, a), cc (far, b))
  Joins-pair c l i j (inr (a, b)) =
      let near = find-slot inventory c.near_port_name l.near v l.near_found in
      let far = find-slot inventory c.far_port_name l.far v l.far_found in
      inr (cc (near, a), cc (far, b))

  Linked-links_pair :
      (cs : List Connection) (h : All (IsLink inventory) cs) (i j : ℕ)
      → Linked cs i j
      → links_pair inventory cs h (i, j) ≡ true
  Linked-links_pair [] h i j e = absurd e
  Linked-links_pair (c ∷ cs) h i j (inl e) = let ends = Joins-pair c h.0 i j e in ground arith
  Linked-links_pair (c ∷ cs) h i j (inr e) = ground (arith, Linked-links_pair cs h.1 i j e)

-- What `from_permutation` makes of a list that it accepts.
built :
    (inventory : PortInventory) (items : Items) (mapping : List ℕ) (s : ConnectionSet)
    → from_permutation inventory (Value.list items) ≡ ok s
    → entries items ≡ ok mapping
    → (length mapping ≡ size inventory)
      × (cs : List Connection) × (pair_up inventory mapping [] 1 mapping ≡ ok cs)
      × (make_set inventory cs ≡ ok s)
unfolding from_permutation
built inventory items mapping s h listed = elim (Bool-cases (item_count items == size inventory)) [
  | inr short ↦ absurd (cc (rw short at h))
  | inl full ↦
      let counted : item_count items ≡ size inventory = ground arith in
      elim (Bool-cases (not (counts_from 1 (sort_numbers mapping)))) [
        | inl wrong ↦ absurd (cc (rw (full, listed, wrong) at h))
        | inr right ↦
            let (cs, paired, made) =
              >>=-eq-ok (pair_up inventory mapping [] 1 mapping) (make_set inventory)
                (rw (full, listed, right) at h) in
            (entries-length items mapping listed ∙ counted, cs, paired, made)
      ]
]

-- The pairs of a matching hold what its connections link.
Linked-mem :
    (s : ConnectionSet) (pairs : PairSet) (i j : ℕ)
    → IsInventory s.inventory
    → IsMatching s
    → directed_pairs s ≡ ok pairs
    → Linked s.connections i j
    → mem (i, j) pairs ≡ true
unfolding directed_pairs
Linked-mem s pairs i j v m h linked =
    let (r, made, members) = mem-add_pairs s.inventory [] s.connections m.links in
    let same : r ≡ pairs = cc in
    let there = Linked-links_pair v s.connections m.links i j linked in
    rw (← same) (members (i, j) ∙ ground arith)

-- Over a valid inventory of n ports, a list of n numbers that `from_permutation` accepts becomes
-- connections whose directed pairs are exactly those that join each slot i from 1 to n to the i-th
-- number.
pub from_permutation_routes :
    (inventory : PortInventory) (items : Items) (mapping : List ℕ) (s : ConnectionSet)
    → IsInventory inventory
    → from_permutation inventory (Value.list items) ≡ ok s
    → entries items ≡ ok mapping
    → (pairs : PairSet) × (directed_pairs s ≡ ok pairs)
      × ((i j : ℕ) → (mem (i, j) pairs ≡ true) ↔ ((1 ≤ i) × (get_elem? mapping (i - 1) ≡ some j)))
from_permutation_routes inventory items mapping s v h listed =
    let (full, cs, paired, made) = built inventory items mapping s h listed in
    let (matching, same, whole) = make_set-IsMatching inventory cs s made in
    let valid : IsInventory s.inventory = rw same v in
    let (pairs, paired_up, involution) = directed_pairs-IsInvolution s valid matching in
    let covers =
      pair_up-Covers inventory mapping 1 mapping v (omega arith)
        (λ k. let same_k : 1 - 1 + k ≡ k = omega arith in ap (λ n. get_elem? mapping n) same_k) in
    let routed : (k d : ℕ) → get_elem? mapping k ≡ some d → mem (1 + k, d) pairs ≡ true = λ k d e.
      Linked-mem s pairs (1 + k) d valid matching paired_up
        (rw whole (covers [] cs paired k d e refl)) in
    (
      pairs,
      paired_up,
      λ i j. (
        λ there.
            let (low, below, apart) = involution.bounds i j there in
            let (d, e) = get_elem?-some mapping (i - 1) (rw (full, ← same) (omega arith)) in
            let place : 1 + (i - 1) ≡ i = omega arith in
            (
              low,
              e ∙ ap some (involution.functional i d j (rw place at (routed (i - 1) d e)) there),
            ),
        λ (low, e). let place : 1 + (i - 1) ≡ i = omega arith in rw place at (routed (i - 1) j e),
      ),
    )
