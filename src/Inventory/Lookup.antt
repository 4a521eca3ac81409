-- ===== src/Inventory/Lookup.antt =====
-- The two lookups of `PortInventory`, by name and by index, agree.
use reconfig_net_sim.Prelude.{
  ℕ, suc, ◌+◌, ◌-◌, ◌≤◌, ◌<◌, String, ◌≡◌, refl, sym, ap, ◌∙◌, Bool, true, false, some, List, [],
  ◌∷◌, arith, length, get_elem?, any, first, All, str_eq, eq_iff, Bool-cases, inl, inr,
}
use reconfig_net_sim.Prelude.Int.{pos}
use reconfig_net_sim.Value.{Value}
use reconfig_net_sim.Errors.{ok}
use reconfig_net_sim.Inventory.{
  Port, PortInventory, port_slot, is_range_from, has_repeated_name, size, find, by_index,
}
use reconfig_net_sim.Inventory.Laws.{IsNamed, IsInventory}

-- In a run of indexes from `start` on, a port stands at its index.
range-position :
    (test : Port → Bool) (start : ℕ) (ports : List Port) (p : Port)
    → is_range_from start ports ≡ true
    → first test ports ≡ some p
    → (i : ℕ) × (p.index ≡ start + i)
      × (get_elem? ports i ≡ some p)
      × (i < length ports)
      × (test p ≡ true)
range-position test start [] p r h = cc
range-position test start (q ∷ ports) p r h = elim (Bool-cases (test q)) [
  | inl hit ↦
      let e : q ≡ p = ground arith in
      (0, rw (← e) (ground arith), ap some e, omega arith, rw (← e) hit)
  | inr miss ↦
      let (i, index, at, below, passed) =
        range-position test (start + 1) ports p (ground arith) (ground arith) in
      (suc i, omega arith, at, omega arith, passed)
]

-- In a valid inventory of n ports, a port that is found under a name has that name and an index from 1
-- to n, and `by_index` finds it under that index.
pub by_index-find :
    (inventory : PortInventory) (name : String) (p : Port)
    → IsInventory inventory
    → find inventory name ≡ some p
    → (p.name ≡ name)
      × (1 ≤ p.index)
      × (p.index ≤ size inventory)
      × (by_index inventory (Value.int (pos p.index)) ≡ ok p)
unfolding find by_index
by_index-find inventory name p v h =
    let (i, index, at, below, named) =
      range-position (λ q. str_eq q.name name) 1 inventory.ports p v.indexed h in
    let back : p.index - 1 ≡ i = omega arith in
    ((eq_iff p.name name).0 named, omega arith, omega arith, rw back (ground arith))

-- In a valid inventory, two names whose ports have one index are the same name.
pub find-injective :
    (inventory : PortInventory) (n m : String) (p q : Port)
    → IsInventory inventory
    → find inventory n ≡ some p
    → find inventory m ≡ some q
    → p.index ≡ q.index
    → n ≡ m
find-injective inventory n m p q v hp hq e =
    let (pn, _, _, pi) = by_index-find inventory n p v hp in
    let (qm, _, _, qi) = by_index-find inventory m q v hq in
    let same : p ≡ q = cc (pi, qi, ap (λ (k : ℕ). by_index inventory (Value.int (pos k))) e) in
    sym pn ∙ ap (λ (r : Port). r.name) same ∙ qm

no_name_above :
    (p : Port) (start : ℕ) (ports : List Port)
    → IsNamed p
    → All IsNamed ports
    → is_range_from start ports ≡ true
    → p.index < start
    → any (λ q. str_eq p.name q.name) ports ≡ false
no_name_above p start [] n a r h = refl
no_name_above p start (q ∷ ports) n a r h = elim (Bool-cases (str_eq p.name q.name)) [
  | inl same ↦
      let slots : some p.index ≡ some q.index =
        sym n ∙ ap port_slot ((eq_iff p.name q.name).0 same) ∙ a.0 in
      absurd (ground arith)
  | inr differ ↦ ground (arith, no_name_above p (start + 1) ports n a.1)
]

-- The constructor's last check never fails: ports that are numbered 1, 2, … by their names cannot
-- share a name.
pub has_repeated_name-indexed :
    (start : ℕ) (ports : List Port)
    → All IsNamed ports
    → is_range_from start ports ≡ true
    → has_repeated_name ports ≡ false
has_repeated_name-indexed start [] a r = refl
has_repeated_name-indexed start (p ∷ ports) a r = ground (
  arith,
  no_name_above p (start + 1) ports a.0 a.1,
  has_repeated_name-indexed (start + 1) ports a.1,
)
