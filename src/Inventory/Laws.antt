-- ===== src/Inventory/Laws.antt =====
-- What the constructor of `PortInventory` guarantees, and the two lookups.
use reconfig_net_sim.Prelude.{
  ℕ, ◌%◌, ◌≤◌, String, ◌≡◌, refl, true, none, some, List, [], ◌∷◌, arith, All,
}
use reconfig_net_sim.Value.{Value, get}
use reconfig_net_sim.Errors.{ok, ◌>>=◌, >>=-eq-ok}
use reconfig_net_sim.Inventory.{
  Port, PortInventory, port_slot, slot_of_text, slot_of_value, with_index, normalize_port,
  normalize_ports, insert_port, sort_ports, is_range_from, check_ports, make_inventory, size,
}

slot_tests :
    (port_slot "port-7" ≡ some 7)
    × (port_slot "port-12" ≡ some 12)
    × (port_slot "port-07" ≡ none)
    × (port_slot "port-" ≡ none)
    × (port_slot "port-1x" ≡ none)
unfolding port_slot
slot_tests = (refl, refl, refl, refl, refl)

-- The name says the index.
abbrev pub IsNamed : Port → Type 0
IsNamed p = port_slot p.name ≡ some p.index

pub record IsInventory (inventory : PortInventory) : Type 0 where
  pub at_least : 2 ≤ size inventory
  pub at_most : size inventory ≤ 8
  pub even : size inventory % 2 ≡ 0
  pub named : All IsNamed inventory.ports
  pub indexed : is_range_from 1 inventory.ports ≡ true

slot_of_text-named : (s : String) (n : ℕ) → slot_of_text s ≡ ok n → port_slot s ≡ some n
slot_of_text-named s n h = ground arith

slot_of_value-named :
    (v : Value) (e : String × ℕ) → slot_of_value v ≡ ok e → port_slot e.0 ≡ some e.1
slot_of_value-named (Value.text s) e h =
    let (n, found, made) = >>=-eq-ok (slot_of_text s) (λ n. ok (s, n)) h in
    let same : (s, n) ≡ e = cc in rw (← same) (slot_of_text-named s n found)
slot_of_value-named v e h = ground arith

normalize_port-IsNamed : (v : Value) (p : Port) → normalize_port v ≡ ok p → IsNamed p
unfolding normalize_port
normalize_port-IsNamed (Value.text s) p h = ground (arith)
normalize_port-IsNamed (Value.dict item) p h =
    let (e, found, made) =
      >>=-eq-ok (slot_of_value (get item "name")) (λ e. with_index e (get item "index")) h in
    ground (arith, slot_of_value-named (get item "name") e found)
normalize_port-IsNamed v p h = cc

normalize_ports-IsNamed :
    (vs : List Value) (ps : List Port) → normalize_ports vs ≡ ok ps → All IsNamed ps
unfolding normalize_ports
normalize_ports-IsNamed [] ps h = let e : [] ≡ ps = cc in rw (← e) tt
normalize_ports-IsNamed (v ∷ vs) ps h =
    let (p, one, more) =
      >>=-eq-ok (normalize_port v) (λ p. normalize_ports vs >>= λ qs. ok (p ∷ qs)) h in
    let (qs, rest, made) = >>=-eq-ok (normalize_ports vs) (λ qs. ok (p ∷ qs)) more in
    let e : p ∷ qs ≡ ps = cc in
    rw (← e) (normalize_port-IsNamed v p one, normalize_ports-IsNamed vs qs rest)

insert_port-IsNamed :
    (p : Port) (ps : List Port) → IsNamed p → All IsNamed ps → All IsNamed (insert_port p ps)
unfolding insert_port
insert_port-IsNamed p [] n a = (n, tt)
insert_port-IsNamed p (q ∷ qs) n a = ground (arith, insert_port-IsNamed p qs n a.1)

sort_ports-IsNamed : (ps : List Port) → All IsNamed ps → All IsNamed (sort_ports ps)
unfolding sort_ports
sort_ports-IsNamed [] a = tt
sort_ports-IsNamed (p ∷ ps) a =
    insert_port-IsNamed p (sort_ports ps) a.0 (sort_ports-IsNamed ps a.1)

checked_ports :
    (ports : List Port) (inventory : PortInventory)
    → All IsNamed ports
    → check_ports ports ≡ ok inventory
    → IsInventory inventory
unfolding check_ports
checked_ports ports inventory named h =
    let e : ports ≡ inventory.ports = ground arith in
    record {
      at_least = rw (← e) (ground arith);
      at_most = rw (← e) (ground arith);
      even = rw (← e) (ground arith);
      named = rw (← e) named;
      indexed = rw (← e) (ground arith);
    }

-- Every inventory that the constructor returns has 2, 4, 6 or 8 ports, numbered 1, 2, … in order,
-- and each port's name says its number.
pub make_inventory-IsInventory :
    (items : List Value) (inventory : PortInventory)
    → make_inventory items ≡ ok inventory
    → IsInventory inventory
unfolding make_inventory
make_inventory-IsInventory items inventory h =
    let (ports, normal, checked) =
      >>=-eq-ok (normalize_ports items) (λ ports. check_ports (sort_ports ports)) h in
    checked_ports (sort_ports ports) inventory
      (sort_ports-IsNamed ports (normalize_ports-IsNamed items ports normal)) checked
