-- ===== src/ConnectionSet/Slots.antt =====
-- Which slots a connection joins, by the names of its ports (agent/python/ocs_agent/model.py).
use reconfig_net_sim.Prelude.{
  ℕ, zero, suc, ◌+◌, ◌-◌, String, ◌≡◌, sym, ap, ◌∙◌, ◌⊎◌, inl, inr, Bool, true, ◌&&◌, some, List,
  [], ◌∷◌, leb, arith, All, first, get_elem?, Bool-cases, Option-cases, str_eq, ltb,
}
use reconfig_net_sim.Prelude.Int.{pos}
use reconfig_net_sim.Value.{Value}
use reconfig_net_sim.Errors.{Result, ok, err, >>=-eq-ok}
use reconfig_net_sim.Inventory.{Port, PortInventory, port_slot, is_range_from, find, by_index, size}
use reconfig_net_sim.Inventory.Laws.{IsNamed, IsInventory}
use reconfig_net_sim.Inventory.Lookup.{by_index-find}
use reconfig_net_sim.Connection.{Connection, make_connection}
use reconfig_net_sim.ConnectionSet.Permutation.{link, link_name, number, low, high}

All-get_elem? {ℓ κ} :
    {A : Type ℓ} (P : A → Type κ) (xs : List A) (i : ℕ) (x : A)
    → All P xs
    → get_elem? xs i ≡ some x
    → P x
All-get_elem? P [] i x h e = absurd (cc)
All-get_elem? P (y ∷ ys) zero x h e = let same : y ≡ x = cc in rw (← same) h.0
All-get_elem? P (y ∷ ys) (suc i) x h e = All-get_elem? P ys i x h.1 e

All-first {κ} :
    (P : Port → Type κ) (test : Port → Bool) (ports : List Port) (p : Port)
    → All P ports
    → first test ports ≡ some p
    → P p
All-first P test [] p h e = absurd (cc)
All-first P test (q ∷ ports) p h e = elim (Bool-cases (test q)) [
  | inl hit ↦ let same : q ≡ p = cc (rw hit at e) in rw (← same) h.0
  | inr miss ↦ All-first P test ports p h.1 (rw miss at e)
]

range-get_elem? :
    (start : ℕ) (ports : List Port) (i : ℕ) (p : Port)
    → is_range_from start ports ≡ true
    → get_elem? ports i ≡ some p
    → p.index ≡ start + i
range-get_elem? start [] i p r e = absurd (cc)
range-get_elem? start (q ∷ ports) zero p r e = let same : q ≡ p = cc in rw (← same) (ground arith)
range-get_elem? start (q ∷ ports) (suc i) p r e =
    let next = range-get_elem? (start + 1) ports i p (ground arith) e in omega arith

-- Names say which port is meant.
pub find-slot :
    (inventory : PortInventory) (name : String) (p : Port)
    → IsInventory inventory
    → find inventory name ≡ some p
    → port_slot name ≡ some p.index
unfolding find
find-slot inventory name p v h =
    let named = (by_index-find inventory name p v h).0 in
    rw (← named) (All-first IsNamed (λ q. str_eq q.name name) inventory.ports p v.named h)

by_index-slot :
    (inventory : PortInventory) (n : ℕ) (p : Port)
    → IsInventory inventory
    → by_index inventory (Value.int (pos n)) ≡ ok p
    → port_slot p.name ≡ some n
unfolding by_index
by_index-slot inventory n p v h = elim (Bool-cases (leb 1 n && leb n (size inventory))) [
  | inr outside ↦ absurd (cc (rw outside at h))
  | inl inside ↦ elim (Option-cases (get_elem? inventory.ports (n - 1))) [
    | inl missing ↦ absurd (cc (rw (inside, missing) at h))
    | inr (q, there) ↦
        let same : q ≡ p = cc (rw (inside, there) at h) in
        let index = range-get_elem? 1 inventory.ports (n - 1) q v.indexed there in
        let back : q.index ≡ n = ground (arith, index) in
        rw (← same, ← back) (All-get_elem? IsNamed inventory.ports (n - 1) q v.named there)
  ]
]

-- The connection joins the slots, in either direction.
abbrev pub Joins : Connection → ℕ → ℕ → Type 0
Joins c i j =
    ((port_slot c.near_port_name ≡ some i) × (port_slot c.far_port_name ≡ some j))
    ⊎ ((port_slot c.near_port_name ≡ some j) × (port_slot c.far_port_name ≡ some i))

pub Joins-swap : (c : Connection) (i j : ℕ) → Joins c i j → Joins c j i
Joins-swap c i j (inl h) = inr h
Joins-swap c i j (inr h) = inl h

make_connection-ends :
    (name near far : String) (c : Connection)
    → make_connection (Value.text name) (Value.text near) (Value.text far) (Value.bool true) ≡ ok c
    → (c.near_port_name ≡ near) × (c.far_port_name ≡ far)
unfolding make_connection
make_connection-ends name near far c h = elim (Bool-cases (str_eq name "")) [
  | inl empty ↦ absurd (cc (rw empty at h))
  | inr named ↦ elim (Bool-cases (str_eq near "")) [
    | inl empty ↦ absurd (cc (rw (named, empty) at h))
    | inr from ↦ elim (Bool-cases (str_eq far "")) [
      | inl empty ↦ absurd (cc (rw (named, from, empty) at h))
      | inr to ↦
          let ended = rw (named, from, to) at h in (ap near_of (sym ended), ap far_of (sym ended))
    ]
  ]
]
  where
    near_of : Result Connection → String
    near_of (ok d) = d.near_port_name
    near_of (err e) = near

    far_of : Result Connection → String
    far_of (ok d) = d.far_port_name
    far_of (err e) = far

pub link-Joins :
    (inventory : PortInventory) (source destination : ℕ) (c : Connection)
    → IsInventory inventory
    → link inventory source destination ≡ ok c
    → Joins c source destination
unfolding link
link-Joins inventory source destination c v h =
    let (near, first_end, h1) =
      >>=-eq-ok (by_index inventory (number (low source destination))) _ h in
    let (far, last_end, h2) =
      >>=-eq-ok (by_index inventory (number (high source destination))) _ h1 in
    let (a, b) = make_connection-ends (link_name near far) near.name far.name c h2 in
    let from = ap port_slot a ∙ by_index-slot inventory (low source destination) near v first_end in
    let to = ap port_slot b ∙ by_index-slot inventory (high source destination) far v last_end in
    sides from to
  where
    sides :
        port_slot c.near_port_name ≡ some (low source destination)
        → port_slot c.far_port_name ≡ some (high source destination)
        → Joins c source destination
    sides from to = elim (Bool-cases (ltb destination source)) [
      | inl down ↦
          let least : low source destination ≡ destination = ground arith in
          let most : high source destination ≡ source = ground arith in
          inr (from ∙ ap some least, to ∙ ap some most)
      | inr up ↦
          let least : low source destination ≡ source = ground arith in
          let most : high source destination ≡ destination = ground arith in
          inl (from ∙ ap some least, to ∙ ap some most)
    ]
