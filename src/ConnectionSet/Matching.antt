-- ===== src/ConnectionSet/Matching.antt =====
-- What the constructor of `ConnectionSet` guarantees: the set is a matching of known ports.
use mathlib.Core.List.{append-nil, append_assoc}
use reconfig_net_sim.Prelude.{
  String, ◌≡◌, refl, sym, ◌∙◌, false, Option, none, some, List, [], ◌∷◌, ◌++◌, arith, All, str_eq,
  if◌then◌else◌, eq_iff, inl, inr, Option-cases,
}
use reconfig_net_sim.Errors.{ok, >>=-eq-ok}
use reconfig_net_sim.Inventory.{Port, PortInventory, find, require}
use reconfig_net_sim.Connection.{Connection, uses_port}
use reconfig_net_sim.ConnectionSet.{
  ConnectionSet, has_name, holder, add_connection, add_connections, make_set, empty,
}

-- Both ends are ports of the inventory, and they differ.
pub record IsLink (inventory : PortInventory) (c : Connection) : Type 0 where
  pub near : Port
  pub far : Port
  pub near_found : find inventory c.near_port_name ≡ some near
  pub far_found : find inventory c.far_port_name ≡ some far
  pub ends_differ : str_eq c.near_port_name c.far_port_name ≡ false

-- Two connections with different names and no common port.
abbrev pub Apart : Connection → Connection → Type 0
Apart c d =
    (str_eq c.name d.name ≡ false)
    × (uses_port d.near_port_name c ≡ false)
    × (uses_port d.far_port_name c ≡ false)

abbrev pub AllApart : List Connection → Type 0
AllApart [] = Unit
AllApart (c ∷ cs) = All (Apart c) cs × AllApart cs

-- The connection that holds a port.
abbrev pub owner : String → List Connection → Option String
owner port [] = none
owner port (c ∷ cs) = if uses_port port c then some c.name else owner port cs

pub record IsMatching (s : ConnectionSet) : Type 0 where
  pub links : All (IsLink s.inventory) s.connections
  pub apart : AllApart s.connections
  pub occupied : (port : String) → holder port s.occupied ≡ owner port s.connections

All-snoc {ℓ κ} :
    {A : Type ℓ} (P : A → Type κ) (xs : List A) (x : A) → All P xs → P x → All P (xs ++ x ∷ [])
All-snoc P [] x h p = (p, tt)
All-snoc P (y ∷ xs) x h p = (h.0, All-snoc P xs x h.1 p)

AllApart-snoc :
    (xs : List Connection) (c : Connection)
    → AllApart xs
    → All (λ x. Apart x c) xs
    → AllApart (xs ++ c ∷ [])
AllApart-snoc [] c h a = (tt, tt)
AllApart-snoc (x ∷ xs) c h a = (All-snoc (Apart x) xs c h.0 a.0, AllApart-snoc xs c h.1 a.1)

owner-append :
    (port : String) (xs : List Connection) (c : Connection)
    → owner port (xs ++ c ∷ []) ≡ (elim (owner port xs) [
      | none ↦ if uses_port port c then some c.name else none
      | some o ↦ some o
    ])
owner-append port [] c = refl
owner-append port (x ∷ xs) c = ground (arith, owner-append port xs c)

-- A new name and two ports that nobody holds.
Apart-of_free :
    (xs : List Connection) (c : Connection)
    → has_name c.name xs ≡ false
    → owner c.near_port_name xs ≡ none
    → owner c.far_port_name xs ≡ none
    → All (λ x. Apart x c) xs
Apart-of_free [] c n a b = tt
Apart-of_free (x ∷ xs) c n a b =
    (ground arith, Apart-of_free xs c (ground arith) (ground arith) (ground arith))

require-eq-ok :
    (inventory : PortInventory) (name : String) (p : Port)
    → require inventory name ≡ ok p
    → find inventory name ≡ some p
unfolding require
require-eq-ok inventory name p h = ground arith

-- What a successful turn of the constructor's loop has checked and written.
pub record IsAdded (s : ConnectionSet) (c : Connection) (t : ConnectionSet) : Type 0 where
  pub fresh : has_name c.name s.connections ≡ false
  pub link : IsLink s.inventory c
  pub near_free : holder c.near_port_name s.occupied ≡ none
  pub far_free : holder c.far_port_name s.occupied ≡ none
  pub same_inventory : t.inventory ≡ s.inventory
  pub appended : t.connections ≡ s.connections ++ c ∷ []
  pub taken : t.occupied ≡ (c.far_port_name, c.name) ∷ (c.near_port_name, c.name) ∷ s.occupied

add_connection-IsAdded :
    (s t : ConnectionSet) (c : Connection) → add_connection s c ≡ ok t → IsAdded s c t
unfolding add_connection require
add_connection-IsAdded s t c h = elim (Option-cases (find s.inventory c.near_port_name)) [
  | inl absent ↦ absurd (ground arith)
  | inr (near, near_found) ↦ elim (Option-cases (find s.inventory c.far_port_name)) [
    | inl absent ↦ absurd (ground arith)
    | inr (far, far_found) ↦ record {
      fresh = ground arith;
      link = record {
        near = near;
        far = far;
        near_found = near_found;
        far_found = far_found;
        ends_differ = ground arith;
      };
      near_free = ground arith;
      far_free = ground arith;
      same_inventory = ground arith;
      appended = ground arith;
      taken = ground arith;
    }
  ]
]

holder-owner-taken :
    (port : String) (c : Connection) (rest : List (String × String)) (cs : List Connection)
    → holder port rest ≡ owner port cs
    → owner c.near_port_name cs ≡ none
    → owner c.far_port_name cs ≡ none
    → holder port ((c.far_port_name, c.name) ∷ (c.near_port_name, c.name) ∷ rest)
      ≡ owner port (cs ++ c ∷ [])
holder-owner-taken port c rest cs h near_free far_free =
    ground
      (arith, owner-append port cs c, eq_iff c.near_port_name port, eq_iff c.far_port_name port)

IsAdded-IsMatching :
    {s t : ConnectionSet} {c : Connection} → IsMatching s → IsAdded s c t → IsMatching t
IsAdded-IsMatching {s} {t} {c} m a =
    let near_free = sym (m.occupied c.near_port_name) ∙ a.near_free in
    let far_free = sym (m.occupied c.far_port_name) ∙ a.far_free in
    record {
      links =
          rw (a.appended, a.same_inventory)
            (All-snoc (IsLink s.inventory) s.connections c m.links a.link);
      apart = rw a.appended (
          AllApart-snoc s.connections c m.apart
            (Apart-of_free s.connections c a.fresh near_free far_free));
      occupied = λ port.
          rw (a.appended, a.taken)
            (holder-owner-taken port c s.occupied s.connections (m.occupied port) near_free
              far_free);
    }

pub add_connection-IsMatching :
    (s t : ConnectionSet) (c : Connection)
    → IsMatching s
    → add_connection s c ≡ ok t
    → IsMatching t × (t.inventory ≡ s.inventory) × (t.connections ≡ s.connections ++ c ∷ [])
add_connection-IsMatching s t c m h =
    let a = add_connection-IsAdded s t c h in (IsAdded-IsMatching m a, a.same_inventory, a.appended)

add_connections-IsMatching :
    (cs : List Connection) (s t : ConnectionSet)
    → IsMatching s
    → add_connections s cs ≡ ok t
    → IsMatching t × (t.inventory ≡ s.inventory) × (t.connections ≡ s.connections ++ cs)
unfolding add_connections
add_connections-IsMatching [] s t m h =
    let same : s ≡ t = cc in rw (← same) (m, refl, sym (append-nil s.connections))
add_connections-IsMatching (c ∷ cs) s t m h =
    let (u, added, rest) = >>=-eq-ok (add_connection s c) (λ u. add_connections u cs) h in
    let (m', inventory', connections') = add_connection-IsMatching s u c m added in
    let (valid, same, listed) = add_connections-IsMatching cs u t m' rest in
    (valid, same ∙ inventory', listed ∙ rw (connections', append_assoc))

pub empty-IsMatching : (inventory : PortInventory) → IsMatching (empty inventory)
empty-IsMatching inventory = record { links = tt; apart = tt; occupied = λ port. refl }

-- A set that the constructor returns is a matching of known ports, and lists what it was given.
pub make_set-IsMatching :
    (inventory : PortInventory) (cs : List Connection) (s : ConnectionSet)
    → make_set inventory cs ≡ ok s
    → IsMatching s × (s.inventory ≡ inventory) × (s.connections ≡ cs)
unfolding make_set
make_set-IsMatching inventory cs s h =
    add_connections-IsMatching cs (empty inventory) s (empty-IsMatching inventory) h
