-- ===== src/ConnectionSet/Complete.antt =====
-- The constructor of `ConnectionSet` accepts every matching of known ports.
use mathlib.Core.List.{append_assoc}
use reconfig_net_sim.Prelude.{◌≡◌, refl, false, none, List, [], ◌∷◌, ◌++◌, arith, All}
use reconfig_net_sim.Errors.{ok}
use reconfig_net_sim.Inventory.{PortInventory, require}
use reconfig_net_sim.Connection.{Connection}
use reconfig_net_sim.ConnectionSet.{
  ConnectionSet, has_name, add_connection, add_connections, make_set, empty,
}
use reconfig_net_sim.ConnectionSet.Matching.{
  IsLink, Apart, AllApart, owner, IsMatching, add_connection-IsMatching, empty-IsMatching,
}

-- A connection that stands apart from those before it takes a new name and two free ports.
free_of_apart :
    (xs cs : List Connection) (c : Connection)
    → AllApart (xs ++ c ∷ cs)
    → (has_name c.name xs ≡ false)
      × (owner c.near_port_name xs ≡ none)
      × (owner c.far_port_name xs ≡ none)
free_of_apart [] cs c h = (refl, refl, refl)
free_of_apart (x ∷ xs) cs c h = let a = middle xs h.0 in ground (arith, free_of_apart xs cs c h.1)
  where
    middle : (ys : List Connection) → All (Apart x) (ys ++ c ∷ cs) → Apart x c
    middle [] a = a.0
    middle (y ∷ ys) a = middle ys a.1

links_middle :
    (inventory : PortInventory) (xs cs : List Connection) (c : Connection)
    → All (IsLink inventory) (c ∷ cs)
    → IsLink inventory c
links_middle inventory xs cs c h = h.0

add_connection-accepts :
    (s : ConnectionSet) (c : Connection)
    → IsMatching s
    → IsLink s.inventory c
    → has_name c.name s.connections ≡ false
    → owner c.near_port_name s.connections ≡ none
    → owner c.far_port_name s.connections ≡ none
    → (t : ConnectionSet) × (add_connection s c ≡ ok t)
unfolding add_connection require
add_connection-accepts s c m l fresh near_free far_free = (
  record s {
    connections = s.connections ++ c ∷ [];
    occupied = (c.far_port_name, c.name) ∷ (c.near_port_name, c.name) ∷ s.occupied;
  },
  ground (
    arith,
    m.occupied c.near_port_name,
    m.occupied c.far_port_name,
    l.near_found,
    l.far_found,
    l.ends_differ,
  ),
)

add_connections-accepts :
    (cs : List Connection) (s : ConnectionSet)
    → IsMatching s
    → All (IsLink s.inventory) cs
    → AllApart (s.connections ++ cs)
    → (t : ConnectionSet) × (add_connections s cs ≡ ok t)
unfolding add_connections
add_connections-accepts [] s m l a = (s, refl)
add_connections-accepts (c ∷ cs) s m l a =
    let (fresh, near_free, far_free) = free_of_apart s.connections cs c a in
    let (u, added) = add_connection-accepts s c m l.0 fresh near_free far_free in
    let (m', same, listed) = add_connection-IsMatching s u c m added in
    let (t, rest) = add_connections-accepts cs u m' (rw same l.1) (rw (listed, append_assoc) a) in
    (t, rw added rest)

-- The constructor accepts every list of connections whose ends are known and distinct and of which no
-- two share a name or a port.
pub make_set-accepts :
    (inventory : PortInventory) (cs : List Connection)
    → All (IsLink inventory) cs
    → AllApart cs
    → (s : ConnectionSet) × (make_set inventory cs ≡ ok s)
unfolding make_set
make_set-accepts inventory cs l a =
    add_connections-accepts cs (empty inventory) (empty-IsMatching inventory) l a
