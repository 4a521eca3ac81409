-- ===== src/ConnectionSet.antt =====
-- `ConnectionSet` of agent/python/ocs_agent/model.py: the constructor, the updates, the comparison
-- and the views. The proofs are in the modules below.
pub mod Matching
pub mod Complete
pub mod Updates
pub mod Pairs
pub mod Slots
pub mod Routes
pub mod Accepted
pub mod Permutation
pub mod Views
use reconfig_net_sim.Prelude.{
  ℕ, zero, suc, ◌-◌, String, Bool, false, not, ◌&&◌, Option, none, some, List, [], ◌∷◌, ◌++◌,
  length, any, all, keep, first, set, str_eq, ◌==◌, if◌then◌else◌,
}
use reconfig_net_sim.Errors.{
  ErrorKind, fmt, Arg, Result, ok, err, ocs_error, conflict_error, raise_if, ◌>>=◌, ◌>>◌,
}
use reconfig_net_sim.PairSet.{Pair, PairSet, add, diff}
use reconfig_net_sim.Inventory.{PortInventory, invalid, size, require}
use reconfig_net_sim.Connection.{Connection, connection_eq}

-- `connections` holds the values of the ordered dict `_by_name`; each is its key's connection.
pub record ConnectionSet : Type 0 where
  pub inventory : PortInventory
  pub connections : List Connection
  pub occupied : List (String × String)

-- `connection.name in by_name`
abbrev pub has_name : String → List Connection → Bool
has_name name = any (λ c. str_eq c.name name)

-- `occupied.get(port)`
abbrev pub holder : String → List (String × String) → Option String
holder port [] = none
holder port ((p, name) ∷ rest) = if str_eq p port then some name else holder port rest

-- One turn of the loop over the two ends of a connection.
unfoldable pub occupy : String → String → List (String × String) → Result (List (String × String))
occupy port name occupied = elim (holder port occupied) [
  | none ↦ ok ((port, name) ∷ occupied)
  | some other ↦ err (conflict_error port other)
]

-- One turn of the constructor's loop.
unfoldable pub add_connection : ConnectionSet → Connection → Result ConnectionSet
unfolding occupy
add_connection s c =
    raise_if (has_name c.name s.connections)
      (invalid "Duplicate connection-name {}" (Arg.name c.name ∷ []))
    >> (require s.inventory c.near_port_name >>= λ near.
        require s.inventory c.far_port_name >>= λ far.
        raise_if (str_eq c.near_port_name c.far_port_name)
          (invalid "Connection {} must not connect a port to itself" (Arg.name c.name ∷ []))
        >> (occupy c.near_port_name c.name s.occupied >>= λ near_taken.
            occupy c.far_port_name c.name near_taken >>= λ both_taken.
            ok (record s { connections = s.connections ++ c ∷ []; occupied = both_taken })))

unfoldable pub add_connections : ConnectionSet → List Connection → Result ConnectionSet
add_connections s [] = ok s
add_connections s (c ∷ cs) = add_connection s c >>= λ t. add_connections t cs

abbrev pub empty : PortInventory → ConnectionSet
empty inventory = record { inventory = inventory; connections = []; occupied = [] }

-- `ConnectionSet.__init__`
unfoldable pub make_set : PortInventory → List Connection → Result ConnectionSet
unfolding add_connections
make_set inventory connections = add_connections (empty inventory) connections

-- `ConnectionSet.get`
unfoldable pub get : ConnectionSet → String → Option Connection
get s name = first (λ c. str_eq c.name name) s.connections

abbrev is_connection : Connection → Option Connection → Bool
is_connection c none = false
is_connection c (some d) = connection_eq c d

-- `ConnectionSet.__eq__`: equality of the two dicts, whatever their orders.
unfoldable pub same_connections : ConnectionSet → ConnectionSet → Bool
unfolding get connection_eq
same_connections s t =
    length s.connections == length t.connections
    && all (λ c. is_connection c (get t c.name)) s.connections

unfoldable pub or_unknown : String → Option Connection → Result Connection
or_unknown name none =
    err (ocs_error ErrorKind.failed_precondition (fmt "Unknown connection {}" (Arg.name name ∷ [])))
or_unknown name (some c) = ok c

-- `ConnectionSet.require`
unfoldable pub require_connection : ConnectionSet → String → Result Connection
unfolding get or_unknown
require_connection s name = or_unknown name (get s name)

abbrev pub others : String → List Connection → List Connection
others name = keep (λ c. not (str_eq c.name name))

-- `ConnectionSet.replace`
unfoldable pub replace : ConnectionSet → Connection → Result ConnectionSet
unfolding make_set
replace s c = make_set s.inventory (others c.name s.connections ++ c ∷ [])

-- `ConnectionSet.delete`
unfoldable pub delete : ConnectionSet → String → Result ConnectionSet
unfolding require_connection make_set
delete s name = require_connection s name >>= λ c. make_set s.inventory (others name s.connections)

unfoldable pub add_pairs : PortInventory → PairSet → List Connection → Result PairSet
add_pairs inventory pairs [] = ok pairs
add_pairs inventory pairs (c ∷ cs) = require inventory c.near_port_name >>= λ near.
    require inventory c.far_port_name >>= λ far.
    add_pairs inventory (add (far.index, near.index) (add (near.index, far.index) pairs)) cs

-- `ConnectionSet.directed_pairs`
unfoldable pub directed_pairs : ConnectionSet → Result PairSet
unfolding add_pairs
directed_pairs s = add_pairs s.inventory [] s.connections

-- `ConnectionSet.diff`
unfoldable pub set_diff : ConnectionSet → ConnectionSet → Result (PairSet × PairSet)
unfolding directed_pairs
set_diff s target = directed_pairs s >>= λ previous.
    directed_pairs target >>= λ wanted. ok (diff previous wanted, diff wanted previous)

abbrev zeros : ℕ → List ℕ
zeros zero = []
zeros (suc n) = 0 ∷ zeros n

-- `mapping[source - 1] = destination` over the pairs.
unfoldable pub fill_mapping : List ℕ → List Pair → List ℕ
fill_mapping mapping [] = mapping
fill_mapping mapping (p ∷ ps) = fill_mapping (set mapping (p.0 - 1) p.1) ps

-- `ConnectionSet.to_permutation`
unfoldable pub to_permutation : ConnectionSet → Result (List ℕ)
unfolding directed_pairs fill_mapping
to_permutation s =
    raise_if (not (length s.occupied == size s.inventory)) (
      ocs_error ErrorKind.failed_precondition
        (fmt "Active connections are sparse and cannot be represented as pi" []))
    >> (directed_pairs s >>= λ pairs.
        let mapping = fill_mapping (zeros (size s.inventory)) pairs in
        if any (λ v. v == 0) mapping
        then err (
            ocs_error ErrorKind.failed_precondition
              (fmt "Active connections cannot be represented as pi" []))
        else ok mapping)
