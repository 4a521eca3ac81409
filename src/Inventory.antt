-- ===== src/Inventory.antt =====
-- `Port` and `PortInventory` of agent/python/ocs_agent/model.py.
mod Slot
pub mod Laws
pub mod Lookup
unfoldable pub use Slot.{port_slot}
use reconfig_net_sim.Prelude.{
  ℕ, zero, ◌+◌, ◌-◌, ◌%◌, String, Bool, true, false, not, ◌&&◌, ◌||◌, Option, none, some, List, [],
  ◌∷◌, map, length, get_elem?, any, first, ltb, leb, ◌==◌, if◌then◌else◌, str_eq,
}
use reconfig_net_sim.Prelude.Int.{ℤ, pos, negsuc}
use reconfig_net_sim.Value.{Value, get, plain_int, is_falsy}
use reconfig_net_sim.Errors.{
  ErrorKind, Message, fmt, Arg, Result, ok, err, bad_value, Raised, ocs_error, raise_if, ◌>>=◌,
  ◌>>◌,
}

pub record Port : Type 0 where
  pub name : String
  pub index : ℕ

-- `_by_name` is a search: the constructor lets no name stand twice.
pub record PortInventory : Type 0 where
  pub ports : List Port

abbrev pub invalid : String → List Arg → Raised
invalid template args = ocs_error ErrorKind.validation (fmt template args)

abbrev slot_of_text : String → Result ℕ
slot_of_text s = elim (port_slot s) [
  | none ↦ err (invalid "Port name must use port-<slot>: {}" (Arg.name s ∷ []))
  | some n ↦ ok n
]

-- `_PORT_NAME_RE.match(name or '')` on the value of the key `name`.
abbrev slot_of_value : Value → Result (String × ℕ)
slot_of_value (Value.text s) = slot_of_text s >>= λ n. ok (s, n)
slot_of_value v =
    if is_falsy v
    then err (invalid "Port name must use port-<slot>: {}" [])
    else err (bad_value (fmt "expected string or bytes-like object" []))

abbrev same_index : ℕ → Option ℤ → Bool
same_index n none = false
same_index n (some (pos k)) = k == n
same_index n (some (negsuc k)) = false

-- The test on `index`, where a missing one is inferred from the name.
abbrev index_matches : ℕ → Value → Bool
index_matches n Value.null = true
index_matches n v = same_index n (plain_int v)

abbrev with_index : String × ℕ → Value → Result Port
with_index e index =
    if index_matches e.1 index
    then ok (record { name = e.0; index = e.1 })
    else err (invalid "Port {} index must be {}" (Arg.name e.0 ∷ Arg.number e.1 ∷ []))

-- One turn of the constructor's loop.
unfoldable pub normalize_port : Value → Result Port
normalize_port (Value.text s) = slot_of_text s >>= λ n. ok (record { name = s; index = n })
normalize_port (Value.dict item) =
    slot_of_value (get item "name") >>= λ e. with_index e (get item "index")
normalize_port v = err (invalid "Each port must be a string or object" [])

unfoldable pub normalize_ports : List Value → Result (List Port)
unfolding normalize_port
normalize_ports [] = ok []
normalize_ports (v ∷ vs) =
    let rest = normalize_ports vs in normalize_port v >>= λ p. rest >>= λ ps. ok (p ∷ ps)

insert_port : Port → List Port → List Port
insert_port p [] = p ∷ []
insert_port p (q ∷ qs) =
    let rest = insert_port p qs in if ltb q.index p.index then q ∷ rest else p ∷ q ∷ qs

-- `normalized.sort(key=lambda port: port.index)`
unfoldable pub sort_ports : List Port → List Port
unfolding insert_port
sort_ports [] = []
sort_ports (p ∷ ps) = insert_port p (sort_ports ps)

-- `indexes != list(range(start, …))`, negated.
abbrev pub is_range_from : ℕ → List Port → Bool
is_range_from start [] = true
is_range_from start (p ∷ ps) = p.index == start && is_range_from (start + 1) ps

abbrev pub has_repeated_name : List Port → Bool
has_repeated_name [] = false
has_repeated_name (p ∷ ps) = any (λ q. str_eq p.name q.name) ps || has_repeated_name ps

unfoldable pub check_ports : List Port → Result PortInventory
check_ports ports =
    raise_if (ltb (length ports) 2 || ltb 8 (length ports) || not (length ports % 2 == 0))
      (invalid "Port count must be an even integer between 2 and 8" [])
    >> raise_if (not (is_range_from 1 ports))
        (invalid "Port indexes must be exactly 1..{}" (Arg.number (length ports) ∷ []))
    >> raise_if (has_repeated_name ports) (invalid "Port names must be unique" [])
    >> ok (record { ports = ports })

-- `PortInventory.__init__`
unfoldable pub make_inventory : List Value → Result PortInventory
unfolding normalize_ports sort_ports check_ports
make_inventory items = normalize_ports items >>= λ ports. check_ports (sort_ports ports)

-- `len(inventory)`
abbrev pub size : PortInventory → ℕ
size inventory = length inventory.ports

abbrev pub names : PortInventory → List String
names inventory = map (λ (p : Port). p.name) inventory.ports

-- `self._by_name.get(name)`
unfoldable pub find : PortInventory → String → Option Port
find inventory name = first (λ p. str_eq p.name name) inventory.ports

abbrev or_unknown : String → Option Port → Result Port
or_unknown name none = err (invalid "Unknown port {}" (Arg.name name ∷ []))
or_unknown name (some p) = ok p

-- `PortInventory.require`
unfoldable pub require : PortInventory → String → Result Port
unfolding find
require inventory name = or_unknown name (find inventory name)

abbrev or_unknown_index : Option Port → Result Port
or_unknown_index none = err (invalid "Unknown port index {}" [])
or_unknown_index (some p) = ok p

abbrev by_number : PortInventory → ℤ → Option Port
by_number inventory (pos n) =
    if leb 1 n && leb n (size inventory) then get_elem? inventory.ports (n - 1) else none
by_number inventory (negsuc n) = none

-- `PortInventory.by_index`
unfoldable pub by_index : PortInventory → Value → Result Port
by_index inventory index = elim (plain_int index) [
  | none ↦ err (invalid "Unknown port index {}" [])
  | some z ↦ or_unknown_index (by_number inventory z)
]
