-- ===== src/ConnectionSet/Permutation.antt =====
-- `ConnectionSet.from_permutation` of agent/python/ocs_agent/model.py.
use Prim.Native.String.{◌++◌ as text_append}
use reconfig_net_sim.Prelude.{
  ℕ, suc, String, ◌+◌, ◌-◌, Bool, true, false, not, ◌&&◌, Option, none, some, List, [], ◌∷◌,
  get_elem?, any, ltb, ◌==◌, if◌then◌else◌,
}
use reconfig_net_sim.Prelude.Int.{ℤ, pos, negsuc}
use reconfig_net_sim.Value.{Value, Items, nil, cons, plain_int}
use reconfig_net_sim.Errors.{Arg, Result, ok, err, raise_if, ◌>>=◌, ◌>>◌}
use reconfig_net_sim.Inventory.{Port, PortInventory, invalid, size, by_index}
use reconfig_net_sim.Connection.{Connection, make_connection}
use reconfig_net_sim.ConnectionSet.{ConnectionSet, make_set}

-- No port has a number below 1, so a negative entry is as wrong as a zero.
abbrev slot_number : ℤ → ℕ
slot_number (pos n) = n
slot_number (negsuc n) = 0

abbrev pub entry : Value → Result ℕ
entry v = elim (plain_int v) [
  | none ↦ err (invalid "pi entries must be integers" [])
  | some z ↦ ok (slot_number z)
]

unfoldable pub entries : Items → Result (List ℕ)
entries nil = ok []
entries (cons v vs) = entry v >>= λ n. entries vs >>= λ ns. ok (n ∷ ns)

abbrev pub item_count : Items → ℕ
item_count nil = 0
item_count (cons v vs) = suc (item_count vs)

insert_number : ℕ → List ℕ → List ℕ
insert_number n [] = n ∷ []
insert_number n (m ∷ ms) = let rest = insert_number n ms in if ltb m n then m ∷ rest else n ∷ m ∷ ms

unfoldable pub sort_numbers : List ℕ → List ℕ
unfolding insert_number
sort_numbers [] = []
sort_numbers (n ∷ ns) = insert_number n (sort_numbers ns)

abbrev pub counts_from : ℕ → List ℕ → Bool
counts_from start [] = true
counts_from start (n ∷ ns) = n == start && counts_from (start + 1) ns

abbrev pub is_at : ℕ → Option ℕ → Bool
is_at n none = false
is_at n (some m) = m == n

abbrev pub low : ℕ → ℕ → ℕ
low a b = if ltb b a then b else a

abbrev pub high : ℕ → ℕ → ℕ
high a b = if ltb a b then b else a

abbrev pub number : ℕ → Value
number n = Value.int (pos n)

abbrev pub link_name : Port → Port → String
link_name near far = text_append "conn-" (text_append near.name (text_append "-" far.name))

-- The connection between two slots, named after its ports.
unfoldable pub link : PortInventory → ℕ → ℕ → Result Connection
unfolding by_index make_connection
link inventory source destination = by_index inventory (number (low source destination)) >>= λ near.
    by_index inventory (number (high source destination)) >>= λ far.
    make_connection (Value.text (link_name near far)) (Value.text near.name) (Value.text far.name)
      (Value.bool true)

-- The loop over `enumerate(mapping, start=1)`, from `source` on.
unfoldable pub pair_up : PortInventory → List ℕ → List ℕ → ℕ → List ℕ → Result (List Connection)
unfolding link
pair_up inventory mapping visited source [] = ok []
pair_up inventory mapping visited source (destination ∷ rest) =
    let skip = pair_up inventory mapping visited (source + 1) rest in
    let continue = pair_up inventory mapping (destination ∷ source ∷ visited) (source + 1) rest in
    raise_if (source == destination) (invalid "pi must not contain self mappings" [])
    >> raise_if (not (is_at source (get_elem? mapping (destination - 1))))
        (invalid "pi must contain symmetric two-way pairs" [])
    >> (if any (λ v. v == source) visited
        then skip
        else link inventory source destination >>= λ c. continue >>= λ cs. ok (c ∷ cs))

abbrev wrong_count : PortInventory → Result ConnectionSet
wrong_count inventory =
    err (invalid "pi must contain exactly {} slots" (Arg.number (size inventory) ∷ []))

-- `ConnectionSet.from_permutation`
unfoldable pub from_permutation : PortInventory → Value → Result ConnectionSet
unfolding entries sort_numbers pair_up make_set
from_permutation inventory (Value.list items) =
    if item_count items == size inventory
    then (entries items >>= λ mapping.
        raise_if (not (counts_from 1 (sort_numbers mapping)))
          (invalid "pi must be a permutation of 1..{}" (Arg.number (size inventory) ∷ []))
        >> (pair_up inventory mapping [] 1 mapping >>= λ cs. make_set inventory cs))
    else wrong_count inventory
from_permutation inventory v = wrong_count inventory
