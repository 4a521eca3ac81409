-- ===== src/Examples/Ports.antt =====
-- The theorems on ports and connections, on an inventory of four ports.
use reconfig_net_sim.Prelude.{
  ◌≤◌, String, ◌≡◌, ◌↔◌, refl, true, false, not, ◌&&◌, ◌||◌, none, some, List, [], ◌∷◌,
  if◌then◌else◌, str_eq,
}
use reconfig_net_sim.Prelude.Int.{pos}
use reconfig_net_sim.Value.{Value}
use reconfig_net_sim.Errors.{ok}
use reconfig_net_sim.PairSet.{Pair, PairSet, mem, set_eq}
use reconfig_net_sim.PairSet.Laws.{set_eq_iff}
use reconfig_net_sim.Inventory.{make_inventory, has_repeated_name, find, by_index, size, port_slot}
use reconfig_net_sim.Inventory.Laws.{IsInventory, make_inventory-IsInventory}
use reconfig_net_sim.Inventory.Lookup.{by_index-find, find-injective, has_repeated_name-indexed}
use reconfig_net_sim.Connection.{Connection}
use reconfig_net_sim.ConnectionSet.{
  ConnectionSet, make_set, get, replace, delete, directed_pairs, set_diff,
}
use reconfig_net_sim.ConnectionSet.Matching.{IsMatching, make_set-IsMatching}
use reconfig_net_sim.ConnectionSet.Complete.{make_set-accepts}
use reconfig_net_sim.ConnectionSet.Updates.{get-replace, get-delete}
use reconfig_net_sim.ConnectionSet.Pairs.{
  IsInvolution, directed_pairs-IsInvolution, set_diff-transition,
}
use reconfig_net_sim.Bfrt.Ports.{PortKey, normalize_port_map}
use reconfig_net_sim.Bfrt.Ports.Laws.{IsBijection, normalize_port_map-IsBijection}
use reconfig_net_sim.Examples.Model.{model}
use reconfig_net_sim.Examples.Device.{port, four_ports, link, first_link, one_link, other_link}

abbrev second : String
second = "port-2"

abbrev items : List Value
items = Value.text "port-2" ∷ Value.text "port-1" ∷ Value.text "port-4" ∷ Value.text "port-3" ∷ []

items_make : make_inventory items ≡ ok four_ports
unfolding model port_slot
items_make = refl

make_inventory-IsInventory_example : IsInventory four_ports
make_inventory-IsInventory_example = make_inventory-IsInventory items four_ports items_make

pub four_ports-IsInventory : IsInventory four_ports
four_ports-IsInventory = make_inventory-IsInventory items four_ports items_make

found : find four_ports "port-2" ≡ some (port 2 "port-2")
unfolding model
found = refl

by_index-find_example :
    (second ≡ second)
    × (1 ≤ 2)
    × (2 ≤ size four_ports)
    × (by_index four_ports (Value.int (pos 2)) ≡ ok (port 2 "port-2"))
by_index-find_example =
    by_index-find four_ports "port-2" (port 2 "port-2") four_ports-IsInventory found

find-injective_example : second ≡ second
find-injective_example =
    find-injective four_ports "port-2" "port-2" (port 2 "port-2") (port 2 "port-2")
      four_ports-IsInventory found found refl

has_repeated_name-indexed_example : has_repeated_name four_ports.ports ≡ false
has_repeated_name-indexed_example =
    has_repeated_name-indexed 1 four_ports.ports four_ports-IsInventory.named
      four_ports-IsInventory.indexed

one_link_made : make_set four_ports (first_link ∷ []) ≡ ok one_link
unfolding model
one_link_made = refl

make_set-IsMatching_example :
    IsMatching one_link
    × (one_link.inventory ≡ four_ports)
    × (one_link.connections ≡ first_link ∷ [])
make_set-IsMatching_example =
    make_set-IsMatching four_ports (first_link ∷ []) one_link one_link_made

one_link-IsMatching : IsMatching one_link
one_link-IsMatching = (make_set-IsMatching four_ports (first_link ∷ []) one_link one_link_made).0

make_set-accepts_example : (s : ConnectionSet) × (make_set four_ports (first_link ∷ []) ≡ ok s)
make_set-accepts_example =
    make_set-accepts four_ports (first_link ∷ []) one_link-IsMatching.links
      one_link-IsMatching.apart

directed_pairs-IsInvolution_example :
    (pairs : PairSet) × (directed_pairs one_link ≡ ok pairs) × IsInvolution (size four_ports) pairs
directed_pairs-IsInvolution_example =
    directed_pairs-IsInvolution one_link four_ports-IsInventory one_link-IsMatching

first_pairs : directed_pairs one_link ≡ ok ((1, 2) ∷ (2, 1) ∷ [])
unfolding model
first_pairs = refl

other_pairs : directed_pairs other_link ≡ ok ((3, 4) ∷ (4, 3) ∷ [])
unfolding model
other_pairs = refl

abbrev moved : Connection
moved = link "first" "port-1" "port-3"

abbrev moved_set : ConnectionSet
moved_set = record {
  inventory = four_ports;
  connections = moved ∷ [];
  occupied = ("port-3", "first") ∷ ("port-1", "first") ∷ [];
}

moved_made : replace one_link moved ≡ ok moved_set
unfolding model
moved_made = refl

get-replace_example :
    IsMatching moved_set
    × (get moved_set "first"
        ≡ (if str_eq moved.name "first" then some moved else get one_link "first"))
get-replace_example = get-replace one_link moved_set moved "first" moved_made

first_there : get one_link "first" ≡ some first_link
unfolding model
first_there = refl

get-delete_example :
    (t : ConnectionSet) × (delete one_link "first" ≡ ok t)
    × IsMatching t
    × ((other : String) → get t other ≡ (if str_eq "first" other then none else get one_link other))
get-delete_example = get-delete one_link "first" first_link one_link-IsMatching first_there

set_diff-transition_example :
    (removed added : PairSet) × (set_diff one_link other_link ≡ ok (removed, added))
    × ((q : Pair)
        → (mem q ((3, 4) ∷ (4, 3) ∷ [])
            ≡ (mem q ((1, 2) ∷ (2, 1) ∷ []) && not (mem q removed) || mem q added))
          × ((mem q removed && mem q added) ≡ false))
set_diff-transition_example =
    set_diff-transition one_link other_link ((1, 2) ∷ (2, 1) ∷ []) ((3, 4) ∷ (4, 3) ∷ [])
      first_pairs other_pairs

set_eq_iff_example :
    (set_eq ((1, 2) ∷ (2, 1) ∷ []) ((2, 1) ∷ (1, 2) ∷ []) ≡ true)
    ↔ ((q : Pair) → mem q ((1, 2) ∷ (2, 1) ∷ []) ≡ mem q ((2, 1) ∷ (1, 2) ∷ []))
set_eq_iff_example = set_eq_iff ((1, 2) ∷ (2, 1) ∷ []) ((2, 1) ∷ (1, 2) ∷ [])

-- The device ports of two logical ports.
abbrev port_keys : List PortKey
port_keys =
    record { logical = some (pos 1); device = Value.int (pos 132) }
    ∷ record { logical = some (pos 2); device = Value.int (pos 140) }
    ∷ []

port_keys_map : normalize_port_map port_keys ≡ ok ((1, 132) ∷ (2, 140) ∷ [])
unfolding normalize_port_map
port_keys_map = refl

normalize_port_map-IsBijection_example : IsBijection ((1, 132) ∷ (2, 140) ∷ [])
normalize_port_map-IsBijection_example =
    normalize_port_map-IsBijection port_keys ((1, 132) ∷ (2, 140) ∷ []) port_keys_map
