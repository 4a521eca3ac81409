-- ===== src/Examples/Permutation.antt =====
-- The theorem on permutations, on an inventory of four ports.
use reconfig_net_sim.Prelude.{ℕ, ◌-◌, ◌≤◌, ◌≡◌, ◌↔◌, refl, true, some, [], ◌∷◌, get_elem?}
use reconfig_net_sim.Prelude.Int.{pos}
use reconfig_net_sim.Value.{Value, Items, nil, cons}
use reconfig_net_sim.Errors.{ok}
use reconfig_net_sim.PairSet.{PairSet, mem}
use reconfig_net_sim.ConnectionSet.{ConnectionSet, directed_pairs, to_permutation}
use reconfig_net_sim.ConnectionSet.Permutation.{entries, from_permutation}
use reconfig_net_sim.ConnectionSet.Accepted.{from_permutation_routes}
use reconfig_net_sim.Examples.Model.{model}
use reconfig_net_sim.Examples.HttpModel.{http_model}
use reconfig_net_sim.Examples.Device.{four_ports, link}
use reconfig_net_sim.Examples.Ports.{four_ports-IsInventory}

abbrev number : ℕ → Value
number n = Value.int (pos n)

abbrev crossed : Items
crossed = cons (number 3) (cons (number 4) (cons (number 1) (cons (number 2) nil)))

abbrev crossing : ConnectionSet
crossing = record {
  inventory = four_ports;
  connections =
      link "conn-port-1-port-3" "port-1" "port-3"
      ∷ link "conn-port-2-port-4" "port-2" "port-4"
      ∷ [];
  occupied =
      ("port-4", "conn-port-2-port-4")
      ∷ ("port-2", "conn-port-2-port-4")
      ∷ ("port-3", "conn-port-1-port-3")
      ∷ ("port-1", "conn-port-1-port-3")
      ∷ [];
}

crossed_ok : from_permutation four_ports (Value.list crossed) ≡ ok crossing
unfolding model http_model
crossed_ok = refl

crossed_listed : entries crossed ≡ ok (3 ∷ 4 ∷ 1 ∷ 2 ∷ [])
unfolding model http_model
crossed_listed = refl

crossing_back : to_permutation crossing ≡ ok (3 ∷ 4 ∷ 1 ∷ 2 ∷ [])
unfolding model http_model
crossing_back = refl

from_permutation_routes_example :
    (pairs : PairSet) × (directed_pairs crossing ≡ ok pairs)
    × ((i j : ℕ)
        → (mem (i, j) pairs ≡ true) ↔ ((1 ≤ i) × (get_elem? (3 ∷ 4 ∷ 1 ∷ 2 ∷ []) (i - 1) ≡ some j)))
from_permutation_routes_example =
    from_permutation_routes four_ports crossed (3 ∷ 4 ∷ 1 ∷ 2 ∷ []) crossing four_ports-IsInventory
      crossed_ok crossed_listed
