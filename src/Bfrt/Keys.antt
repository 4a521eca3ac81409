-- ===== src/Bfrt/Keys.antt =====
-- `_device_pair` and `_logical_pair` of agent/python/ocs_agent/backends/bfrt.py, and the loops over
-- them.
use reconfig_net_sim.Prelude.{ℕ, Option, some, List, [], ◌∷◌}
use reconfig_net_sim.Errors.{
  ErrorKind, fmt, Arg, Raised, other, transition, ocs_error, raise_if, Result, ok, err, str,
  failure_of,
}
use reconfig_net_sim.Errors
use reconfig_net_sim.PairSet.{Pair, PairSet, add}
use reconfig_net_sim.Bfrt.Ports.{PortMap, to_device, to_logical}

abbrev unknown_pair : Pair → Raised
unknown_pair p =
    ocs_error ErrorKind.validation (fmt "Unknown logical port pair {}" (Arg.pairs (p ∷ []) ∷ []))

abbrev unmanaged_pair : Pair → Raised
unmanaged_pair p =
    other (fmt "BFRT table contains an unmanaged device port pair {}" (Arg.pairs (p ∷ []) ∷ []))

abbrev both : Raised → Option ℕ → Option ℕ → Result Pair
both e (some i) (some j) = ok (i, j)
both e _ _ = err e

-- `_device_pair`
unfoldable pub device_pair : PortMap → Pair → Result Pair
device_pair m p = both (unknown_pair p) (to_device m p.0) (to_device m p.1)

-- `_logical_pair`
unfoldable pub logical_pair : PortMap → Pair → Result Pair
logical_pair m p = both (unmanaged_pair p) (to_logical m p.0) (to_logical m p.1)

-- The keys of a batch: the first unknown port raises.
unfoldable pub device_pairs : PortMap → List Pair → Result (List Pair)
unfolding device_pair
device_pairs m [] = ok []
device_pairs m (p ∷ ps) =
    Errors.◌>>=◌ (device_pair m p) λ k. Errors.◌>>=◌ (device_pairs m ps) λ ks. ok (k ∷ ks)

-- The loop of `read_pairs` over the rows.
unfoldable pub logical_pairs : PortMap → PairSet → List Pair → Result PairSet
unfolding logical_pair
logical_pairs m pairs [] = ok pairs
logical_pairs m pairs (row ∷ rows) =
    Errors.◌>>=◌ (logical_pair m row) λ p. logical_pairs m (add p pairs) rows
