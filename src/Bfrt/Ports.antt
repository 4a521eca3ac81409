-- ===== src/Bfrt/Ports.antt =====
-- `_normalize_port_map` of agent/python/ocs_agent/backends/bfrt.py: the one-to-one map between
-- logical ports and the ports of the device.
pub mod Laws
use reconfig_net_sim.Prelude.{
  ℕ, ◌+◌, Bool, not, ◌&&◌, ◌||◌, Option, none, some, List, [], ◌∷◌, ◌++◌, any, length, leb, ltb,
  ◌==◌, if◌then◌else◌,
}
use reconfig_net_sim.Prelude.Int.{ℤ, pos, negsuc}
use reconfig_net_sim.Value.{Value, plain_int}
use reconfig_net_sim.Errors.{
  ErrorKind, fmt, Arg, Raised, Result, ok, err, ocs_error, raise_if, ◌>>=◌, ◌>>◌,
}
use reconfig_net_sim.Backend.{validation}

abbrev pub PortMap : Type 0
PortMap = List (ℕ × ℕ)

-- An item of the dict: what `int(logical)` gives, or `none` where it raises, and the device port.
pub record PortKey : Type 0 where
  pub logical : Option ℤ
  pub device : Value

unfoldable pub to_device : PortMap → ℕ → Option ℕ
to_device [] l = none
to_device ((k, d) ∷ m) l = if k == l then some d else to_device m l

-- `_device_to_logical`; the devices are distinct.
unfoldable pub to_logical : PortMap → ℕ → Option ℕ
to_logical [] d = none
to_logical ((l, k) ∷ m) d = if k == d then some l else to_logical m d

abbrev not_int : Raised
not_int = validation "logical port keys must be positive integers"

abbrev negative : Raised
negative = validation "logical/device ports must be non-negative integers"

-- The test on one item.
abbrev pub port_pair : PortKey → Result (ℕ × ℕ)
port_pair k = elim k.logical [
  | none ↦ err not_int
  | some (negsuc n) ↦ err negative
  | some (pos l) ↦
      if leb 1 l
      then (elim (plain_int k.device) [
        | none ↦ err negative
        | some (negsuc n) ↦ err negative
        | some (pos d) ↦ ok (l, d)
      ])
      else err negative
]

unfoldable pub add_port : PortMap → PortKey → Result PortMap
add_port m k = port_pair k >>= λ p.
    raise_if (any (λ q. q.0 == p.0) m || any (λ q. q.1 == p.1) m)
      (validation "logical_to_device_port must be one-to-one")
    >> ok (m ++ p ∷ [])

unfoldable pub add_ports : PortMap → List PortKey → Result PortMap
unfolding add_port
add_ports m [] = ok m
add_ports m (k ∷ ks) = add_port m k >>= λ next. add_ports next ks

insert_key : ℕ → List ℕ → List ℕ
insert_key n [] = n ∷ []
insert_key n (m ∷ ms) = let rest = insert_key n ms in if ltb m n then m ∷ rest else n ∷ m ∷ ms

-- `sorted(result)`
unfoldable pub sorted_keys : PortMap → List ℕ
unfolding insert_key
sorted_keys [] = []
sorted_keys (p ∷ m) = insert_key p.0 (sorted_keys m)

abbrev pub counts_from : ℕ → List ℕ → Bool
counts_from start [] = Bool.true
counts_from start (n ∷ ns) = n == start && counts_from (start + 1) ns

-- `_normalize_port_map`
unfoldable pub normalize_port_map : List PortKey → Result PortMap
unfolding add_ports sorted_keys
normalize_port_map [] = err (validation "backend.logical_to_device_port must be a non-empty object")
normalize_port_map (k ∷ ks) = add_ports [] (k ∷ ks) >>= λ m.
    raise_if (not (counts_from 1 (sorted_keys m))) (
      ocs_error ErrorKind.validation
        (fmt "logical ports must be exactly 1..{}" (Arg.number (length m) ∷ [])))
    >> ok m
