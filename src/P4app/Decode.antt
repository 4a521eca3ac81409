-- ===== src/P4app/Decode.antt =====
-- The rows of a table read, and what `read_pairs` of `P4AppBackend` makes of them (agent/python/
-- ocs_agent/backends/p4app.py).
use reconfig_net_sim.Prelude.{
  ℕ, ◌+◌, ◌*◌, String, Option, none, some, List, [], ◌∷◌, ◌==◌, str_eq, if◌then◌else◌,
}
use reconfig_net_sim.PairSet.{PairSet, add}

-- The value of an exact match: bytes from P4Runtime, or a number.
pub data Exact : Type 0 where
  bytes : List ℕ → Exact
  plain : ℕ → Exact

-- A match of a table entry: its field's name, and its value where the match is exact.
pub record Match : Type 0 where
  pub field : String
  pub exact : Option Exact

pub record Row : Type 0 where
  pub table_id : ℕ
  pub matches : List Match

-- `int.from_bytes(value, byteorder='big')`
unfoldable pub big_endian : ℕ → List ℕ → ℕ
big_endian n [] = n
big_endian n (b ∷ bs) = big_endian (n * 256 + b) bs

-- `_decode_exact`
unfoldable pub decode_exact : Exact → ℕ
unfolding big_endian
decode_exact (bytes bs) = big_endian 0 bs
decode_exact (plain n) = n

-- `fields.get(name)` after the loop over the matches; a later match of the field wins.
unfoldable pub field_value : String → Option ℕ → List Match → Option ℕ
unfolding decode_exact
field_value name found [] = found
field_value name found (m ∷ ms) =
    field_value name
      (elim m.exact [
        | none ↦ found
        | some e ↦ if str_eq m.field name then some (decode_exact e) else found
      ])
      ms

abbrev add_fields : Option ℕ → Option ℕ → PairSet → PairSet
add_fields (some i) (some e) pairs = add (i, e) pairs
add_fields _ _ pairs = pairs

abbrev pub ingress_field : String
ingress_field = "standard_metadata.ingress_port"

abbrev pub egress_field : String
egress_field = "standard_metadata.egress_port"

unfoldable pub decode_rows : ℕ → PairSet → List Row → PairSet
unfolding field_value
decode_rows id pairs [] = pairs
decode_rows id pairs (row ∷ rows) =
    decode_rows id
      (if row.table_id == id
        then add_fields (field_value ingress_field none row.matches)
            (field_value egress_field none row.matches) pairs
        else pairs)
      rows
