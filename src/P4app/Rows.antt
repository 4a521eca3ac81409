-- ===== src/P4app/Rows.antt =====
-- The decoding of a table read (`read_pairs` of agent/python/ocs_agent/backends/p4app.py) against what
-- P4Runtime says of the entries that it returns.
use reconfig_net_sim.Prelude.{
  ℕ, ◌+◌, ◌*◌, ◌≡◌, ◌≢◌, ◌∙◌, true, false, ◌||◌, none, some, List, [], ◌∷◌, arith, ap, ◌==◌,
}
use reconfig_net_sim.PairSet.{Pair, PairSet, mem, add}
use reconfig_net_sim.PairSet.Laws.{mem-cons, mem-nil, mem-add}
use reconfig_net_sim.P4app.Decode.{
  bytes, Match, Row, big_endian, decode_exact, field_value, decode_rows, ingress_field,
  egress_field,
}

-- The number that a byte string of P4Runtime stands for, most significant byte first.
abbrev pub weight : List ℕ → ℕ
weight [] = 1
weight (b ∷ bs) = 256 * weight bs

abbrev pub value : List ℕ → ℕ
value [] = 0
value (b ∷ bs) = b * weight bs + value bs

-- The matches of the entry for a pair: both ports, exact, in either order.
pub data IsMatches (p : Pair) : List Match → Type 0 where
  ingress_first :
      (b c : List ℕ)
      → value b ≡ p.0
      → value c ≡ p.1
      → IsMatches p (
          record { field = ingress_field; exact = some (bytes b) }
          ∷ record { field = egress_field; exact = some (bytes c) }
          ∷ [])
  egress_first :
      (b c : List ℕ)
      → value b ≡ p.0
      → value c ≡ p.1
      → IsMatches p (
          record { field = egress_field; exact = some (bytes c) }
          ∷ record { field = ingress_field; exact = some (bytes b) }
          ∷ [])

-- The rows of a read that lists these entries of the table `id`; rows of other tables may stand between.
pub data Lists (id : ℕ) : List Row → List Pair → Type 0 where
  nothing : Lists id [] []
  entry :
      {p : Pair} {matches : List Match} {rows : List Row} {ps : List Pair}
      → IsMatches p matches
      → Lists id rows ps
      → Lists id (record { table_id = id; matches = matches } ∷ rows) (p ∷ ps)
  foreign :
      {row : Row} {rows : List Row} {ps : List Pair}
      → row.table_id ≢ id
      → Lists id rows ps
      → Lists id (row ∷ rows) ps

scaled : (n b w : ℕ) → (n * 256 + b) * w ≡ n * (256 * w) + b * w
scaled n b w = grind arith

big_endian-value : (n : ℕ) (bs : List ℕ) → big_endian n bs ≡ n * weight bs + value bs
unfolding big_endian
big_endian-value n [] = omega arith
big_endian-value n (b ∷ bs) =
    omega (arith, big_endian-value (n * 256 + b) bs, scaled n b (weight bs))

decode_exact-value : (bs : List ℕ) → decode_exact (bytes bs) ≡ value bs
unfolding decode_exact
decode_exact-value bs = omega (arith, big_endian-value 0 bs)

-- What the loop over the matches of a row finds.
fields_found :
    {p : Pair} {matches : List Match}
    → IsMatches p matches
    → (field_value ingress_field none matches ≡ some p.0)
      × (field_value egress_field none matches ≡ some p.1)
unfolding field_value
fields_found (ingress_first b c i e) =
    (ap some (decode_exact-value b ∙ i), ap some (decode_exact-value c ∙ e))
fields_found (egress_first b c i e) =
    (ap some (decode_exact-value b ∙ i), ap some (decode_exact-value c ∙ e))

-- The loop over the rows adds exactly the entries that they list.
pub mem-decode_rows :
    {id : ℕ} {rows : List Row} {ps : List Pair} (pairs : PairSet)
    → Lists id rows ps
    → (q : Pair) → mem q (decode_rows id pairs rows) ≡ (mem q pairs || mem q ps)
unfolding decode_rows
mem-decode_rows pairs nothing q = ground (arith, mem-nil q)
mem-decode_rows {id} pairs (entry {p} {matches} {rows} {ps} found rest) q =
    let (i, e) = fields_found found in
    let own : id == id ≡ true = ground arith in
    rw (own, i, e)
      (ground (arith, mem-decode_rows (add p pairs) rest q, mem-add q p pairs, mem-cons q p ps))
mem-decode_rows {id} pairs (foreign {row} other rest) q =
    let apart : row.table_id == id ≡ false = ground arith in rw apart (mem-decode_rows pairs rest q)
