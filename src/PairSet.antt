-- ===== src/PairSet.antt =====
-- Python's sets of directed port pairs, as lists without repetition. Nothing in the program depends
-- on the order of a set: writes go through `sorted`.
pub mod Laws
pub mod Unique
use reconfig_net_sim.Prelude.{
  ℕ, Bool, not, ◌&&◌, ◌||◌, List, [], ◌∷◌, ◌++◌, any, all, keep, ltb, ◌==◌, if◌then◌else◌,
}

abbrev pub Pair : Type 0
Pair = ℕ × ℕ

abbrev pub PairSet : Type 0
PairSet = List Pair

abbrev pub pair_eq : Pair → Pair → Bool
pair_eq p q = (p.0 == q.0) && (p.1 == q.1)

-- `p in s`
unfoldable pub mem : Pair → PairSet → Bool
mem p s = any (pair_eq p) s

-- `s.add(p)`
unfoldable pub add : Pair → PairSet → PairSet
add p s = if mem p s then s else s ++ p ∷ []

-- `a - b`
unfoldable pub diff : PairSet → PairSet → PairSet
diff a b = keep (λ p. not (mem p b)) a

-- `a & b`
unfoldable pub inter : PairSet → PairSet → PairSet
inter a b = keep (λ p. mem p b) a

unfoldable pub subset : PairSet → PairSet → Bool
subset a b = all (λ p. mem p b) a

-- `a == b`
unfoldable pub set_eq : PairSet → PairSet → Bool
set_eq a b = subset a b && subset b a

-- `set(…)` of a sequence.
unfoldable pub to_set : PairSet → List Pair → PairSet
to_set pairs [] = pairs
to_set pairs (p ∷ ps) = to_set (add p pairs) ps

-- Python's order on tuples.
abbrev pub pair_lt : Pair → Pair → Bool
pair_lt p q = ltb p.0 q.0 || ((p.0 == q.0) && ltb p.1 q.1)

pub insert_sorted : Pair → List Pair → List Pair
insert_sorted p [] = p ∷ []
insert_sorted p (q ∷ s) =
    let rest = insert_sorted p s in if pair_lt q p then q ∷ rest else p ∷ q ∷ s

-- `sorted(s)`
unfoldable pub sorted : PairSet → List Pair
unfolding insert_sorted
sorted [] = []
sorted (p ∷ s) = insert_sorted p (sorted s)
