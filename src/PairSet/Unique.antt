-- ===== src/PairSet/Unique.antt =====
-- Lists of pairs without repetition, which is how a Python set is kept.
use reconfig_net_sim.Prelude.{◌≡◌, false, List, [], ◌∷◌, arith, Bool-cases, inl, inr}
use reconfig_net_sim.PairSet.{Pair, PairSet, pair_eq, pair_lt, mem, diff, sorted, insert_sorted}
use reconfig_net_sim.PairSet.Laws.{mem-cons, mem-diff, mem-sorted, mem-insert_sorted}

abbrev pub IsUnique : List Pair → Type 0
IsUnique [] = Unit
IsUnique (p ∷ s) = (mem p s ≡ false) × IsUnique s

pair_eq_comm : (p q : Pair) → pair_eq p q ≡ pair_eq q p
pair_eq_comm p q = ground arith

insert_sorted-IsUnique :
    (p : Pair) (s : List Pair) → mem p s ≡ false → IsUnique s → IsUnique (insert_sorted p s)
unfolding insert_sorted
insert_sorted-IsUnique p [] new u = (new, tt)
insert_sorted-IsUnique p (q ∷ s) new (fresh, u) = elim (Bool-cases (pair_lt q p)) [
  | inr after ↦ rw after (new, (fresh, u))
  | inl before ↦ rw before (
    ground (arith, mem-insert_sorted q p s, mem-cons p q s, pair_eq_comm p q),
    insert_sorted-IsUnique p s (ground (arith, mem-cons p q s)) u,
  )
]

pub sorted-IsUnique : (s : PairSet) → IsUnique s → IsUnique (sorted s)
unfolding sorted
sorted-IsUnique [] u = tt
sorted-IsUnique (p ∷ s) (fresh, u) =
    insert_sorted-IsUnique p (sorted s) (ground (arith, mem-sorted p s)) (sorted-IsUnique s u)

pub diff-IsUnique : (a b : PairSet) → IsUnique a → IsUnique (diff a b)
unfolding diff
diff-IsUnique [] b u = tt
diff-IsUnique (p ∷ a) b (fresh, u) = elim (Bool-cases (mem p b)) [
  | inl out ↦ rw out (diff-IsUnique a b u)
  | inr kept ↦ rw kept (ground (arith, mem-diff p a b), diff-IsUnique a b u)
]
