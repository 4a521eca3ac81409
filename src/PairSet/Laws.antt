-- ===== src/PairSet/Laws.antt =====
-- Membership under each operation on sets, which is all that clients know of them.
use reconfig_net_sim.Prelude.{
  ◌≡◌, refl, sym, ◌∙◌, ◌↔◌, Bool, true, false, not, ◌&&◌, ◌||◌, List, [], ◌∷◌, ◌++◌, arith, keep,
  any-append, Bool-ext, Bool-cases, inl, inr,
}
use reconfig_net_sim.PairSet.{
  Pair, PairSet, pair_eq, mem, add, diff, inter, subset, set_eq, sorted, insert_sorted, to_set,
}

pub pair_eq-eq : (p q : Pair) → pair_eq p q ≡ true → p ≡ q
pair_eq-eq p q h = ground arith

pub pair_eq_refl : (p : Pair) → pair_eq p p ≡ true
pair_eq_refl p = ground arith

pub mem-nil : (q : Pair) → mem q [] ≡ false
unfolding mem
mem-nil q = refl

pub mem-cons : (q p : Pair) (s : PairSet) → mem q (p ∷ s) ≡ (pair_eq q p || mem q s)
unfolding mem
mem-cons q p s = refl

-- Equal pairs are members alike.
pub mem-eq : (q p : Pair) (s : PairSet) → pair_eq q p ≡ true → mem q s ≡ mem p s
mem-eq q p s same = rw (pair_eq-eq q p same)

mem-append : (q : Pair) (a b : PairSet) → mem q (a ++ b) ≡ (mem q a || mem q b)
unfolding mem
mem-append q a b = any-append (pair_eq q) a b

pub mem-add : (q p : Pair) (s : PairSet) → mem q (add p s) ≡ (pair_eq q p || mem q s)
unfolding add
mem-add q p s = ground (arith, mem-eq q p s, mem-append q s (p ∷ []), mem-cons q p [], mem-nil q)

mem-keep : (q : Pair) (f : Pair → Bool) (s : PairSet) → mem q (keep f s) ≡ (mem q s && f q)
unfolding mem
mem-keep q f [] = refl
mem-keep q f (p ∷ s) = elim (Bool-cases (pair_eq q p)) [
  | inl same ↦ rw (pair_eq-eq q p same) (ground (arith, mem-keep p f s, pair_eq_refl p))
  | inr differ ↦ ground (arith, mem-keep q f s)
]

pub mem-diff : (q : Pair) (a b : PairSet) → mem q (diff a b) ≡ (mem q a && not (mem q b))
unfolding diff
mem-diff q a b = mem-keep q (λ p. not (mem p b)) a

pub mem-inter : (q : Pair) (a b : PairSet) → mem q (inter a b) ≡ (mem q a && mem q b)
unfolding inter
mem-inter q a b = mem-keep q (λ p. mem p b) a

subset-mem : (a b : PairSet) → subset a b ≡ true → (q : Pair) → mem q a ≡ true → mem q b ≡ true
unfolding subset mem
subset-mem [] b h q m = cc
subset-mem (p ∷ a) b h q m = elim (Bool-cases (pair_eq q p)) [
  | inl same ↦ rw (pair_eq-eq q p same) (ground arith)
  | inr differ ↦ subset-mem a b (ground arith) q (ground arith)
]

mem-subset : (a b : PairSet) → ((q : Pair) → mem q a ≡ true → mem q b ≡ true) → subset a b ≡ true
unfolding subset mem
mem-subset [] b f = refl
mem-subset (p ∷ a) b f =
    ground (arith, f p, pair_eq_refl p, mem-subset a b (λ q m. f q (ground arith)))

-- Two sets are equal exactly when they have the same members.
pub set_eq_iff : (a b : PairSet) → (set_eq a b ≡ true) ↔ ((q : Pair) → mem q a ≡ mem q b)
unfolding set_eq
set_eq_iff a b = (
  λ h q.
      Bool-ext (mem q a) (mem q b) (subset-mem a b (ground arith) q)
        (subset-mem b a (ground arith) q),
  λ f. ground (arith, mem-subset a b (λ q m. sym (f q) ∙ m), mem-subset b a (λ q m. f q ∙ m)),
)

pub mem-insert_sorted :
    (q p : Pair) (s : List Pair) → mem q (insert_sorted p s) ≡ (pair_eq q p || mem q s)
unfolding mem insert_sorted
mem-insert_sorted q p [] = refl
mem-insert_sorted q p (r ∷ s) = ground (arith, mem-insert_sorted q p s)

pub mem-sorted : (q : Pair) (s : PairSet) → mem q (sorted s) ≡ mem q s
unfolding sorted
mem-sorted q [] = refl
mem-sorted q (p ∷ s) = rw (mem-insert_sorted q p (sorted s), mem-sorted q s, mem-cons)

-- `set(…)` keeps the members of a sequence.
pub mem-to_set :
    (p : Pair) (pairs ps : List Pair) → mem p (to_set pairs ps) ≡ (mem p pairs || mem p ps)
unfolding to_set
mem-to_set p pairs [] = ground (arith, mem-nil p)
mem-to_set p pairs (q ∷ ps) =
    grind (arith, mem-to_set p (add q pairs) ps, mem-add p q pairs, mem-cons p q ps)
