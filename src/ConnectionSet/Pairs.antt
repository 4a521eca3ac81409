-- ===== src/ConnectionSet/Pairs.antt =====
-- The directed pairs of a matching: a symmetric partial involution without fixed points.
use reconfig_net_sim.Prelude.{
  ℕ, ◌≤◌, String, ◌≡◌, ◌≢◌, refl, sym, ◌∙◌, Bool, true, false, not, ◌&&◌, ◌||◌, some, List, [], ◌∷◌,
  arith, All, str_eq, eq_iff, eq_refl,
}
use reconfig_net_sim.Errors.{ok}
use reconfig_net_sim.PairSet.{Pair, PairSet, pair_eq, mem, add, diff}
use reconfig_net_sim.PairSet.Laws.{mem-add, mem-nil, mem-diff}
use reconfig_net_sim.Inventory.{Port, PortInventory, find, require, size}
use reconfig_net_sim.Inventory.Laws.{IsInventory}
use reconfig_net_sim.Inventory.Lookup.{by_index-find, find-injective}
use reconfig_net_sim.Connection.{Connection}
use reconfig_net_sim.ConnectionSet.{ConnectionSet, add_pairs, directed_pairs, set_diff}
use reconfig_net_sim.ConnectionSet.Matching.{IsLink, Apart, AllApart, IsMatching}

-- The pair joins the two ends of one of the connections.
abbrev pub links_pair :
    (inventory : PortInventory) (cs : List Connection) → All (IsLink inventory) cs → Pair → Bool
links_pair inventory [] h q = false
links_pair inventory (c ∷ cs) h q =
    pair_eq q (h.0.near.index, h.0.far.index)
    || pair_eq q (h.0.far.index, h.0.near.index)
    || links_pair inventory cs h.1 q

-- `directed_pairs` does not raise on known ports, and collects both directions of each connection.
pub mem-add_pairs :
    (inventory : PortInventory) (pairs : PairSet) (cs : List Connection)
    (h : All (IsLink inventory) cs)
    → (r : PairSet) × (add_pairs inventory pairs cs ≡ ok r)
      × ((q : Pair) → mem q r ≡ (mem q pairs || links_pair inventory cs h q))
unfolding add_pairs require
mem-add_pairs inventory pairs [] h = (pairs, refl, λ q. ground arith)
mem-add_pairs inventory pairs (c ∷ cs) h =
    let l = h.0 in
    let next = add (l.far.index, l.near.index) (add (l.near.index, l.far.index) pairs) in
    let (r, rest, members) = mem-add_pairs inventory next cs h.1 in
    (
      r,
      rw (l.near_found, l.far_found) rest,
      λ q. ground (
        arith,
        members q,
        mem-add q (l.far.index, l.near.index) (add (l.near.index, l.far.index) pairs),
        mem-add q (l.near.index, l.far.index) pairs,
      ),
    )

links_pair-swap :
    (inventory : PortInventory) (cs : List Connection) (h : All (IsLink inventory) cs) (i j : ℕ)
    → links_pair inventory cs h (i, j) ≡ links_pair inventory cs h (j, i)
links_pair-swap inventory [] h i j = refl
links_pair-swap inventory (c ∷ cs) h i j = ground (arith, links_pair-swap inventory cs h.1 i j)

near_used :
    (c : Connection)
    → (str_eq c.near_port_name c.near_port_name || str_eq c.far_port_name c.near_port_name) ≡ true
near_used c = rw (eq_refl c.near_port_name)

far_used :
    (c : Connection)
    → (str_eq c.near_port_name c.far_port_name || str_eq c.far_port_name c.far_port_name) ≡ true
far_used c = ground (arith, eq_refl c.far_port_name)

module _ {inventory : PortInventory} (valid : IsInventory inventory) where
  -- Ports with one index have one name.
  same_name :
      (n m : String) (p q : Port)
      → find inventory n ≡ some p
      → find inventory m ≡ some q
      → p.index ≡ q.index
      → str_eq n m ≡ true
  same_name n m p q hp hq e = (eq_iff n m).1 (find-injective inventory n m p q valid hp hq e)

  ends_apart : (c : Connection) (l : IsLink inventory c) → l.near.index ≢ l.far.index
  ends_apart c l e =
      let same =
        same_name c.near_port_name c.far_port_name l.near l.far l.near_found l.far_found e in
      cc (same, l.ends_differ)

  -- A port of a connection is on none of the connections that stand apart from it.
  links_pair-Apart :
      (c : Connection) (name : String) (p : Port) (k : ℕ) (cs : List Connection)
      (h : All (IsLink inventory) cs)
      → find inventory name ≡ some p
      → (str_eq c.near_port_name name || str_eq c.far_port_name name) ≡ true
      → All (Apart c) cs
      → links_pair inventory cs h (p.index, k) ≡ false
  links_pair-Apart c name p k [] h found used a = refl
  links_pair-Apart c name p k (d ∷ cs) h found used a =
      let l = h.0 in
      let near_differs : p.index ≢ l.near.index = λ e.
        let same =
          (eq_iff name d.near_port_name).0
            (same_name name d.near_port_name p l.near found l.near_found e) in
        absurd (cc (a.0.1, same)) in
      let far_differs : p.index ≢ l.far.index = λ e.
        let same =
          (eq_iff name d.far_port_name).0
            (same_name name d.far_port_name p l.far found l.far_found e) in
        absurd (cc (a.0.2, same)) in
      ground (arith, links_pair-Apart c name p k cs h.1 found used a.1)

  links_pair-functional :
      (cs : List Connection) (h : All (IsLink inventory) cs) (i j k : ℕ)
      → AllApart cs
      → links_pair inventory cs h (i, j) ≡ true
      → links_pair inventory cs h (i, k) ≡ true
      → j ≡ k
  links_pair-functional [] h i j k a p q = cc
  links_pair-functional (c ∷ cs) h i j k a p q =
      let l = h.0 in
      ground (
        arith,
        ends_apart c l,
        links_pair-Apart c c.near_port_name l.near j cs h.1 l.near_found (near_used c) a.0,
        links_pair-Apart c c.near_port_name l.near k cs h.1 l.near_found (near_used c) a.0,
        links_pair-Apart c c.far_port_name l.far j cs h.1 l.far_found (far_used c) a.0,
        links_pair-Apart c c.far_port_name l.far k cs h.1 l.far_found (far_used c) a.0,
        links_pair-functional cs h.1 i j k a.1,
      )

  links_pair-bounds :
      (cs : List Connection) (h : All (IsLink inventory) cs) (i j : ℕ)
      → links_pair inventory cs h (i, j) ≡ true
      → (1 ≤ i) × (i ≤ size inventory) × (i ≢ j)
  links_pair-bounds [] h i j p = cc
  links_pair-bounds (c ∷ cs) h i j p =
      let l = h.0 in
      ground (
        arith,
        ends_apart c l,
        by_index-find inventory c.near_port_name l.near valid l.near_found,
        by_index-find inventory c.far_port_name l.far valid l.far_found,
        links_pair-bounds cs h.1 i j,
      )

-- What holds of the directed pairs of every matching.
pub record IsInvolution (n : ℕ) (pairs : PairSet) : Type 0 where
  pub symmetric : (i j : ℕ) → mem (i, j) pairs ≡ mem (j, i) pairs
  pub functional : (i j k : ℕ) → mem (i, j) pairs ≡ true → mem (i, k) pairs ≡ true → j ≡ k
  pub bounds : (i j : ℕ) → mem (i, j) pairs ≡ true → (1 ≤ i) × (i ≤ n) × (i ≢ j)

-- On a matching over a valid inventory `directed_pairs` does not raise, and its pairs form a
-- symmetric partial map without fixed points on the ports 1 to n.
pub directed_pairs-IsInvolution :
    (s : ConnectionSet)
    → IsInventory s.inventory
    → IsMatching s
    → (pairs : PairSet) × (directed_pairs s ≡ ok pairs) × IsInvolution (size s.inventory) pairs
unfolding directed_pairs
directed_pairs-IsInvolution s v m =
    let cs = s.connections in
    let (pairs, made, members) = mem-add_pairs s.inventory [] cs m.links in
    let at : (q : Pair) → mem q pairs ≡ links_pair s.inventory cs m.links q =
      λ q. members q ∙ rw (mem-nil q) in
    (
      pairs,
      made,
      record {
        symmetric = λ i j. at (i, j) ∙ links_pair-swap s.inventory cs m.links i j ∙ sym (at (j, i));
        functional = λ i j k p q.
            links_pair-functional v cs m.links i j k m.apart (sym (at (i, j)) ∙ p)
              (sym (at (i, k)) ∙ q);
        bounds = λ i j p. links_pair-bounds v cs m.links i j (sym (at (i, j)) ∙ p);
      },
    )

-- `diff` of two sets whose pairs are known does not raise. Deleting its first part from the old pairs
-- and inserting its second part gives the new pairs, and nothing is both deleted and inserted.
pub set_diff-transition :
    (s target : ConnectionSet) (previous wanted : PairSet)
    → directed_pairs s ≡ ok previous
    → directed_pairs target ≡ ok wanted
    → (removed added : PairSet) × (set_diff s target ≡ ok (removed, added))
      × ((q : Pair)
          → (mem q wanted ≡ (mem q previous && not (mem q removed) || mem q added))
            × ((mem q removed && mem q added) ≡ false))
unfolding set_diff
set_diff-transition s target previous wanted hp hw = (
  diff previous wanted,
  diff wanted previous,
  rw (hp, hw),
  λ q. ground (arith, mem-diff q previous wanted, mem-diff q wanted previous),
)
