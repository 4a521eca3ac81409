-- ===== src/Bfrt/Ports/Laws.antt =====
-- The port map of `BFRTBackend` is a bijection (agent/python/ocs_agent/backends/bfrt.py).
use reconfig_net_sim.Prelude.{
  ℕ, ◌≡◌, refl, ap, ◌∙◌, inl, inr, Bool, true, false, ◌||◌, none, some, List, [], ◌∷◌, ◌++◌, arith,
  any, ◌==◌, Bool-cases, Option-cases, ◌↔◌, if◌then◌else◌,
}
use reconfig_net_sim.Errors.{ok, >>=-eq-ok}
use reconfig_net_sim.Bfrt.Ports.{
  PortMap, PortKey, to_device, to_logical, port_pair, add_port, add_ports, sorted_keys, counts_from,
  normalize_port_map,
}

-- Both directions of the map agree.
abbrev pub IsBijection : PortMap → Type 0
IsBijection m =
    (logical device : ℕ)
    → (to_device m logical ≡ some device) ↔ (to_logical m device ≡ some logical)

to_device-snoc :
    (m : PortMap) (p : ℕ × ℕ) (l : ℕ)
    → to_device (m ++ p ∷ []) l
      ≡ (elim (to_device m l) [ none ↦ if p.0 == l then some p.1 else none | some d ↦ some d ])
unfolding to_device
to_device-snoc [] p l = ground arith
to_device-snoc (q ∷ m) p l = ground (arith, to_device-snoc m p l)

to_logical-snoc :
    (m : PortMap) (p : ℕ × ℕ) (d : ℕ)
    → to_logical (m ++ p ∷ []) d
      ≡ (elim (to_logical m d) [ none ↦ if p.1 == d then some p.0 else none | some l ↦ some l ])
unfolding to_logical
to_logical-snoc [] p d = ground arith
to_logical-snoc (q ∷ m) p d = ground (arith, to_logical-snoc m p d)

to_device-fresh :
    (m : PortMap) (l : ℕ) → any (λ (q : ℕ × ℕ). q.0 == l) m ≡ false → to_device m l ≡ none
unfolding to_device
to_device-fresh [] l h = refl
to_device-fresh (q ∷ m) l h = ground (arith, to_device-fresh m l)

to_logical-fresh :
    (m : PortMap) (d : ℕ) → any (λ (q : ℕ × ℕ). q.1 == d) m ≡ false → to_logical m d ≡ none
unfolding to_logical
to_logical-fresh [] d h = refl
to_logical-fresh (q ∷ m) d h = ground (arith, to_logical-fresh m d)

snoc_hit : (b : Bool) (x y : ℕ) → (if b then some x else none) ≡ some y → (b ≡ true) × (x ≡ y)
snoc_hit b x y h = (ground arith, ground arith)

-- An item whose two ports are new keeps the map one-to-one.
snoc-IsBijection :
    (m : PortMap) (p : ℕ × ℕ)
    → any (λ (q : ℕ × ℕ). q.0 == p.0) m ≡ false
    → any (λ (q : ℕ × ℕ). q.1 == p.1) m ≡ false
    → IsBijection m
    → IsBijection (m ++ p ∷ [])
snoc-IsBijection m p fresh free b l d =
    rw (to_device-snoc m p l, to_logical-snoc m p d)
      (
        (λ h. elim (Option-cases (to_device m l)) [
          | inl gone ↦
              let (name, number) = snoc_hit (p.0 == l) p.1 d (rw gone at h) in
              let there : p.1 ≡ d = number in
              let absent : to_logical m d ≡ none = rw (← there) (to_logical-fresh m p.1 free) in
              rw absent (ground arith)
          | inr (e, there) ↦
              let same : e ≡ d = cc (rw there at h) in rw ((b l d).0 (there ∙ ap some same))
        ]),
        (λ h. elim (Option-cases (to_logical m d)) [
          | inl gone ↦
              let (name, number) = snoc_hit (p.1 == d) p.0 l (rw gone at h) in
              let there : p.0 ≡ l = number in
              let absent : to_device m l ≡ none = rw (← there) (to_device-fresh m p.0 fresh) in
              rw absent (ground arith)
          | inr (k, there) ↦
              let same : k ≡ l = cc (rw there at h) in rw ((b l d).1 (there ∙ ap some same))
        ]),
      )

add_port-IsBijection :
    (m next : PortMap) (k : PortKey) → IsBijection m → add_port m k ≡ ok next → IsBijection next
unfolding add_port
add_port-IsBijection m next k b h =
    let (p, _, h1) = >>=-eq-ok (port_pair k) _ h in
    let taken = any (λ (q : ℕ × ℕ). q.0 == p.0) m || any (λ (q : ℕ × ℕ). q.1 == p.1) m in
    elim (Bool-cases taken) [
      | inl clash ↦ absurd (cc (rw clash at h1))
      | inr new ↦
          let same : m ++ p ∷ [] ≡ next = cc (rw new at h1) in
          rw (← same) (snoc-IsBijection m p (ground arith) (ground arith) b)
    ]

add_ports-IsBijection :
    (ks : List PortKey) (m next : PortMap)
    → IsBijection m
    → add_ports m ks ≡ ok next
    → IsBijection next
unfolding add_ports
add_ports-IsBijection [] m next b h = let same : m ≡ next = cc in rw (← same) b
add_ports-IsBijection (k ∷ ks) m next b h =
    let (mid, added, rest) = >>=-eq-ok (add_port m k) (λ t. add_ports t ks) h in
    add_ports-IsBijection ks mid next (add_port-IsBijection m mid k b added) rest

empty-IsBijection : IsBijection []
unfolding to_device to_logical
empty-IsBijection l d = (λ h. absurd (cc), λ h. absurd (cc))

-- Every port map that is accepted is one-to-one: a logical port is mapped to a device port exactly if
-- the inverse map takes that device port back to it.
pub normalize_port_map-IsBijection :
    (ks : List PortKey) (m : PortMap) → normalize_port_map ks ≡ ok m → IsBijection m
unfolding normalize_port_map
normalize_port_map-IsBijection [] m h = absurd (cc)
normalize_port_map-IsBijection (k ∷ ks) m h =
    let (t, added, checked) = >>=-eq-ok (add_ports [] (k ∷ ks)) _ h in
    elim (Bool-cases (counts_from 1 (sorted_keys t))) [
      | inr gap ↦ absurd (cc (rw gap at checked))
      | inl counted ↦
          let same : t ≡ m = cc (rw counted at checked) in
          rw (← same) (add_ports-IsBijection (k ∷ ks) [] t empty-IsBijection added)
    ]
