-- ===== src/Bfrt/Keeps.antt =====
-- The writes of `BFRTBackend` leave its way of verification alone (agent/python/ocs_agent/backends/
-- bfrt.py).
use reconfig_net_sim.Prelude.{ℕ, String, ◌≡◌, refl, inl, inr, List, [], ◌∷◌, str_eq, Bool-cases}
use reconfig_net_sim.Errors.{ok, Result-cases}
use reconfig_net_sim.Exec.{outcome}
use reconfig_net_sim.PairSet.{Pair, PairSet, sorted}
use reconfig_net_sim.Bfrt.{
  Client, State, Write, device_pairs, device_pair, write_batch, write_each, write_pairs,
  write_ordered, write_keys,
}

module _ (client : Client) (now : ℕ) where
  -- Writes leave the way of verification alone.
  module _ (operation : Write) where
    write_each-keeps :
        (ps : List Pair) (a : State client now)
        → (write_each client now operation ps a).1.write_verification ≡ a.write_verification
    unfolding write_each
    write_each-keeps [] a = refl
    write_each-keeps (p ∷ ps) a = elim (Result-cases (device_pair a.port_map p)) [
      | inr (x, e) ↦ rw e refl
      | inl (k, e) ↦ rw e (elim (outcome (write_keys client now operation (k ∷ []) a.hardware)) [
        | inr (x, t, f) ↦ rw f refl
        | inl (_, t, f) ↦ rw f (write_each-keeps ps (record a { hardware = t }))
      ])
    ]

    write_batch-keeps :
        (ps : List Pair) (a : State client now)
        → (write_batch client now operation ps a).1.write_verification ≡ a.write_verification
    unfolding write_batch
    write_batch-keeps ps a = elim (Result-cases (device_pairs a.port_map ps)) [
      | inr (x, e) ↦ rw e refl
      | inl (ks, e) ↦ rw e (elim (outcome (write_keys client now operation ks a.hardware)) [
        | inr (x, t, f) ↦ rw f refl
        | inl (_, t, f) ↦ rw f refl
      ])
    ]

    write_ordered-keeps :
        (ps : List Pair) (transport : String) (a : State client now)
        → (write_ordered client now operation ps transport a).1.write_verification
          ≡ a.write_verification
    write_ordered-keeps [] transport a = refl
    write_ordered-keeps (p ∷ ps) transport a = elim (Bool-cases (str_eq transport "NATIVE_BATCH")) [
      | inl batch ↦ rw batch (write_batch-keeps (p ∷ ps) a)
      | inr other ↦ rw other (elim (Bool-cases (str_eq transport "SEQUENTIAL")) [
        | inr unknown ↦ rw unknown refl
        | inl each ↦ rw each (elim (outcome (write_each client now operation (p ∷ ps) a)) [
          | inl (_, t, e) ↦ rw e (rw e at (write_each-keeps (p ∷ ps) a))
          | inr (x, t, e) ↦ rw e (rw e at (write_each-keeps (p ∷ ps) a))
        ])
      ])
    ]

    pub write_pairs-keeps :
        (pairs : PairSet) (transport : String) (n : ℕ) (a b : State client now)
        → write_pairs client now operation pairs transport a ≡ (ok n, b)
        → b.write_verification ≡ a.write_verification
    unfolding write_pairs
    write_pairs-keeps pairs transport n a b h =
        rw h at (write_ordered-keeps (sorted pairs) transport a)
