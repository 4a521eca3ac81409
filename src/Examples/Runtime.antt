-- ===== src/Examples/Runtime.antt =====
-- The theorems on the P4App backend over a switch that is reached by P4Runtime: it has no attribute
-- `entries`, and its table is read back as rows of byte strings.
use reconfig_net_sim.Prelude.{◌≡◌, refl, true, false, none, some, [], ◌∷◌, map, arith, inr}
use reconfig_net_sim.Prelude.Int.{pos}
use reconfig_net_sim.Value.{Value}
use reconfig_net_sim.Errors.{Raised, fmt, ok, other}
use reconfig_net_sim.Exec.{raise}
use reconfig_net_sim.PairSet.{Pair, PairSet, add, diff}
use reconfig_net_sim.PairSet.Laws.{mem-nil, mem-cons, mem-add, mem-diff}
use reconfig_net_sim.PairSet.Unique.{IsUnique}
use reconfig_net_sim.Backend.{validate_delay_us}
use reconfig_net_sim.Backend.Laws.{IsFaithful}
use reconfig_net_sim.P4app
use reconfig_net_sim.P4app.{Switch}
use reconfig_net_sim.P4app.Decode.{Row, bytes, ingress_field, egress_field}
use reconfig_net_sim.P4app.Rows.{Lists, nothing, entry, ingress_first}
use reconfig_net_sim.P4app.Readback.{Holds}
use reconfig_net_sim.P4app.Contract.{IsTable, backend-IsFaithful}
use reconfig_net_sim.P4app.Working.{IsWorking}
use reconfig_net_sim.P4app.Success.{IsSettled, apply-IsSettled}
use reconfig_net_sim.Examples.Model.{model}

abbrev no_method : Raised
no_method = other (fmt "no method" [])

abbrev row_of : Pair → Row
row_of p = record {
  table_id = 7;
  matches =
      record { field = ingress_field; exact = some (bytes (p.0 ∷ [])) }
      ∷ record { field = egress_field; exact = some (bytes (p.1 ∷ [])) }
      ∷ [];
}

abbrev runtime_switch : Switch
runtime_switch = record {
  State = PairSet;
  own_entries = none;
  has_runtime = true;
  can_read_table = true;
  has_client_stub = false;
  table_id = 7;
  read_table = λ id s. (ok (map row_of s), s);
  runtime_insert = λ p s. (ok tt, add p s);
  runtime_delete = λ p s. (ok tt, diff s (p ∷ []));
  own_insert = λ p. raise no_method;
  own_delete = λ p. raise no_method;
  batch_insert = λ ps. raise no_method;
  batch_delete = λ ps. raise no_method;
}

rows-Lists : (s : PairSet) → Lists 7 (map row_of s) s
rows-Lists [] = nothing
rows-Lists (p ∷ s) =
    entry (ingress_first (p.0 ∷ []) (p.1 ∷ []) (omega arith) (omega arith)) (rows-Lists s)

runtime_switch-IsTable : IsTable runtime_switch (λ s. s)
runtime_switch-IsTable = record {
  own = λ list h. absurd (cc h);
  keeps = λ id s p. refl;
  rows = λ s t rows h.
      let read : map row_of s ≡ rows = cc h in
      let stays : s ≡ t = cc h in (t, rw (← read, stays) (rows-Lists t), λ p. refl);
  plain = λ s t x h. absurd (cc h);
}

runtime_switch-IsWorking : IsWorking runtime_switch (λ s. s)
runtime_switch-IsWorking = record {
  table = runtime_switch-IsTable;
  own = λ h. absurd (cc h);
  runtime = λ h. (
    λ p s there. (
      diff s (p ∷ []),
      refl,
      λ q. ground (arith, mem-diff q s (p ∷ []), mem-cons q p [], mem-nil q),
    ),
    λ p s free. (add p s, refl, λ q. ground (arith, mem-add q p s)),
  );
  readable = inr (refl, refl, refl, λ s. (map row_of s, s, refl));
}

backend-IsFaithful_example :
    IsFaithful (P4app.backend runtime_switch) (Holds runtime_switch (λ s. s))
backend-IsFaithful_example = backend-IsFaithful runtime_switch (λ s. s) runtime_switch-IsTable

abbrev first_pairs : PairSet
first_pairs = (1, 2) ∷ (2, 1) ∷ []

abbrev next_pairs : PairSet
next_pairs = (3, 4) ∷ (4, 3) ∷ []

abbrev one_pause : Value
one_pause = Value.int (pos 50)

first_pairs-IsUnique : IsUnique first_pairs
unfolding model
first_pairs-IsUnique = (refl, (refl, tt))

next_pairs-IsUnique : IsUnique next_pairs
unfolding model
next_pairs-IsUnique = (refl, (refl, tt))

table_held : Holds runtime_switch (λ s. s) first_pairs first_pairs
table_held p = refl

pause_ok : validate_delay_us one_pause ≡ ok 50
unfolding model
pause_ok = refl

-- A pause of 50 microseconds between the deletes and the inserts.
apply-IsSettled_example :
    IsSettled runtime_switch
      (λ s. s)
      runtime_switch-IsWorking
      first_pairs
      next_pairs
      50
      (P4app.apply runtime_switch first_pairs next_pairs "DELTA" one_pause "SEQUENTIAL" first_pairs)
apply-IsSettled_example =
    apply-IsSettled runtime_switch (λ s. s) runtime_switch-IsWorking first_pairs next_pairs "DELTA"
      one_pause 50 first_pairs first_pairs-IsUnique next_pairs-IsUnique table_held pause_ok refl

-- Without one the target is installed.
installed :
    (P4app.apply runtime_switch first_pairs next_pairs "FULL"
      (Value.int (pos 0))
      "SEQUENTIAL"
      first_pairs).1
    ≡ next_pairs
unfolding model
installed = refl
