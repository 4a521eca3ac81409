-- ===== src/Files/Unique.antt =====
-- The loops over capabilities and gNMI models let no name stand twice (agent/python/ocs_agent/profile.py).
use reconfig_net_sim.Prelude.{
  ℕ, zero, suc, String, ◌≡◌, refl, ap, false, Option, none, some, List, [], ◌∷◌, arith, eq_refl,
  get_elem?,
}
use reconfig_net_sim.Value.{Value, get, plain_text}
use reconfig_net_sim.Errors.{Result}
use reconfig_net_sim.Files.Ensures.{Ensures, Ensures-bind, Ensures-weaken}
use reconfig_net_sim.Files.Objects.{is_in}
use reconfig_net_sim.Files.Capabilities.{check_each}

-- The text under a key of an object.
abbrev pub name_at : String → Value → Option String
name_at key (Value.dict f) = plain_text (get f key)
name_at key v = none

-- No two places of the list hold objects of one name.
abbrev pub HasUnique : String → List Value → Type 0
HasUnique key vs =
    (i j : ℕ) (v w : Value) (name : String)
    → get_elem? vs i ≡ some v
    → get_elem? vs j ≡ some w
    → name_at key v ≡ some name
    → name_at key w ≡ some name
    → i ≡ j

module _ (key : String) (check : List String → Value → Result String)
    (named : (names : List String) (v : Value)
      → Ensures
          (λ name. (name_at key v ≡ some name) × (is_in names name ≡ false))
          (check names v)) where
  -- None of the values has one of the names.
  abbrev AreFresh : List String → List Value → Type 0
  AreFresh names vs =
      (i : ℕ) (v : Value) (name : String)
      → get_elem? vs i ≡ some v
      → name_at key v ≡ some name
      → is_in names name ≡ false

  some-injective : (s t : String) → some s ≡ some t → s ≡ t
  some-injective s t h = cc

  pub check_each-AreFresh :
      (names : List String) (vs : List Value)
      → Ensures (λ _. AreFresh names vs × HasUnique key vs) (check_each check names vs)
  unfolding check_each
  check_each-AreFresh names [] = (λ i v name h. absurd (cc), λ i j v w name h. absurd (cc))
  check_each-AreFresh names (u ∷ vs) =
      Ensures-bind (λ _. AreFresh names (u ∷ vs) × HasUnique key (u ∷ vs))
        (λ name. (name_at key u ≡ some name) × (is_in names name ≡ false)) (check names u) _
        (named names u)
        (λ name h.
          Ensures-weaken (check_each check (name ∷ names) vs)
            (λ _ k. (fresh name h.0 h.1 k.0, unique name h.0 k.0 k.1))
            (check_each-AreFresh (name ∷ names) vs))
    where
      fresh :
          (name : String)
          → name_at key u ≡ some name
          → is_in names name ≡ false
          → AreFresh (name ∷ names) vs
          → AreFresh names (u ∷ vs)
      fresh name h new rest zero v other here called =
          let same : u ≡ v = cc in
          let equal : name ≡ other = cc (h, called, same) in rw (← equal) new
      fresh name h new rest (suc i) v other there called =
          let neither = rest i v other there called in ground arith

      clash :
          (name other : String) (v : Value)
          → some u ≡ some v
          → name_at key u ≡ some name
          → name_at key v ≡ some other
          → is_in (name ∷ names) other ≡ false
          → ⊥
      clash name other v a h c new =
          let same : u ≡ v = cc in
          let equal : name ≡ other = cc (h, c, same) in
          let test = eq_refl other in cc (rw equal at new)

      unique :
          (name : String)
          → name_at key u ≡ some name
          → AreFresh (name ∷ names) vs
          → HasUnique key vs
          → HasUnique key (u ∷ vs)
      unique name h rest more zero zero v w other a b c d = refl
      unique name h rest more (suc i) (suc j) v w other a b c d =
          ap suc (more i j v w other a b c d)
      unique name h rest more zero (suc j) v w other a b c d =
          absurd (clash name other v a h c (rest j w other b d))
      unique name h rest more (suc i) zero v w other a b c d =
          absurd (clash name other w b h d (rest i v other a c))
