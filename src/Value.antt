-- ===== src/Value.antt =====
-- The values of a dynamic language that reach the Agent from YAML files and JSON requests.
use reconfig_net_sim.Prelude.{
  zero, String, Bool, true, false, ◌||◌, Option, none, some, str_eq, if◌then◌else◌,
}
use reconfig_net_sim.Prelude.Int.{ℤ, pos}

mutual
  -- `float z` is the finite float z / 10^9, precise enough for the seconds of a lease.
  pub data Value : Type 0 where
    null : Value
    bool : Bool → Value
    int : ℤ → Value
    float : ℤ → Value
    text : String → Value
    list : Items → Value
    dict : Fields → Value

  pub data Items : Type 0 where
    nil : Items
    cons : Value → Items → Items

  pub data Fields : Type 0 where
    end : Fields
    field : String → Value → Fields → Fields

-- `d.get(key)`: a missing key reads as `None`.
abbrev pub get : Fields → String → Value
get end key = null
get (field k v rest) key = if str_eq k key then v else get rest key

-- `key in d`
abbrev pub has : Fields → String → Bool
has end key = false
has (field k v rest) key = str_eq k key || has rest key

-- `d.get(key, default)`
abbrev pub get_or : Value → Fields → String → Value
get_or default end key = default
get_or default (field k v rest) key = if str_eq k key then v else get_or default rest key

-- `isinstance(v, str)`
abbrev pub plain_text : Value → Option String
plain_text (text s) = some s
plain_text _ = none

-- `isinstance(v, int)` and not a bool.
abbrev pub plain_int : Value → Option ℤ
plain_int (int z) = some z
plain_int _ = none

abbrev is_zero : ℤ → Bool
is_zero (pos zero) = true
is_zero _ = false

-- `not v`
abbrev pub is_falsy : Value → Bool
is_falsy null = true
is_falsy (bool true) = false
is_falsy (bool false) = true
is_falsy (int z) = is_zero z
is_falsy (float z) = is_zero z
is_falsy (text s) = str_eq s ""
is_falsy (list nil) = true
is_falsy (list (cons v rest)) = false
is_falsy (dict end) = true
is_falsy (dict (field k v rest)) = false
