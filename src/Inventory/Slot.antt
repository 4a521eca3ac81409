-- ===== src/Inventory/Slot.antt =====
-- The regular expression `^port-([1-9][0-9]*)$` of agent/python/ocs_agent/model.py, on code points.
-- Python's `$` also matches before a newline at the end of the text.
use reconfig_net_sim.Prelude.{
  ℕ, ◌+◌, ◌-◌, ◌*◌, String, ◌&&◌, Option, none, some, List, [], ◌∷◌, leb, ◌==◌, if◌then◌else◌,
  codes, is_digit,
}

unfoldable pub strip_prefix : List ℕ → List ℕ → Option (List ℕ)
strip_prefix [] s = some s
strip_prefix (p ∷ ps) [] = none
strip_prefix (p ∷ ps) (c ∷ s) = let rest = strip_prefix ps s in if p == c then rest else none

-- `$`: the end of the text, or a newline that ends it.
abbrev at_end : List ℕ → ℕ → Option ℕ
at_end [] n = some n
at_end (c ∷ []) n = if c == 10 then some n else none
at_end (c ∷ d ∷ s) n = none

-- `[0-9]*` and the end, with the number read so far.
unfoldable pub digits : ℕ → List ℕ → Option ℕ
digits n [] = some n
digits n (c ∷ s) =
    let rest = digits (n * 10 + (c - b'0')) s in if is_digit c then rest else at_end (c ∷ s) n

-- `[1-9]`
abbrev pub slot : List ℕ → Option ℕ
slot [] = none
slot (c ∷ s) = if leb b'1' c && leb c b'9' then digits (c - b'0') s else none

abbrev slot_after : Option (List ℕ) → Option ℕ
slot_after none = none
slot_after (some s) = slot s

-- `int(match.group(1))`, or `none` where there is no match.
unfoldable pub port_slot : String → Option ℕ
unfolding strip_prefix digits
port_slot name = slot_after (strip_prefix (codes "port-") (codes name))
