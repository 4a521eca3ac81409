-- ===== src/Prelude/Text.antt =====
-- What the program uses of Python's `str` and `int`, on code points.
use Prim.Native.Char.{Char, code}
use Prim.Native.Nat.{ℕ, zero, suc, ◌+◌, ◌-◌, ◌*◌}
use Prim.Native.String.{String}
use mathlib.Core.Bool.{Bool, false, ◌&&◌, ◌||◌}
use mathlib.Core.Option.{Option, none, some}
use mathlib.Core.List.{List, [], ◌∷◌}
use reconfig_net_sim.Prelude.Tests.{leb, ◌==◌, if◌then◌else◌}
use reconfig_net_sim.Prelude.Int.{ℤ, pos, negsuc}

abbrev pub codes : String → List ℕ
codes String.[] = []
codes (String.◌∷◌ c s) = code c ∷ codes s

abbrev pub is_digit : ℕ → Bool
is_digit c = leb b'0' c && leb c b'9'

-- The white space of Latin-1, the character set of HTTP headers.
abbrev is_space : ℕ → Bool
is_space c = leb 9 c && leb c 13 || leb 28 c && leb c 32 || c == 133 || c == 160

unfoldable pub strip_left : List ℕ → List ℕ
strip_left [] = []
strip_left (c ∷ s) = let rest = strip_left s in if is_space c then rest else c ∷ s

unfoldable pub reverse_onto : List ℕ → List ℕ → List ℕ
reverse_onto acc [] = acc
reverse_onto acc (c ∷ s) = reverse_onto (c ∷ acc) s

abbrev pub strip : List ℕ → List ℕ
strip s = reverse_onto [] (strip_left (reverse_onto [] (strip_left s)))

-- Decimal digits with single underscores between them, after the digits of `n`. The flag tells whether
-- the last character was a digit.
unfoldable pub decimal : ℕ → Bool → List ℕ → Option ℕ
decimal n after [] = if after then some n else none
decimal n after (c ∷ s) =
    let rest = decimal (if is_digit c then n * 10 + (c - b'0') else n) (is_digit c) s in
    if is_digit c || (c == b'_' && after) then rest else none

abbrev negated : ℕ → ℤ
negated zero = pos 0
negated (suc n) = negsuc n

abbrev signed : List ℕ → Option ℤ
signed [] = none
signed (c ∷ s) =
    if c == b'-'
    then (elim (decimal 0 false s) [ none ↦ none | some n ↦ some (negated n) ])
    else (elim (decimal 0 false (if c == b'+' then s else c ∷ s)) [
      | none ↦ none
      | some n ↦ some (pos n)
    ])

-- `int(text)`, or `none` where it raises a ValueError.
unfoldable pub int_of : String → Option ℤ
unfolding strip_left reverse_onto decimal
int_of text = signed (strip (codes text))

abbrev char_at_or : Char → ℕ → String → Char
char_at_or default n String.[] = default
char_at_or default zero (String.◌∷◌ c s) = c
char_at_or default (suc n) (String.◌∷◌ c s) = char_at_or default n s

-- The capital of a letter. The dotless i and the long s are the other characters whose capital is one
-- ASCII letter.
abbrev capital : Char → Char
capital c =
    if leb b'a' (code c) && leb (code c) b'z'
    then char_at_or c (code c - b'a') "ABCDEFGHIJKLMNOPQRSTUVWXYZ"
    else if code c == 305
    then char_at_or c 0 "I"
    else if code c == 383
    then char_at_or c 0 "S"
    else c

-- `text.upper()`, as far as it can equal a word of the program: other letters stay as they are.
unfoldable pub upper : String → String
upper String.[] = String.[]
upper (String.◌∷◌ c s) = String.◌∷◌ (capital c) (upper s)

abbrev small : Char → Char
small c =
    if leb b'A' (code c) && leb (code c) b'Z'
    then char_at_or c (code c - b'A') "abcdefghijklmnopqrstuvwxyz"
    else c

-- `text.lower()` of a header, in the same sense.
unfoldable pub lower : String → String
lower String.[] = String.[]
lower (String.◌∷◌ c s) = String.◌∷◌ (small c) (lower s)
