-- ===== src/Base/Text.antt =====
-- Texts: the code points of a string, `${n}` of a natural number, and template strings.
pub mod Decimal
use Prim.Native.Nat.{ℕ, zero, suc, ◌+◌, ◌-◌, ◌*◌, ◌/◌, ◌%◌}
use Prim.Native.Char.{code}
use Prim.Native.String.{String}
use Prim.Native.String
use mathlib.Core.Path.{◌≡◌, refl}
use mathlib.Core.Bool.{Bool, true, false, ◌&&◌, ◌||◌}
use mathlib.Core.List.{List, [], ◌∷◌, map}
use native.Mathlib.Omega.{arith}
use revenant_cloud.Base.Tests.{ltb, leb, ◌==◌, if◌then◌else◌}
use revenant_cloud.Base.Lists.{All}

-- The characters of a string literal: its UTF-16 code units where it is ASCII.
abbrev pub codes : String → List ℕ
codes String.[] = []
codes (String.◌∷◌ c s) = code c ∷ codes s

-- `String.prototype.startsWith`, of the prefix and the text.
abbrev pub starts_with : List ℕ → List ℕ → Bool
starts_with [] s = true
starts_with (p ∷ ps) [] = false
starts_with (p ∷ ps) (c ∷ s) = (p == c) && starts_with ps s

-- A template string, by its parts.
abbrev pub concat : List String → String
concat [] = ""
concat (s ∷ ss) = String.◌++◌ s (concat ss)

-- The decimal digits of `n`, before `out`; each round takes off the last one.
pub digits_from : ℕ → ℕ → List ℕ → List ℕ
digits_from zero n out = out
digits_from (suc f) n out =
    let rest = digits_from f (n / 10) ((n % 10) ∷ out) in if ltb n 10 then n ∷ out else rest

pub digits : ℕ → List ℕ
unfolding digits_from
digits n = digits_from (suc n) n []

digit_text : ℕ → String
digit_text d =
    if d == 0
    then "0"
    else if d == 1
    then "1"
    else if d == 2
    then "2"
    else if d == 3
    then "3"
    else if d == 4
    then "4"
    else if d == 5
    then "5"
    else if d == 6
    then "6"
    else if d == 7
    then "7"
    else if d == 8
    then "8"
    else "9"

-- `${n}` as a string, and as character codes.
unfoldable pub show : ℕ → String
unfolding digits digit_text
show n = concat (map digit_text (digits n))

unfoldable pub decimal : ℕ → List ℕ
unfolding digits
decimal n = map (λ d. b'0' + d) (digits n)

-- `/\d/`
abbrev pub is_digit : ℕ → Bool
is_digit c = leb b'0' c && leb c b'9'

-- `/\s/`, which is also what `trim` takes off.
abbrev pub is_space : ℕ → Bool
is_space c =
    (leb 9 c && leb c 13)
    || c == 32
    || c == 0xa0
    || c == 0x1680
    || (leb 0x2000 c && leb c 0x200a)
    || c == 0x2028
    || c == 0x2029
    || c == 0x202f
    || c == 0x205f
    || c == 0x3000
    || c == 0xfeff

-- The number that a row of digit characters denotes, after the digits of `v`.
abbrev pub value_from : ℕ → List ℕ → ℕ
value_from v [] = v
value_from v (c ∷ cs) = value_from (v * 10 + (c - b'0')) cs
