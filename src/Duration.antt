-- ===== src/Duration.antt =====
-- Durations written as text: `parseDurationToSeconds` (packages/shared/src/recovery-contract.ts),
-- and `parseGoDurationToken` and `extractRpoObservedSeconds`
-- (packages/shared/src/recovery-readiness.ts). A text is the list of its code units.
-- A JavaScript number with a decimal point is the exact fraction that its digits denote; the
-- rounding of a double is not modelled.
pub mod RoundTrip
pub mod Lag
mod Tests
use revenant_cloud.Base.{
  ℕ, zero, suc, ◌+◌, ◌-◌, ◌*◌, ◌/◌, max, String, Bool, true, false, not, ◌&&◌, ◌||◌, Option, none,
  some, List, [], ◌∷◌, ◌++◌, ltb, ◌==◌, ◌===◌, if◌then◌else◌, length, codes, is_digit, is_space,
  value_from, round_div,
}

-- The longest prefix whose members pass the test, and the rest.
abbrev pub span : (ℕ → Bool) → List ℕ → List ℕ × List ℕ
span p [] = ([], [])
span p (c ∷ cs) = let (taken, rest) = span p cs in if p c then (c ∷ taken, rest) else ([], c ∷ cs)

-- `String.prototype.trim`
abbrev pub trim_start : List ℕ → List ℕ
trim_start [] = []
trim_start (c ∷ cs) = let rest = trim_start cs in if is_space c then rest else c ∷ cs

abbrev pub trim_end : List ℕ → List ℕ
trim_end [] = []
trim_end (c ∷ cs) = elim (trim_end cs) [
  | [] ↦ if is_space c then [] else c ∷ []
  | d ∷ ds ↦ c ∷ d ∷ ds
]

abbrev pub trim : List ℕ → List ℕ
trim s = trim_end (trim_start s)

-- Equality of ASCII letters up to case, the flag `i`.
abbrev pub lower : ℕ → ℕ
lower c = if ltb c b'A' then c else if ltb b'Z' c then c else c + 32

abbrev pub is_letter : ℕ → ℕ → Bool
is_letter letter c = lower c == letter

-- A match of `\d+(?:\.\d+)?`: the digits as a whole number over `scale`, and what follows.
pub record Amount : Type 0 where
  pub whole : ℕ
  pub scale : ℕ
  pub rest : List ℕ

abbrev pub pow10 : List ℕ → ℕ
pow10 [] = 1
pow10 (d ∷ ds) = 10 * pow10 ds

-- The optional fraction is taken if a digit follows the point.
abbrev pub with_fraction : ℕ → List ℕ → Amount
with_fraction n [] = record { whole = n; scale = 1; rest = [] }
with_fraction n (c ∷ cs) = elim (span is_digit cs).0 [
  | [] ↦ record { whole = n; scale = 1; rest = c ∷ cs }
  | d ∷ ds ↦
      if c == b'.'
      then record {
        whole = value_from n (d ∷ ds);
        scale = pow10 (d ∷ ds);
        rest = (span is_digit cs).1;
      }
      else record { whole = n; scale = 1; rest = c ∷ cs }
]

abbrev pub amount_of : List ℕ × List ℕ → Option Amount
amount_of ([], after) = none
amount_of (d ∷ ds, after) = some (with_fraction (value_from 0 (d ∷ ds)) after)

unfoldable pub amount : List ℕ → Option Amount
amount s = amount_of (span is_digit s)

-- The units of a contract's duration, as milliseconds: `(ms|s|m|h|d)$`.
abbrev pub unit_ms : List ℕ → Option ℕ
unit_ms [] = none
unit_ms (c ∷ []) =
    if is_letter b's' c
    then some 1000
    else if is_letter b'm' c
    then some 60000
    else if is_letter b'h' c
    then some 3600000
    else if is_letter b'd' c
    then some 86400000
    else none
unit_ms (c ∷ d ∷ []) = if is_letter b'm' c && is_letter b's' d then some 1 else none
unit_ms (c ∷ d ∷ e ∷ cs) = none

-- The value of a duration whose number and unit are split.
abbrev pub in_seconds : Amount → Option ℕ
in_seconds a = elim (unit_ms a.rest) [
  | none ↦ none
  | some ms ↦ some (round_div (a.whole * ms) (a.scale * 1000))
]

unfoldable pub parse_duration : List ℕ → Option ℕ
unfolding amount
parse_duration s = elim (amount (trim s)) [ none ↦ none | some a ↦ in_seconds a ]

-- The units of a Go duration, in seconds: `(h|m|s)`.
abbrev pub go_unit : ℕ → Option ℕ
go_unit c =
    if is_letter b'h' c
    then some 3600
    else if is_letter b'm' c
    then some 60
    else if is_letter b's' c
    then some 1
    else none

-- One match of the pattern where the text begins: its number, the seconds of its unit, the rest.
pub record Part : Type 0 where
  pub number : Amount
  pub seconds : ℕ
  pub rest : List ℕ

abbrev pub part_of : Amount → List ℕ → Option Part
part_of a [] = none
part_of a (c ∷ cs) = elim (go_unit c) [
  | none ↦ none
  | some u ↦ some (record { number = a; seconds = u; rest = cs })
]

unfoldable pub part : List ℕ → Option Part
unfolding amount
part s = elim (amount s) [ none ↦ none | some a ↦ part_of a a.rest ]

-- A running total as a fraction, and whether anything matched.
pub record Total : Type 0 where
  pub sum : ℕ
  pub over : ℕ
  pub matched : Bool

abbrev pub add_part : Total → Part → Total
add_part t p = record {
  sum = t.sum * p.number.scale + p.number.whole * p.seconds * t.over;
  over = t.over * p.number.scale;
  matched = true;
}

-- The loop over `matchAll`: a failed attempt moves on by one character. Each round consumes a
-- character, so that the text's length is fuel enough.
unfoldable pub parts_from : ℕ → List ℕ → Total → Total
unfolding part
parts_from zero s t = t
parts_from (suc f) [] t = t
parts_from (suc f) (c ∷ cs) t = elim (part (c ∷ cs)) [
  | none ↦ parts_from f cs t
  | some p ↦ parts_from f p.rest (add_part t p)
]

abbrev pub no_total : Total
no_total = record { sum = 0; over = 1; matched = false }

abbrev pub total_seconds : Total → Option ℕ
total_seconds t = if t.matched then some (round_div t.sum t.over) else none

unfoldable pub go_seconds : List ℕ → Option ℕ
unfolding parts_from
go_seconds [] = none
go_seconds (c ∷ cs) = total_seconds (parts_from (length (c ∷ cs)) (c ∷ cs) no_total)

unfoldable pub parse_go_duration : List ℕ → Option ℕ
unfolding go_seconds
parse_go_duration s = go_seconds (trim s)

-- `checkResults` as the readiness functions read them.
pub record CheckResult : Type 0 where
  pub check_type : String
  pub status : String
  pub message : Option (List ℕ)

-- What follows the text `pattern`, up to case.
abbrev pub after_prefix : List ℕ → List ℕ → Option (List ℕ)
after_prefix [] s = some s
after_prefix (p ∷ ps) [] = none
after_prefix (p ∷ ps) (c ∷ cs) =
    let rest = after_prefix ps cs in if is_letter p c then rest else none

abbrev pub starts_le : List ℕ → Bool
starts_le (c ∷ d ∷ cs) = c == b'<' && d == b'='
starts_le _ = false

-- The longest nonempty prefix before a `<=`, by which `[^\s]+` backs off.
abbrev pub before_le : List ℕ → Option (List ℕ)
before_le [] = none
before_le (c ∷ cs) = elim (before_le cs) [
  | some taken ↦ some (c ∷ taken)
  | none ↦ if starts_le cs then some (c ∷ []) else none
]

-- `([^\s]+)\s*<=` where the text begins with no space.
abbrev pub token : List ℕ → Option (List ℕ)
token s = elim (span (λ c. not (is_space c)) s).0 [
  | [] ↦ none
  | c ∷ cs ↦
      if starts_le (trim_start (span (λ d. not (is_space d)) s).1)
      then some (c ∷ cs)
      else before_le (c ∷ cs)
]

abbrev pub fresh_at : List ℕ → Option (List ℕ)
fresh_at s = elim (after_prefix (codes "fresh:") s) [
  | none ↦ none
  | some rest ↦ token (trim_start rest)
]

-- The group of the first match of `/fresh:\s*([^\s]+)\s*<=/i`.
unfoldable pub match_fresh : List ℕ → Option (List ℕ)
match_fresh [] = none
match_fresh (c ∷ cs) = elim (fresh_at (c ∷ cs)) [ some t ↦ some t | none ↦ match_fresh cs ]

-- The lag that one check reports: the guards of the loop's body.
unfoldable pub lag : CheckResult → Option ℕ
unfolding match_fresh parse_go_duration
lag r = elim r.message [
  | none ↦ none
  | some m ↦
      if r.check_type === "freshness" && r.status === "pass" && ltb 0 (length m)
      then elim (match_fresh m) [ none ↦ none | some t ↦ parse_go_duration t ]
      else none
]

abbrev pub larger : Option ℕ → Option ℕ → Option ℕ
larger m none = m
larger none (some s) = some s
larger (some a) (some s) = some (max a s)

unfoldable pub extract_from : Option ℕ → List CheckResult → Option ℕ
unfolding lag
extract_from m [] = m
extract_from m (r ∷ rs) = extract_from (larger m (lag r)) rs

unfoldable pub extract_rpo : List CheckResult → Option ℕ
unfolding extract_from
extract_rpo rs = extract_from none rs
