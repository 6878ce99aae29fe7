-- ===== src/Duration/RoundTrip.antt =====
-- A printed duration reads back as the seconds that it stands for.
use mathlib.Core.Path.{subst}
use mathlib.Core.List.{append_assoc}
use revenant_cloud.Base.{
  ℕ, zero, suc, ◌+◌, ◌*◌, ◌≤◌, ◌≡◌, refl, sym, ap, ◌∙◌, ◌⊎◌, Bool, true, false, some, List, [], ◌∷◌,
  ◌++◌, arith, length, length-append, All, decimal, is_digit, is_space, value_from, if◌then◌else◌,
  ◌==◌,
}
use revenant_cloud.Base.Text.Decimal.{value_from-decimal, decimal-is_digit, decimal_nonempty}
use revenant_cloud.Duration.{
  span, trim, trim_start, trim_end, with_fraction, amount, in_seconds, parse_duration, go_unit,
  part, Total, add_part, parts_from, no_total, total_seconds, go_seconds, parse_go_duration,
  part_of,
}

span-append :
    (p : ℕ → Bool) (xs : List ℕ) (c : ℕ) (cs : List ℕ)
    → All (λ x. p x ≡ true) xs
    → p c ≡ false
    → span p (xs ++ c ∷ cs) ≡ (xs, c ∷ cs)
span-append p [] c cs a h = rw h
span-append p (x ∷ xs) c cs a h = rw (a.0, span-append p xs c cs a.1 h)

is_space_of_digit : (c : ℕ) → is_digit c ≡ true → is_space c ≡ false
is_space_of_digit c h = ground arith

-- The last character is no space.
trim_end-concat : (s : List ℕ) (c : ℕ) → is_space c ≡ false → trim_end (s ++ c ∷ []) ≡ s ++ c ∷ []
trim_end-concat [] c h = rw h
trim_end-concat (d ∷ []) c h = rw (trim_end-concat [] c h, trim_end)
trim_end-concat (d ∷ e ∷ s) c h = rw (trim_end-concat (e ∷ s) c h, trim_end)

-- A text that neither begins nor ends in a space.
trim-concat :
    (d : ℕ) (s : List ℕ) (c : ℕ)
    → is_digit d ≡ true
    → is_space c ≡ false
    → trim ((d ∷ s) ++ c ∷ []) ≡ (d ∷ s) ++ c ∷ []
trim-concat d s c hd hc = rw (is_space_of_digit d hd, trim_start) (trim_end-concat (d ∷ s) c hc)

-- A number and a unit.
trim-decimal :
    (n : ℕ) (s : List ℕ) (c : ℕ)
    → is_space c ≡ false
    → trim (decimal n ++ (s ++ c ∷ [])) ≡ decimal n ++ (s ++ c ∷ [])
trim-decimal n s c h =
    let (d, ds, e) = decimal_nonempty n in
    let first : is_digit d ≡ true =
      (subst (All (λ x. is_digit x ≡ true)) e (decimal-is_digit n)).0 in
    rw e (rw (append_assoc ds s (c ∷ [])) at (trim-concat d (ds ++ s) c first h))

with_fraction-unit :
    (n c : ℕ) (cs : List ℕ)
    → (c == b'.') ≡ false
    → with_fraction n (c ∷ cs) ≡ record { whole = n; scale = 1; rest = c ∷ cs }
with_fraction-unit n c cs h = ground arith

amount-decimal :
    (n c : ℕ) (cs : List ℕ)
    → is_digit c ≡ false
    → (c == b'.') ≡ false
    → amount (decimal n ++ c ∷ cs) ≡ some (record { whole = n; scale = 1; rest = c ∷ cs })
unfolding amount
amount-decimal n c cs h point =
    let (d, ds, e) = decimal_nonempty n in
    let digits : All (λ x. is_digit x ≡ true) (d ∷ ds) =
      subst (All (λ x. is_digit x ≡ true)) e (decimal-is_digit n) in
    let value : value_from 0 (d ∷ ds) ≡ n = ap (value_from 0) (sym e) ∙ value_from-decimal n in
    rw (e, span-append is_digit (d ∷ ds) c cs digits h)
      (ap some (
        with_fraction-unit (value_from 0 (d ∷ ds)) c cs point
        ∙ ap (λ v. record { whole = v; scale = 1; rest = c ∷ cs }) value))

-- The seconds in one unit of a contract's duration.
abbrev pub seconds_in : ℕ → ℕ
seconds_in c = if c == b's' then 1 else if c == b'm' then 60 else if c == b'h' then 3600 else 86400

abbrev pub IsUnit : ℕ → Type 0
IsUnit c = (c ≡ b's') ⊎ (c ≡ b'm') ⊎ (c ≡ b'h') ⊎ (c ≡ b'd')

in_seconds-unit :
    (n c : ℕ)
    → IsUnit c
    → in_seconds (record { whole = n; scale = 1; rest = c ∷ [] }) ≡ some (n * seconds_in c)
in_seconds-unit n c h = ground arith

unit_facts :
    (c : ℕ) → IsUnit c → (is_digit c ≡ false) × ((c == b'.') ≡ false) × (is_space c ≡ false)
unit_facts c h = ground arith

-- A whole number printed in decimal and followed by `s`, `m`, `h` or `d` parses to the number of
-- seconds that it stands for.
pub parse_duration-decimal :
    (n c : ℕ) → IsUnit c → parse_duration (decimal n ++ c ∷ []) ≡ some (n * seconds_in c)
unfolding parse_duration
parse_duration-decimal n c h =
    let (no_digit, no_point, no_space) = unit_facts c h in
    rw (trim-decimal n [] c no_space, amount-decimal n c [] no_digit no_point, parse_duration)
      (in_seconds-unit n c h)

go_unit_facts : (c : ℕ) {u : ℕ} → go_unit c ≡ some u → (is_digit c ≡ false) × ((c == b'.') ≡ false)
go_unit_facts c h = ground arith

part-decimal :
    (n c : ℕ) (cs : List ℕ) {u : ℕ}
    → go_unit c ≡ some u
    → part (decimal n ++ c ∷ cs)
      ≡ some (record {
        number = record { whole = n; scale = 1; rest = c ∷ cs };
        seconds = u;
        rest = cs;
      })
unfolding part
part-decimal n c cs h =
    let (no_digit, no_point) = go_unit_facts c h in
    rw (amount-decimal n c cs no_digit no_point, part) (rw (h, part_of))

abbrev counted : Total → ℕ → ℕ → Total
counted t n u = record { sum = t.sum + n * u; over = 1; matched = true }

add_part-counted :
    (t : Total) (n u c : ℕ) (cs : List ℕ)
    → t.over ≡ 1
    → add_part t
        (record { number = record { whole = n; scale = 1; rest = c ∷ cs }; seconds = u; rest = cs })
      ≡ counted t n u
add_part-counted t n u c cs h = ground arith

-- One round of the loop.
parts_from-decimal :
    (f n c : ℕ) (cs : List ℕ) (t : Total) {u : ℕ}
    → go_unit c ≡ some u
    → t.over ≡ 1
    → parts_from (suc f) (decimal n ++ c ∷ cs) t ≡ parts_from f cs (counted t n u)
unfolding parts_from
parts_from-decimal f n c cs t {u} h o =
    let (d, ds, e) = decimal_nonempty n in
    let found = part-decimal n c cs h in
    rw e (rw (rw e at found, parts_from) (ap (parts_from f cs) (add_part-counted t n u c cs o)))

parts_from-nil : (f : ℕ) (t : Total) → parts_from f [] t ≡ t
unfolding parts_from
parts_from-nil zero t = refl
parts_from-nil (suc f) t = refl

go_seconds-parts_from :
    (s : List ℕ) → go_seconds s ≡ total_seconds (parts_from (length s) s no_total)
unfolding go_seconds parts_from
go_seconds-parts_from [] = refl
go_seconds-parts_from (c ∷ cs) = refl

-- A Go duration of hours, minutes and whole seconds, as `time.Duration` prints it.
abbrev pub go_text : ℕ → ℕ → ℕ → List ℕ
go_text h m s = decimal h ++ b'h' ∷ (decimal m ++ b'm' ∷ (decimal s ++ b's' ∷ []))

go_text_parts :
    (f h m s : ℕ)
    → 3 ≤ f
    → total_seconds (parts_from f (go_text h m s) no_total) ≡ some (h * 3600 + m * 60 + s)
go_text_parts (suc (suc (suc f))) h m s l =
    rw
      (
        parts_from-decimal (suc (suc f)) h b'h' (decimal m ++ b'm' ∷ (decimal s ++ b's' ∷ []))
            no_total refl refl,
        parts_from-decimal (suc f) m b'm' (decimal s ++ b's' ∷ []) (counted no_total h 3600) refl
            refl,
        parts_from-decimal f s b's' [] (counted (counted no_total h 3600) m 60) refl refl,
        parts_from-nil f,
      )
      (ap some (omega arith))
go_text_parts _ h m s l = absurd (omega arith)

go_text-trim : (h m s : ℕ) → trim (go_text h m s) ≡ go_text h m s
go_text-trim h m s =
    let inner = b'h' ∷ (decimal m ++ b'm' ∷ decimal s) in
    let regroup : go_text h m s ≡ decimal h ++ (inner ++ b's' ∷ []) = simp append_assoc in
    rw regroup (trim-decimal h inner b's' refl)

go_text-length : (h m s : ℕ) → 3 ≤ length (go_text h m s)
go_text-length h m s = omega (
  arith,
  length-append (decimal h) (b'h' ∷ (decimal m ++ b'm' ∷ (decimal s ++ b's' ∷ []))),
  length-append (decimal m) (b'm' ∷ (decimal s ++ b's' ∷ [])),
  length-append (decimal s) (b's' ∷ []),
)

-- Hours, minutes and seconds as Go prints them parse to their sum in seconds.
pub parse_go_duration-go_text :
    (h m s : ℕ) → parse_go_duration (go_text h m s) ≡ some (h * 3600 + m * 60 + s)
unfolding parse_go_duration
parse_go_duration-go_text h m s =
    rw (go_text-trim h m s, go_seconds-parts_from (go_text h m s))
      (go_text_parts (length (go_text h m s)) h m s (go_text-length h m s))

-- A unit with no number is passed over.
parts_from-s : (f : ℕ) (t : Total) → parts_from f (b's' ∷ []) t ≡ t
unfolding parts_from
parts_from-s zero t = refl
parts_from-s (suc f) t = parts_from-nil f t

ms_parts :
    (f n : ℕ)
    → 1 ≤ f
    → total_seconds (parts_from f (decimal n ++ b'm' ∷ b's' ∷ []) no_total) ≡ some (n * 60)
ms_parts zero n l = absurd (omega arith)
ms_parts (suc f) n l =
    rw
      (
        parts_from-decimal f n b'm' (b's' ∷ []) no_total refl refl,
        parts_from-s f (counted no_total n 60),
      )
      (ap some (omega arith))

-- A whole number of milliseconds parses as that number of minutes: the pattern has no unit `ms`.
pub parse_go_duration-ms :
    (n : ℕ) → parse_go_duration (decimal n ++ b'm' ∷ b's' ∷ []) ≡ some (n * 60)
unfolding parse_go_duration
parse_go_duration-ms n =
    rw (trim-decimal n (b'm' ∷ []) b's' refl, go_seconds-parts_from (decimal n ++ b'm' ∷ b's' ∷ []))
      (ms_parts (length (decimal n ++ b'm' ∷ b's' ∷ [])) n
        (omega (arith, length-append (decimal n) (b'm' ∷ b's' ∷ []))))
