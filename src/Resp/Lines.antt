-- ===== src/Resp/Lines.antt =====
-- Header lines: where they end, and the numbers that they hold.
use revenant_cloud.Base.{
  ℤ, pos, negsuc, ℕ, suc, ◌≡◌, refl, sym, ap, ◌∙◌, true, some, List, [], ◌∷◌, ◌++◌, arith, length,
  All, decimal, is_digit, value_from,
}
use revenant_cloud.Base.Text.Decimal.{value_from-decimal, decimal-is_digit, decimal_nonempty}
use mathlib.Core.Path.{subst}
use revenant_cloud.Duration.{span}
use revenant_cloud.Resp.{
  crlf, skip_spaces, unsigned, positive, negated, signed, parse_int, find_crlf,
}
use revenant_cloud.Resp.Grammar.{signed_text, IsLine}

-- The first line end is behind a text that holds no carriage return.
pub find_crlf-append :
    (text rest : List ℕ) → IsLine text → find_crlf (text ++ (crlf ++ rest)) ≡ some (length text)
unfolding find_crlf
find_crlf-append [] rest h = refl
find_crlf-append (c ∷ []) rest h = rw h.0
find_crlf-append (c ∷ d ∷ cs) rest h = rw (h.0, find_crlf-append (d ∷ cs) rest h.1, find_crlf)

pub IsLine-digits : (ds : List ℕ) → All (λ c. is_digit c ≡ true) ds → IsLine ds
IsLine-digits [] h = tt
IsLine-digits (d ∷ ds) h = (ground arith, IsLine-digits ds h.1)

pub IsLine-decimal : (n : ℕ) → IsLine (decimal n)
IsLine-decimal n = IsLine-digits (decimal n) (decimal-is_digit n)

span-All : (xs : List ℕ) → All (λ x. is_digit x ≡ true) xs → span is_digit xs ≡ (xs, [])
span-All [] h = refl
span-All (x ∷ xs) h = rw (h.0, span-All xs h.1)

unsigned-decimal : (n : ℕ) → unsigned (span is_digit (decimal n)) ≡ some n
unsigned-decimal n =
    let (d, ds, e) = decimal_nonempty n in
    rw (span-All (decimal n) (decimal-is_digit n))
      (rw e (ap some (ap (value_from 0) (sym e) ∙ value_from-decimal n)))

skip_spaces-digit : (d : ℕ) (ds : List ℕ) → is_digit d ≡ true → skip_spaces (d ∷ ds) ≡ d ∷ ds
skip_spaces-digit d ds h = ground arith

signed-digit :
    (d : ℕ) (ds : List ℕ)
    → is_digit d ≡ true
    → signed (d ∷ ds) ≡ positive (unsigned (span is_digit (d ∷ ds)))
signed-digit d ds h = ground arith

-- A printed integer reads back as itself.
pub parse_int-signed_text : (z : ℤ) → parse_int (signed_text z) ≡ some z
unfolding parse_int
parse_int-signed_text (pos n) =
    let (d, ds, e) = decimal_nonempty n in
    let first : is_digit d ≡ true =
      (subst (All (λ x. is_digit x ≡ true)) e (decimal-is_digit n)).0 in
    let number : unsigned (span is_digit (d ∷ ds)) ≡ some n =
      subst (λ s. unsigned (span is_digit s) ≡ some n) e (unsigned-decimal n) in
    rw e (rw (skip_spaces-digit d ds first) (signed-digit d ds first ∙ ap positive number))
parse_int-signed_text (negsuc n) = ap negated (unsigned-decimal (suc n))

pub IsLine-signed_text : (z : ℤ) → IsLine (signed_text z)
IsLine-signed_text (pos n) = IsLine-decimal n
IsLine-signed_text (negsuc n) = (refl, IsLine-decimal (suc n))
