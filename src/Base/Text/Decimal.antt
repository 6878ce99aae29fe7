-- ===== src/Base/Text/Decimal.antt =====
-- Printing a natural number in decimal and reading it back.
use Prim.Native.Nat.{ℕ, zero, suc, ◌+◌, ◌*◌, ◌/◌, ◌%◌, ◌<◌}
use mathlib.Core.Path.{◌≡◌, refl, ap, ◌∙◌}
use mathlib.Core.Logic.{inl, inr}
use mathlib.Core.Bool.{true}
use mathlib.Core.List.{List, [], ◌∷◌, map}
use native.Mathlib.Omega.{arith}
use revenant_cloud.Base.Tests.{ltb, ltb→lt, Bool-cases}
use revenant_cloud.Base.Lists.{All}
use revenant_cloud.Base.Text.{digits_from, digits, decimal, is_digit, value_from}

-- The number that a row of digits denotes, after `v`.
abbrev fold_from : ℕ → List ℕ → ℕ
fold_from v [] = v
fold_from v (d ∷ ds) = fold_from (v * 10 + d) ds

fold_from-digits_from :
    (f n : ℕ) (out : List ℕ) → n < f → fold_from 0 (digits_from f n out) ≡ fold_from n out
unfolding digits_from
fold_from-digits_from zero n out h = absurd (omega arith)
fold_from-digits_from (suc f) n out h = elim (Bool-cases (ltb n 10)) [
  | inl small ↦ rw small (ap (λ v. fold_from v out) (omega arith))
  | inr large ↦ rw large (
      fold_from-digits_from f (n / 10) ((n % 10) ∷ out) (ground arith)
      ∙ ap (λ v. fold_from v out) (omega arith))
]

digits_from-lt :
    (f n : ℕ) (out : List ℕ)
    → n < f
    → All (λ d. d < 10) out
    → All (λ d. d < 10) (digits_from f n out)
unfolding digits_from
digits_from-lt zero n out h a = a
digits_from-lt (suc f) n out h a = elim (Bool-cases (ltb n 10)) [
  | inl small ↦ rw small (ltb→lt n 10 small, a)
  | inr large ↦
      rw large (digits_from-lt f (n / 10) ((n % 10) ∷ out) (ground arith) (omega arith, a))
]

digits_from-cons :
    (f n d : ℕ) (ds : List ℕ) → (e : ℕ) × (es : List ℕ) × (digits_from f n (d ∷ ds) ≡ e ∷ es)
unfolding digits_from
digits_from-cons zero n d ds = (d, ds, refl)
digits_from-cons (suc f) n d ds = elim (Bool-cases (ltb n 10)) [
  | inl small ↦ (n, d ∷ ds, rw small)
  | inr large ↦ rw large (digits_from-cons f (n / 10) (n % 10) (d ∷ ds))
]

digits_nonempty : (n : ℕ) → (e : ℕ) × (es : List ℕ) × (digits n ≡ e ∷ es)
unfolding digits digits_from
digits_nonempty n = elim (Bool-cases (ltb n 10)) [
  | inl small ↦ (n, [], rw small)
  | inr large ↦ rw large (digits_from-cons n (n / 10) (n % 10) [])
]

value_from-map : (v : ℕ) (ds : List ℕ) → value_from v (map (λ d. b'0' + d) ds) ≡ fold_from v ds
value_from-map v [] = refl
value_from-map v (d ∷ ds) =
    ap (λ w. value_from w (map (λ e. b'0' + e) ds)) (omega arith) ∙ value_from-map (v * 10 + d) ds

is_digit-map :
    (ds : List ℕ) → All (λ d. d < 10) ds → All (λ c. is_digit c ≡ true) (map (λ d. b'0' + d) ds)
is_digit-map [] h = tt
is_digit-map (d ∷ ds) h = (ground arith, is_digit-map ds h.1)

-- A printed number reads back as itself.
pub value_from-decimal : (n : ℕ) → value_from 0 (decimal n) ≡ n
unfolding decimal
value_from-decimal n =
    value_from-map 0 (digits n) ∙ fold_from-digits_from (suc n) n [] (omega arith)

-- It consists of digits.
pub decimal-is_digit : (n : ℕ) → All (λ c. is_digit c ≡ true) (decimal n)
unfolding decimal
decimal-is_digit n = is_digit-map (digits n) (digits_from-lt (suc n) n [] (omega arith) tt)

-- It is not empty.
pub decimal_nonempty : (n : ℕ) → (c : ℕ) × (cs : List ℕ) × (decimal n ≡ c ∷ cs)
unfolding decimal
decimal_nonempty n =
    let (e, es, h) = digits_nonempty n in
    (b'0' + e, map (λ d. b'0' + d) es, ap (map (λ d. b'0' + d)) h)
