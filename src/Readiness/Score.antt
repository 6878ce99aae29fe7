-- ===== src/Readiness/Score.antt =====
-- The readiness score: its range, and that a dimension that comes to pass never lowers it.
use native.Mathlib.Nat.{mul-le-mul_right}
use revenant_cloud.Base.{
  ℕ, ◌+◌, ◌*◌, ◌≤◌, ◌<◌, ◌≡◌, refl, ◌⊎◌, inl, inr, List, [], ◌∷◌, ◌++◌, arith, ltb, Bool-cases,
  ltb→lt, lt→ltb, if◌then◌else◌, round_div, round_div_mono, round_div_le,
}
use revenant_cloud.Readiness.{
  pass, Dimension, status_quarters, is_configured, total_weight, earned_quarters, readiness_score,
}

-- What one dimension adds to the weight and to the credit.
abbrev weight_of : Dimension → ℕ
weight_of d = if is_configured d.status then d.weight else 0

abbrev credit_of : Dimension → ℕ
credit_of d = d.weight * status_quarters d.status

total_weight-cons :
    (d : Dimension) (ds : List Dimension) → total_weight (d ∷ ds) ≡ weight_of d + total_weight ds
total_weight-cons d ds = ground arith

earned_quarters-cons :
    (d : Dimension) (ds : List Dimension)
    → earned_quarters (d ∷ ds) ≡ credit_of d + earned_quarters ds
earned_quarters-cons d ds = ground arith

credit_of_le : (d : Dimension) → credit_of d ≤ 4 * weight_of d
credit_of_le d = ground arith

earned_le : (dims : List Dimension) → earned_quarters dims ≤ 4 * total_weight dims
earned_le [] = omega arith
earned_le (d ∷ ds) =
    rw (total_weight-cons d ds, earned_quarters-cons d ds)
      (omega (arith, credit_of_le d, earned_le ds))

total_weight-append :
    (xs ys : List Dimension) → total_weight (xs ++ ys) ≡ total_weight xs + total_weight ys
total_weight-append [] ys = omega arith
total_weight-append (d ∷ ds) ys =
    rw (total_weight-cons d (ds ++ ys), total_weight-cons d ds)
      (omega (arith, total_weight-append ds ys))

earned_quarters-append :
    (xs ys : List Dimension) → earned_quarters (xs ++ ys) ≡ earned_quarters xs + earned_quarters ys
earned_quarters-append [] ys = omega arith
earned_quarters-append (d ∷ ds) ys =
    rw (earned_quarters-cons d (ds ++ ys), earned_quarters-cons d ds)
      (omega (arith, earned_quarters-append ds ys))

-- The score is a percentage.
pub readiness_score_le : (dims : List Dimension) → readiness_score dims ≤ 100
unfolding readiness_score
readiness_score_le dims = elim (Bool-cases (ltb 0 (total_weight dims))) [
  | inl some_weight ↦
      let positive = ltb→lt 0 (total_weight dims) some_weight in
      rw some_weight (
        round_div_le (earned_quarters dims * 100) (4 * total_weight dims) 100 (omega arith)
          (omega (arith, earned_le dims)))
  | inr no_weight ↦ rw no_weight (omega arith)
]

-- The score of a weight and a credit.
abbrev score_of : ℕ → ℕ → ℕ
score_of t e = if ltb 0 t then round_div (e * 100) (4 * t) else 0

readiness_score-score_of :
    (dims : List Dimension)
    → readiness_score dims ≡ score_of (total_weight dims) (earned_quarters dims)
unfolding readiness_score
readiness_score-score_of dims = refl

-- A larger fraction scores higher.
score_of_mono : (t e t' e' : ℕ) → (0 < t → 0 < t') → e * t' ≤ e' * t → score_of t e ≤ score_of t' e'
score_of_mono t e t' e' p h = elim (Bool-cases (ltb 0 t)) [
  | inr no_weight ↦ rw no_weight (omega arith)
  | inl some_weight ↦
      let positive : 0 < t = ltb→lt 0 t some_weight in
      rw (some_weight, lt→ltb 0 t' (p positive))
        (round_div_mono (e * 100) (4 * t) (e' * 100) (4 * t') (omega arith)
          (omega (arith, p positive)) (omega arith))
]

abbrev passed : Dimension → Dimension
passed d = record d { status = pass }

cross_pass :
    (t e w t1 e1 : ℕ)
    → e ≤ 4 * t
    → ((e1 ≤ 4 * w) × (t1 ≡ w)) ⊎ ((e1 ≡ 0) × (t1 ≡ 0))
    → (e + e1) * (t + w) ≤ (e + w * 4) * (t + t1)
cross_pass t e w t1 e1 h (inl (below, same)) =
    rw same (mul-le-mul_right {m = e + e1} {n = e + w * 4} (t + w) (omega arith))
cross_pass t e w t1 e1 h (inr (no_credit, no_weight)) =
    rw (no_credit, no_weight) (omega (arith, mul-le-mul_right {m = e} {n = 4 * t} w h))

share_cases :
    (d : Dimension)
    → ((credit_of d ≤ 4 * d.weight) × (weight_of d ≡ d.weight))
      ⊎ ((credit_of d ≡ 0) × (weight_of d ≡ 0))
share_cases d = ground arith

-- The weight and the credit of a list, with one dimension set apart.
total_weight-split :
    (xs ys : List Dimension) (d : Dimension)
    → total_weight (xs ++ d ∷ ys) ≡ total_weight xs + total_weight ys + weight_of d
total_weight-split xs ys d =
    rw (total_weight-append xs (d ∷ ys), total_weight-cons d ys) (omega arith)

earned_quarters-split :
    (xs ys : List Dimension) (d : Dimension)
    → earned_quarters (xs ++ d ∷ ys) ≡ earned_quarters xs + earned_quarters ys + credit_of d
earned_quarters-split xs ys d =
    rw (earned_quarters-append xs (d ∷ ys), earned_quarters-cons d ys) (omega arith)

-- A dimension that comes to pass, from any other status, never lowers the score.
pub readiness_score-passed :
    (xs ys : List Dimension) (d : Dimension)
    → readiness_score (xs ++ d ∷ ys) ≤ readiness_score (xs ++ passed d ∷ ys)
readiness_score-passed xs ys d =
    let t = total_weight xs + total_weight ys in
    let e = earned_quarters xs + earned_quarters ys in
    let bound : e ≤ 4 * t = omega (arith, earned_le xs, earned_le ys) in
    let cross = cross_pass t e d.weight (weight_of d) (credit_of d) bound (share_cases d) in
    rw
      (
        readiness_score-score_of (xs ++ d ∷ ys),
        readiness_score-score_of (xs ++ passed d ∷ ys),
        total_weight-split xs ys d,
        total_weight-split xs ys (passed d),
        earned_quarters-split xs ys d,
        earned_quarters-split xs ys (passed d),
      )
      (score_of_mono (t + weight_of d) (e + credit_of d) (t + d.weight) (e + d.weight * 4)
        (λ h. ground arith) cross)
