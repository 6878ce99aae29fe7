-- ===== src/Base/Rounding.antt =====
-- `Math.round` of a quotient of natural numbers: halves go up.
use Prim.Native.Nat.{ℕ, ◌+◌, ◌*◌, ◌/◌, ◌≤◌, ◌<◌}
use mathlib.Core.Path.{◌≡◌}
use native.Mathlib.Omega.{arith}
use native.Mathlib.Nat.{
  le-div_iff_mul-le, div-mul-le_self, mul-le-mul_right, le_of_mul-le-mul_right, le_trans,
}

abbrev pub round_div : ℕ → ℕ → ℕ
round_div n d = (2 * n + d) / (2 * d)

cross :
    (q n d n' d' : ℕ)
    → q * (2 * d) ≤ 2 * n + d
    → n * d' ≤ n' * d
    → q * (2 * d') * d ≤ (2 * n' + d') * d
cross q n d n' d' h k = omega (arith, mul-le-mul_right {m = q * (2 * d)} {n = 2 * n + d} d' h)

-- Rounding keeps the order of fractions.
pub round_div_mono :
    (n d n' d' : ℕ) → 0 < d → 0 < d' → n * d' ≤ n' * d → round_div n d ≤ round_div n' d'
round_div_mono n d n' d' p p' h = (le-div_iff_mul-le (omega arith)).1 (
    le_of_mul-le-mul_right (cross (round_div n d) n d n' d' (div-mul-le_self (2 * n + d) (2 * d)) h)
      p)

pub round_div-one : (k : ℕ) → round_div k 1 ≡ k
round_div-one k = omega arith

-- A fraction of at most `k` rounds to at most `k`.
pub round_div_le : (n d k : ℕ) → 0 < d → n ≤ k * d → round_div n d ≤ k
round_div_le n d k p h =
    le_trans (round_div_mono n d k 1 p (omega arith) (omega arith)) (omega (arith, round_div-one k))

-- A fraction of at least `k` rounds to at least `k`.
pub le-round_div : (n d k : ℕ) → 0 < d → k * d ≤ n → k ≤ round_div n d
le-round_div n d k p h =
    le_trans (omega (arith, round_div-one k)) (round_div_mono k 1 n d (omega arith) p (omega arith))
