-- ===== src/Base/Doubles.antt =====
-- Quotients of doubles. A positive double is a whole number of 53 bits over a power of two, and a
-- result is the nearest one, of two equally near ones the even one.
use Prim.Native.Nat.{ℕ, zero, suc, ◌*◌, ◌/◌, ◌%◌, ◌^◌}
use mathlib.Core.Bool.{◌&&◌, ◌||◌}
use revenant_cloud.Base.Tests.{ltb, leb, ◌==◌, if◌then◌else◌}

-- `n / d`, rounded to the nearest whole number and from the middle to the even one.
abbrev pub round_even : ℕ → ℕ → ℕ
round_even n d =
    let q = n / d in
    let twice = 2 * (n % d) in if ltb d twice || (twice == d && q % 2 == 1) then suc q else q

-- The least exponent from `k` on that leaves 53 bits before the point.
abbrev scale_from : ℕ → ℕ → ℕ → ℕ → ℕ
scale_from zero k n d = k
scale_from (suc f) k n d =
    let rest = scale_from f (suc k) n d in if leb (2 ^ 52 * d) (n * 2 ^ k) then k else rest

-- The denominator of the double nearest to `n / d`, for fractions from `1 / 2 ^ 53` to `2 ^ 53`.
abbrev pub scale : ℕ → ℕ → ℕ
scale n d = 2 ^ scale_from 128 0 n d

-- The numerator over that.
abbrev pub nearest : ℕ → ℕ → ℕ
nearest n d = round_even (n * scale n d) d
