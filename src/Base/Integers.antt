-- ===== src/Base/Integers.antt =====
-- Integers, where a length or a count may be negative.
use Prim.Native.Nat.{ℕ, suc, ◌+◌, ◌-◌, ◌/◌}
use revenant_cloud.Base.Tests.{leb, if◌then◌else◌}

-- `negsuc n` is -(n + 1).
pub data ℤ : Type 0 where
  pos : ℕ → ℤ
  negsuc : ℕ → ℤ

-- `a - b`
abbrev pub sub_ℕ : ℕ → ℕ → ℤ
sub_ℕ a b = if leb b a then pos (a - b) else negsuc (b - a - 1)

abbrev pub add_ℕ : ℕ → ℤ → ℤ
add_ℕ a (pos n) = pos (a + n)
add_ℕ a (negsuc n) = sub_ℕ a (suc n)

-- The floor of a quotient by `suc d`.
abbrev pub floor_div : ℤ → ℕ → ℤ
floor_div (pos n) d = pos (n / suc d)
floor_div (negsuc n) d = negsuc (n / suc d)

-- `Math.max(n, z)`
abbrev pub at_least : ℕ → ℤ → ℕ
at_least n (pos m) = if leb n m then m else n
at_least n (negsuc m) = n
