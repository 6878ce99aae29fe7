-- ===== src/Plans/Retention.antt =====
-- The retention of a Redis snapshot: `resolveRedisSnapshotRetentionHours`.
use native.Mathlib.Nat.{div-eq_of_lt-le}
use revenant_cloud.Base.{ℕ, suc, ◌+◌, ◌/◌, ◌*◌, ◌≤◌, ◌<◌, min, ◌≡◌, pos, negsuc, arith, at_least}
use revenant_cloud.Plans.{
  OrganizationPlan, starter, pro, enterprise, Requested, absent, not_finite, finite, wanted_hours,
  resolve_retention, get_catalog_plan,
}

-- The most hours that a plan grants: its ceiling, or a year.
abbrev pub most_hours : OrganizationPlan → ℕ
most_hours starter = 24
most_hours pro = 168
most_hours enterprise = 8760

wanted-positive : (r : Requested) → 1 ≤ wanted_hours r
wanted-positive absent = omega arith
wanted-positive not_finite = omega arith
wanted-positive (finite (pos n) d) = ground arith
wanted-positive (finite (negsuc n) d) = omega arith

resolve_retention-clamped :
    (plan : OrganizationPlan) (r : Requested)
    → resolve_retention plan r ≡ min (wanted_hours r) (most_hours plan)
unfolding resolve_retention get_catalog_plan
resolve_retention-clamped starter r = omega arith
resolve_retention-clamped pro r = omega arith
resolve_retention-clamped enterprise r = omega arith

most_hours-positive : (plan : OrganizationPlan) → 1 ≤ most_hours plan
most_hours-positive starter = omega arith
most_hours-positive pro = omega arith
most_hours-positive enterprise = omega arith

-- Whatever is requested, the stored retention is at least an hour and at most what the plan grants:
-- 24 hours on Starter, 168 on Pro, and a year on Enterprise.
pub resolve_retention_bounds :
    (plan : OrganizationPlan) (r : Requested)
    → (1 ≤ resolve_retention plan r) × (resolve_retention plan r ≤ most_hours plan)
resolve_retention_bounds plan r = (
  omega (arith, resolve_retention-clamped plan r, wanted-positive r, most_hours-positive plan),
  omega (arith, resolve_retention-clamped plan r),
)

wanted-whole : (h : ℕ) → 1 ≤ h → at_least 1 (pos h) ≡ h
wanted-whole h p = ground arith

-- A requested number of hours, taken as a fraction, that lies between one and what the plan grants
-- is stored rounded down to a whole hour.
pub resolve_retention-granted :
    (plan : OrganizationPlan) (n d h : ℕ)
    → 1 ≤ h
    → h ≤ most_hours plan
    → h * suc d ≤ n
    → n < (h + 1) * suc d
    → resolve_retention plan (finite (pos n) d) ≡ h
resolve_retention-granted plan n d h p le low high =
    let floor : n / suc d ≡ h = div-eq_of_lt-le (suc d) low high in
    let wanted : wanted_hours (finite (pos n) d) ≡ h = rw floor (wanted-whole h p) in
    omega (arith, resolve_retention-clamped plan (finite (pos n) d), wanted)
