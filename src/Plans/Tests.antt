-- ===== src/Plans/Tests.antt =====
-- Plans at concrete inputs.
use revenant_cloud.Base.{◌≤◌, ◌≡◌, refl, none, some, pos, negsuc}
use revenant_cloud.Plans.{
  starter, pro, enterprise, absent, not_finite, finite, resolve_retention, proofs_remaining,
  parse_organization_plan,
}
use revenant_cloud.Plans.Retention.{most_hours, resolve_retention_bounds}

plans :
    (parse_organization_plan "pro" ≡ pro)
    × (parse_organization_plan "Pro" ≡ starter)
    × (proofs_remaining starter 6 ≡ some 0)
    × (proofs_remaining enterprise 6 ≡ none)
unfolding parse_organization_plan proofs_remaining
plans = (refl, refl, refl, refl)

retention :
    (resolve_retention starter (finite (pos 8760) 0) ≡ 24)
    × (resolve_retention pro (finite (pos 25) 1) ≡ 12)
    × (resolve_retention pro (finite (negsuc 3) 0) ≡ 1)
    × (resolve_retention enterprise absent ≡ 24)
unfolding resolve_retention
retention = (refl, refl, refl, refl)

resolve_retention_bounds_example :
    (1 ≤ resolve_retention pro not_finite) × (resolve_retention pro not_finite ≤ most_hours pro)
resolve_retention_bounds_example = resolve_retention_bounds pro not_finite
