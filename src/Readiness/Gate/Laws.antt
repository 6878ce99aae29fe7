-- ===== src/Readiness/Gate/Laws.antt =====
-- What the gate lets through.
use revenant_cloud.Base.{
  ℕ, ◌≤◌, ◌≡◌, ◌≢◌, refl, ◌↔◌, String, Bool, true, false, not, ◌&&◌, Option, none, some, List, [],
  ◌∷◌, ◌++◌, arith, get_or, ltb, truthy,
}
use revenant_cloud.Contract.{DriftSeverity, recovery_invalidated}
use revenant_cloud.Readiness.{
  OverallStatus, not_ready, Dimension, has_fail, RegressionInfo, ReadinessResult,
}
use revenant_cloud.Readiness.Gate.{
  is_not_ready, is_unknown, failed_blockers, blocks, regression_blockers, invalidated, when,
  gate_blockers, is_empty, default_min_score, evaluate_gate,
}

is_empty-append : (xs ys : List String) → is_empty (xs ++ ys) ≡ (is_empty xs && is_empty ys)
is_empty-append [] ys = refl
is_empty-append (x ∷ xs) ys = refl

is_empty-when : (b : Bool) (s : String) → is_empty (when b s) ≡ not b
is_empty-when true s = refl
is_empty-when false s = refl

is_empty-failed_blockers : (ds : List Dimension) → is_empty (failed_blockers ds) ≡ not (has_fail ds)
is_empty-failed_blockers [] = refl
is_empty-failed_blockers (d ∷ ds) = ground (arith, is_empty-failed_blockers ds)

is_empty-regression_blockers :
    (g : Option RegressionInfo) → is_empty (regression_blockers g) ≡ not (blocks g)
is_empty-regression_blockers none = refl
is_empty-regression_blockers (some g) = ground arith

-- The gate's conditions, as one Boolean.
abbrev open_gate : ReadinessResult → ℕ → Bool
open_gate r limit =
    not (not (truthy r.last_verified_at))
    && (not (is_not_ready r.status)
        && (not (ltb r.score limit)
            && (not (has_fail r.dimensions)
                && (not (blocks r.regression) && not (invalidated r.drift_status)))))

is_empty-gate_blockers :
    (r : ReadinessResult) (limit : ℕ) → is_empty (gate_blockers r limit) ≡ open_gate r limit
unfolding gate_blockers
is_empty-gate_blockers r limit =
    simp (is_empty-append, is_empty-when, is_empty-failed_blockers, is_empty-regression_blockers)

-- The same conditions over their parts.
parts_iff :
    (t f b : Bool) (s : OverallStatus) (n limit : ℕ) (d : DriftSeverity)
    → (((not (not t)
            && (not (is_not_ready s)
                && (not (ltb n limit) && (not f && (not b && not (invalidated d))))))
          && not (is_unknown s)
          && not (is_not_ready s))
        ≡ true)
      ↔ ((t ≡ true)
          × (s ≢ OverallStatus.unknown)
          × (s ≢ not_ready)
          × (limit ≤ n)
          × (f ≡ false)
          × (b ≡ false)
          × (d ≢ recovery_invalidated))
parts_iff t f b s n limit d = (
  λ h. (
    ground arith,
    ground arith,
    ground arith,
    ground arith,
    ground arith,
    ground arith,
    ground arith,
  ),
  λ h. ground arith,
)

-- The gate opens exactly when a passing drill is on record, the status is neither unknown nor not
-- ready, the score reaches the minimum, no dimension fails, no critical regression was detected and
-- drift has not invalidated recovery.
pub allowed_iff :
    (r : ReadinessResult) (min_score : Option ℕ) (now : String)
    → ((evaluate_gate r min_score now).allowed ≡ true) ↔ (
        (truthy r.last_verified_at ≡ true)
        × (r.status ≢ OverallStatus.unknown)
        × (r.status ≢ not_ready)
        × (get_or min_score default_min_score ≤ r.score)
        × (has_fail r.dimensions ≡ false)
        × (blocks r.regression ≡ false)
        × (r.drift_status ≢ recovery_invalidated))
unfolding evaluate_gate
allowed_iff r min_score now = rw (is_empty-gate_blockers r (get_or min_score default_min_score)) (
    parts_iff (truthy r.last_verified_at) (has_fail r.dimensions) (blocks r.regression) r.status
      r.score (get_or min_score default_min_score) r.drift_status)
