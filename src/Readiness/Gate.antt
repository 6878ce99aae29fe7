-- ===== src/Readiness/Gate.antt =====
-- The deployment gate `evaluateRecoveryGate` and `isFullRecoveryReadiness`
-- (packages/shared/src/recovery-readiness.ts).
pub mod Laws
use revenant_cloud.Base.{
  ℕ, String, Bool, true, false, not, ◌&&◌, ◌||◌, Option, none, some, List, [], ◌∷◌, ◌++◌, ltb, leb,
  ◌===◌, if◌then◌else◌, concat, truthy, get_or, show,
}
use revenant_cloud.Contract.{DriftSeverity, recovery_invalidated}
use revenant_cloud.Readiness.{
  OverallStatus, not_ready, Dimension, is_fail, RegressionInfo, ReadinessResult,
}
use revenant_cloud.Readiness.Regression.{is_critical_regression}

pub record GateResult : Type 0 where
  pub allowed : Bool
  pub status : OverallStatus
  pub score : ℕ
  pub min_score : ℕ
  pub blockers : List String
  pub checked_at : String

abbrev pub is_not_ready : OverallStatus → Bool
is_not_ready not_ready = true
is_not_ready _ = false

abbrev pub is_unknown : OverallStatus → Bool
is_unknown OverallStatus.unknown = true
is_unknown _ = false

abbrev pub failed_blockers : List Dimension → List String
failed_blockers [] = []
failed_blockers (d ∷ ds) =
    let rest = failed_blockers ds in
    if is_fail d.status then concat (d.label ∷ " failed" ∷ []) ∷ rest else rest

-- A regression that was detected and is critical.
abbrev pub blocks : Option RegressionInfo → Bool
blocks none = false
blocks (some g) = g.detected && is_critical_regression g.severity

abbrev pub regression_blockers : Option RegressionInfo → List String
regression_blockers none = []
regression_blockers (some g) =
    if blocks (some g) then get_or g.message "Recovery regression detected" ∷ [] else []

abbrev pub invalidated : DriftSeverity → Bool
invalidated recovery_invalidated = true
invalidated _ = false

abbrev pub when : Bool → String → List String
when b s = if b then s ∷ [] else []

unfoldable pub gate_blockers : ReadinessResult → ℕ → List String
gate_blockers r min_score =
    when (not (truthy r.last_verified_at)) "No passing restore drill yet"
    ++ (when (is_not_ready r.status) "Workflow is not recovery-ready"
        ++ (when (ltb r.score min_score) (
              concat
                ("Readiness score " ∷ show r.score ∷ " is below minimum " ∷ show min_score ∷ []))
            ++ (failed_blockers r.dimensions
                ++ (regression_blockers r.regression
                    ++ when (invalidated r.drift_status)
                        (get_or r.drift_summary "Recovery capability invalidated by drift")))))

abbrev pub is_empty : List String → Bool
is_empty [] = true
is_empty (s ∷ ss) = false

abbrev pub default_min_score : ℕ
default_min_score = 70

-- The time of the check is an argument.
unfoldable pub evaluate_gate : ReadinessResult → Option ℕ → String → GateResult
unfolding gate_blockers
evaluate_gate r min_score now =
    let limit = get_or min_score default_min_score in
    let blockers = gate_blockers r limit in
    record {
      allowed = is_empty blockers && not (is_unknown r.status) && not (is_not_ready r.status);
      status = r.status;
      score = r.score;
      min_score = limit;
      blockers = blockers;
      checked_at = now;
    }

unfoldable pub is_full_readiness : String → ℕ → Bool
is_full_readiness status score = status === "recovery_ready" || leb 80 score
