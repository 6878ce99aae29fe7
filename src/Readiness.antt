-- ===== src/Readiness.antt =====
-- Recovery readiness (packages/shared/src/recovery-readiness.ts): the types and
-- `computeRecoveryReadiness`. Weights and seconds are natural numbers, and `STATUS_SCORE` counts
-- quarters, so that the score is the exact rounded percentage; JavaScript computes it in doubles.
pub mod Score
pub mod Status
pub mod Regression
pub mod Gate
pub mod Dimensions
pub mod Breaches
pub mod LastJob
mod Tests
use revenant_cloud.Base.{
  ℕ, ◌+◌, ◌*◌, String, Bool, true, false, not, ◌&&◌, ◌||◌, Option, none, some, List, [], ◌∷◌, ◌++◌,
  ltb, leb, ◌===◌, if◌then◌else◌, filter, any, sum_by, codes, concat, truthy, get_or, round_div,
}
use revenant_cloud.Duration.{parse_duration}
use revenant_cloud.Contract.{
  Contract, DriftSeverity, stable, recovery_at_risk, recovery_invalidated,
}

pub data DimensionStatus : Type 0 where
  pass fail warn unknown not_configured : DimensionStatus

pub data OverallStatus : Type 0 where
  recovery_ready at_risk not_ready unknown : OverallStatus

pub record Dimension : Type 0 where
  pub id : String
  pub label : String
  pub status : DimensionStatus
  pub detail : Option String
  pub weight : ℕ

pub data RiskSeverity : Type 0 where
  warning critical : RiskSeverity

pub record Risk : Type 0 where
  pub severity : RiskSeverity
  pub message : String

pub data RegressionSeverity : Type 0 where
  no_regression warning critical : RegressionSeverity

pub record MetricDelta : Type 0 where
  pub previous : ℕ
  pub current : ℕ
  pub delta_seconds : ℕ
  pub delta_percent : ℕ

-- `delta` is never positive where it is recorded: the fall of the score.
pub record ScoreDelta : Type 0 where
  pub previous : ℕ
  pub current : ℕ
  pub fall : ℕ

pub record RegressionInfo : Type 0 where
  pub detected : Bool
  pub severity : RegressionSeverity
  pub message : Option String
  pub rto : Option MetricDelta
  pub rpo : Option MetricDelta
  pub score : Option ScoreDelta
  pub compared_job_id : Option String
  pub compared_at : Option String

pub record ReadinessResult : Type 0 where
  pub score : ℕ
  pub status : OverallStatus
  pub dimensions : List Dimension
  pub risks : List Risk
  pub rto_target_seconds : Option ℕ
  pub rto_actual_seconds : Option ℕ
  pub rpo_target_seconds : Option ℕ
  pub rpo_observed_seconds : Option ℕ
  pub last_verified_at : Option String
  pub latest_drill_status : Option String
  pub latest_drill_at : Option String
  pub drift_status : DriftSeverity
  pub drift_summary : Option String
  pub regression : Option RegressionInfo

-- The argument of `computeRecoveryReadiness`.
pub record ReadinessInput : Type 0 where
  pub contract : Contract
  pub dimensions : List Dimension
  pub drift_status : Option DriftSeverity
  pub drift_summary : Option String
  pub last_verified_at : Option String
  pub latest_drill_status : Option String
  pub latest_drill_at : Option String
  pub rto_actual_seconds : Option ℕ
  pub rpo_observed_seconds : Option ℕ

-- `STATUS_SCORE`, times four.
abbrev pub status_quarters : DimensionStatus → ℕ
status_quarters pass = 4
status_quarters warn = 2
status_quarters unknown = 1
status_quarters not_configured = 0
status_quarters fail = 0

abbrev pub is_configured : DimensionStatus → Bool
is_configured not_configured = false
is_configured _ = true

abbrev pub is_fail : DimensionStatus → Bool
is_fail fail = true
is_fail _ = false

abbrev pub applicable : List Dimension → List Dimension
applicable = filter (λ d. is_configured d.status)

abbrev pub total_weight : List Dimension → ℕ
total_weight dims = sum_by (λ d. d.weight) (applicable dims)

abbrev pub earned_quarters : List Dimension → ℕ
earned_quarters dims = sum_by (λ d. d.weight * status_quarters d.status) (applicable dims)

unfoldable pub readiness_score : List Dimension → ℕ
readiness_score dims =
    if ltb 0 (total_weight dims)
    then round_div (earned_quarters dims * 100) (4 * total_weight dims)
    else 0

unfoldable pub is_required_dimension : String → Contract → Bool
is_required_dimension id c =
    if id === "database_restore"
    then c.required.database
    else if id === "schema_integrity"
    then c.required.schema
    else if id === "critical_queries"
    then c.required.critical_queries
    else if id === "application_health"
    then c.required.healthcheck || c.required.api
    else false

-- The risk that one dimension adds, if any: the body of the loop over the dimensions.
unfoldable pub dimension_risk : Contract → Dimension → List Risk
unfolding is_required_dimension
dimension_risk c d = elim d.status [
  | fail ↦
      record {
        severity = critical;
        message = concat (d.label ∷ ": " ∷ get_or d.detail "failed" ∷ []);
      }
      ∷ []
  | warn ↦
      record {
        severity = warning;
        message = concat (d.label ∷ ": " ∷ get_or d.detail "needs attention" ∷ []);
      }
      ∷ []
  | not_configured ↦
      if is_required_dimension d.id c
      then record {
        severity = warning;
        message =
            concat (d.label ∷ " is required by your recovery contract but not configured" ∷ []);
      }
        ∷ []
      else []
  | _ ↦ []
]

abbrev pub dimension_risks : Contract → List Dimension → List Risk
dimension_risks c [] = []
dimension_risks c (d ∷ ds) = dimension_risk c d ++ dimension_risks c ds

abbrev pub drift_message : Option String → String
drift_message summary =
    get_or summary "Recovery capability may have changed since last verification"

abbrev pub drift_risk : Option DriftSeverity → Option String → List Risk
drift_risk (some recovery_at_risk) summary =
    record { severity = warning; message = drift_message summary } ∷ []
drift_risk (some recovery_invalidated) summary =
    record { severity = critical; message = drift_message summary } ∷ []
drift_risk _ summary = []

abbrev pub has_fail : List Dimension → Bool
has_fail = any (λ d. is_fail d.status)

abbrev pub latest_failed : Option String → Bool
latest_failed none = false
latest_failed (some s) = not (s === "pass") && not (s === "cancelled")

abbrev pub latest_risk : Option String → List Risk
latest_risk none = []
latest_risk (some s) =
    if latest_failed (some s)
    then record {
      severity = critical;
      message = concat ("Latest drill " ∷ s ∷ " — fix validation failures before deploy" ∷ []);
    }
      ∷ []
    else []

abbrev pub is_invalidated : Option DriftSeverity → Bool
is_invalidated (some recovery_invalidated) = true
is_invalidated _ = false

abbrev pub is_drift_risk : Option DriftSeverity → Bool
is_drift_risk (some recovery_at_risk) = true
is_drift_risk _ = false

unfoldable pub overall_status : ReadinessInput → ℕ → OverallStatus
overall_status r score =
    if not (truthy r.last_verified_at) && not (truthy r.latest_drill_at)
    then OverallStatus.unknown
    else if latest_failed r.latest_drill_status
        || has_fail r.dimensions
        || is_invalidated r.drift_status
    then not_ready
    else if is_drift_risk r.drift_status || ltb score 55
    then at_risk
    else if leb 80 score
    then recovery_ready
    else at_risk

unfoldable pub compute : ReadinessInput → ReadinessResult
unfolding readiness_score dimension_risk overall_status parse_duration
compute r = record {
  score = readiness_score r.dimensions;
  status = overall_status r (readiness_score r.dimensions);
  dimensions = r.dimensions;
  risks =
      latest_risk r.latest_drill_status
      ++ (dimension_risks r.contract r.dimensions ++ drift_risk r.drift_status r.drift_summary);
  rto_target_seconds = parse_duration (codes r.contract.rto);
  rto_actual_seconds = r.rto_actual_seconds;
  rpo_target_seconds = parse_duration (codes r.contract.rpo);
  rpo_observed_seconds = r.rpo_observed_seconds;
  last_verified_at = r.last_verified_at;
  latest_drill_status = r.latest_drill_status;
  latest_drill_at = r.latest_drill_at;
  drift_status = get_or r.drift_status stable;
  drift_summary = r.drift_summary;
  regression = none;
}
