-- ===== src/Readiness/Tests.antt =====
-- Readiness at concrete inputs: tests, and the theorems at inputs that meet their hypotheses.
use revenant_cloud.Base.{
  ℕ, ◌≤◌, ◌≡◌, ◌≢◌, refl, ◌⊎◌, ◌↔◌, true, false, none, some, [], ◌∷◌, codes, show, any, truthy,
}
use revenant_cloud.Contract.{default_contract, stable, recovery_invalidated}
use revenant_cloud.Duration.{CheckResult, parse_duration}
use revenant_cloud.Readiness.{
  DimensionStatus, OverallStatus, recovery_ready, not_ready, Dimension, RegressionSeverity,
  ReadinessInput, is_fail, has_fail, is_drift_risk, compute,
}
use revenant_cloud.Readiness.Status.{is_critical, drilled, not_ready_iff, recovery_ready_iff}
use revenant_cloud.Readiness.Regression.{percent_of, Drill, detect_regression}
use revenant_cloud.Readiness.Regression.Laws.{Worsened, Fell, detect_regression_iff}
use revenant_cloud.Readiness.Gate.{evaluate_gate, blocks}
use revenant_cloud.Readiness.Gate.Laws.{allowed_iff}
use revenant_cloud.Readiness.Dimensions.{
  DrillInput, rto_row, rpo_row, build_dimensions, restore_row, checks_row, schema_row, queries_row,
  app_row, dependencies_row, procedure_row, freshness_row,
}
use revenant_cloud.Readiness.Dimensions.Laws.{broken, has_fail-build_dimensions, broken-blocks}
use revenant_cloud.Readiness.Breaches.{detect_breaches, detect_breaches_iff}

abbrev row_check : CheckResult
row_check = record { check_type = "row_count"; status = "pass"; message = none }

abbrev schema_check : CheckResult
schema_check = record { check_type = "schema"; status = "pass"; message = none }

abbrev failed_check : CheckResult
failed_check = record { check_type = "sql"; status = "fail"; message = none }

-- A passing drill of twelve minutes, 2 hours ago, for the default contract of 15m and 5m.
abbrev drill : DrillInput
drill = record {
  contract = unfold default_contract in default_contract;
  last_job_status = some "pass";
  last_job_finished_at = some 1000;
  rto_actual_seconds = some 720;
  rpo_observed_seconds = some 60;
  check_results = schema_check ∷ row_check ∷ [];
  has_validation_plan = true;
  has_schedule = true;
  dependency_count = 0;
  tested_dependency_count = 0;
}

abbrev now : ℕ
now = 7201000

abbrev bad_drill : DrillInput
bad_drill = record drill { check_results = failed_check ∷ schema_check ∷ [] }

abbrev input : DrillInput → ReadinessInput
input d = record {
  contract = d.contract;
  dimensions = build_dimensions now d;
  drift_status = some stable;
  drift_summary = none;
  last_verified_at = some "2026-07-01T00:00:00.000Z";
  latest_drill_status = d.last_job_status;
  latest_drill_at = some "2026-07-01T00:00:00.000Z";
  rto_actual_seconds = d.rto_actual_seconds;
  rpo_observed_seconds = d.rpo_observed_seconds;
}

good_run :
    ((compute (input drill)).score ≡ 100)
    × ((compute (input drill)).status ≡ recovery_ready)
    × ((evaluate_gate (compute (input drill)) none "now").allowed ≡ true)
unfolding compute evaluate_gate build_dimensions restore_row checks_row schema_row queries_row
    app_row rto_row rpo_row dependencies_row procedure_row freshness_row show default_contract
good_run = (refl, refl, refl)

bad_run :
    ((compute (input bad_drill)).score ≡ 72)
    × ((compute (input bad_drill)).status ≡ not_ready)
    × ((evaluate_gate (compute (input bad_drill)) none "now").blockers
        ≡ "Workflow is not recovery-ready" ∷ "Validation plan checks failed"
          ∷ "Critical queries failed" ∷ [])
unfolding compute evaluate_gate build_dimensions restore_row checks_row schema_row queries_row
    app_row rto_row rpo_row dependencies_row procedure_row freshness_row show default_contract
bad_run = (refl, refl, refl)

broken-blocks_example :
    ((compute (input bad_drill)).status ≡ not_ready)
    × ((evaluate_gate (compute (input bad_drill)) (some 0) "now").allowed ≢ true)
unfolding default_contract
broken-blocks_example = broken-blocks now bad_drill (input bad_drill) (some 0) "now" refl refl refl

has_fail-build_dimensions_example : has_fail (build_dimensions now bad_drill) ≡ broken bad_drill
has_fail-build_dimensions_example = has_fail-build_dimensions now bad_drill

allowed_iff_example : ((evaluate_gate (compute (input drill)) none "now").allowed ≡ true) ↔ (
    (truthy (compute (input drill)).last_verified_at ≡ true)
    × ((compute (input drill)).status ≢ OverallStatus.unknown)
    × ((compute (input drill)).status ≢ not_ready)
    × (70 ≤ (compute (input drill)).score)
    × (has_fail (compute (input drill)).dimensions ≡ false)
    × (blocks (compute (input drill)).regression ≡ false)
    × ((compute (input drill)).drift_status ≢ recovery_invalidated))
allowed_iff_example = allowed_iff (compute (input drill)) none "now"

not_ready_iff_example : ((compute (input bad_drill)).status ≡ not_ready) ↔ (
    (drilled (input bad_drill) ≡ true) × (any is_critical (compute (input bad_drill)).risks ≡ true))
not_ready_iff_example = not_ready_iff (input bad_drill)

recovery_ready_iff_example : ((compute (input drill)).status ≡ recovery_ready) ↔ (
    (drilled (input drill) ≡ true)
    × (any is_critical (compute (input drill)).risks ≡ false)
    × (is_drift_risk (input drill).drift_status ≡ false)
    × (80 ≤ (compute (input drill)).score))
recovery_ready_iff_example = recovery_ready_iff (input drill)

abbrev dim : DimensionStatus → ℕ → Dimension
dim status weight = record {
  id = "d";
  label = "D";
  status = status;
  detail = none;
  weight = weight;
}

abbrev faster : Drill
faster = record {
  job_id = some "a";
  finished_at = some "t";
  rto_seconds = some 600;
  rpo_observed_seconds = some 60;
  score = some 95;
}

abbrev slower : Drill
slower = record faster { rto_seconds = some 620; score = some 80 }

score_regression :
    ((detect_regression slower (some faster) none).severity ≡ RegressionSeverity.warning)
    × ((detect_regression slower (some faster) none).message
        ≡ some "Readiness score dropped 15 pts (95→80)")
    × ((detect_regression slower (some faster) (some 3)).severity ≡ RegressionSeverity.critical)
unfolding detect_regression show percent_of
score_regression = (refl, refl, refl)

detect_regression_iff_example :
    let g = detect_regression slower (some faster) none in
    ((g.severity ≡ RegressionSeverity.critical)
      ↔ (Worsened 10 (some 600) (some 620) ⊎ Worsened 10 (some 60) (some 60)))
    × ((g.detected ≡ true) ↔ (
        Worsened 10 (some 600) (some 620)
        ⊎ Worsened 10 (some 60) (some 60)
        ⊎ Fell (some 95) (some 80)))
detect_regression_iff_example = detect_regression_iff slower faster none

detect_breaches_iff_example :
    (detect_breaches
        (parse_duration (codes "15m"))
        (some 720)
        (parse_duration (codes "5m"))
        (some 60)
      ≡ [])
    ↔ ((is_fail (rto_row drill).0 ≡ false) × (is_fail (rpo_row drill).0 ≡ false))
unfolding default_contract
detect_breaches_iff_example = detect_breaches_iff drill

-- 29 / 200 * 100 is below 14.5 in doubles, and 0.145 * 100 rounds to 14.
doubles : (percent_of 29 200 ≡ 14) × (percent_of 1 3 ≡ 33) × (percent_of 9 60 ≡ 15)
unfolding percent_of
doubles = (refl, refl, refl)
