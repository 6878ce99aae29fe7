-- ===== src/Readiness/Regression.antt =====
-- Regression against the previous passing drill: `metricDelta` and `detectRecoveryRegression`
-- (packages/shared/src/recovery-readiness.ts), and what `getForDatabase` adds to the readiness for
-- it (apps/api/src/services/recovery-readiness.service.ts).
pub mod Laws
use revenant_cloud.Base.{
  ℕ, ◌+◌, ◌-◌, ◌*◌, String, Bool, true, false, not, ◌&&◌, ◌||◌, Option, none, some, List, [], ◌∷◌,
  ◌++◌, ltb, leb, if◌then◌else◌, concat, get_or, show, round_div, nearest, scale,
}
use revenant_cloud.Readiness.{
  DimensionStatus, fail, warn, Dimension, Risk, RiskSeverity, RegressionSeverity, no_regression,
  MetricDelta, ScoreDelta, RegressionInfo, ReadinessResult,
}

abbrev pub default_threshold : ℕ
default_threshold = 10

-- `Math.round((delta / previous) * 100)`: the quotient and the product are doubles.
unfoldable pub percent_of : ℕ → ℕ → ℕ
percent_of delta previous =
    let quotient = nearest delta previous in
    let below = scale delta previous in
    round_div (nearest (quotient * 100) below) (scale (quotient * 100) below)

unfoldable pub metric_delta : ℕ → ℕ → Option MetricDelta
metric_delta previous current =
    if leb current previous
    then none
    else some (record {
      previous = previous;
      current = current;
      delta_seconds = current - previous;
      delta_percent = if ltb 0 previous then percent_of (current - previous) previous else 100;
    })

-- One side of the comparison.
pub record Drill : Type 0 where
  pub job_id : Option String
  pub finished_at : Option String
  pub rto_seconds : Option ℕ
  pub rpo_observed_seconds : Option ℕ
  pub score : Option ℕ

abbrev pub delta_between : Option ℕ → Option ℕ → Option MetricDelta
unfolding metric_delta
delta_between (some previous) (some current) = metric_delta previous current
delta_between _ _ = none

-- The score's fall, where both scores are known: `scoreDelta` is current minus previous, and it is
-- at most -10 where the score fell by at least 10.
abbrev pub score_fall : Option ℕ → Option ℕ → Option ScoreDelta
score_fall (some previous) (some current) =
    if leb (current + 10) previous
    then some (record { previous = previous; current = current; fall = previous - current })
    else none
score_fall _ _ = none

-- A worsening counts from the threshold, or from 30 seconds.
abbrev pub significant : ℕ → Option MetricDelta → Option MetricDelta
significant threshold none = none
significant threshold (some d) =
    if leb threshold d.delta_percent || leb 30 d.delta_seconds then some d else none

abbrev pub no_change : RegressionInfo
no_change = record {
  detected = false;
  severity = no_regression;
  message = none;
  rto = none;
  rpo = none;
  score = none;
  compared_job_id = none;
  compared_at = none;
}

abbrev pub metric_part : String → Option MetricDelta → List String
metric_part name none = []
metric_part name (some d) =
    concat (name ∷ " worsened " ∷ show d.delta_seconds ∷ "s (+" ∷ show d.delta_percent ∷ "%)" ∷ [])
    ∷ []

abbrev pub score_part : Option ScoreDelta → List String
score_part none = []
score_part (some s) =
    concat (
      "Readiness score dropped "
      ∷ show s.fall
      ∷ " pts ("
      ∷ show s.previous
      ∷ "→"
      ∷ show s.current
      ∷ ")"
      ∷ [])
    ∷ []

-- `parts.join(" · ")`
abbrev pub join : List String → String
join [] = ""
join (p ∷ []) = p
join (p ∷ q ∷ ps) = concat (p ∷ " · " ∷ join (q ∷ ps) ∷ [])

-- The report of what got worse, given what counts.
abbrev pub report :
    Drill → Option MetricDelta → Option MetricDelta → Option ScoreDelta → RegressionInfo
report previous none none none = no_change
report previous rto rpo score = record {
  detected = true;
  severity = elim rto [
    | some r ↦ RegressionSeverity.critical
    | none ↦ elim rpo [ some r ↦ RegressionSeverity.critical | none ↦ RegressionSeverity.warning ]
  ];
  message = some (join (metric_part "RTO" rto ++ (metric_part "RPO lag" rpo ++ score_part score)));
  rto = rto;
  rpo = rpo;
  score = score;
  compared_job_id = previous.job_id;
  compared_at = previous.finished_at;
}

unfoldable pub detect_regression : Drill → Option Drill → Option ℕ → RegressionInfo
unfolding metric_delta
detect_regression current none threshold = no_change
detect_regression current (some previous) threshold =
    let limit = get_or threshold default_threshold in
    report previous (significant limit (delta_between previous.rto_seconds current.rto_seconds))
      (significant limit (delta_between previous.rpo_observed_seconds current.rpo_observed_seconds))
      (score_fall previous.score current.score)

abbrev pub is_critical_regression : RegressionSeverity → Bool
is_critical_regression RegressionSeverity.critical = true
is_critical_regression _ = false

-- The text of a message that may be `null`, inside a template.
abbrev pub message_text : Option String → String
message_text none = "null"
message_text (some m) = m

-- A detected regression adds a risk and a dimension of no weight behind the computed ones.
unfoldable pub with_regression : ReadinessResult → RegressionInfo → ReadinessResult
with_regression r g =
    if g.detected
    then record r {
      regression = some g;
      risks =
          r.risks
          ++ record {
            severity =
                if is_critical_regression g.severity
                then RiskSeverity.critical
                else RiskSeverity.warning;
            message = concat ("Regression vs prior drill: " ∷ message_text g.message ∷ []);
          }
            ∷ [];
      dimensions =
          r.dimensions
          ++ record {
            id = "regression";
            label = "Recovery regression";
            status = if is_critical_regression g.severity then fail else warn;
            detail = g.message;
            weight = 0;
          }
            ∷ [];
    }
    else record r { regression = some g }
