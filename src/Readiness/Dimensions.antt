-- ===== src/Readiness/Dimensions.antt =====
-- The dimensions of readiness from the latest drill: `buildReadinessDimensionsFromJob`
-- (packages/shared/src/recovery-readiness.ts), one function for each dimension. Times are
-- milliseconds since the epoch, and the current time is an argument.
pub mod Laws
use revenant_cloud.Base.{
  ℕ, ◌+◌, ◌-◌, ◌*◌, ◌/◌, String, Bool, true, false, not, ◌&&◌, ◌||◌, Option, none, some, List, [],
  ◌∷◌, ltb, leb, ◌==◌, ◌===◌, if◌then◌else◌, filter, all, any, length, codes, concat, truthy,
  get_or, show, round_div,
}
use revenant_cloud.Duration.{parse_duration, CheckResult}
use revenant_cloud.Contract.{Contract}
use revenant_cloud.Readiness.{DimensionStatus, pass, fail, warn, unknown, not_configured, Dimension}

pub record DrillInput : Type 0 where
  pub contract : Contract
  pub last_job_status : Option String
  pub last_job_finished_at : Option ℕ
  pub rto_actual_seconds : Option ℕ
  pub rpo_observed_seconds : Option ℕ
  pub check_results : List CheckResult
  pub has_validation_plan : Bool
  pub has_schedule : Bool
  pub dependency_count : ℕ
  pub tested_dependency_count : ℕ

-- A dimension's status and its detail.
abbrev pub Row : Type 0
Row = DimensionStatus × Option String

-- `o === s` for an optional string.
abbrev pub is : Option String → String → Bool
is none s = false
is (some t) s = t === s

abbrev pub checks_of : List String → List CheckResult → List CheckResult
checks_of types = filter (λ r. any (λ t. t === r.check_type) types)

abbrev pub passes : CheckResult → Bool
passes r = r.status === "pass"

abbrev pub fails : CheckResult → Bool
fails r = r.status === "fail"

-- `null` where no check ran, and otherwise whether every check passed.
abbrev pub all_pass : List CheckResult → Option Bool
all_pass [] = none
all_pass (r ∷ rs) = some (all passes (r ∷ rs))

abbrev pub schema_checks : DrillInput → List CheckResult
schema_checks d = checks_of ("schema" ∷ "table" ∷ "column" ∷ "index" ∷ []) d.check_results

abbrev pub query_checks : DrillInput → List CheckResult
query_checks d = checks_of ("sql" ∷ "row_count" ∷ "query" ∷ "freshness" ∷ []) d.check_results

abbrev pub http_checks : DrillInput → List CheckResult
http_checks d = filter (λ r. r.check_type === "http_health") d.check_results

-- The job ended in `fail` or `error`.
abbrev pub job_failed : DrillInput → Bool
job_failed d = is d.last_job_status "fail" || is d.last_job_status "error"

unfoldable pub restore_row : DrillInput → Row
restore_row d =
    if is d.last_job_status "pass"
    then (pass, some "Last drill passed")
    else if job_failed d
    then (fail, some (concat ("Last drill " ∷ get_or d.last_job_status "" ∷ [])))
    else (unknown, some "No completed drill yet")

-- The row of checks that are judged together.
abbrev pub judged : Option Bool → Row → Row → Row
judged (some true) failed otherwise = (pass, none)
judged (some false) failed otherwise = failed
judged none failed otherwise = otherwise

unfoldable pub schema_row : DrillInput → Row
schema_row d =
    if not d.contract.required.schema
    then (not_configured, none)
    else if not d.has_validation_plan
    then (warn, some "No validation plan")
    else judged (all_pass (schema_checks d))
        (
          fail,
          some (
              concat
                (show (length (filter fails (schema_checks d))) ∷ " schema check(s) failed" ∷ [])),
        )
        (if is d.last_job_status "pass"
          then (warn, some "No schema checks in validation plan")
          else (unknown, none))

unfoldable pub queries_row : DrillInput → Row
queries_row d =
    if not d.contract.required.critical_queries
    then (not_configured, none)
    else judged (all_pass (query_checks d))
        (
          fail,
          some (
              concat
                (show (length (filter fails (query_checks d))) ∷ " query check(s) failed" ∷ [])),
        )
        (if is d.last_job_status "pass"
          then (warn, some "No query/freshness checks in validation plan")
          else (unknown, none))

unfoldable pub rto_row : DrillInput → Row
unfolding parse_duration
rto_row d = elim (parse_duration (codes d.contract.rto)) [
  | none ↦ (warn, some "Invalid RTO target in contract")
  | some target ↦ elim d.rto_actual_seconds [
    | none ↦ (unknown, some "No RTO measurement yet")
    | some actual ↦
        if leb actual target
        then (pass, some (concat (show actual ∷ "s / " ∷ show target ∷ "s target" ∷ [])))
        else (fail, some (concat (show actual ∷ "s exceeds " ∷ show target ∷ "s target" ∷ [])))
  ]
]

abbrev pub hour_ms : ℕ
hour_ms = 3600000

-- `Math.round` of the hours from `then` to `now`; a time ahead of the clock rounds towards it, and
-- minus zero prints as 0.
abbrev pub rounded_hours : ℕ → ℕ → String
rounded_hours now past =
    if leb past now
    then show (round_div (now - past) hour_ms)
    else let ahead = (2 * (past - now) - hour_ms + (2 * hour_ms - 1)) / (2 * hour_ms) in
      if leb (2 * (past - now)) hour_ms then "0" else concat ("-" ∷ show ahead ∷ [])

abbrev pub max_age_hours : DrillInput → ℕ
max_age_hours d = get_or d.contract.max_verification_age_hours 168

-- `ageHours <= maxAgeHours`: also where the finish time lies ahead of the clock.
unfoldable pub freshness_row : ℕ → DrillInput → Row
freshness_row now d = elim d.last_job_finished_at [
  | none ↦ (unknown, some "Never verified")
  | some t ↦
      if leb (now - t) (max_age_hours d * hour_ms)
      then (pass, some (concat ("Verified " ∷ rounded_hours now t ∷ "h ago" ∷ [])))
      else (
        warn,
        some (
            concat (
              "Last verified "
              ∷ rounded_hours now t
              ∷ "h ago (policy: "
              ∷ show (max_age_hours d)
              ∷ "h)"
              ∷ [])),
      )
]

abbrev pub wants_app : DrillInput → Bool
wants_app d = d.contract.required.api || d.contract.required.healthcheck

abbrev pub app_judged : Option Bool → Row → Row
app_judged (some true) otherwise = (pass, some "Application healthcheck passed on last drill")
app_judged (some false) otherwise = (fail, some "Application healthcheck failed on last drill")
app_judged none otherwise = otherwise

unfoldable pub app_row : DrillInput → Row
app_row d =
    if not (wants_app d)
    then (not_configured, some "Application checks not in contract yet")
    else if not (truthy d.contract.app_healthcheck)
    then (warn, some "Required by contract but no healthcheck URL configured")
    else app_judged (all_pass (http_checks d)) (
        if is d.last_job_status "pass"
        then (warn, some "Healthcheck configured but no http_health result on last drill")
        else (unknown, some "Healthcheck URL saved — run a drill to verify"))

unfoldable pub dependencies_row : DrillInput → Row
dependencies_row d =
    let tested =
      concat (show d.tested_dependency_count ∷ "/" ∷ show d.dependency_count ∷ " tested" ∷ []) in
    if ltb 0 d.dependency_count
    then if leb d.dependency_count d.tested_dependency_count
      then (pass, some tested)
      else if ltb 0 d.tested_dependency_count
      then (warn, some tested)
      else (warn, some (concat (show d.dependency_count ∷ " dependencies not tested" ∷ [])))
    else (not_configured, some "No dependencies in contract")

unfoldable pub procedure_row : DrillInput → Row
procedure_row d =
    if d.has_schedule
    then (pass, some "Scheduled drills enabled")
    else if d.has_validation_plan && is d.last_job_status "pass"
    then (warn, some "Manual drills only — add a schedule for automation")
    else if d.has_validation_plan
    then (not_configured, some "Add a schedule after your first passing drill")
    else (not_configured, some "No schedule configured")

unfoldable pub rpo_row : DrillInput → Row
unfolding parse_duration
rpo_row d = elim (parse_duration (codes d.contract.rpo)) [
  | none ↦ (warn, some "Invalid RPO target in contract")
  | some target ↦ elim d.rpo_observed_seconds [
    | none ↦
        if is d.last_job_status "pass"
        then (warn, some "Drill passed but no freshness check — cannot measure RPO")
        else (unknown, some "Add a freshness check to your validation plan to measure data lag")
    | some observed ↦
        if leb observed target
        then (pass, some (concat (show observed ∷ "s lag / " ∷ show target ∷ "s target" ∷ [])))
        else (
          fail,
          some (concat (show observed ∷ "s lag exceeds " ∷ show target ∷ "s target" ∷ [])),
        )
  ]
]

abbrev pub measured_checks : DrillInput → List CheckResult
measured_checks d = filter (λ r. not (r.status === "skip")) d.check_results

abbrev pub no_checks : List CheckResult → Bool
no_checks [] = true
no_checks (r ∷ rs) = false

unfoldable pub checks_row : DrillInput → Row
checks_row d =
    let measured = measured_checks d in
    let failed = filter fails measured in
    if no_checks measured
    then if job_failed d
      then (fail, some "Drill failed with no check results")
      else (unknown, some "No validation checks ran")
    else if no_checks failed
    then (
      pass,
      some (
          concat
            (show (length measured) ∷ "/" ∷ show (length measured) ∷ " YAML checks passed" ∷ [])),
    )
    else (
      fail,
      some (
          concat
            (show (length failed) ∷ "/" ∷ show (length measured) ∷ " YAML checks failed" ∷ [])),
    )

abbrev pub dimension : String → String → Row → ℕ → Dimension
dimension id label row weight = record {
  id = id;
  label = label;
  status = row.0;
  detail = row.1;
  weight = weight;
}

unfoldable pub build_dimensions : ℕ → DrillInput → List Dimension
build_dimensions now d =
    dimension "database_restore" "Database restore" (restore_row d) 15
    ∷ dimension "validation_checks" "Validation plan checks" (checks_row d) 14
    ∷ dimension "schema_integrity" "Schema integrity" (schema_row d) 12
    ∷ dimension "critical_queries" "Critical queries" (queries_row d) 12
    ∷ dimension "application_health" "Application health" (app_row d) 10
    ∷ dimension "rto" "RTO" (rto_row d) 15
    ∷ dimension "rpo" "RPO" (rpo_row d) 8
    ∷ dimension "dependencies" "Dependencies" (dependencies_row d) 10
    ∷ dimension "recovery_procedure" "Recovery procedure" (procedure_row d) 8
    ∷ dimension "freshness" "Last verified" (freshness_row now d) 10
    ∷ []
