-- ===== src/Readiness/Dimensions/Laws.antt =====
-- When a dimension built from a drill fails, and what follows for the status and the gate.
use revenant_cloud.Base.{
  ℕ, ◌≡◌, ◌≢◌, refl, ap, ◌∙◌, ◌⊎◌, inl, inr, String, Bool, true, false, not, ◌&&◌, ◌||◌, Option,
  none, some, List, [], ◌∷◌, arith, ltb, ◌===◌, Bool-cases, any, all, filter, codes, truthy,
  if◌then◌else◌, eq_iff,
}
use revenant_cloud.Duration.{parse_duration, CheckResult}
use revenant_cloud.Readiness.{is_fail, has_fail, ReadinessInput, compute, not_ready, latest_failed}
use revenant_cloud.Readiness.Status.{is_critical, drilled, critical_lem, not_ready_iff}
use revenant_cloud.Readiness.Gate.{evaluate_gate}
use revenant_cloud.Readiness.Gate.Laws.{allowed_iff}
use revenant_cloud.Readiness.Dimensions.{
  DrillInput, Row, is, passes, fails, all_pass, schema_checks, query_checks, http_checks,
  job_failed, restore_row, judged, schema_row, queries_row, rto_row, freshness_row, wants_app,
  app_judged, app_row, dependencies_row, procedure_row, rpo_row, measured_checks, no_checks,
  checks_row, build_dimensions,
}

-- Some check did not pass: it failed, or it was skipped.
abbrev pub not_all_pass : List CheckResult → Bool
not_all_pass = any (λ r. not (passes r))

-- A target that parses and a measurement above it.
abbrev pub exceeds : Option ℕ → Option ℕ → Bool
exceeds (some target) (some actual) = ltb target actual
exceeds _ _ = false

-- A kind of checks that the contract requires did not pass.
abbrev pub schema_unmet : DrillInput → Bool
schema_unmet d =
    d.contract.required.schema && (d.has_validation_plan && not_all_pass (schema_checks d))

abbrev pub queries_unmet : DrillInput → Bool
queries_unmet d = d.contract.required.critical_queries && not_all_pass (query_checks d)

abbrev pub app_unmet : DrillInput → Bool
app_unmet d = wants_app d && (truthy d.contract.app_healthcheck && not_all_pass (http_checks d))

abbrev pub rto_missed : DrillInput → Bool
rto_missed d = exceeds (parse_duration (codes d.contract.rto)) d.rto_actual_seconds

abbrev pub rpo_missed : DrillInput → Bool
rpo_missed d = exceeds (parse_duration (codes d.contract.rpo)) d.rpo_observed_seconds

all_pass_cases :
    (rs : List CheckResult)
    → ((all_pass rs ≡ none) × (not_all_pass rs ≡ false))
      ⊎ (all_pass rs ≡ some (not (not_all_pass rs)))
all_pass_cases [] = inl (refl, refl)
all_pass_cases (r ∷ rs) = inr (ap some (all-any (r ∷ rs)))
  where
    all-any : (qs : List CheckResult) → all passes qs ≡ not (not_all_pass qs)
    all-any [] = refl
    all-any (q ∷ qs) = ground (arith, all-any qs)

is_fail-judged :
    (rs : List CheckResult) (failed otherwise : Row)
    → is_fail failed.0 ≡ true
    → is_fail otherwise.0 ≡ false
    → is_fail (judged (all_pass rs) failed otherwise).0 ≡ not_all_pass rs
is_fail-judged rs failed otherwise f o = elim (all_pass_cases rs) [
  | inl (e, none_fail) ↦ rw (e, none_fail) o
  | inr e ↦ rw e (ground arith)
]

-- A string that is one text is no other.
passed_status : (o : Option String) → is o "pass" ≡ true → (is o "fail" || is o "error") ≡ false
passed_status none h = cc
passed_status (some t) h = rw ((eq_iff t "pass").0 h)

restore_fails : (d : DrillInput) → is_fail (restore_row d).0 ≡ job_failed d
unfolding restore_row
restore_fails d = elim (Bool-cases (is d.last_job_status "pass")) [
  | inl passed ↦ rw (passed, passed_status d.last_job_status passed)
  | inr other ↦ rw other (ground arith)
]

-- A row behind two conditions, where only the last alternative can fail.
behind :
    (a b x : Bool) (r1 r2 r3 : Row)
    → is_fail r1.0 ≡ false
    → is_fail r2.0 ≡ false
    → is_fail r3.0 ≡ x
    → is_fail (if not a then r1 else if not b then r2 else r3).0 ≡ (a && (b && x))
behind true true x r1 r2 r3 h1 h2 h3 = h3
behind true false x r1 r2 r3 h1 h2 h3 = h2
behind false b x r1 r2 r3 h1 h2 h3 = h1

behind_one :
    (a x : Bool) (r1 r2 : Row)
    → is_fail r1.0 ≡ false
    → is_fail r2.0 ≡ x
    → is_fail (if not a then r1 else r2).0 ≡ (a && x)
behind_one true x r1 r2 h1 h2 = h2
behind_one false x r1 r2 h1 h2 = h1

neither :
    (b : Bool) (r s : Row)
    → is_fail r.0 ≡ false
    → is_fail s.0 ≡ false
    → is_fail (if b then r else s).0 ≡ false
neither true r s h k = h
neither false r s h k = k

schema_fails : (d : DrillInput) → is_fail (schema_row d).0 ≡ schema_unmet d
unfolding schema_row
schema_fails d =
    behind d.contract.required.schema d.has_validation_plan (not_all_pass (schema_checks d)) _ _ _
      refl refl
      (is_fail-judged (schema_checks d) _ _ refl
        (neither (is d.last_job_status "pass") _ _ refl refl))

queries_fail : (d : DrillInput) → is_fail (queries_row d).0 ≡ queries_unmet d
unfolding queries_row
queries_fail d =
    behind_one d.contract.required.critical_queries (not_all_pass (query_checks d)) _ _ refl (
      is_fail-judged (query_checks d) _ _ refl
        (neither (is d.last_job_status "pass") _ _ refl refl))

is_fail-app_judged :
    (rs : List CheckResult) (otherwise : Row)
    → is_fail otherwise.0 ≡ false
    → is_fail (app_judged (all_pass rs) otherwise).0 ≡ not_all_pass rs
is_fail-app_judged rs otherwise o = elim (all_pass_cases rs) [
  | inl (e, none_fail) ↦ rw (e, none_fail) o
  | inr e ↦ rw e (ground arith)
]

app_fails : (d : DrillInput) → is_fail (app_row d).0 ≡ app_unmet d
unfolding app_row
app_fails d =
    behind (wants_app d) (truthy d.contract.app_healthcheck) (not_all_pass (http_checks d)) _ _ _
      refl refl
      (is_fail-app_judged (http_checks d) _ (neither (is d.last_job_status "pass") _ _ refl refl))

pub rto_fails :
    (d : DrillInput)
    → is_fail (rto_row d).0 ≡ exceeds (parse_duration (codes d.contract.rto)) d.rto_actual_seconds
unfolding rto_row
rto_fails d = ground arith

pub rpo_fails :
    (d : DrillInput)
    → is_fail (rpo_row d).0 ≡ exceeds (parse_duration (codes d.contract.rpo)) d.rpo_observed_seconds
unfolding rpo_row
rpo_fails d = ground arith

freshness_fails : (now : ℕ) (d : DrillInput) → is_fail (freshness_row now d).0 ≡ false
unfolding freshness_row
freshness_fails now d = ground arith

dependencies_fail : (d : DrillInput) → is_fail (dependencies_row d).0 ≡ false
unfolding dependencies_row
dependencies_fail d = ground arith

procedure_fails : (d : DrillInput) → is_fail (procedure_row d).0 ≡ false
unfolding procedure_row
procedure_fails d = ground arith

no_checks-filter : (rs : List CheckResult) → no_checks (filter fails rs) ≡ not (any fails rs)
no_checks-filter [] = refl
no_checks-filter (r ∷ rs) = ground (arith, no_checks-filter rs)

failed_status : (s : String) → (s === "fail") ≡ true → (s === "skip") ≡ false
failed_status s h = rw ((eq_iff s "fail").0 h)

-- A failed check is no skipped one.
any-measured :
    (rs : List CheckResult) → any fails (filter (λ r. not (r.status === "skip")) rs) ≡ any fails rs
any-measured [] = refl
any-measured (r ∷ rs) = elim (Bool-cases (r.status === "fail")) [
  | inl failed ↦ rw (failed, failed_status r.status failed) (ground arith)
  | inr other ↦ rw other (ground (arith, any-measured rs))
]

checks_row_parts :
    (measured : List CheckResult) (job : Bool) (r1 r2 r3 r4 : Row)
    → is_fail r1.0 ≡ true
    → is_fail r2.0 ≡ false
    → is_fail r3.0 ≡ false
    → is_fail r4.0 ≡ true
    → is_fail
        (if no_checks measured
          then if job then r1 else r2
          else if no_checks (filter fails measured)
          then r3
          else r4).0
      ≡ (any fails measured || (no_checks measured && job))
checks_row_parts [] true r1 r2 r3 r4 h1 h2 h3 h4 = h1
checks_row_parts [] false r1 r2 r3 r4 h1 h2 h3 h4 = h2
checks_row_parts (r ∷ rs) job r1 r2 r3 r4 h1 h2 h3 h4 =
    rw (no_checks-filter (r ∷ rs)) (ground arith)

checks_fail :
    (d : DrillInput)
    → is_fail (checks_row d).0
      ≡ (any fails d.check_results || (no_checks (measured_checks d) && job_failed d))
unfolding checks_row
checks_fail d =
    checks_row_parts (measured_checks d) (job_failed d) _ _ _ _ refl refl refl refl
    ∙ ap (λ b. b || (no_checks (measured_checks d) && job_failed d)) (any-measured d.check_results)

-- What makes a drill count as failed, stated on the drill alone.
abbrev pub broken : DrillInput → Bool
broken d =
    job_failed d
    || (any fails d.check_results
        || (rto_missed d || (rpo_missed d || (schema_unmet d || (queries_unmet d || app_unmet d)))))

regroup :
    (job check empty schema query app rto rpo : Bool)
    → (job
        || ((check || (empty && job))
            || (schema
                || (query || (app || (rto || (rpo || (false || (false || (false || false))))))))))
      ≡ (job || (check || (rto || (rpo || (schema || (query || app))))))
regroup job check empty schema query app rto rpo = ground arith

-- A dimension fails exactly when the job failed, a check failed, a target was missed, or a check
-- that the contract requires to pass did not.
pub has_fail-build_dimensions :
    (now : ℕ) (d : DrillInput) → has_fail (build_dimensions now d) ≡ broken d
unfolding build_dimensions
has_fail-build_dimensions now d =
    rw
      (
        restore_fails d,
        checks_fail d,
        schema_fails d,
        queries_fail d,
        app_fails d,
        rto_fails d,
        rpo_fails d,
        dependencies_fail d,
        procedure_fails d,
        freshness_fails now d,
      )
      (regroup (job_failed d) (any fails d.check_results) (no_checks (measured_checks d))
        (schema_unmet d) (queries_unmet d) (app_unmet d) (rto_missed d) (rpo_missed d))

compute_critical :
    (r : ReadinessInput) → has_fail r.dimensions ≡ true → any is_critical (compute r).risks ≡ true
compute_critical r h = critical_lem r ∙ rw h (or_true (latest_failed r.latest_drill_status))
  where
    or_true : (b : Bool) → (b || true) ≡ true
    or_true true = refl
    or_true false = refl

-- Where the dimensions were built from a broken drill, a workflow that was ever verified or drilled
-- is not ready, and the gate stays shut at any minimum.
pub broken-blocks :
    (now : ℕ) (d : DrillInput) (r : ReadinessInput) (min_score : Option ℕ) (checked : String)
    → r.dimensions ≡ build_dimensions now d
    → broken d ≡ true
    → drilled r ≡ true
    → ((compute r).status ≡ not_ready)
      × ((evaluate_gate (compute r) min_score checked).allowed ≢ true)
unfolding compute
broken-blocks now d r min_score checked e b h =
    let failing : has_fail r.dimensions ≡ true = rw (e, has_fail-build_dimensions now d) b in
    let not_open : (evaluate_gate (compute r) min_score checked).allowed ≢ true =
      (λ a. let parts = (allowed_iff (compute r) min_score checked).0 a in cc (parts.4, failing)) in
    ((not_ready_iff r).1 (h, compute_critical r failing), not_open)
