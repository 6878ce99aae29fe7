-- ===== src/Readiness/Status.antt =====
-- The overall status of a workflow against its dimensions and the risks listed with it.
use revenant_cloud.Base.{
  ℕ, ◌≤◌, ◌≡◌, refl, sym, ap, ◌∙◌, ◌↔◌, String, Bool, true, false, not, ◌&&◌, ◌||◌, Option, none,
  some, List, [], ◌∷◌, ◌++◌, arith, ltb, leb, any, truthy, if◌then◌else◌,
}
use revenant_cloud.Contract.{Contract, DriftSeverity}
use revenant_cloud.Readiness.{
  OverallStatus, recovery_ready, at_risk, not_ready, Dimension, Risk, warning, critical,
  ReadinessInput, dimension_risk, dimension_risks, drift_risk, latest_risk, latest_failed, has_fail,
  is_fail, is_invalidated, is_drift_risk, overall_status, readiness_score, compute,
}

abbrev pub is_critical : Risk → Bool
is_critical k = elim k.severity [ critical ↦ true | warning ↦ false ]

-- Whether the workflow was ever verified or drilled.
abbrev pub drilled : ReadinessInput → Bool
drilled r = truthy r.last_verified_at || truthy r.latest_drill_at

any-append :
    (xs ys : List Risk) → any is_critical (xs ++ ys) ≡ (any is_critical xs || any is_critical ys)
any-append [] ys = refl
any-append (x ∷ xs) ys = ground (arith, any-append xs ys)

any-dimension_risk :
    (c : Contract) (d : Dimension) → any is_critical (dimension_risk c d) ≡ is_fail d.status
unfolding dimension_risk
any-dimension_risk c d = ground arith

any-dimension_risks :
    (c : Contract) (ds : List Dimension) → any is_critical (dimension_risks c ds) ≡ has_fail ds
any-dimension_risks c [] = refl
any-dimension_risks c (d ∷ ds) = rw (
  any-append (dimension_risk c d) (dimension_risks c ds),
  any-dimension_risk c d,
  any-dimension_risks c ds,
)

any-drift_risk :
    (s : Option DriftSeverity) (m : Option String)
    → any is_critical (drift_risk s m) ≡ is_invalidated s
any-drift_risk none m = refl
any-drift_risk (some s) m = ground arith

any-latest_risk : (s : Option String) → any is_critical (latest_risk s) ≡ latest_failed s
any-latest_risk none = refl
any-latest_risk (some s) = ground arith

-- A critical risk is listed exactly when the latest drill failed, a dimension fails or drift has
-- invalidated recovery.
pub critical_lem :
    (r : ReadinessInput)
    → any is_critical (compute r).risks ≡ (
        latest_failed r.latest_drill_status
        || (has_fail r.dimensions || is_invalidated r.drift_status))
unfolding compute
critical_lem r = rw (
  any-append (latest_risk r.latest_drill_status)
      (dimension_risks r.contract r.dimensions ++ drift_risk r.drift_status r.drift_summary),
  any-append (dimension_risks r.contract r.dimensions) (drift_risk r.drift_status r.drift_summary),
  any-latest_risk r.latest_drill_status,
  any-dimension_risks r.contract r.dimensions,
  any-drift_risk r.drift_status r.drift_summary,
)

-- The status as a function of what it depends on.
abbrev status_of : Bool → Bool → Bool → ℕ → OverallStatus
status_of drill broken risky n =
    if drill
    then if broken
      then not_ready
      else if risky || ltb n 55
      then at_risk
      else if leb 80 n
      then recovery_ready
      else at_risk
    else OverallStatus.unknown

regroup :
    (a b l f i k : Bool) (n : ℕ)
    → (if not a && not b
        then OverallStatus.unknown
        else if l || f || i
        then not_ready
        else if k || ltb n 55
        then at_risk
        else if leb 80 n
        then recovery_ready
        else at_risk)
      ≡ status_of (a || b) (l || (f || i)) k n
regroup a b l f i k n = ground arith

compute-status :
    (r : ReadinessInput)
    → (compute r).status
      ≡ status_of
          (drilled r)
          (any is_critical (compute r).risks)
          (is_drift_risk r.drift_status)
          (compute r).score
unfolding compute overall_status
compute-status r =
    regroup (truthy r.last_verified_at) (truthy r.latest_drill_at)
      (latest_failed r.latest_drill_status) (has_fail r.dimensions) (is_invalidated r.drift_status)
      (is_drift_risk r.drift_status) (readiness_score r.dimensions)
    ∙ ap
        (λ b. status_of (drilled r) b (is_drift_risk r.drift_status) (readiness_score r.dimensions))
        (sym (critical_lem r))

status_of-not_ready :
    (a b c : Bool) (n : ℕ) → (status_of a b c n ≡ not_ready) ↔ ((a ≡ true) × (b ≡ true))
status_of-not_ready a b c n = (λ h. ground arith, λ h. ground arith)

status_of-recovery_ready :
    (a b c : Bool) (n : ℕ)
    → (status_of a b c n ≡ recovery_ready) ↔ ((a ≡ true) × (b ≡ false) × (c ≡ false) × (80 ≤ n))
status_of-recovery_ready a b c n = (λ h. ground arith, λ h. ground arith)

-- A workflow that was ever verified or drilled is not ready exactly when a critical risk is listed;
-- one that never was is not.
pub not_ready_iff :
    (r : ReadinessInput)
    → ((compute r).status ≡ not_ready)
      ↔ ((drilled r ≡ true) × (any is_critical (compute r).risks ≡ true))
not_ready_iff r =
    rw (compute-status r) (status_of-not_ready (drilled r) _ (is_drift_risk r.drift_status) _)

-- Recovery is ready exactly when the workflow was verified or drilled, no critical risk is listed,
-- drift does not put it at risk, and the score reaches 80.
pub recovery_ready_iff :
    (r : ReadinessInput)
    → ((compute r).status ≡ recovery_ready) ↔ (
        (drilled r ≡ true)
        × (any is_critical (compute r).risks ≡ false)
        × (is_drift_risk r.drift_status ≡ false)
        × (80 ≤ (compute r).score))
recovery_ready_iff r = rw (compute-status r) (status_of-recovery_ready (drilled r) _ _ _)
