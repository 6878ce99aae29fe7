-- ===== src/Readiness/Breaches.antt =====
-- Missed contract targets: `detectRecoveryContractBreaches`
-- (packages/shared/src/recovery-readiness.ts).
use revenant_cloud.Base.{
  ℕ, ◌≡◌, ◌↔◌, String, false, Option, none, some, List, [], ◌∷◌, ◌++◌, arith, ltb, if◌then◌else◌,
  concat, show, codes,
}
use revenant_cloud.Duration.{parse_duration}
use revenant_cloud.Readiness.{is_fail}
use revenant_cloud.Readiness.Dimensions.{DrillInput, rto_row, rpo_row}
use revenant_cloud.Readiness.Dimensions.Laws.{exceeds, rto_fails, rpo_fails}

-- The line for one target, if the target and the measurement are known and it was missed.
unfoldable pub breach : String → Option ℕ → Option ℕ → List String
breach name none actual = []
breach name (some target) none = []
breach name (some target) (some actual) =
    if ltb target actual
    then concat (name ∷ " " ∷ show actual ∷ "s exceeds contract target " ∷ show target ∷ "s" ∷ [])
      ∷ []
    else []

unfoldable pub detect_breaches : Option ℕ → Option ℕ → Option ℕ → Option ℕ → List String
unfolding breach
detect_breaches rto_target rto_actual rpo_target rpo_observed =
    breach "RTO" rto_target rto_actual ++ breach "RPO" rpo_target rpo_observed

breaches_iff :
    (t1 a1 t2 a2 : Option ℕ)
    → (detect_breaches t1 a1 t2 a2 ≡ []) ↔ ((exceeds t1 a1 ≡ false) × (exceeds t2 a2 ≡ false))
unfolding detect_breaches
breaches_iff t1 a1 t2 a2 = (λ h. ground arith, λ h. ground arith)

-- For a contract's targets and a drill's measurements, no breach is reported exactly when neither
-- the RTO nor the RPO dimension of that drill fails.
pub detect_breaches_iff :
    (d : DrillInput)
    → (detect_breaches
          (parse_duration (codes d.contract.rto))
          d.rto_actual_seconds
          (parse_duration (codes d.contract.rpo))
          d.rpo_observed_seconds
        ≡ [])
      ↔ ((is_fail (rto_row d).0 ≡ false) × (is_fail (rpo_row d).0 ≡ false))
detect_breaches_iff d = rw (rto_fails d, rpo_fails d) (breaches_iff _ _ _ _)
