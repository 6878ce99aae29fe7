-- ===== src/Readiness/Regression/Laws.antt =====
-- When a regression is reported, and how severe it is.
use revenant_cloud.Base.{
  ℕ, zero, suc, ◌+◌, ◌-◌, ◌≤◌, ◌<◌, ◌≡◌, refl, ◌⊎◌, inl, inr, ◌↔◌, true, Option, none, some, arith,
  get_or, is_some,
}
use revenant_cloud.Readiness.{RegressionSeverity, MetricDelta, ScoreDelta}
use revenant_cloud.Readiness.Regression.{
  percent_of, metric_delta, Drill, delta_between, score_fall, significant, report,
  default_threshold, detect_regression,
}

-- Both values are known, and the current one is later: by at least 30 seconds, or by a share of the
-- previous one whose percentage, computed in doubles and rounded, reaches the threshold. Where the
-- previous one is zero that is 100.
abbrev pub Worsened : ℕ → Option ℕ → Option ℕ → Type 0
Worsened limit (some zero) (some c) = (0 < c) × ((30 ≤ c) ⊎ (limit ≤ 100))
Worsened limit (some (suc p)) (some c) =
    (suc p < c) × ((30 ≤ c - suc p) ⊎ (limit ≤ percent_of (c - suc p) (suc p)))
Worsened limit _ _ = ⊥

-- Both scores are known, and the score is lower by at least 10.
abbrev pub Fell : Option ℕ → Option ℕ → Type 0
Fell (some p) (some c) = c + 10 ≤ p
Fell _ _ = ⊥

iff_trans : {A B C : Type 0} → A ↔ B → B ↔ C → A ↔ C
iff_trans f g = (λ a. g.0 (f.0 a), λ c. f.1 (g.1 c))

⊎_map : {A B C D : Type 0} → (A → C) → (B → D) → A ⊎ B → C ⊎ D
⊎_map f g (inl a) = inl (f a)
⊎_map f g (inr b) = inr (g b)

⊎_iff : {A B C D : Type 0} → A ↔ C → B ↔ D → (A ⊎ B) ↔ (C ⊎ D)
⊎_iff f g = (⊎_map f.0 g.0, ⊎_map f.1 g.1)

significant_iff :
    (limit : ℕ) (p c : Option ℕ)
    → (is_some (significant limit (delta_between p c)) ≡ true) ↔ Worsened limit p c
unfolding metric_delta
significant_iff limit (some zero) (some c) = (λ h. ground arith, λ h. ground arith)
significant_iff limit (some (suc p)) (some c) = (λ h. ground arith, λ h. ground arith)
significant_iff limit (some zero) none = (λ h. cc, λ h. absurd h)
significant_iff limit (some (suc p)) none = (λ h. cc, λ h. absurd h)
significant_iff limit none c = (λ h. cc, λ h. absurd h)

score_fall_iff : (p c : Option ℕ) → (is_some (score_fall p c) ≡ true) ↔ Fell p c
score_fall_iff (some p) (some c) = (λ h. ground arith, λ h. ground arith)
score_fall_iff (some p) none = (λ h. cc, λ h. absurd h)
score_fall_iff none c = (λ h. cc, λ h. absurd h)

report-critical :
    (d : Drill) (rto rpo : Option MetricDelta) (score : Option ScoreDelta)
    → ((report d rto rpo score).severity ≡ RegressionSeverity.critical)
      ↔ ((is_some rto ≡ true) ⊎ (is_some rpo ≡ true))
report-critical d (some r) rpo score = (λ h. inl refl, λ h. refl)
report-critical d none (some r) score = (λ h. inr refl, λ h. refl)
report-critical d none none none = (λ h. cc, λ h. ground arith)
report-critical d none none (some s) = (λ h. cc, λ h. ground arith)

report-detected :
    (d : Drill) (rto rpo : Option MetricDelta) (score : Option ScoreDelta)
    → ((report d rto rpo score).detected ≡ true)
      ↔ ((is_some rto ≡ true) ⊎ (is_some rpo ≡ true) ⊎ (is_some score ≡ true))
report-detected d (some r) rpo score = (λ h. inl refl, λ h. refl)
report-detected d none (some r) score = (λ h. inr (inl refl), λ h. refl)
report-detected d none none none = (λ h. cc, λ h. ground arith)
report-detected d none none (some s) = (λ h. inr (inr refl), λ h. refl)

-- Against a previous drill a regression is detected exactly when the recovery time or the data lag
-- worsened, by 30 seconds or by the threshold's percentage as doubles round it, or the score fell by
-- 10; it is critical exactly when the time or the lag worsened.
pub detect_regression_iff :
    (current previous : Drill) (threshold : Option ℕ)
    → let limit = get_or threshold default_threshold in
      let g = detect_regression current (some previous) threshold in
      let slower = Worsened limit previous.rto_seconds current.rto_seconds in
      let staler = Worsened limit previous.rpo_observed_seconds current.rpo_observed_seconds in
      ((g.severity ≡ RegressionSeverity.critical) ↔ (slower ⊎ staler))
      × ((g.detected ≡ true) ↔ (slower ⊎ staler ⊎ Fell previous.score current.score))
unfolding detect_regression
detect_regression_iff current previous threshold =
    let limit = get_or threshold default_threshold in
    let rto = significant_iff limit previous.rto_seconds current.rto_seconds in
    let rpo = significant_iff limit previous.rpo_observed_seconds current.rpo_observed_seconds in
    let score = score_fall_iff previous.score current.score in
    (
      iff_trans (report-critical previous _ _ _) (⊎_iff rto rpo),
      iff_trans (report-detected previous _ _ _) (⊎_iff rto (⊎_iff rpo score)),
    )
