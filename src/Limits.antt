-- ===== src/Limits.antt =====
-- Subscriptions (apps/api/src/lib/org-subscription.ts) and the guards of a plan
-- (apps/api/src/lib/plan-limits.ts). The texts of the errors are left out. `now` is `Date.now()`.
pub mod Reaping
mod Tests
use revenant_cloud.Base.{
  ℕ, ◌+◌, ◌-◌, ◌*◌, ◌/◌, String, Bool, true, false, not, ◌&&◌, ◌||◌, Option, none, some, List, [],
  ◌∷◌, ltb, leb, ◌==◌, ◌===◌, if◌then◌else◌, find, filter, count, get_or,
}
use revenant_cloud.Plans.{
  OrganizationPlan, PlanLimits, PlanLimitResource, databases, schedules, team_members, integrations,
  redis_resources, plan_limits, parse_organization_plan, get_catalog_plan,
}
use revenant_cloud.Store.{
  AppError, Result, ok, failed, and_then, app_error, ensure, Job, JobStatus, error, Organization,
  Owned, Store, is_pending, is_running, is_active, update_where, with_jobs,
}

abbrev pub trial_runs : ℕ → Option ℕ → Bool
trial_runs now none = false
trial_runs now (some ends) = ltb now ends

-- `isSubscriptionActive`
unfoldable pub is_subscription_active : ℕ → Organization → Bool
is_subscription_active now row =
    (row.subscription_status === "active")
    || ((row.subscription_status === "trialing") && trial_runs now row.trial_ends_at)

abbrev pub day_ms : ℕ
day_ms = 24 * 60 * 60 * 1000

-- `trialDaysRemaining`: rounded up, and 0 once the trial is over.
unfoldable pub trial_days_remaining : ℕ → Option ℕ → Option ℕ
trial_days_remaining now none = none
trial_days_remaining now (some ends) =
    some (if leb ends now then 0 else (ends - now + (day_ms - 1)) / day_ms)

unfoldable pub trial_ends_from_now : ℕ → ℕ → ℕ
trial_ends_from_now now days = now + days * day_ms

abbrev pub found : Option Organization → Result Organization
found none = failed (app_error 404 "NOT_FOUND")
found (some row) = ok row

abbrev pub get_organization_billing : Store → ℕ → Result Organization
get_organization_billing db org = found (find (λ o. o.id == org) db.organizations)

abbrev pub get_organization_plan : Store → ℕ → Result OrganizationPlan
get_organization_plan db org =
    and_then (get_organization_billing db org) (λ row. ok (parse_organization_plan row.plan))

unfoldable pub assert_subscription_active : ℕ → Store → ℕ → Result Unit
unfolding is_subscription_active
assert_subscription_active now db org =
    and_then (get_organization_billing db org)
      (λ row. ensure (is_subscription_active now row) (app_error 403 "SUBSCRIPTION_INACTIVE"))

abbrev pub owned_by : ℕ → List Owned → ℕ
owned_by org rows = count (λ r. r.organization_id == org) rows

unfoldable pub count_plan_resource : Store → ℕ → PlanLimitResource → ℕ
count_plan_resource db org databases = count (λ d. d.organization_id == org) db.databases
count_plan_resource db org schedules = count (λ s. s.organization_id == org) db.schedules
count_plan_resource db org team_members = owned_by org db.users
count_plan_resource db org integrations = owned_by org db.webhook_endpoints
count_plan_resource db org redis_resources = owned_by org db.redis_resources

abbrev pub pending_stale_ms : ℕ
pending_stale_ms = 30 * 60 * 1000

abbrev pub running_stale_ms : ℕ
running_stale_ms = 2 * 60 * 60 * 1000

abbrev pub stale_pending : ℕ → ℕ → Job → Bool
stale_pending now org job =
    (job.organization_id == org)
    && is_pending job.status
    && ltb job.created_at (now - pending_stale_ms)

abbrev pub started_before : ℕ → Job → Option ℕ → Bool
started_before cutoff job (some started) = ltb started cutoff
started_before cutoff job none = ltb job.created_at cutoff

abbrev pub stale_running : ℕ → ℕ → Job → Bool
stale_running now org job =
    (job.organization_id == org)
    && is_running job.status
    && started_before (now - running_stale_ms) job job.started_at

abbrev pub reaped : String → ℕ → Job → Job
reaped message now job = record job {
  status = error;
  error_message = some message;
  finished_at = some now;
  updated_at = now;
}

abbrev pub pending_message : String
pending_message =
    "No runner picked up this drill within 30 minutes. Start the Revenant agent (Settings → Runners) or enable the embedded API runner, then try again."

abbrev pub running_message : String
running_message = "Drill timed out after 2 hours without finishing."

abbrev pub reap_pending : ℕ → ℕ → List Job → List Job
reap_pending now org = update_where (stale_pending now org) (reaped pending_message now)

abbrev pub reap_running : ℕ → ℕ → List Job → List Job
reap_running now org = update_where (stale_running now org) (reaped running_message now)

-- `reapStaleRestoreDrills`: how many drills failed, and the store then.
unfoldable pub reap_stale_drills : ℕ → Store → ℕ → ℕ × Store
reap_stale_drills now db org =
    let queued = reap_pending now org db.jobs in
    (
      count (stale_pending now org) db.jobs + count (stale_running now org) queued,
      with_jobs db (reap_running now org queued),
    )

abbrev pub active_in : ℕ → Job → Bool
active_in org job = (job.organization_id == org) && is_active job.status

abbrev pub count_active_drills : Store → ℕ → ℕ
count_active_drills db org = count (active_in org) db.jobs

-- The test against a plan's limit on parallel drills, after stale drills are failed.
abbrev pub room_under : ℕ → Store → ℕ → Option ℕ → Result Unit × Store
room_under now db org none = (ok tt, db)
room_under now db org (some limit) =
    let after = (reap_stale_drills now db org).1 in
    (ensure (ltb (count_active_drills after org) limit) (app_error 403 "PLAN_LIMIT"), after)

abbrev pub room_on : ℕ → Store → ℕ → Result OrganizationPlan → Result Unit × Store
room_on now db org (failed e) = (failed e, db)
room_on now db org (ok plan) = room_under now db org ((plan_limits plan).parallel_restore_drills)

-- `assertParallelRestoreDrills`; the store that it leaves also when it throws.
unfoldable pub assert_parallel_drills : ℕ → Store → ℕ → Result Unit × Store
unfolding reap_stale_drills get_catalog_plan parse_organization_plan
assert_parallel_drills now db org = room_on now db org (get_organization_plan db org)

unfoldable pub assert_self_hosted_agent : Store → ℕ → Result Unit
unfolding get_catalog_plan parse_organization_plan
assert_self_hosted_agent db org =
    and_then (get_organization_plan db org)
      (λ plan. ensure ((plan_limits plan).self_hosted_agent) (app_error 403 "PLAN_LIMIT"))

unfoldable pub assert_recovery_mode_allowed : Store → ℕ → String → Result Unit
unfolding get_catalog_plan parse_organization_plan
assert_recovery_mode_allowed db org mode = and_then (get_organization_plan db org) (λ plan.
    ensure
      (not ((mode === "direct") && not ((plan_limits plan).direct_postgres_drills))
        && not ((mode === "aws-rds") && not ((plan_limits plan).aws_restore_drills)))
      (app_error 403 "PLAN_LIMIT"))

abbrev pub limit_for_resource : PlanLimits → PlanLimitResource → Option ℕ
limit_for_resource limits databases = limits.workflows
limit_for_resource limits schedules = limits.schedules
limit_for_resource limits team_members = limits.team_members
limit_for_resource limits _ = none

abbrev pub within : ℕ → Option ℕ → Result Unit
within current none = ok tt
within current (some limit) = ensure (ltb current limit) (app_error 403 "PLAN_LIMIT")

abbrev pub integrations_allowed : PlanLimits → PlanLimitResource → Bool
integrations_allowed limits integrations = limits.integrations
integrations_allowed limits _ = true

-- `assertPlanLimit`
unfoldable pub assert_plan_limit : Store → ℕ → PlanLimitResource → Result Unit
unfolding get_catalog_plan parse_organization_plan count_plan_resource
assert_plan_limit db org resource = and_then (get_organization_plan db org) (λ plan.
    and_then
      (ensure (integrations_allowed (plan_limits plan) resource) (app_error 403 "PLAN_LIMIT"))
      (λ _.
        within (count_plan_resource db org resource)
          (limit_for_resource (plan_limits plan) resource)))
