-- ===== src/Limits/Tests.antt =====
-- The guards of a plan on a small store.
use revenant_cloud.Base.{◌≡◌, refl, true, false, none, some, [], ◌∷◌, All}
use revenant_cloud.Plans.{PlanLimitResource}
use revenant_cloud.Store.{
  ok, failed, app_error, Job, running, manual, no_metadata, Organization, Store,
}
use revenant_cloud.Limits.{
  is_subscription_active, trial_days_remaining, assert_plan_limit, assert_recovery_mode_allowed,
  assert_self_hosted_agent, reap_stale_drills,
}
use revenant_cloud.Limits.Reaping.{IsFresh, reap_stale_drills-IsFresh}

abbrev small : Organization
small = record {
  id = 1;
  plan = "starter";
  subscription_status = "trialing";
  trial_ends_at = some 9000;
}

abbrev stuck : Job
stuck = record {
  id = 4;
  organization_id = 1;
  database_id = 7;
  status = running;
  trigger = manual;
  execution_mode = none;
  claimed_by_runner_id = none;
  triggered_by_user_id = none;
  error_message = none;
  metadata = no_metadata;
  rto_seconds = none;
  started_at = none;
  finished_at = none;
  created_at = 500;
  updated_at = 500;
}

abbrev store : Store
store = record {
  organizations = small ∷ [];
  databases = [];
  jobs = stuck ∷ [];
  job_results = [];
  recovery_points = [];
  validation_plans = [];
  schedules = record { organization_id = 1; database_id = 7 } ∷ [];
  users = [];
  webhook_endpoints = [];
  redis_resources = [];
}

limits :
    (is_subscription_active 8999 small ≡ true)
    × (is_subscription_active 9000 small ≡ false)
    × (trial_days_remaining 8999 (some 9000) ≡ some 1)
    × (assert_plan_limit store 1 PlanLimitResource.schedules ≡ failed (app_error 403 "PLAN_LIMIT"))
    × (assert_plan_limit store 1 PlanLimitResource.team_members ≡ ok tt)
    × (assert_recovery_mode_allowed store 1 "direct" ≡ failed (app_error 403 "PLAN_LIMIT"))
    × (assert_self_hosted_agent store 2 ≡ failed (app_error 404 "NOT_FOUND"))
unfolding is_subscription_active trial_days_remaining assert_plan_limit assert_recovery_mode_allowed
    assert_self_hosted_agent
limits = (refl, refl, refl, refl, refl, refl, refl)

reap_stale_drills-IsFresh_example :
    All (IsFresh 7200501 1) (reap_stale_drills 7200501 store 1).1.jobs
reap_stale_drills-IsFresh_example = reap_stale_drills-IsFresh 7200501 store 1
