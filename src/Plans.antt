-- ===== src/Plans.antt =====
-- Plans and their limits (packages/shared/src/plans.ts), the state of a subscription
-- (apps/api/src/lib/org-subscription.ts) and the retention of Redis snapshots. An absent limit is
-- `none`. The labels and the marketing text of a plan are left out.
pub mod Retention
mod Tests
use revenant_cloud.Base.{
  ℕ, ◌+◌, ◌-◌, ◌*◌, min, String, Bool, true, false, ◌&&◌, ◌||◌, Option, none, some, List, [], ◌∷◌,
  map, ltb, leb, ◌===◌, if◌then◌else◌, ℤ, pos, floor_div, at_least,
}

pub data OrganizationPlan : Type 0 where
  starter pro enterprise : OrganizationPlan

-- `CatalogPlanId`: "developer", or a plan of an organization.
pub data CatalogPlanId : Type 0 where
  developer : CatalogPlanId
  cloud_plan : OrganizationPlan → CatalogPlanId

pub data PlanLimitResource : Type 0 where
  databases schedules team_members integrations redis_resources : PlanLimitResource

pub record PlanLimits : Type 0 where
  pub cloud_control_plane : Bool
  pub workflows : Option ℕ
  pub schedules : Option ℕ
  pub team_members : Option ℕ
  pub evidence_retention_days : Option ℕ
  pub parallel_restore_drills : Option ℕ
  pub aws_restore_drills : Bool
  pub managed_cloud_drills : Bool
  pub self_hosted_agent : Bool
  pub direct_postgres_drills : Bool
  pub integrations : Bool
  pub audit_log_days : Option ℕ
  pub redis_resources : Option ℕ
  pub redis_restore_proofs_per_month : Option ℕ
  pub redis_snapshot_retention_hours : Option ℕ
  pub redis_snapshot_enabled : Bool

pub data Audience : Type 0 where
  cli cloud : Audience

pub record PlanDefinition : Type 0 where
  pub id : CatalogPlanId
  pub name : String
  pub price_inr : Option ℕ
  pub audience : Audience
  pub trial_days : Option ℕ
  pub limits : PlanLimits

abbrev pub starter_trial_days : ℕ
starter_trial_days = 90

abbrev pub starter_price_inr : ℕ
starter_price_inr = 499

abbrev pub pro_price_inr : ℕ
pro_price_inr = 1499

abbrev pub starter_limits : PlanLimits
starter_limits = record {
  cloud_control_plane = true;
  workflows = some 1;
  schedules = some 1;
  team_members = some 3;
  evidence_retention_days = some 30;
  parallel_restore_drills = some 1;
  aws_restore_drills = true;
  managed_cloud_drills = true;
  self_hosted_agent = false;
  direct_postgres_drills = false;
  integrations = true;
  audit_log_days = some 30;
  redis_resources = some 1;
  redis_restore_proofs_per_month = some 4;
  redis_snapshot_retention_hours = some 24;
  redis_snapshot_enabled = true;
}

abbrev pub pro_limits : PlanLimits
pro_limits = record {
  cloud_control_plane = true;
  workflows = some 10;
  schedules = some 10;
  team_members = some 15;
  evidence_retention_days = some 365;
  parallel_restore_drills = some 3;
  aws_restore_drills = true;
  managed_cloud_drills = true;
  self_hosted_agent = true;
  direct_postgres_drills = true;
  integrations = true;
  audit_log_days = some 365;
  redis_resources = some 10;
  redis_restore_proofs_per_month = some 30;
  redis_snapshot_retention_hours = some 168;
  redis_snapshot_enabled = true;
}

abbrev pub developer_limits : PlanLimits
developer_limits = record {
  cloud_control_plane = false;
  workflows = none;
  schedules = none;
  team_members = none;
  evidence_retention_days = none;
  parallel_restore_drills = none;
  aws_restore_drills = true;
  managed_cloud_drills = false;
  self_hosted_agent = false;
  direct_postgres_drills = true;
  integrations = false;
  audit_log_days = none;
  redis_resources = some 0;
  redis_restore_proofs_per_month = none;
  redis_snapshot_retention_hours = none;
  redis_snapshot_enabled = false;
}

abbrev pub enterprise_limits : PlanLimits
enterprise_limits = record {
  cloud_control_plane = true;
  workflows = none;
  schedules = none;
  team_members = none;
  evidence_retention_days = none;
  parallel_restore_drills = none;
  aws_restore_drills = true;
  managed_cloud_drills = true;
  self_hosted_agent = true;
  direct_postgres_drills = true;
  integrations = true;
  audit_log_days = none;
  redis_resources = none;
  redis_restore_proofs_per_month = none;
  redis_snapshot_retention_hours = none;
  redis_snapshot_enabled = true;
}

-- `PLAN_DEFINITIONS`
unfoldable pub get_catalog_plan : CatalogPlanId → PlanDefinition
get_catalog_plan developer = record {
  id = developer;
  name = "Developer";
  price_inr = some 0;
  audience = cli;
  trial_days = none;
  limits = developer_limits;
}
get_catalog_plan (cloud_plan starter) = record {
  id = cloud_plan starter;
  name = "Starter";
  price_inr = some starter_price_inr;
  audience = cloud;
  trial_days = some starter_trial_days;
  limits = starter_limits;
}
get_catalog_plan (cloud_plan pro) = record {
  id = cloud_plan pro;
  name = "Pro";
  price_inr = some pro_price_inr;
  audience = cloud;
  trial_days = none;
  limits = pro_limits;
}
get_catalog_plan (cloud_plan enterprise) = record {
  id = cloud_plan enterprise;
  name = "Enterprise";
  price_inr = none;
  audience = cloud;
  trial_days = none;
  limits = enterprise_limits;
}

abbrev pub get_plan_definition : OrganizationPlan → PlanDefinition
get_plan_definition plan = get_catalog_plan (cloud_plan plan)

abbrev pub plan_limits : OrganizationPlan → PlanLimits
plan_limits plan = (get_plan_definition plan).limits

abbrev pub catalog_plan_order : List CatalogPlanId
catalog_plan_order = developer ∷ cloud_plan starter ∷ cloud_plan pro ∷ cloud_plan enterprise ∷ []

unfoldable pub list_catalog_plans : List PlanDefinition
unfolding get_catalog_plan
list_catalog_plans = map get_catalog_plan catalog_plan_order

abbrev pub is_cloud_plan : CatalogPlanId → Bool
is_cloud_plan developer = false
is_cloud_plan (cloud_plan plan) = true

abbrev pub upgrade_plan_target : OrganizationPlan → Option OrganizationPlan
upgrade_plan_target starter = some pro
upgrade_plan_target pro = some enterprise
upgrade_plan_target enterprise = none

-- `parseOrganizationPlan`
unfoldable pub parse_organization_plan : String → OrganizationPlan
parse_organization_plan plan =
    if plan === "pro" then pro else if plan === "enterprise" then enterprise else starter

-- A requested number of hours: absent, not finite, or `n / (d + 1)`.
pub data Requested : Type 0 where
  absent : Requested
  not_finite : Requested
  finite : ℤ → ℕ → Requested

abbrev pub min_retention_hours : ℕ
min_retention_hours = 1

abbrev pub max_retention_hours : ℕ
max_retention_hours = 24 * 365

abbrev pub default_retention_hours : ℕ
default_retention_hours = 24

abbrev pub retention_ceiling : OrganizationPlan → Option ℕ
retention_ceiling plan = (plan_limits plan).redis_snapshot_retention_hours

abbrev pub wanted_hours : Requested → ℕ
wanted_hours (finite n d) = at_least min_retention_hours (floor_div n d)
wanted_hours _ = default_retention_hours

abbrev pub clamp_hours : ℕ → Option ℕ → ℕ
clamp_hours wanted none = min wanted max_retention_hours
clamp_hours wanted (some ceiling) = min (min wanted ceiling) max_retention_hours

-- `resolveRedisSnapshotRetentionHours`
unfoldable pub resolve_retention : OrganizationPlan → Requested → ℕ
unfolding get_catalog_plan
resolve_retention plan requested = clamp_hours (wanted_hours requested) (retention_ceiling plan)

abbrev pub remaining_of : Option ℕ → ℕ → Option ℕ
remaining_of none used = none
remaining_of (some limit) used = some (limit - used)

-- `redisRestoreProofsRemaining`: `Math.max(0, limit - used)`.
unfoldable pub proofs_remaining : OrganizationPlan → ℕ → Option ℕ
unfolding get_catalog_plan
proofs_remaining plan used = remaining_of ((plan_limits plan).redis_restore_proofs_per_month) used
