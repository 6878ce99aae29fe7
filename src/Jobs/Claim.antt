-- ===== src/Jobs/Claim.antt =====
-- How a runner claims a job and reports on it: `claimNext` and `updateRunnerProgress`
-- (apps/api/src/services/jobs.service.ts). `secret` stands for the stored and decrypted credential.
use revenant_cloud.Base.{
  ◌===◌, ℕ, String, Bool, true, false, not, ◌&&◌, Option, none, some, List, [], ◌∷◌, leb, ◌==◌,
  if◌then◌else◌, find, filter, truthy,
}
use revenant_cloud.Store.{
  Result, ok, failed, and_then, app_error, Job, running, ExecutionMode, Trigger, schedule, manual,
  challenge, full_drill, Check, Progress, Metadata, DatabaseRow, Store, is_pending, is_running,
  update_where, with_jobs, has_id, database_by, joins,
}
use revenant_cloud.Limits.{assert_subscription_active, assert_self_hosted_agent}
use revenant_cloud.Jobs.{assert_supported_mode, is_aws, is_mongodb}

pub data RunnerKind : Type 0 where
  agent ci : RunnerKind

abbrev pub mode_of_kind : RunnerKind → ExecutionMode
mode_of_kind RunnerKind.agent = ExecutionMode.agent
mode_of_kind RunnerKind.ci = ExecutionMode.ci

-- `RunnerAuthContext`: the global token, or the organization, runner, database and kind of an agent.
pub data RunnerAuth : Type 0 where
  stub_auth : RunnerAuth
  org_auth : ℕ → ℕ → ℕ → RunnerKind → RunnerAuth

abbrev pub auth_mode : RunnerAuth → ExecutionMode
auth_mode stub_auth = ExecutionMode.stub
auth_mode (org_auth org runner database kind) = mode_of_kind kind

abbrev pub auth_runner : RunnerAuth → Option ℕ
auth_runner stub_auth = none
auth_runner (org_auth org runner database kind) = some runner

-- The jobs that a runner may see: all of them, or those of its database.
abbrev pub in_scope : RunnerAuth → Job → Bool
in_scope stub_auth job = true
in_scope (org_auth org runner database kind) job =
    (job.organization_id == org) && (job.database_id == database)

abbrev pub claim_guards : ℕ → Store → RunnerAuth → Result Unit
claim_guards now db stub_auth = ok tt
claim_guards now db (org_auth org runner database kind) =
    and_then (assert_self_hosted_agent db org) (λ _. assert_subscription_active now db org)

-- `orderBy(createdAt).limit(1)`; of equal times the row that was inserted first.
abbrev pub older : Job → Option Job → Job
older job none = job
older job (some other) = if leb job.created_at other.created_at then job else other

abbrev pub oldest : List Job → Option Job
oldest [] = none
oldest (job ∷ jobs) = some (older job (oldest jobs))

abbrev pub claimable : Store → RunnerAuth → Job → Bool
claimable db auth job = is_pending job.status && in_scope auth job && joins db job

abbrev pub next_pending : Store → RunnerAuth → Option Job
next_pending db auth = oldest (filter (claimable db auth) db.jobs)

abbrev pub starting : ℕ → Progress
starting now = record {
  stage = "runner_starting";
  message = "Runner claimed the job and is preparing the selected database.";
  updated_at = now;
  checks = none;
}

-- What the claim's `update` sets. It takes the metadata of the row that was selected.
abbrev pub claimed : ℕ → RunnerAuth → Metadata → Job → Job
claimed now auth selected job = record job {
  status = running;
  execution_mode = some (auth_mode auth);
  claimed_by_runner_id = auth_runner auth;
  metadata = record selected { runner_progress = some (starting now) };
  started_at = some now;
  updated_at = now;
}

abbrev pub pending_id : ℕ → Job → Bool
pending_id id job = has_id id job && is_pending job.status

abbrev pub returned : (Job → Job) → Option Job → Option Job
returned set none = none
returned set (some job) = some (set job)

-- The claim's `update … where id and status = pending … returning`.
abbrev pub claim_update : ℕ → RunnerAuth → Metadata → ℕ → List Job → Option Job × List Job
claim_update now auth selected id jobs = (
  returned (claimed now auth selected) (find (pending_id id) jobs),
  update_where (pending_id id) (claimed now auth selected) jobs,
)

pub record Recovery : Type 0 where
  pub source_identifier : String
  pub region : String
  pub snapshot_identifier : Option String
  pub use_freetier : Bool
  pub sandbox_instance_class : Option String
  pub max_lifetime_minutes : Option ℕ
  pub cleanup_customer_snapshots : Bool

-- `recovery`: only in AWS mode, with a source and a region that are not empty.
abbrev pub recovery_of : DatabaseRow → Metadata → Option String → Option String → Option Recovery
recovery_of d metadata (some source) (some region) =
    if is_aws d && truthy (some source) && truthy (some region)
    then some (record {
      source_identifier = source;
      region = region;
      snapshot_identifier =
          if truthy metadata.verification_snapshot then metadata.verification_snapshot else none;
      use_freetier = d.recovery_use_freetier === "true";
      sandbox_instance_class = d.recovery_sandbox_instance_class;
      max_lifetime_minutes = d.recovery_max_lifetime_minutes;
      cleanup_customer_snapshots = d.recovery_cleanup_customer_snapshots === "true";
    })
    else none
recovery_of d metadata _ _ = none

pub record Secret : Type 0 where
  pub password : Option String
  pub connection_string : Option String

abbrev pub claim_database_secret : Bool → Option String → Secret
claim_database_secret true secret = record { password = none; connection_string = secret }
claim_database_secret false secret = record { password = secret; connection_string = none }

abbrev pub is_full : Bool → Trigger → Bool
is_full aws full_drill = true
is_full aws schedule = aws
is_full aws manual = false
is_full aws challenge = false

pub data Engine : Type 0 where
  mongodb mysql postgres : Engine

abbrev pub engine_of : DatabaseRow → Engine
engine_of d = if is_mongodb d then mongodb else if d.engine === "mysql" then mysql else postgres

-- What the runner is handed. Left out are what is only copied or read after the claim: the columns of
-- the connection, the plan's text and version, the contract's endpoints, and the AWS credentials.
pub record Claimed : Type 0 where
  pub job : Job
  pub database_id : ℕ
  pub engine : Engine
  pub aws_rds : Bool
  pub secret : Secret
  pub recovery : Option Recovery
  pub execution_mode : ExecutionMode
  pub full_drill : Bool

abbrev pub claim_payload : (ℕ → Option String) → RunnerAuth → Metadata → DatabaseRow → Job → Claimed
claim_payload secret auth selected d job = record {
  job = job;
  database_id = d.id;
  engine = engine_of d;
  aws_rds = is_aws d;
  secret = claim_database_secret (is_mongodb d) (secret d.id);
  recovery = recovery_of d selected d.rds_source_identifier d.region;
  execution_mode = auth_mode auth;
  full_drill = is_full (is_aws d) job.trigger;
}

abbrev pub payload_of :
    (ℕ → Option String) → RunnerAuth → Metadata → DatabaseRow → Option Job → Option Claimed
payload_of secret auth selected d none = none
payload_of secret auth selected d (some job) = some (claim_payload secret auth selected d job)

abbrev pub claim_on :
    (ℕ → Option String)
    → ℕ
    → Store
    → RunnerAuth
    → Job
    → DatabaseRow
    → Result Unit
    → Result (Option Claimed) × Store
claim_on secret now db auth job d (failed e) = (failed e, db)
claim_on secret now db auth job d (ok supported) =
    let (updated, jobs) = claim_update now auth job.metadata job.id db.jobs in
    (ok (payload_of secret auth job.metadata d updated), with_jobs db jobs)

abbrev pub claim_job :
    (ℕ → Option String) → ℕ → Store → RunnerAuth → Option Job → Result (Option Claimed) × Store
claim_job secret now db auth none = (ok none, db)
claim_job secret now db auth (some job) = elim (database_by job.database_id db) [
  | none ↦ (ok none, db)
  | some d ↦ claim_on secret now db auth job d (assert_supported_mode d)
]

abbrev pub claim_with :
    (ℕ → Option String) → ℕ → Store → RunnerAuth → Result Unit → Result (Option Claimed) × Store
claim_with secret now db auth (failed e) = (failed e, db)
claim_with secret now db auth (ok allowed) = claim_job secret now db auth (next_pending db auth)

unfoldable pub claim_next :
    (ℕ → Option String) → ℕ → Store → RunnerAuth → Result (Option Claimed) × Store
unfolding assert_subscription_active assert_self_hosted_agent
claim_next secret now db auth = claim_with secret now db auth (claim_guards now db auth)

-- Reports of progress.
pub record ProgressInput : Type 0 where
  pub stage : String
  pub message : String
  pub checks : Option (List Check)

-- The checks of a report that has none stay those of the report before.
abbrev pub earlier_checks : Option Progress → Option (List Check)
earlier_checks none = none
earlier_checks (some p) = p.checks

abbrev pub kept_checks : Option (List Check) → Option Progress → Option (List Check)
kept_checks (some checks) old = some checks
kept_checks none old = earlier_checks old

abbrev pub progressed : ℕ → ProgressInput → Metadata → Job → Job
progressed now input selected job = record job {
  metadata = record selected {
    runner_progress = some (record {
      stage = input.stage;
      message = input.message;
      updated_at = now;
      checks = kept_checks input.checks selected.runner_progress;
    });
  };
  updated_at = now;
}

abbrev pub running_id : ℕ → Job → Bool
running_id id job = has_id id job && is_running job.status

abbrev pub scoped : Option RunnerAuth → Job → Bool
scoped none job = true
scoped (some auth) job = in_scope auth job

abbrev pub progress_on :
    ℕ → Store → ℕ → ProgressInput → Option RunnerAuth → Option Job → Result Unit × Store
progress_on now db id input auth none = (failed (app_error 404 "NOT_FOUND"), db)
progress_on now db id input auth (some job) =
    if not (scoped auth job)
    then (failed (app_error 404 "NOT_FOUND"), db)
    else if not (is_running job.status)
    then (failed (app_error 409 "JOB_NOT_RUNNING"), db)
    else (
      ok tt,
      with_jobs db (update_where (running_id id) (progressed now input job.metadata) db.jobs),
    )

unfoldable pub update_progress :
    ℕ → Store → ℕ → ProgressInput → Option RunnerAuth → Result Unit × Store
update_progress now db id input auth = progress_on now db id input auth (find (has_id id) db.jobs)
