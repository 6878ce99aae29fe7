-- ===== src/Store.antt =====
-- The tables that the drills use (apps/api/src/db/schema.ts), the statements on them, and errors
-- (apps/api/src/lib/errors.ts). An identifier is the number of a UUID, a time the milliseconds of a
-- `Date`, and a nullable column an option. A table is the list of its rows in the order of
-- insertion; of each row the columns are kept that the modelled code reads or writes.
use revenant_cloud.Base.{
  not, ℕ, String, Bool, true, false, ◌&&◌, Option, none, List, [], ◌∷◌, ◌==◌, if◌then◌else◌, find,
  is_some,
}

pub record AppError : Type 0 where
  pub status_code : ℕ
  pub code : String

-- A call's result, or the error that it throws.
pub data Result (A : Type 0) : Type 0 where
  ok : A → Result A
  failed : AppError → Result A

abbrev pub and_then : {A B : Type 0} → Result A → (A → Result B) → Result B
and_then (ok a) k = k a
and_then (failed e) k = failed e

abbrev pub app_error : ℕ → String → AppError
app_error status code = record { status_code = status; code = code }

-- `if (!condition) throw error`
abbrev pub ensure : Bool → AppError → Result Unit
ensure true e = ok tt
ensure false e = failed e

pub data JobStatus : Type 0 where
  pending running pass fail error cancelled : JobStatus

pub data Trigger : Type 0 where
  schedule manual full_drill challenge : Trigger

pub data ExecutionMode : Type 0 where
  stub agent ci : ExecutionMode

pub record Check : Type 0 where
  pub check_name : String
  pub check_type : String
  pub status : String
  pub message : Option String

pub record Progress : Type 0 where
  pub stage : String
  pub message : String
  pub updated_at : ℕ
  pub checks : Option (List Check)

-- The keys of `metadataJson` that are used; a column that is null has neither.
pub record Metadata : Type 0 where
  pub verification_snapshot : Option String
  pub runner_progress : Option Progress

abbrev pub no_metadata : Metadata
no_metadata = record { verification_snapshot = none; runner_progress = none }

pub record Job : Type 0 where
  pub id : ℕ
  pub organization_id : ℕ
  pub database_id : ℕ
  pub status : JobStatus
  pub trigger : Trigger
  pub execution_mode : Option ExecutionMode
  pub claimed_by_runner_id : Option ℕ
  pub triggered_by_user_id : Option ℕ
  pub error_message : Option String
  pub metadata : Metadata
  pub rto_seconds : Option ℕ
  pub started_at : Option ℕ
  pub finished_at : Option ℕ
  pub created_at : ℕ
  pub updated_at : ℕ

pub record DatabaseRow : Type 0 where
  pub id : ℕ
  pub organization_id : ℕ
  pub engine : String
  pub recovery_mode : String
  pub recovery_drills_enabled : String
  pub recovery_max_lifetime_minutes : Option ℕ
  pub recovery_use_freetier : String
  pub recovery_sandbox_instance_class : Option String
  pub recovery_cleanup_customer_snapshots : String
  pub rds_source_identifier : Option String
  pub region : Option String

pub record Organization : Type 0 where
  pub id : ℕ
  pub plan : String
  pub subscription_status : String
  pub trial_ends_at : Option ℕ

-- A row of `users`, `webhook_endpoints` or `redis_resources`.
pub record Owned : Type 0 where
  pub organization_id : ℕ

-- A row of `validation_plans` or `schedules`.
pub record OfDatabase : Type 0 where
  pub organization_id : ℕ
  pub database_id : ℕ

pub record RecoveryPoint : Type 0 where
  pub id : ℕ
  pub organization_id : ℕ
  pub database_id : ℕ
  pub status : String
  pub snapshot_identifier : String

pub record JobResult : Type 0 where
  pub organization_id : ℕ
  pub job_id : ℕ
  pub check : Check
  pub duration_ms : Option ℕ

pub record Store : Type 0 where
  pub organizations : List Organization
  pub databases : List DatabaseRow
  pub jobs : List Job
  pub job_results : List JobResult
  pub recovery_points : List RecoveryPoint
  pub validation_plans : List OfDatabase
  pub schedules : List OfDatabase
  pub users : List Owned
  pub webhook_endpoints : List Owned
  pub redis_resources : List Owned

abbrev pub is_pending : JobStatus → Bool
is_pending pending = true
is_pending _ = false

abbrev pub is_running : JobStatus → Bool
is_running running = true
is_running _ = false

-- `status` is one of `pending` and `running`.
abbrev pub is_active : JobStatus → Bool
is_active pending = true
is_active running = true
is_active _ = false

-- `update … set … where`
abbrev pub update_where : {A : Type 0} → (A → Bool) → (A → A) → List A → List A
update_where test set [] = []
update_where test set (row ∷ rows) =
    let rest = update_where test set rows in (if test row then set row else row) ∷ rest

abbrev pub with_jobs : Store → List Job → Store
with_jobs db rows = record db { jobs = rows }

abbrev pub has_id : ℕ → Job → Bool
has_id id job = job.id == id

abbrev pub database_by : ℕ → Store → Option DatabaseRow
database_by id db = find (λ d. d.id == id) db.databases

-- The database of an organization.
abbrev pub own_database : ℕ → ℕ → Store → Option DatabaseRow
own_database id org db = find (λ d. (d.id == id) && (d.organization_id == org)) db.databases

-- An inner join of a job with its database keeps the jobs that have one.
abbrev pub joins : Store → Job → Bool
joins db job = is_some (database_by job.database_id db)

-- Whether the column for the finish time is null.
abbrev pub unfinished : Job → Bool
unfinished job = not (is_some job.finished_at)
