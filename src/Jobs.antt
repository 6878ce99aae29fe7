-- ===== src/Jobs.antt =====
-- The jobs service (apps/api/src/services/jobs.service.ts) and the lifetime limit
-- (apps/api/src/lib/recovery-policy.ts). An operation takes the time of the call and the store, and
-- returns the store that it leaves, also when it throws. The identifier of an inserted row, which
-- PostgreSQL makes, is an argument, and so is the answer of `checkAwsSourceStatus`, which asks AWS.
pub mod Claim
pub mod Finish
pub mod Steps
pub mod Inserts
pub mod Services
pub mod Operations
pub mod Finality
pub mod Dates
pub mod Occupancy
pub mod Statements
pub mod Exclusion
pub mod Queue
mod Tests
use revenant_cloud.Base.{
  ℕ, String, Bool, true, false, not, ◌&&◌, ◌||◌, Option, none, some, List, [], ◌∷◌, ◌++◌, leb, ◌==◌,
  ◌===◌, if◌then◌else◌, find, any, truthy, is_some,
}
use revenant_cloud.Store.{
  AppError, Result, ok, failed, and_then, app_error, ensure, Job, JobStatus, pending, Trigger,
  schedule, manual, full_drill, Metadata, no_metadata, DatabaseRow, OfDatabase, RecoveryPoint,
  Store, own_database, with_jobs,
}
use revenant_cloud.Limits.{assert_subscription_active, assert_parallel_drills}

abbrev pub is_mongodb : DatabaseRow → Bool
is_mongodb d = d.engine === "mongodb"

abbrev pub is_aws : DatabaseRow → Bool
is_aws d = d.recovery_mode === "aws-rds"

-- `assertSupportedRecoveryMode`
abbrev pub assert_supported_mode : DatabaseRow → Result Unit
assert_supported_mode d =
    ensure (not (is_mongodb d && not (d.recovery_mode === "direct")))
      (app_error 400 "INVALID_RECOVERY_MODE")

-- `assertRecoveryLifetimeWithinLimit`
abbrev pub assert_lifetime : Option ℕ → Result Unit
assert_lifetime none = ok tt
assert_lifetime (some minutes) =
    ensure (leb 10 minutes && leb minutes 2147483647) (app_error 400 "INVALID_RECOVERY_LIFETIME")

abbrev pub assert_drills_enabled : DatabaseRow → Result Unit
assert_drills_enabled d =
    ensure (not (is_aws d && not (d.recovery_drills_enabled === "true")))
      (app_error 409 "RECOVERY_DRILLS_DISABLED")

pub data AwsState : Type 0 where
  available missing unavailable not_configured unknown : AwsState

-- `assertAwsFullDrillSourceAvailable`
abbrev pub assert_source_available : AwsState → Result Unit
assert_source_available available = ok tt
assert_source_available unknown = failed (app_error 503 "AWS_SOURCE_NOT_READY")
assert_source_available _ = failed (app_error 409 "AWS_SOURCE_NOT_READY")

abbrev pub assert_source : Bool → Result AwsState → Result Unit
assert_source false answer = ok tt
assert_source true answer = and_then answer assert_source_available

abbrev pub found_database : Option DatabaseRow → Result DatabaseRow
found_database none = failed (app_error 404 "NOT_FOUND")
found_database (some d) = ok d

pub data DrillKind : Type 0 where
  verify full : DrillKind

abbrev pub is_verify : DrillKind → Bool
is_verify verify = true
is_verify full = false

pub record CreateInput : Type 0 where
  pub database_id : ℕ
  pub drill_kind : DrillKind
  pub recovery_point_id : Option ℕ

-- The row that an insertion makes: the columns that are not given take their defaults.
abbrev pub new_job : ℕ → ℕ → ℕ → ℕ → Trigger → Option ℕ → Metadata → Job
new_job id now org database trigger user metadata = record {
  id = id;
  organization_id = org;
  database_id = database;
  status = pending;
  trigger = trigger;
  execution_mode = none;
  claimed_by_runner_id = none;
  triggered_by_user_id = user;
  error_message = none;
  metadata = metadata;
  rto_seconds = none;
  started_at = none;
  finished_at = none;
  created_at = now;
  updated_at = now;
}

abbrev pub active_point : ℕ → ℕ → ℕ → RecoveryPoint → Bool
active_point id org database p =
    (p.id == id)
    && (p.organization_id == org)
    && (p.database_id == database)
    && (p.status === "active")

abbrev pub snapshot_of : Option RecoveryPoint → Result (Option String)
snapshot_of none = failed (app_error 404 "RECOVERY_POINT_NOT_FOUND")
snapshot_of (some p) = ok (some p.snapshot_identifier)

-- The snapshot that a verification is asked for.
abbrev pub snapshot_to_verify :
    Store → ℕ → CreateInput → DatabaseRow → Option ℕ → Result (Option String)
snapshot_to_verify db org input d none = ok none
snapshot_to_verify db org input d (some id) =
    if not (is_verify input.drill_kind) || not (is_aws d)
    then failed (app_error 400 "INVALID_RECOVERY_POINT_VERIFICATION")
    else snapshot_of (find (active_point id org input.database_id) db.recovery_points)

abbrev pub plan_saved : Store → ℕ → ℕ → Bool
plan_saved db org database =
    any (λ (p : OfDatabase). (p.database_id == database) && (p.organization_id == org))
      db.validation_plans

-- The guards of both ways to create a job, up to the recovery lifetime.
abbrev pub database_guards : Store → ℕ → ℕ → Result DatabaseRow
database_guards db org database = and_then (found_database (own_database database org db)) (λ d.
    and_then (assert_supported_mode d) (λ _.
      and_then (assert_drills_enabled d)
        (λ _. and_then (assert_lifetime d.recovery_max_lifetime_minutes) (λ _. ok d))))

-- The guards of `createFromSchedule` that only read.
abbrev pub schedule_guards : ℕ → Store → ℕ → ℕ → Result AwsState → Result Unit
schedule_guards now db org database answer =
    and_then (database_guards db org database)
      (λ d. and_then (assert_source (is_aws d) answer) (λ _. assert_subscription_active now db org))

-- The guards of `create` that only read, and the snapshot to verify.
abbrev pub create_guards : ℕ → Store → ℕ → CreateInput → Result AwsState → Result (Option String)
create_guards now db org input answer = and_then (database_guards db org input.database_id) (λ d.
    and_then (snapshot_to_verify db org input d input.recovery_point_id) (λ snapshot.
      and_then (ensure (plan_saved db org input.database_id) (app_error 400 "NO_VALIDATION_PLAN"))
        (λ _.
          and_then (assert_source (is_aws d && not (is_verify input.drill_kind)) answer)
            (λ _. and_then (assert_subscription_active now db org) (λ _. ok snapshot)))))

-- `db.insert(jobs)`, once there is room.
abbrev pub insert_with_room : Job → Result Unit × Store → Result Job × Store
insert_with_room job (failed e, db) = (failed e, db)
insert_with_room job (ok room, db) = (ok job, with_jobs db (db.jobs ++ (job ∷ [])))

abbrev pub schedule_with : ℕ → ℕ → Store → ℕ → ℕ → Result Unit → Result Job × Store
schedule_with now id db org database (failed e) = (failed e, db)
schedule_with now id db org database (ok done) =
    insert_with_room (new_job id now org database schedule none no_metadata)
      (assert_parallel_drills now db org)

unfoldable pub create_from_schedule : ℕ → ℕ → Store → ℕ → ℕ → Result AwsState → Result Job × Store
unfolding assert_subscription_active assert_parallel_drills
create_from_schedule now id db org database answer =
    schedule_with now id db org database (schedule_guards now db org database answer)

-- An empty snapshot identifier is stored as no metadata.
abbrev pub snapshot_metadata : Option String → Metadata
snapshot_metadata snapshot = record {
  verification_snapshot = if truthy snapshot then snapshot else none;
  runner_progress = none;
}

abbrev pub trigger_of : DrillKind → Trigger
trigger_of verify = manual
trigger_of full = full_drill

abbrev pub create_with :
    ℕ → ℕ → Store → ℕ → ℕ → CreateInput → Result (Option String) → Result Job × Store
create_with now id db org user input (failed e) = (failed e, db)
create_with now id db org user input (ok snapshot) =
    insert_with_room
      (new_job id now org input.database_id (trigger_of input.drill_kind) (some user)
        (snapshot_metadata snapshot))
      (assert_parallel_drills now db org)

unfoldable pub create : ℕ → ℕ → Store → ℕ → ℕ → CreateInput → Result AwsState → Result Job × Store
unfolding assert_subscription_active assert_parallel_drills
create now id db org user input answer =
    create_with now id db org user input (create_guards now db org input answer)
