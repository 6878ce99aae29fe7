-- ===== src/Points.antt =====
-- The recovery points of a workflow beside the snapshots that AWS has: `listSnapshots`,
-- `selectSnapshotAtVerificationTime` and `discoverAvailableRecoveryPoints` of
-- apps/api/src/services/recovery-points.service.ts. The answers of AWS are arguments.
pub mod Named
pub mod Backed
pub mod Deletion
mod Tests
use revenant_cloud.Base.{
  ℕ, ◌+◌, ◌-◌, String, Bool, true, false, not, ◌&&◌, ◌||◌, Option, none, some, get_or, List, [],
  ◌∷◌, ◌++◌, map, filter, find, any, leb, ◌==◌, ◌===◌, if◌then◌else◌, truthy, codes, starts_with,
}
use revenant_cloud.Store.{
  Result, ok, failed, and_then, app_error, ensure, Job, DatabaseRow, Store, own_database,
  update_where,
}
use revenant_cloud.Jobs.{is_aws}

-- `SnapshotCandidate`
pub record Candidate : Type 0 where
  pub identifier : Option String
  pub arn : Option String
  pub create_time : Option ℕ
  pub status : Option String
  pub engine : Option String
  pub engine_version : Option String

pub record PointRow : Type 0 where
  pub id : ℕ
  pub organization_id : ℕ
  pub database_id : ℕ
  pub provider : String
  pub region : Option String
  pub source_db_identifier : Option String
  pub snapshot_identifier : String
  pub snapshot_arn : Option String
  pub engine : Option String
  pub engine_version : Option String
  pub snapshot_created_at : Option ℕ
  pub snapshot_origin : String
  pub status : String
  pub last_verified_at : Option ℕ
  pub last_verification_status : String
  pub last_verification_job_id : Option ℕ
  pub updated_at : ℕ

pub record PointStore : Type 0 where
  pub points : List PointRow
  pub main : Store

abbrev pub called : String → Candidate → Bool
called name s = truthy s.identifier && get_or s.identifier "" === name

-- `snapshots.set`: an entry keeps its place.
abbrev pub set_snapshot : Candidate → List Candidate → List Candidate
set_snapshot s all =
    if any (called (get_or s.identifier "")) all
    then update_where (called (get_or s.identifier "")) (λ _. s) all
    else all ++ s ∷ []

-- `listSnapshots`: what the pages of both types hold, one for each identifier.
abbrev pub list_snapshots : List Candidate → List Candidate → List Candidate
list_snapshots all [] = all
list_snapshots all (s ∷ rest) =
    list_snapshots (if truthy s.identifier then set_snapshot s all else all) rest

abbrev pub is_available : Candidate → Bool
is_available s = get_or s.status "" === "available"

abbrev pub taken_by : ℕ → Option ℕ → Bool
taken_by started none = false
taken_by started (some at) = leb at started

abbrev pub eligible : ℕ → Candidate → Bool
eligible started s = is_available s && truthy s.identifier && taken_by started s.create_time

-- The first after the sort, which is stable and by `create_time` downwards.
abbrev pub newer : Candidate → Option Candidate → Candidate
newer s none = s
newer s (some other) =
    if leb (get_or other.create_time 0) (get_or s.create_time 0) then s else other

abbrev pub newest : List Candidate → Option Candidate
newest [] = none
newest (s ∷ rest) = some (newer s (newest rest))

abbrev pub select_snapshot : List Candidate → ℕ → Option Candidate
select_snapshot snapshots started = newest (filter (eligible started) snapshots)

abbrev pub is_legacy : String → Bool
is_legacy name = starts_with (codes "latest-verified-") (codes name)

abbrev pub reported : List Candidate → String → Bool
reported snapshots name = any (called name) snapshots

abbrev pub exact_missing : List Candidate → PointRow → Bool
exact_missing snapshots p =
    not (is_legacy p.snapshot_identifier) && not (reported snapshots p.snapshot_identifier)

-- `findMissingRecoveryPointIds`
abbrev pub find_missing : List PointRow → List Candidate → List ℕ
find_missing points snapshots =
    map (λ (p : PointRow). p.id) (filter (exact_missing snapshots) points)

abbrev pub started_at_of : Option Job → Option ℕ
started_at_of none = none
started_at_of (some job) = job.started_at

-- When the job that verified a point started.
abbrev pub verification_started : ℕ → List Job → Option ℕ → Option ℕ
verification_started org jobs none = none
verification_started org jobs (some id) =
    started_at_of (find (λ (j : Job). j.organization_id == org && j.id == id) jobs)

abbrev pub or_else : Option ℕ → Option ℕ → Option ℕ
or_else none b = b
or_else (some a) b = some a

abbrev pub is_nothing : Option Candidate → Bool
is_nothing none = true
is_nothing (some s) = false

abbrev pub none_selected : List Candidate → Option ℕ → Bool
none_selected snapshots none = true
none_selected snapshots (some at) = is_nothing (select_snapshot snapshots at)

abbrev pub legacy_missing : ℕ → List Job → List Candidate → PointRow → Bool
legacy_missing org jobs snapshots p =
    is_legacy p.snapshot_identifier
    && none_selected snapshots
        (or_else (verification_started org jobs p.last_verification_job_id) p.last_verified_at)

-- `findMissingLegacyRecoveryPointIds`
abbrev pub find_missing_legacy : ℕ → List Job → List PointRow → List Candidate → List ℕ
find_missing_legacy org jobs points snapshots =
    map (λ (p : PointRow). p.id) (filter (legacy_missing org jobs snapshots) points)

abbrev pub new_point : ℕ → ℕ → DatabaseRow → ℕ → Candidate → PointRow
new_point now org d id s = record {
  id = id;
  organization_id = org;
  database_id = d.id;
  provider = "aws-rds";
  region = d.region;
  source_db_identifier = d.rds_source_identifier;
  snapshot_identifier = get_or s.identifier "";
  snapshot_arn = s.arn;
  engine = some (get_or s.engine d.engine);
  engine_version = s.engine_version;
  snapshot_created_at = s.create_time;
  snapshot_origin = "unknown";
  status = "active";
  last_verified_at = none;
  last_verification_status = "never";
  last_verification_job_id = none;
  updated_at = now;
}

abbrev pub point_key : ℕ → ℕ → String → PointRow → Bool
point_key org database name p =
    p.organization_id == org && p.database_id == database && p.snapshot_identifier === name

abbrev pub refreshed : ℕ → DatabaseRow → Candidate → PointRow → PointRow
refreshed now d s p = record p {
  status = "active";
  snapshot_arn = s.arn;
  engine = some (get_or s.engine d.engine);
  engine_version = s.engine_version;
  snapshot_created_at = s.create_time;
  updated_at = now;
}

-- The insert, or the update of the row that conflicts with it.
abbrev pub upsert_point :
    ℕ → ℕ → DatabaseRow → (String → ℕ) → Candidate → List PointRow → List PointRow
upsert_point now org d new_id s points =
    let name = get_or s.identifier "" in
    if any (point_key org d.id name) points
    then update_where (point_key org d.id name) (refreshed now d s) points
    else points ++ new_point now org d (new_id name) s ∷ []

abbrev pub upsert_points :
    ℕ → ℕ → DatabaseRow → (String → ℕ) → List Candidate → List PointRow → List PointRow
upsert_points now org d new_id [] points = points
upsert_points now org d new_id (s ∷ rest) points =
    upsert_points now org d new_id rest
      (if truthy s.identifier then upsert_point now org d new_id s points else points)

abbrev pub tracked : ℕ → ℕ → PointRow → Bool
tracked org database p =
    p.organization_id == org && p.database_id == database && p.status === "active"

abbrev pub as_deleted : ℕ → PointRow → PointRow
as_deleted now p = record p { status = "deleted"; updated_at = now }

abbrev pub missing_ids : ℕ → ℕ → List Job → List Candidate → List PointRow → List ℕ
missing_ids org database jobs snapshots points =
    let mine = filter (tracked org database) points in
    find_missing mine snapshots
    ++ find_missing_legacy org jobs (filter (λ p. is_legacy p.snapshot_identifier) mine) snapshots

abbrev pub delete_points : ℕ → List ℕ → List PointRow → List PointRow
delete_points now ids points =
    update_where (λ (p : PointRow). any (λ id. id == p.id) ids) (as_deleted now) points

abbrev pub reconcile : ℕ → ℕ → DatabaseRow → (String → ℕ) → List Candidate → PointStore → PointStore
reconcile now org d new_id snapshots st =
    let points = upsert_points now org d new_id (filter is_available snapshots) st.points in
    record st {
      points = delete_points now (missing_ids org d.id st.main.jobs snapshots points) points;
    }

abbrev pub discover_with :
    ℕ
    → ℕ
    → DatabaseRow
    → (String → ℕ)
    → Result (List Candidate)
    → PointStore
    → Result Unit × PointStore
discover_with now org d new_id (failed e) st =
    (failed (app_error 502 "AWS_SNAPSHOT_DISCOVERY_FAILED"), st)
discover_with now org d new_id (ok pages) st =
    (ok tt, reconcile now org d new_id (list_snapshots [] pages) st)

-- The guards behind the first, with the credentials that were loaded.
abbrev pub discover_guards : DatabaseRow → Result Unit → Result Unit
discover_guards d credentials =
    and_then
      (ensure (truthy d.region && truthy d.rds_source_identifier)
        (app_error 409 "AWS_SOURCE_NOT_CONFIGURED"))
      (λ _. credentials)

abbrev pub discover_guarded :
    ℕ
    → ℕ
    → DatabaseRow
    → (String → ℕ)
    → Result (List Candidate)
    → Result Unit
    → PointStore
    → Result Unit × PointStore
discover_guarded now org d new_id pages (failed e) st = (failed e, st)
discover_guarded now org d new_id pages (ok u) st = discover_with now org d new_id pages st

abbrev pub discover_on :
    ℕ
    → ℕ
    → (String → ℕ)
    → Result Unit
    → Result (List Candidate)
    → Option DatabaseRow
    → PointStore
    → Result Unit × PointStore
discover_on now org new_id credentials pages none st = (ok tt, st)
discover_on now org new_id credentials pages (some d) st =
    if is_aws d
    then discover_guarded now org d new_id pages (discover_guards d credentials) st
    else (ok tt, st)

-- `discoverAvailableRecoveryPoints`
unfoldable pub discover :
    ℕ
    → ℕ
    → ℕ
    → (String → ℕ)
    → Result Unit
    → Result (List Candidate)
    → PointStore
    → Result Unit × PointStore
discover now org database new_id credentials pages st =
    discover_on now org new_id credentials pages (own_database database org st.main) st
