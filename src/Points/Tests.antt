-- ===== src/Points/Tests.antt =====
-- A discovery on a small store: of two points, the snapshot of one is gone.
use revenant_cloud.Base.{ℕ, false, ◌≡◌, refl, String, none, some, List, [], ◌∷◌, map}
use revenant_cloud.Store.{ok, failed, app_error, DatabaseRow, Store}
use revenant_cloud.Points.{
  Candidate, PointRow, PointStore, select_snapshot, list_snapshots, discover,
}
use revenant_cloud.Points.Deletion.{
  holds, not_found, IsAnswered, delete_rds_snapshot, delete_rds_snapshot-IsAnswered,
}

abbrev cluster : DatabaseRow
cluster = record {
  id = 7;
  organization_id = 1;
  engine = "postgres";
  recovery_mode = "aws-rds";
  recovery_drills_enabled = "true";
  recovery_max_lifetime_minutes = some 60;
  recovery_use_freetier = "false";
  recovery_sandbox_instance_class = none;
  recovery_cleanup_customer_snapshots = "false";
  rds_source_identifier = some "orders";
  region = some "eu-west-1";
}

abbrev account : Store
account = record {
  organizations = [];
  databases = cluster ∷ [];
  jobs = [];
  job_results = [];
  recovery_points = [];
  validation_plans = [];
  schedules = [];
  users = [];
  webhook_endpoints = [];
  redis_resources = [];
}

abbrev point : ℕ → String → PointRow
point id name = record {
  id = id;
  organization_id = 1;
  database_id = 7;
  provider = "aws-rds";
  region = some "eu-west-1";
  source_db_identifier = some "orders";
  snapshot_identifier = name;
  snapshot_arn = none;
  engine = none;
  engine_version = none;
  snapshot_created_at = none;
  snapshot_origin = "unknown";
  status = "active";
  last_verified_at = some 50;
  last_verification_status = "never";
  last_verification_job_id = none;
  updated_at = 0;
}

abbrev snapshot : String → ℕ → String → Candidate
snapshot name at status = record {
  identifier = some name;
  arn = none;
  create_time = some at;
  status = some status;
  engine = none;
  engine_version = none;
}

abbrev before : PointStore
before = record {
  points = point 1 "kept" ∷ point 2 "gone" ∷ point 3 "latest-verified-2026-01-01" ∷ [];
  main = account;
}

abbrev listing : List Candidate
listing =
    snapshot "kept" 40 "available"
    ∷ snapshot "new" 60 "available"
    ∷ snapshot "late" 70 "creating"
    ∷ []

abbrev id_of : String → ℕ
id_of name = 4

abbrev statuses : List PointRow → List String
statuses points = map (λ (p : PointRow). p.status) points

found_points :
    statuses (discover 99 1 7 id_of (ok tt) (ok listing) before).1.points
    ≡ "active" ∷ "deleted" ∷ "active" ∷ "active" ∷ []
unfolding discover
found_points = refl

-- The snapshot of a verification is the last that was there when it started.
selected :
    (select_snapshot listing 65 ≡ some (snapshot "new" 60 "available"))
    × ((select_snapshot listing 39 ≡ none)
        × (select_snapshot (list_snapshots [] (snapshot "new" 20 "available" ∷ listing)) 50
            ≡ some (snapshot "kept" 40 "available")))
selected = (refl, (refl, refl))

refused :
    (discover 99 1 7 id_of (ok tt) (failed (app_error 403 "AccessDenied")) before).0
    ≡ failed (app_error 502 "AWS_SNAPSHOT_DISCOVERY_FAILED")
unfolding discover
refused = refl

-- A manual snapshot is deleted, an automated one is kept, and one of the old form is refused.
deleted :
    (statuses (delete_rds_snapshot 99 1 2 (ok tt) (holds (some "manual")) (ok tt) before).1.points
      ≡ "active" ∷ "deleted" ∷ "active" ∷ [])
    × (((delete_rds_snapshot 99 1 2 (ok tt) (holds (some "automated")) (ok tt) before).0 ≡ ok false)
        × ((delete_rds_snapshot 99 1 3 (ok tt) not_found (ok tt) before).0
            ≡ failed (app_error 409 "SNAPSHOT_IDENTIFIER_REQUIRED")))
unfolding delete_rds_snapshot
deleted = (refl, (refl, refl))

delete_rds_snapshot-IsAnswered_example :
    IsAnswered 99 2
      (holds (some "manual"))
      (ok tt)
      before
      (delete_rds_snapshot 99 1 2 (ok tt) (holds (some "manual")) (ok tt) before)
delete_rds_snapshot-IsAnswered_example =
    delete_rds_snapshot-IsAnswered 99 1 2 (ok tt) (holds (some "manual")) (ok tt) before
