-- ===== src/Proofs.antt =====
-- Restore proofs of Redis and their snapshots (apps/api/src/services/redis-snapshots.service.ts): the
-- rows, the artifact store (apps/api/src/lib/artifact-store.ts) and the start of a proof. Bytes are
-- lists of numbers; whether the artifact store fails is the `Setting`'s. A resource has its
-- credential's ciphertext in its row.
pub mod Completion
pub mod Queue
pub mod Expiry
pub mod Dates
pub mod Served
pub mod Leaks
pub mod Sweeping
pub mod Stored
mod Tests
use revenant_cloud.Base.{
  ℕ, zero, suc, ◌+◌, ◌-◌, ◌*◌, ◌≡◌, max, String, Bool, true, false, not, ◌&&◌, Option, none, some,
  List, [], ◌∷◌, ◌++◌, length, find, filter, count, leb, ltb, ◌==◌, ◌===◌, if◌then◌else◌, concat,
  show,
}
use revenant_cloud.Plans.{OrganizationPlan, proofs_remaining}
use revenant_cloud.Store.{AppError, Result, ok, failed, and_then, app_error, ensure, update_where}

pub data Compression : Type 0 where
  uncompressed gzip zstd : Compression

-- `failed_capture` is the status "failed".
pub data SnapshotStatus : Type 0 where
  capturing stored expired deleted failed_capture : SnapshotStatus

pub data ProofStatus : Type 0 where
  pending running pass fail error : ProofStatus

pub data ErrorKind : Type 0 where
  unreachable auth failed_attempt : ErrorKind

pub record Resource : Type 0 where
  pub id : ℕ
  pub organization_id : ℕ
  pub name : String
  pub snapshot_enabled : String
  pub snapshot_retention_hours : Option ℕ
  pub ciphertext : String
  pub last_verified_at : Option ℕ
  pub last_verification_status : String
  pub engine_version : Option String
  pub last_restore_proof_seconds : Option ℕ
  pub last_rpo_observed_seconds : Option ℕ

pub record Snapshot : Type 0 where
  pub id : ℕ
  pub organization_id : ℕ
  pub redis_resource_id : ℕ
  pub status : SnapshotStatus
  pub byte_size : Option ℕ
  pub checksum_sha256 : Option String
  pub compression : Compression
  pub storage_key : Option String
  pub expires_at : ℕ
  pub deleted_at : Option ℕ
  pub last_verified_at : Option ℕ
  pub last_verification_status : String
  pub error_message : Option String
  pub created_at : ℕ
  pub updated_at : ℕ

-- What an executor measured; the checks and the fingerprint are left out but for its version.
pub record Measured : Type 0 where
  pub restored : Bool
  pub source_key_count : Option ℕ
  pub restored_key_count : Option ℕ
  pub restore_seconds : Option ℕ
  pub rpo_observed_seconds : Option ℕ
  pub rdb_last_bgsave_status : Option String
  pub version : Option String

pub record Proof : Type 0 where
  pub id : ℕ
  pub organization_id : ℕ
  pub redis_resource_id : ℕ
  pub snapshot_id : Option ℕ
  pub triggered_by_user_id : Option ℕ
  pub status : ProofStatus
  pub attempts : ℕ
  pub claimed_by : Option String
  pub last_error : Option String
  pub last_error_kind : Option ErrorKind
  pub next_attempt_at : Option ℕ
  pub measured : Option Measured
  pub rdb_bytes : Option ℕ
  pub error_message : Option String
  pub started_at : Option ℕ
  pub completed_at : Option ℕ
  pub created_at : ℕ
  pub updated_at : ℕ

pub record Artifact : Type 0 where
  pub key : String
  pub bytes : List ℕ

pub record ProofStore : Type 0 where
  pub resources : List Resource
  pub snapshots : List Snapshot
  pub proofs : List Proof
  pub artifacts : List Artifact

pub record Setting : Type 0 where
  pub now : ℕ
  -- The first instant of the month of `now`, and its day as `YYYY-MM-DD`, both in UTC.
  pub month_start : ℕ
  pub day : String
  pub new_proof : ℕ
  pub new_snapshot : ℕ
  pub compression : Compression
  pub encode : Compression → List ℕ → List ℕ
  pub decode : Compression → List ℕ → List ℕ
  pub sha256 : List ℕ → String
  pub decrypt : String → Option String
  pub puts : String → Result Unit
  pub deletes : String → Result Unit
  pub claim_stale_ms : ℕ
  pub queue_timeout_ms : ℕ

-- `put` and `delete` of the artifact store, where they succeed.
abbrev pub without_key : String → List Artifact → List Artifact
without_key key = filter (λ a. not (a.key === key))

abbrev pub put_artifact : String → List ℕ → ProofStore → ProofStore
put_artifact key bytes db = record db {
  artifacts = record { key = key; bytes = bytes } ∷ without_key key db.artifacts;
}

abbrev pub delete_artifact : String → ProofStore → ProofStore
delete_artifact key db = record db { artifacts = without_key key db.artifacts }

-- `artifactExtension`
abbrev pub artifact_extension : Compression → String
artifact_extension gzip = ".rdb.gz"
artifact_extension zstd = ".rdb.zst"
artifact_extension uncompressed = ".rdb"

-- `buildRedisArtifactKey`
unfoldable pub artifact_key : Setting → ℕ → ℕ → ℕ → String
artifact_key ctx org resource snapshot = concat (
    "redis/"
    ∷ show org
    ∷ "/"
    ∷ show resource
    ∷ "/"
    ∷ ctx.day
    ∷ "/"
    ∷ show snapshot
    ∷ artifact_extension ctx.compression
    ∷ [])

-- `countProofsThisMonth`
unfoldable pub count_proofs_this_month : Setting → ProofStore → ℕ → ℕ
count_proofs_this_month ctx db org =
    count (λ p. (p.organization_id == org) && leb ctx.month_start p.created_at) db.proofs

abbrev pub none_left : Option ℕ → Bool
none_left none = false
none_left (some left) = left == 0

-- `assertProofQuota`: how many are used.
unfoldable pub assert_proof_quota : Setting → ProofStore → ℕ → OrganizationPlan → Result ℕ
assert_proof_quota ctx db org plan =
    let used = count_proofs_this_month ctx db org in
    and_then (ensure (not (none_left (proofs_remaining plan used))) (app_error 403 "PLAN_LIMIT"))
      (λ _. ok used)

abbrev pub set_snapshots : (Snapshot → Bool) → (Snapshot → Snapshot) → ProofStore → ProofStore
set_snapshots test set db = record db { snapshots = update_where test set db.snapshots }

abbrev pub set_proofs : (Proof → Bool) → (Proof → Proof) → ProofStore → ProofStore
set_proofs test set db = record db { proofs = update_where test set db.proofs }

abbrev pub own_resource : ℕ → ℕ → ProofStore → Option Resource
own_resource id org db = find (λ r. (r.id == id) && (r.organization_id == org)) db.resources

abbrev pub queued_proof : Setting → ℕ → ℕ → Option ℕ → Proof
queued_proof ctx org resource user = record {
  id = ctx.new_proof;
  organization_id = org;
  redis_resource_id = resource;
  snapshot_id = none;
  triggered_by_user_id = user;
  status = pending;
  attempts = 0;
  claimed_by = none;
  last_error = none;
  last_error_kind = none;
  next_attempt_at = none;
  measured = none;
  rdb_bytes = none;
  error_message = none;
  started_at = none;
  completed_at = none;
  created_at = ctx.now;
  updated_at = ctx.now;
}

abbrev pub hours_or : Option ℕ → ℕ → ℕ
hours_or none retention = max 1 retention
hours_or (some hours) retention = if ltb 0 hours then hours else max 1 retention

abbrev pub new_snapshot_row : Setting → ℕ → Resource → ℕ → Snapshot
new_snapshot_row ctx org r retention = record {
  id = ctx.new_snapshot;
  organization_id = org;
  redis_resource_id = r.id;
  status = capturing;
  byte_size = none;
  checksum_sha256 = none;
  compression = uncompressed;
  storage_key = none;
  expires_at = ctx.now + hours_or r.snapshot_retention_hours retention * 60 * 60 * 1000;
  deleted_at = none;
  last_verified_at = none;
  last_verification_status = "never";
  error_message = none;
  created_at = ctx.now;
  updated_at = ctx.now;
}

abbrev pub with_key : ℕ → String → Snapshot → Snapshot
with_key now key s = record s { storage_key = some key; updated_at = now }

abbrev pub with_snapshot : ℕ → ℕ → Proof → Proof
with_snapshot now snapshot p = record p { snapshot_id = some snapshot; updated_at = now }

-- The slot for an artifact, with its deadline, its key and the proof that it belongs to.
abbrev pub open_slot : Setting → ℕ → Resource → ℕ → ProofStore → ProofStore
open_slot ctx org r retention db =
    let inserted : ProofStore = record db {
      snapshots = db.snapshots ++ new_snapshot_row ctx org r retention ∷ [];
    } in
    set_proofs (λ p. p.id == ctx.new_proof) (with_snapshot ctx.now ctx.new_snapshot)
      (set_snapshots (λ s. s.id == ctx.new_snapshot)
        (with_key ctx.now (artifact_key ctx org r.id ctx.new_snapshot)) inserted)

abbrev pub start_on :
    Setting → ℕ → Option ℕ → ℕ → Option Resource → ProofStore → Result ℕ × ProofStore
start_on ctx org user retention none db = (failed (app_error 404 "NOT_FOUND"), db)
start_on ctx org user retention (some r) db =
    let opened : ProofStore = record db {
      proofs = db.proofs ++ queued_proof ctx org r.id user ∷ [];
    } in
    (
      ok ctx.new_proof,
      (if r.snapshot_enabled === "true" then open_slot ctx org r retention opened else opened),
    )

-- `startRedisProof`: the proof's identifier.
unfoldable pub start_redis_proof :
    Setting → ℕ → ℕ → Option ℕ → ℕ → ProofStore → Result ℕ × ProofStore
start_redis_proof ctx org resource user retention db =
    start_on ctx org user retention (own_resource resource org db) db
