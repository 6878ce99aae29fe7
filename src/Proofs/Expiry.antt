-- ===== src/Proofs/Expiry.antt =====
-- The end of a snapshot and the reading of its bytes: `deleteRedisSnapshot`,
-- `sweepExpiredRedisSnapshots` and `readRedisArtifact`
-- (apps/api/src/services/redis-snapshots.service.ts).
use revenant_cloud.Base.{
  ℕ, ◌+◌, String, Bool, true, false, not, ◌&&◌, ◌||◌, Option, none, some, get_or, List, [], ◌∷◌,
  ◌++◌, filter, find, take, length, ltb, ◌==◌, ◌===◌, if◌then◌else◌, is_some,
}
use revenant_cloud.Store.{Result, ok, failed, and_then, app_error, ensure}
use revenant_cloud.Proofs.{
  SnapshotStatus, capturing, stored, expired, deleted, Snapshot, Artifact, ProofStore, Setting,
  delete_artifact, set_snapshots,
}
use revenant_cloud.Proofs.Completion.{own_snapshot, try_delete}

abbrev pub removed : ℕ → Snapshot → Snapshot
removed now s = record s {
  status = deleted;
  deleted_at = some now;
  storage_key = none;
  updated_at = now;
}

abbrev pub delete_key : Setting → Option String → ProofStore → ProofStore
delete_key ctx none db = db
delete_key ctx (some key) db = if key === "" then db else try_delete ctx key db

abbrev pub delete_on : Setting → ℕ → ℕ → Option Snapshot → ProofStore → Result Unit × ProofStore
delete_on ctx org id none db = (failed (app_error 404 "NOT_FOUND"), db)
delete_on ctx org id (some s) db =
    (ok tt, set_snapshots (own_snapshot id org) (removed ctx.now) (delete_key ctx s.storage_key db))

-- `deleteRedisSnapshot`
unfoldable pub delete_snapshot : Setting → ℕ → ℕ → ProofStore → Result Unit × ProofStore
delete_snapshot ctx org id db = delete_on ctx org id (find (own_snapshot id org) db.snapshots) db

abbrev pub is_held : SnapshotStatus → Bool
is_held capturing = true
is_held stored = true
is_held _ = false

-- What the sweep selects.
abbrev pub sweepable : ℕ → Snapshot → Bool
sweepable now s = ltb s.expires_at now && not (is_some s.deleted_at) && is_held s.status

abbrev pub undeleted_id : ℕ → Snapshot → Bool
undeleted_id id s = (s.id == id) && not (is_some s.deleted_at)

abbrev pub swept : ℕ → Snapshot → Snapshot
swept now s = record s {
  status = expired;
  deleted_at = some now;
  storage_key = none;
  updated_at = now;
}

pub record SweepResult : Type 0 where
  pub scanned : ℕ
  pub deleted_count : ℕ
  pub bytes_reclaimed : ℕ
  pub errors : List String

abbrev pub expire : ℕ → ℕ → SweepResult × ProofStore → SweepResult × ProofStore
expire now id (result, db) = (
  record result { deleted_count = result.deleted_count + 1 },
  set_snapshots (undeleted_id id) (swept now) db,
)

abbrev pub reclaimed : Snapshot → SweepResult → SweepResult
reclaimed s result = record result {
  bytes_reclaimed = result.bytes_reclaimed + get_or s.byte_size 0;
}

abbrev pub sweep_deleted :
    ℕ → Snapshot → String → Result Unit → SweepResult × ProofStore → SweepResult × ProofStore
sweep_deleted now s key (ok done) (result, db) =
    expire now s.id (reclaimed s result, delete_artifact key db)
sweep_deleted now s key (failed e) (result, db) =
    (record result { errors = result.errors ++ e.code ∷ [] }, db)

-- One round of the loop of the sweep.
abbrev pub sweep_row :
    Setting → Snapshot → Option String → SweepResult × ProofStore → SweepResult × ProofStore
sweep_row ctx s none acc = expire ctx.now s.id acc
sweep_row ctx s (some key) acc =
    if key === ""
    then expire ctx.now s.id acc
    else sweep_deleted ctx.now s key (ctx.deletes key) acc

abbrev pub sweep_rows :
    Setting → List Snapshot → SweepResult × ProofStore → SweepResult × ProofStore
sweep_rows ctx [] acc = acc
sweep_rows ctx (s ∷ rows) acc = sweep_rows ctx rows (sweep_row ctx s s.storage_key acc)

-- `sweepExpiredRedisSnapshots`
unfoldable pub sweep_expired : Setting → ℕ → ProofStore → SweepResult × ProofStore
sweep_expired ctx batch db =
    let rows = take batch (filter (sweepable ctx.now) db.snapshots) in
    sweep_rows ctx rows
      (record { scanned = length rows; deleted_count = 0; bytes_reclaimed = 0; errors = [] }, db)

abbrev pub is_over : SnapshotStatus → Bool
is_over expired = true
is_over deleted = true
is_over _ = false

abbrev pub is_stored : SnapshotStatus → Bool
is_stored stored = true
is_stored _ = false

-- `get` of the artifact store.
abbrev pub bytes_in : Option Artifact → Result (List ℕ)
bytes_in none = failed (app_error 404 "ARTIFACT_NOT_FOUND")
bytes_in (some a) = ok a.bytes

abbrev pub get_artifact : String → ProofStore → Result (List ℕ)
get_artifact key db = bytes_in (find (λ a. a.key === key) db.artifacts)

abbrev pub checked : Setting → Snapshot → List ℕ → Result (List ℕ × String)
checked ctx s encoded =
    let bytes = ctx.decode s.compression encoded in
    elim s.checksum_sha256 [
      | none ↦ ok (bytes, ctx.sha256 bytes)
      | some sum ↦
          if sum === ""
          then ok (bytes, sum)
          else if ctx.sha256 encoded === sum
          then ok (bytes, sum)
          else failed (app_error 500 "ARTIFACT_CORRUPT")
    ]

abbrev pub key_present : Option String → Option String
key_present none = none
key_present (some key) = if key === "" then none else some key

abbrev pub stored_at : Snapshot → Option String
stored_at s = if is_stored s.status then key_present s.storage_key else none

abbrev pub read_key : Setting → Snapshot → Option String → ProofStore → Result (List ℕ × String)
read_key ctx s none db = failed (app_error 409 "SNAPSHOT_NOT_STORED")
read_key ctx s (some key) db =
    and_then (ensure (ltb ctx.now s.expires_at) (app_error 410 "SNAPSHOT_EXPIRED"))
      (λ _. and_then (get_artifact key db) (checked ctx s))

abbrev pub read_on : Setting → Option Snapshot → ProofStore → Result (List ℕ × String)
read_on ctx none db = failed (app_error 404 "NOT_FOUND")
read_on ctx (some s) db =
    and_then (ensure (not (is_some s.deleted_at || is_over s.status)) (app_error 404 "NOT_FOUND"))
      (λ _. read_key ctx s (stored_at s) db)

-- `readRedisArtifact`: the bytes and their checksum.
unfoldable pub read_artifact : Setting → ℕ → ℕ → ProofStore → Result (List ℕ × String)
read_artifact ctx org id db = read_on ctx (find (own_snapshot id org) db.snapshots) db

abbrev pub same_bytes : List ℕ → List ℕ → Bool
same_bytes [] [] = true
same_bytes (a ∷ s) (b ∷ t) = (a == b) && same_bytes s t
same_bytes _ _ = false

-- The bytes start with "REDIS".
abbrev pub rdb_magic : List ℕ → Bool
rdb_magic bytes = same_bytes (take 5 bytes) (82 ∷ 69 ∷ 68 ∷ 73 ∷ 83 ∷ [])

-- `readRedisSnapshotArtifact`: the bytes and their checksum.
unfoldable pub read_snapshot_artifact : Setting → ℕ → ℕ → ProofStore → Result (List ℕ × String)
read_snapshot_artifact ctx org id db = and_then (read_artifact ctx org id db) (λ (bytes, sum).
    and_then (ensure (rdb_magic bytes) (app_error 500 "ARTIFACT_CORRUPT")) (λ _. ok (bytes, sum)))
