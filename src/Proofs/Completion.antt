-- ===== src/Proofs/Completion.antt =====
-- The completion of a proof: `completeRedisProof` and `completeRedisProofRun`
-- (apps/api/src/services/redis-snapshots.service.ts).
use revenant_cloud.Base.{
  ℕ, ◌*◌, String, Bool, true, not, ◌&&◌, Option, none, some, get_or, List, ◌∷◌, length, find, ltb,
  ◌==◌, ◌===◌, if◌then◌else◌, truthy,
}
use revenant_cloud.Store.{Result, ok, failed, app_error, update_where}
use revenant_cloud.Proofs.{
  stored, failed_capture, ProofStatus, pass, fail, error, Resource, Snapshot, Measured, Proof,
  ProofStore, Setting, put_artifact, delete_artifact, artifact_key, set_snapshots, set_proofs,
}

-- The terminal state that an executor names.
pub data Verdict : Type 0 where
  passes fails errors : Verdict

abbrev pub verdict_status : Verdict → ProofStatus
verdict_status passes = pass
verdict_status fails = fail
verdict_status errors = error

pub record Completion : Type 0 where
  pub measured : Measured
  pub rdb : Option (List ℕ)
  pub error_message : Option String
  pub verdict : Option Verdict

-- The status that a proof is closed_row with.
abbrev pub closing_status : Completion → ProofStatus
closing_status input = elim input.verdict [
  | some verdict ↦ verdict_status verdict
  | none ↦
      if truthy input.error_message then error else if input.measured.restored then pass else fail
]

abbrev pub own_snapshot : ℕ → ℕ → Snapshot → Bool
own_snapshot id org s = (s.id == id) && (s.organization_id == org)

abbrev pub verified_word : Bool → String
verified_word restored = if restored then "verified" else "failed"

abbrev pub verified_time : Bool → ℕ → Option ℕ
verified_time restored now = if restored then some now else none

-- The row of a snapshot whose bytes were put under its key.
abbrev pub filled : Setting → Completion → String → List ℕ → Snapshot → Snapshot
filled ctx input key encoded s =
    let restored = input.measured.restored in
    record s {
      status = (if restored then stored else failed_capture);
      byte_size = some (length encoded);
      checksum_sha256 = some (ctx.sha256 encoded);
      storage_key = some key;
      compression = ctx.compression;
      last_verification_status = verified_word restored;
      last_verified_at = verified_time restored ctx.now;
      error_message = input.error_message;
      updated_at = ctx.now;
    }

-- The row of a snapshot whose bytes could not be put; the error's code stands for its message.
abbrev pub dropped : ℕ → String → Snapshot → Snapshot
dropped now text s = record s {
  status = failed_capture;
  storage_key = none;
  error_message = some text;
  updated_at = now;
}

-- The row of a snapshot for which no bytes came.
abbrev pub unfilled : ℕ → Completion → Snapshot → Snapshot
unfilled now input s = record s {
  status = failed_capture;
  storage_key = none;
  last_verification_status = verified_word input.measured.restored;
  last_verified_at = verified_time input.measured.restored now;
  error_message =
      some (get_or input.error_message "Restore proof produced no RDB artifact to store");
  updated_at = now;
}

-- The deletion of what a failed `put` may have left; its own failure is ignored.
abbrev pub deleted_if : Result Unit → String → ProofStore → ProofStore
deleted_if (ok done) key db = delete_artifact key db
deleted_if (failed e) key db = db

abbrev pub try_delete : Setting → String → ProofStore → ProofStore
try_delete ctx key db = deleted_if (ctx.deletes key) key db

abbrev pub store_on :
    Setting
    → ℕ
    → ℕ
    → String
    → List ℕ
    → Completion
    → Result Unit
    → ProofStore
    → Result Unit × ProofStore
store_on ctx org snapshot key encoded input (ok done) db = (
  ok tt,
  set_snapshots (own_snapshot snapshot org) (filled ctx input key encoded)
      (put_artifact key encoded db),
)
store_on ctx org snapshot key encoded input (failed e) db = (
  failed e,
  set_snapshots (own_snapshot snapshot org) (dropped ctx.now e.code) (try_delete ctx key db),
)

-- The snapshot's part of `completeRedisProof`, by its identifier, its key and the bytes that came.
abbrev pub store_snapshot :
    Setting
    → ℕ
    → Option ℕ
    → Option String
    → Option (List ℕ)
    → Completion
    → ProofStore
    → Result Unit × ProofStore
store_snapshot ctx org none key rdb input db = (ok tt, db)
store_snapshot ctx org (some snapshot) (some key) (some (b ∷ bytes)) input db =
    if key === ""
    then (ok tt, set_snapshots (own_snapshot snapshot org) (unfilled ctx.now input) db)
    else store_on ctx org snapshot key (ctx.encode ctx.compression (b ∷ bytes)) input (ctx.puts key)
        db
store_snapshot ctx org (some snapshot) key rdb input db =
    (ok tt, set_snapshots (own_snapshot snapshot org) (unfilled ctx.now input) db)

abbrev pub size_of : Option (List ℕ) → Option ℕ
size_of none = none
size_of (some bytes) = some (length bytes)

abbrev pub closed_row : Setting → Completion → Proof → Proof
closed_row ctx input p = record p {
  status = closing_status input;
  measured = some input.measured;
  rdb_bytes = size_of input.rdb;
  error_message = input.error_message;
  completed_at = some ctx.now;
  last_error = none;
  last_error_kind = none;
  next_attempt_at = none;
  updated_at = ctx.now;
}

abbrev pub own_proof : ℕ → ℕ → Proof → Bool
own_proof id org p = (p.id == id) && (p.organization_id == org)

abbrev pub close_on :
    Setting → ℕ → ℕ → Completion → Result Unit × ProofStore → Result Unit × ProofStore
close_on ctx org proof input (ok done, db) =
    (ok tt, set_proofs (own_proof proof org) (closed_row ctx input) db)
close_on ctx org proof input (failed e, db) = (failed e, db)

-- `completeRedisProof`
unfoldable pub complete_redis_proof :
    Setting → ℕ → ℕ → Option ℕ → Option String → Completion → ProofStore → Result Unit × ProofStore
complete_redis_proof ctx org proof snapshot key input db =
    close_on ctx org proof input (store_snapshot ctx org snapshot key input.rdb input db)

abbrev pub max_rdb_bytes : ℕ
max_rdb_bytes = 2 * 1024 * 1024 * 1024

abbrev pub small_enough : Option (List ℕ) → Bool
small_enough none = true
small_enough (some bytes) = not (ltb max_rdb_bytes (length bytes))

abbrev pub key_in : Option Snapshot → Option String
key_in none = none
key_in (some s) = s.storage_key

abbrev pub key_or : Option String → String → String
key_or none key = key
key_or (some k) key = k

abbrev pub stored_key : ProofStore → Option ℕ → Option String
stored_key db none = none
stored_key db (some snapshot) = key_in (find (λ s. s.id == snapshot) db.snapshots)

-- The key to store under: that of the row, or a new one; none where no bytes came.
abbrev pub chosen_key : Setting → ℕ → Proof → Option (List ℕ) → ProofStore → Option String
chosen_key ctx org p none db = none
chosen_key ctx org p (some bytes) db = some (
    key_or (stored_key db p.snapshot_id)
      (artifact_key ctx org p.redis_resource_id (get_or p.snapshot_id 0)))

abbrev pub verified_resource : Setting → Completion → Resource → Resource
verified_resource ctx input r = record r {
  last_verified_at = some ctx.now;
  last_verification_status =
      (if truthy input.error_message then "failed" else verified_word input.measured.restored);
  engine_version = input.measured.version;
  last_restore_proof_seconds = input.measured.restore_seconds;
  last_rpo_observed_seconds = input.measured.rpo_observed_seconds;
}

abbrev pub verify_resource :
    Setting → ℕ → ℕ → Completion → Result Unit × ProofStore → Result Unit × ProofStore
verify_resource ctx org resource input (failed e, db) = (failed e, db)
verify_resource ctx org resource input (ok done, db) = (
  ok tt,
  record db {
    resources =
        update_where (λ r. (r.id == resource) && (r.organization_id == org))
          (verified_resource ctx input) db.resources;
  },
)

-- No bytes at all count as none.
abbrev pub with_bytes : Option (List ℕ) → Option (List ℕ)
with_bytes (some (b ∷ bytes)) = some (b ∷ bytes)
with_bytes _ = none

abbrev pub received : Completion → Completion
received input = record input { rdb = with_bytes input.rdb }

abbrev pub run_on : Setting → ℕ → Completion → Option Proof → ProofStore → Result Unit × ProofStore
run_on ctx org input none db = (failed (app_error 404 "NOT_FOUND"), db)
run_on ctx org input (some p) db =
    if not (small_enough input.rdb)
    then (failed (app_error 413 "SNAPSHOT_TOO_LARGE"), db)
    else verify_resource ctx org p.redis_resource_id input (
        complete_redis_proof ctx org p.id p.snapshot_id (chosen_key ctx org p input.rdb db) input
          db)

-- `completeRedisProofRun`; bytes in base 64 are those that they decode to.
unfoldable pub complete_redis_proof_run :
    Setting → ℕ → ℕ → Completion → ProofStore → Result Unit × ProofStore
complete_redis_proof_run ctx org proof input db =
    run_on ctx org (received input) (find (own_proof proof org) db.proofs) db
