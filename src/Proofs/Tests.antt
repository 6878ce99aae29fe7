-- ===== src/Proofs/Tests.antt =====
-- Proofs and snapshots of Redis on a small store.
use revenant_cloud.Base.{
  ℕ, ◌-◌, ◌≡◌, refl, String, Bool, true, false, none, some, List, [], ◌∷◌, All, map, inl, arith,
}
use revenant_cloud.Store.{ok, failed, app_error}
use revenant_cloud.Proofs.{
  failed_attempt, gzip, capturing, ProofStatus, pending, pass, Resource, Snapshot, Measured, Proof,
  ProofStore, Setting, start_redis_proof,
}
use revenant_cloud.Proofs.Completion.{Completion, complete_redis_proof}
use revenant_cloud.Proofs.Queue.{
  cloud, ClaimOptions, take_claim, proof_claim, release_proof, reclaim_stale,
}
use revenant_cloud.Proofs.Expiry.{sweep_expired, read_artifact, get_artifact}
use revenant_cloud.Proofs.Served.{IsServed, reclaim_stale-IsServed}
use revenant_cloud.Proofs.Leaks.{sweeps, complete_redis_proof-leaks}
use revenant_cloud.Proofs.Sweeping.{IsInTime, sweep_expired-IsInTime}
use revenant_cloud.Proofs.Stored.{read_artifact-complete_redis_proof, take_claim-twice}

abbrev setting : Setting
setting = record {
  now = 10000000;
  month_start = 0;
  day = "1970-01-01";
  new_proof = 5;
  new_snapshot = 6;
  compression = gzip;
  encode = λ c bytes. 31 ∷ bytes;
  decode = λ c bytes. elim bytes [ [] ↦ [] | b ∷ rest ↦ rest ];
  sha256 = λ bytes. "sum";
  decrypt = λ text. some text;
  puts = λ key. ok tt;
  deletes = λ key. ok tt;
  claim_stale_ms = 1800000;
  queue_timeout_ms = 1800000;
}

abbrev resource : Resource
resource = record {
  id = 2;
  organization_id = 1;
  name = "cache";
  snapshot_enabled = "true";
  snapshot_retention_hours = some 1;
  ciphertext = "redis://cache";
  last_verified_at = none;
  last_verification_status = "never";
  engine_version = none;
  last_restore_proof_seconds = none;
  last_rpo_observed_seconds = none;
}

abbrev empty : ProofStore
empty = record { resources = resource ∷ []; snapshots = []; proofs = []; artifacts = [] }

abbrev slot : Snapshot
slot = record {
  id = 6;
  organization_id = 1;
  redis_resource_id = 2;
  status = capturing;
  byte_size = none;
  checksum_sha256 = none;
  compression = gzip;
  storage_key = some "redis/1/2/1970-01-01/6.rdb.gz";
  expires_at = 13600000;
  deleted_at = none;
  last_verified_at = none;
  last_verification_status = "never";
  error_message = none;
  created_at = 10000000;
  updated_at = 10000000;
}

abbrev waiting : Proof
waiting = record {
  id = 5;
  organization_id = 1;
  redis_resource_id = 2;
  snapshot_id = some 6;
  triggered_by_user_id = none;
  status = pending;
  attempts = 0;
  claimed_by = none;
  last_error = none;
  last_error_kind = none;
  next_attempt_at = none;
  measured = none;
  rdb_bytes = none;
  error_message = none;
  started_at = none;
  completed_at = none;
  created_at = 10000000;
  updated_at = 10000000;
}

abbrev opened : ProofStore
opened = record empty { snapshots = slot ∷ []; proofs = waiting ∷ [] }

abbrev measured : Bool → Measured
measured restored = record {
  restored = restored;
  source_key_count = some 3;
  restored_key_count = some 3;
  restore_seconds = some 1;
  rpo_observed_seconds = none;
  rdb_last_bgsave_status = none;
  version = none;
}

abbrev completion : Bool → Completion
completion restored = record {
  measured = measured restored;
  rdb = some (82 ∷ 69 ∷ []);
  error_message = none;
  verdict = none;
}

abbrev key : String
key = "redis/1/2/1970-01-01/6.rdb.gz"

abbrev late : ℕ → Setting
late now = record setting { now = now }

abbrev claim_options : ClaimOptions
claim_options = record { mode = cloud; worker_id = some "cloud:a"; max_in_flight = 2 }

abbrev statuses : ProofStore → List ProofStatus
statuses db = map (λ (p : Proof). p.status) db.proofs

-- The slot's key and deadline come with the proof, and the proof is claimed once.
started : (start_redis_proof setting 1 2 none 24 empty).0 ≡ ok 5
unfolding start_redis_proof
started = refl

-- A proof that came in after its snapshot expired is stored for ever and cannot be read.
leak :
    let swept = (sweep_expired (late 20000000) 200 opened).1 in
    let done = (complete_redis_proof setting 1 5 (some 6) (some key) (completion true) swept).1 in
    (get_artifact key (sweep_expired (late 90000000) 200 done).1 ≡ ok (31 ∷ 82 ∷ 69 ∷ []))
    × (read_artifact setting 1 6 done ≡ failed (app_error 404 "NOT_FOUND"))
unfolding sweep_expired complete_redis_proof read_artifact
leak = (refl, refl)

-- A late release opens a proof again that is over.
reopened :
    let done = (complete_redis_proof setting 1 5 none none (completion true) opened).1 in
    (statuses done ≡ pass ∷ [])
    × (statuses (release_proof 10000001 5 "late" failed_attempt none done) ≡ pending ∷ [])
unfolding complete_redis_proof release_proof
reopened = (refl, refl)

reclaim_stale-IsServed_example :
    All
      (IsServed (20000000 - 1800000) (20000000 - 1800000))
      (reclaim_stale (late 20000000) opened).1.proofs
reclaim_stale-IsServed_example = reclaim_stale-IsServed (late 20000000) opened (refl, tt)

complete_redis_proof-leaks_example :
    get_artifact key (
      sweeps
        ((late 20000000, 200) ∷ (late 90000000, 200) ∷ [])
        (complete_redis_proof setting 1 5 (some 6) (some key) (completion false) opened).1)
    ≡ ok (31 ∷ 82 ∷ 69 ∷ [])
complete_redis_proof-leaks_example =
    complete_redis_proof-leaks setting 1 5 6 key 82 (69 ∷ []) (completion false)
      ((late 20000000, 200) ∷ (late 90000000, 200) ∷ []) opened refl refl refl
      (((λ e. refl), (λ e. inl refl)), tt)

sweep_expired-IsInTime_example :
    All (IsInTime 20000000) (sweep_expired (late 20000000) 200 opened).1.snapshots
sweep_expired-IsInTime_example =
    sweep_expired-IsInTime (late 20000000) 200 opened (λ k. refl) (omega arith)

read_artifact-complete_redis_proof_example :
    read_artifact
      (late 12000000)
      1
      6
      (complete_redis_proof setting 1 5 (some 6) (some key) (completion true) opened).1
    ≡ ok (82 ∷ 69 ∷ [], "sum")
read_artifact-complete_redis_proof_example =
    read_artifact-complete_redis_proof setting 1 5 6 key 82 (69 ∷ []) 12000000 (completion true)
      slot opened refl refl refl refl refl refl (omega arith) refl

take_claim-twice_example :
    let (first, after) = take_claim setting (some "cloud:a") (some waiting) opened in
    let (second, last) = take_claim setting (some "agent:b") (some waiting) after in
    (first ≡ some (proof_claim opened resource waiting "redis://cache")) × (second ≡ first)
take_claim-twice_example =
    take_claim-twice setting setting (some "cloud:a") (some "agent:b") waiting resource
      "redis://cache" opened refl refl refl
