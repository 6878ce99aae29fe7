-- ===== src/Proofs/Queue.antt =====
-- The queue of proofs: `claimNextRedisProof`, `releaseRedisProof` and `reclaimStaleRedisProofs`
-- (apps/api/src/services/redis-snapshots.service.ts), and what the worker does with an attempt
-- (apps/api/src/scheduler/redis-proof-worker.ts). The select of a claim and its update are two
-- statements outside a transaction.
use revenant_cloud.Base.{
  ℕ, ◌+◌, ◌-◌, String, Bool, true, false, not, ◌&&◌, Option, none, some, get_or, List, [], ◌∷◌,
  filter, find, count, leb, ltb, ◌==◌, ◌===◌, if◌then◌else◌, is_some,
}
use revenant_cloud.Store.{Result, ok, failed}
use revenant_cloud.Proofs.{
  ProofStatus, pending, running, error, ErrorKind, unreachable, failed_attempt, Resource, Measured,
  Proof, ProofStore, Setting, set_proofs,
}
use revenant_cloud.Proofs.Completion.{
  Completion, Verdict, passes, fails, errors, key_in, complete_redis_proof_run,
}

pub data ExecutorMode : Type 0 where
  cloud agent : ExecutorMode

pub record ClaimOptions : Type 0 where
  pub mode : ExecutorMode
  pub worker_id : Option String
  pub max_in_flight : ℕ

pub record ProofClaim : Type 0 where
  pub proof_id : ℕ
  pub organization_id : ℕ
  pub redis_resource_id : ℕ
  pub snapshot_id : Option ℕ
  pub storage_key : Option String
  pub capture_rdb : Bool
  pub redis_url : String

abbrev pub is_queued : ProofStatus → Bool
is_queued pending = true
is_queued _ = false

abbrev pub is_in_flight : ProofStatus → Bool
is_in_flight running = true
is_in_flight _ = false

abbrev pub is_unreachable : Option ErrorKind → Bool
is_unreachable (some unreachable) = true
is_unreachable _ = false

abbrev pub is_due : ℕ → Option ℕ → Bool
is_due now none = true
is_due now (some next) = leb next now

-- What the cloud's own worker leaves alone.
abbrev pub cloud_filters : ExecutorMode → ℕ → Proof → Bool
cloud_filters cloud now p = is_due now p.next_attempt_at && not (is_unreachable p.last_error_kind)
cloud_filters agent now p = true

abbrev pub resource_of : ProofStore → Proof → Option Resource
resource_of db p = find (λ r. r.id == p.redis_resource_id) db.resources

abbrev pub claimable_proof : Setting → ExecutorMode → ProofStore → Proof → Bool
claimable_proof ctx mode db p =
    is_queued p.status && cloud_filters mode ctx.now p && is_some (resource_of db p)

-- `order by created_at limit 1`; of equal times the row inserted first.
abbrev pub older : Proof → Option Proof → Option Proof
older p none = some p
older p (some q) = if leb p.created_at q.created_at then some p else some q

abbrev pub oldest_proof : List Proof → Option Proof
oldest_proof [] = none
oldest_proof (p ∷ ps) = older p (oldest_proof ps)

-- The select of a claim; locks end with the statement.
unfoldable pub select_claim : Setting → ExecutorMode → ProofStore → Option Proof
select_claim ctx mode db = oldest_proof (filter (claimable_proof ctx mode db) db.proofs)

abbrev pub claimed_proof : ℕ → Option String → Proof → Proof
claimed_proof now worker p = record p {
  status = running;
  started_at = some now;
  updated_at = now;
  attempts = p.attempts + 1;
  claimed_by = worker;
}

abbrev pub undecryptable : ℕ → Proof → Proof
undecryptable now p = record p {
  status = error;
  error_message = some "Stored Redis credentials could not be decrypted with MASTER_KEY";
  completed_at = some now;
  updated_at = now;
}

abbrev pub captures : Resource → Proof → Bool
captures r p = r.snapshot_enabled === "true" && is_some p.snapshot_id

abbrev pub snapshot_key : ProofStore → Option ℕ → Option String
snapshot_key db none = none
snapshot_key db (some id) = key_in (find (λ s. s.id == id) db.snapshots)

abbrev pub proof_claim : ProofStore → Resource → Proof → String → ProofClaim
proof_claim db r p url = record {
  proof_id = p.id;
  organization_id = p.organization_id;
  redis_resource_id = p.redis_resource_id;
  snapshot_id = (if captures r p then p.snapshot_id else none);
  storage_key = (if captures r p then snapshot_key db p.snapshot_id else none);
  capture_rdb = captures r p;
  redis_url = url;
}

abbrev pub has_proof_id : ℕ → Proof → Bool
has_proof_id id p = p.id == id

abbrev pub decrypted :
    Setting → Resource → Proof → Option String → ProofStore → Option ProofClaim × ProofStore
decrypted ctx r p (some url) db = (some (proof_claim db r p url), db)
decrypted ctx r p none db = (none, set_proofs (has_proof_id p.id) (undecryptable ctx.now) db)

abbrev pub hand_out :
    Setting → Option String → Proof → Option Resource → ProofStore → Option ProofClaim × ProofStore
hand_out ctx worker p none db = (none, db)
hand_out ctx worker p (some r) db =
    decrypted ctx r p (ctx.decrypt r.ciphertext)
      (set_proofs (has_proof_id p.id) (claimed_proof ctx.now worker) db)

-- The update of a claim, for the row that the select returned.
unfoldable pub take_claim :
    Setting → Option String → Option Proof → ProofStore → Option ProofClaim × ProofStore
take_claim ctx worker none db = (none, db)
take_claim ctx worker (some p) db = hand_out ctx worker p (resource_of db p) db

abbrev pub in_flight : ProofStore → ℕ
in_flight db = count (λ p. is_in_flight p.status) db.proofs

-- The cap on proofs that run at once; 0 is no cap.
abbrev pub queue_full : ℕ → ProofStore → Bool
queue_full limit db = ltb 0 limit && leb limit (in_flight db)

-- `claimNextRedisProof`
unfoldable pub claim_next_proof :
    Setting → ClaimOptions → ProofStore → Option ProofClaim × ProofStore
unfolding select_claim take_claim
claim_next_proof ctx options db =
    if queue_full options.max_in_flight db
    then (none, db)
    else take_claim ctx options.worker_id (select_claim ctx options.mode db) db

abbrev pub released : ℕ → String → ErrorKind → Option ℕ → Proof → Proof
released now text kind next p = record p {
  status = pending;
  started_at = none;
  completed_at = none;
  claimed_by = none;
  last_error = some text;
  last_error_kind = some kind;
  next_attempt_at = next;
  updated_at = now;
}

-- `releaseRedisProof`
unfoldable pub release_proof : ℕ → ℕ → String → ErrorKind → Option ℕ → ProofStore → ProofStore
release_proof now id text kind next = set_proofs (has_proof_id id) (released now text kind next)

abbrev pub before : ℕ → Option ℕ → Bool
before cutoff none = false
before cutoff (some at) = ltb at cutoff

-- A proof whose executor has been silent for too long.
abbrev pub abandoned : ℕ → Proof → Bool
abandoned cutoff p = is_in_flight p.status && before cutoff p.started_at

abbrev pub requeued : ℕ → Proof → Proof
requeued now p = record p {
  status = pending;
  started_at = none;
  claimed_by = none;
  updated_at = now;
}

abbrev pub out_of_reach : ℕ → Proof → Bool
out_of_reach cutoff p =
    is_queued p.status && is_unreachable p.last_error_kind && ltb p.updated_at cutoff

abbrev pub unclaimed : ℕ → Proof → Bool
unclaimed cutoff p =
    is_queued p.status && not (is_some p.last_error_kind) && ltb p.updated_at cutoff

abbrev pub given_up : ℕ → String → Proof → Proof
given_up now text p = record p {
  status = error;
  error_message = some text;
  completed_at = some now;
  updated_at = now;
}

-- `reclaimStaleRedisProofs`: how many rows it changed, and the store then.
unfoldable pub reclaim_stale : Setting → ProofStore → ℕ × ProofStore
reclaim_stale ctx db =
    let stale = ctx.now - ctx.claim_stale_ms in
    let cutoff = ctx.now - ctx.queue_timeout_ms in
    let first = set_proofs (abandoned stale) (requeued ctx.now) db in
    let second = set_proofs (out_of_reach cutoff) (given_up ctx.now "unreachable") first in
    (
      count (abandoned stale) db.proofs
          + count (out_of_reach cutoff) first.proofs
          + count (unclaimed cutoff) second.proofs,
      set_proofs (unclaimed cutoff) (given_up ctx.now "unclaimed") second,
    )

-- The outcome of the sandbox.
pub data SandboxOutcome : Type 0 where
  restored_outcome failed_outcome error_outcome unreachable_outcome : SandboxOutcome

pub record SandboxResult : Type 0 where
  pub outcome : SandboxOutcome
  pub messages : List String
  pub measured : Measured
  pub rdb : Option (List ℕ)

pub data Disposition : Type 0 where
  complete_run release_run : Disposition

-- `decideProofDisposition`
unfoldable pub decide_disposition : SandboxResult → Disposition
decide_disposition result = elim result.outcome [
  | unreachable_outcome ↦ release_run
  | _ ↦ complete_run
]

abbrev pub verdict_of : SandboxOutcome → Verdict
verdict_of restored_outcome = passes
verdict_of failed_outcome = fails
verdict_of _ = errors

abbrev pub first_message : List String → Option String
first_message [] = none
first_message (text ∷ rest) = some text

abbrev pub retry_ms : ℕ
retry_ms = 300000

abbrev pub completion_of : SandboxResult → Completion
completion_of result = record {
  measured = result.measured;
  rdb = result.rdb;
  error_message = (if result.measured.restored then none else first_message result.messages);
  verdict = some (verdict_of result.outcome);
}

abbrev pub dispose :
    Setting → ProofClaim → SandboxResult → Disposition → ProofStore → Result Unit × ProofStore
dispose ctx claim result release_run db = (
  ok tt,
  release_proof ctx.now claim.proof_id
      (get_or (first_message result.messages)
        "Revenant's cloud runner could not reach this Redis from the cloud.")
      unreachable (some (ctx.now + retry_ms)) db,
)
dispose ctx claim result complete_run db =
    complete_redis_proof_run ctx claim.organization_id claim.proof_id (completion_of result) db

-- `executeRedisProofClaim`, for what the sandbox answered.
unfoldable pub execute_claim :
    Setting → ProofClaim → SandboxResult → ProofStore → Result Unit × ProofStore
execute_claim ctx claim result db = dispose ctx claim result (decide_disposition result) db

abbrev pub recovered : Setting → ProofClaim → Result Unit × ProofStore → ProofStore
recovered ctx claim (ok done, db) = db
recovered ctx claim (failed e, db) =
    release_proof ctx.now claim.proof_id e.code failed_attempt (some (ctx.now + retry_ms)) db

-- `runOne` of the worker: a thrown attempt is released; the error's code stands for its message.
unfoldable pub run_one : Setting → ProofClaim → SandboxResult → ProofStore → ProofStore
run_one ctx claim result db = recovered ctx claim (execute_claim ctx claim result db)
