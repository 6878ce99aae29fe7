-- ===== src/Proofs/Dates.antt =====
-- The dates of a proof under the operations on the queue, and what the sweeper leaves.
use revenant_cloud.Base.{
  ℕ, ◌-◌, ◌≡◌, refl, inl, inr, String, Bool, true, not, Option, none, some, List, [], ◌∷◌, ◌++◌,
  All, ◌==◌, if◌then◌else◌, if-elim, find, is_some, truthy, ◌===◌, Option-cases,
}
use revenant_cloud.Store.{Result, ok, failed, update_where}
use revenant_cloud.Proofs.{
  ProofStatus, ErrorKind, pending, running, pass, fail, error, Resource, Proof, ProofStore, Setting,
  set_proofs, queued_proof, start_redis_proof, start_on, own_resource, with_snapshot, open_slot,
}
use revenant_cloud.Proofs.Completion.{
  Completion, passes, fails, errors, closed_row, own_proof, store_snapshot, store_on, deleted_if,
  close_on, chosen_key, run_on, verify_resource, small_enough, received, complete_redis_proof,
  complete_redis_proof_run,
}
use revenant_cloud.Proofs.Queue.{
  ClaimOptions, claim_next_proof, select_claim, take_claim, hand_out, decrypted, claimed_proof,
  undecryptable, release_proof, released, reclaim_stale, abandoned, requeued, out_of_reach,
  unclaimed, given_up, has_proof_id, resource_of, queue_full, SandboxResult, ProofClaim, run_one,
  execute_claim, decide_disposition, dispose, recovered, Disposition, release_run, complete_run,
  completion_of,
}

-- A pending proof has no start, a running one has, and one that is over has a completion time.
abbrev pub dated : ProofStatus → Option ℕ → Option ℕ → Bool
dated pending started completed = not (is_some started)
dated running started completed = is_some started
dated _ started completed = is_some completed

abbrev pub IsDatedProof : Proof → Type 0
IsDatedProof p = dated p.status p.started_at p.completed_at ≡ true

abbrev pub AllDated : ProofStore → Type 0
AllDated db = All IsDatedProof db.proofs

set-All :
    (test : Proof → Bool) (set : Proof → Proof)
    → ((p : Proof) → test p ≡ true → IsDatedProof p → IsDatedProof (set p))
    → (ps : List Proof) → All IsDatedProof ps
    → All IsDatedProof (update_where test set ps)
set-All test set keeps [] h = tt
set-All test set keeps (p ∷ ps) (d, h) = (
  if-elim IsDatedProof (test p) (set p) p (λ t. keeps p t d) (λ f. d),
  set-All test set keeps ps h,
)

append-All :
    (ps : List Proof) (p : Proof)
    → All IsDatedProof ps
    → IsDatedProof p
    → All IsDatedProof (ps ++ p ∷ [])
append-All [] p h d = (d, tt)
append-All (q ∷ ps) p (e, h) d = (e, append-All ps p h d)

opened-AllDated :
    (ctx : Setting) (org : ℕ) (user : Option ℕ) (r : Resource) (db : ProofStore)
    → AllDated db
    → All IsDatedProof (db.proofs ++ queued_proof ctx org r.id user ∷ [])
opened-AllDated ctx org user r db h = append-All db.proofs (queued_proof ctx org r.id user) h refl

started-AllDated :
    (ctx : Setting) (org : ℕ) (user : Option ℕ) (retention : ℕ) (r : Option Resource)
    (db : ProofStore)
    → AllDated db
    → AllDated (start_on ctx org user retention r db).1
started-AllDated ctx org user retention none db h = h
started-AllDated ctx org user retention (some r) db h =
    let opened : ProofStore = record db {
      proofs = db.proofs ++ queued_proof ctx org r.id user ∷ [];
    } in
    if-elim AllDated (r.snapshot_enabled === "true") (open_slot ctx org r retention opened) opened
      (λ t.
        set-All (λ p. p.id == ctx.new_proof) (with_snapshot ctx.now ctx.new_snapshot) (λ p u d. d)
          opened.proofs (opened-AllDated ctx org user r db h))
      (λ f. opened-AllDated ctx org user r db h)

start-AllDated :
    (ctx : Setting) (org resource : ℕ) (user : Option ℕ) (retention : ℕ) (db : ProofStore)
    → AllDated db
    → AllDated (start_redis_proof ctx org resource user retention db).1
unfolding start_redis_proof
start-AllDated ctx org resource user retention db h =
    started-AllDated ctx org user retention (own_resource resource org db) db h

decrypted-AllDated :
    (ctx : Setting) (r : Resource) (p : Proof) (url : Option String) (db : ProofStore)
    → AllDated db
    → AllDated (decrypted ctx r p url db).1
decrypted-AllDated ctx r p (some url) db h = h
decrypted-AllDated ctx r p none db h =
    set-All (has_proof_id p.id) (undecryptable ctx.now) (λ q t d. refl) db.proofs h

handed-AllDated :
    (ctx : Setting) (worker : Option String) (p : Proof) (r : Option Resource) (db : ProofStore)
    → AllDated db
    → AllDated (hand_out ctx worker p r db).1
handed-AllDated ctx worker p none db h = h
handed-AllDated ctx worker p (some r) db h =
    decrypted-AllDated ctx r p (ctx.decrypt r.ciphertext)
      (set_proofs (has_proof_id p.id) (claimed_proof ctx.now worker) db)
      (set-All (has_proof_id p.id) (claimed_proof ctx.now worker) (λ q t d. refl) db.proofs h)

claim-AllDated :
    (ctx : Setting) (worker : Option String) (p : Option Proof) (db : ProofStore)
    → AllDated db
    → AllDated (take_claim ctx worker p db).1
unfolding take_claim
claim-AllDated ctx worker none db h = h
claim-AllDated ctx worker (some p) db h = handed-AllDated ctx worker p (resource_of db p) db h

release-AllDated :
    (now id : ℕ) (text : String) (kind : ErrorKind) (next : Option ℕ) (db : ProofStore)
    → AllDated db
    → AllDated (release_proof now id text kind next db)
unfolding release_proof
release-AllDated now id text kind next db h =
    set-All (has_proof_id id) (released now text kind next) (λ p t d. refl) db.proofs h

closed_row-dated :
    (ctx : Setting) (input : Completion) (p : Proof) → IsDatedProof (closed_row ctx input p)
closed_row-dated ctx input p = elim (Option-cases input.verdict) [
  | inl absent ↦ rw absent (
      if-elim (λ s. dated s p.started_at (some ctx.now) ≡ true) (truthy input.error_message) error
        (if input.measured.restored then pass else fail) (λ t. refl)
        (λ f.
          if-elim (λ s. dated s p.started_at (some ctx.now) ≡ true) input.measured.restored pass
            fail (λ t. refl) (λ g. refl)))
  | inr (passes, e) ↦ rw e refl
  | inr (fails, e) ↦ rw e refl
  | inr (errors, e) ↦ rw e refl
]

deleted-proofs :
    (r : Result Unit) (key : String) (db : ProofStore) → (deleted_if r key db).proofs ≡ db.proofs
deleted-proofs (ok done) key db = refl
deleted-proofs (failed e) key db = refl

put-proofs :
    (ctx : Setting) (org snapshot : ℕ) (key : String) (bytes : List ℕ) (input : Completion)
    → (put : Result Unit) (db : ProofStore)
    → (store_on ctx org snapshot key bytes input put db).1.proofs ≡ db.proofs
put-proofs ctx org snapshot key bytes input (ok done) db = refl
put-proofs ctx org snapshot key bytes input (failed e) db = deleted-proofs (ctx.deletes key) key db

stored-proofs :
    (ctx : Setting) (org : ℕ) (snapshot : Option ℕ) (key : Option String) (rdb : Option (List ℕ))
    → (input : Completion) (db : ProofStore)
    → (store_snapshot ctx org snapshot key rdb input db).1.proofs ≡ db.proofs
stored-proofs ctx org none key rdb input db = refl
stored-proofs ctx org (some snapshot) none rdb input db = refl
stored-proofs ctx org (some snapshot) (some key) none input db = refl
stored-proofs ctx org (some snapshot) (some key) (some []) input db = refl
stored-proofs ctx org (some snapshot) (some key) (some (b ∷ bytes)) input db =
    if-elim (λ (r : Result Unit × ProofStore). r.1.proofs ≡ db.proofs) (key === "") _ _ (λ t. refl)
      (λ f.
        put-proofs ctx org snapshot key (ctx.encode ctx.compression (b ∷ bytes)) input
          (ctx.puts key) db)

close-AllDated :
    (ctx : Setting) (org proof : ℕ) (input : Completion) (r : Result Unit × ProofStore)
    → AllDated r.1
    → AllDated (close_on ctx org proof input r).1
close-AllDated ctx org proof input (ok done, db) h =
    set-All (own_proof proof org) (closed_row ctx input) (λ p t d. closed_row-dated ctx input p)
      db.proofs h
close-AllDated ctx org proof input (failed e, db) h = h

complete-AllDated :
    (ctx : Setting) (org proof : ℕ) (snapshot : Option ℕ) (key : Option String) (input : Completion)
    → (db : ProofStore) → AllDated db
    → AllDated (complete_redis_proof ctx org proof snapshot key input db).1
unfolding complete_redis_proof
complete-AllDated ctx org proof snapshot key input db h =
    close-AllDated ctx org proof input (store_snapshot ctx org snapshot key input.rdb input db)
      (rw (stored-proofs ctx org snapshot key input.rdb input db) h)

verify-AllDated :
    (ctx : Setting) (org resource : ℕ) (input : Completion) (r : Result Unit × ProofStore)
    → AllDated r.1
    → AllDated (verify_resource ctx org resource input r).1
verify-AllDated ctx org resource input (ok done, db) h = h
verify-AllDated ctx org resource input (failed e, db) h = h

run_on-AllDated :
    (ctx : Setting) (org : ℕ) (input : Completion) (p : Option Proof) (db : ProofStore)
    → AllDated db
    → AllDated (run_on ctx org input p db).1
run_on-AllDated ctx org input none db h = h
run_on-AllDated ctx org input (some p) db h =
    if-elim (λ (r : Result Unit × ProofStore). AllDated r.1) (not (small_enough input.rdb)) _ _
      (λ t. h)
      (λ f.
        verify-AllDated ctx org p.redis_resource_id input
          (complete_redis_proof ctx org p.id p.snapshot_id (chosen_key ctx org p input.rdb db) input
            db)
          (complete-AllDated ctx org p.id p.snapshot_id (chosen_key ctx org p input.rdb db) input db
            h))

dispose-AllDated :
    (ctx : Setting) (claim : ProofClaim) (result : SandboxResult) (d : Disposition)
    (db : ProofStore)
    → AllDated db
    → AllDated (dispose ctx claim result d db).1
unfolding complete_redis_proof_run
dispose-AllDated ctx claim result release_run db h =
    release-AllDated ctx.now claim.proof_id _ _ _ db h
dispose-AllDated ctx claim result complete_run db h =
    run_on-AllDated ctx claim.organization_id (received (completion_of result))
      (find (own_proof claim.proof_id claim.organization_id) db.proofs) db h

recovered-AllDated :
    (ctx : Setting) (claim : ProofClaim) (r : Result Unit × ProofStore)
    → AllDated r.1
    → AllDated (recovered ctx claim r)
recovered-AllDated ctx claim (ok done, db) h = h
recovered-AllDated ctx claim (failed e, db) h = release-AllDated ctx.now claim.proof_id _ _ _ db h

reclaim-AllDated :
    (ctx : Setting) (db : ProofStore) → AllDated db → AllDated (reclaim_stale ctx db).1
unfolding reclaim_stale
reclaim-AllDated ctx db h =
    let stale = ctx.now - ctx.claim_stale_ms in
    let cutoff = ctx.now - ctx.queue_timeout_ms in
    let first = set-All (abandoned stale) (requeued ctx.now) (λ p t d. refl) db.proofs h in
    let second =
      set-All (out_of_reach cutoff) (given_up ctx.now "unreachable") (λ p t d. refl) _ first in
    set-All (unclaimed cutoff) (given_up ctx.now "unclaimed") (λ p t d. refl) _ second

pub data ProofOperation : Type 0 where
  start : ℕ → ℕ → Option ℕ → ℕ → ProofOperation
  claim : ClaimOptions → ProofOperation
  -- The update of a claim, for a row that was selected earlier.
  take_up : Option String → Proof → ProofOperation
  attempt : ProofClaim → SandboxResult → ProofOperation
  finish_run : ℕ → ℕ → Completion → ProofOperation
  reclaim : ProofOperation

-- The store that an operation leaves, also when it throws.
abbrev pub apply : Setting → ProofOperation → ProofStore → ProofStore
apply ctx (start org resource user retention) db =
    (start_redis_proof ctx org resource user retention db).1
apply ctx (claim options) db = (claim_next_proof ctx options db).1
apply ctx (take_up worker p) db = (take_claim ctx worker (some p) db).1
apply ctx (attempt c result) db = run_one ctx c result db
apply ctx (finish_run org proof input) db = (complete_redis_proof_run ctx org proof input db).1
apply ctx reclaim db = (reclaim_stale ctx db).1

abbrev pub apply_all : List (Setting × ProofOperation) → ProofStore → ProofStore
apply_all [] db = db
apply_all ((ctx, operation) ∷ rest) db = apply_all rest (apply ctx operation db)

apply-AllDated :
    (ctx : Setting) (operation : ProofOperation) (db : ProofStore)
    → AllDated db
    → AllDated (apply ctx operation db)
unfolding claim_next_proof run_one execute_claim complete_redis_proof_run
apply-AllDated ctx (start org resource user retention) db h =
    start-AllDated ctx org resource user retention db h
apply-AllDated ctx (claim options) db h =
    if-elim (λ (r : Option ProofClaim × ProofStore). AllDated r.1)
      (queue_full options.max_in_flight db) (none, db)
      (take_claim ctx options.worker_id (select_claim ctx options.mode db) db) (λ t. h)
      (λ f. claim-AllDated ctx options.worker_id (select_claim ctx options.mode db) db h)
apply-AllDated ctx (take_up worker p) db h = claim-AllDated ctx worker (some p) db h
apply-AllDated ctx (attempt c result) db h =
    recovered-AllDated ctx c (execute_claim ctx c result db)
      (dispose-AllDated ctx c result (decide_disposition result) db h)
apply-AllDated ctx (finish_run org proof input) db h =
    run_on-AllDated ctx org (received input) (find (own_proof proof org) db.proofs) db h
apply-AllDated ctx reclaim db h = reclaim-AllDated ctx db h

-- Under any sequence of starts, claims (also such whose update comes long after their select),
-- attempts of the worker, completions and sweeps of the queue, each at its own time and with its own
-- failures, a pending proof has no start time, a running one has one, and one that is over has a
-- completion time.
pub apply_all-AllDated :
    (ops : List (Setting × ProofOperation)) (db : ProofStore)
    → AllDated db
    → AllDated (apply_all ops db)
apply_all-AllDated [] db h = h
apply_all-AllDated ((ctx, operation) ∷ rest) db h =
    apply_all-AllDated rest (apply ctx operation db) (apply-AllDated ctx operation db h)
