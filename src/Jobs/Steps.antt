-- ===== src/Jobs/Steps.antt =====
-- What the operations of the jobs service do to the store, one rule for each operation: a property
-- of the store holds after it if it held before and each of its statements keeps it.
use mathlib.Core.Path.{subst}
use mathlib.Core.Option.{some-injective}
use revenant_cloud.Base.{
  ℕ, String, ◌≡◌, refl, Bool, true, not, Option, none, some, List, [], ◌∷◌, All, find, Bool-cases,
  if-elim, inl, inr, arith,
}
use revenant_cloud.Store.{
  DatabaseRow, Result, ok, failed, Job, Metadata, Store, is_active, is_running, update_where,
  with_jobs, has_id, database_by,
}
use revenant_cloud.Jobs.{assert_supported_mode}
use revenant_cloud.Jobs.Claim.{
  RunnerAuth, ProgressInput, claim_next, claim_with, claim_job, claim_on, claim_guards,
  next_pending, claimed, pending_id, running_id, progressed, update_progress, progress_on, scoped,
}
use revenant_cloud.Jobs.Finish.{
  CompleteInput, complete, complete_on, finish, completed, foreign, joined_id, cancel, cancel_on,
  cancelled_at, own_job,
}

-- What is found passes the test, and has every property that all members have.
pub find-All :
    (P : Job → Type 0) (test : Job → Bool) (jobs : List Job) (job : Job)
    → All P jobs
    → find test jobs ≡ some job
    → P job × (test job ≡ true)
find-All P test [] job h e = ground arith
find-All P test (j ∷ jobs) job h e = elim (Bool-cases (test j)) [
  | inl t ↦
      let same : j ≡ job = some-injective _ _ (rw t at e) in
      (subst P same h.0, subst (λ x. test x ≡ true) same t)
  | inr f ↦ find-All P test jobs job h.1 (rw f at e)
]

pub update_where-All :
    (P : Job → Type 0) (test : Job → Bool) (set : Job → Job)
    → ((job : Job) → test job ≡ true → P job → P (set job))
    → (jobs : List Job) → All P jobs
    → All P (update_where test set jobs)
update_where-All P test set keep [] h = tt
update_where-All P test set keep (job ∷ jobs) h = (
  if-elim P (test job) (set job) job (λ t. keep job t h.0) (λ f. h.0),
  update_where-All P test set keep jobs h.1,
)

module _ (P : Store → Type 0) where
  complete_on-keeps :
      (now : ℕ) (db : Store) (id : ℕ) (input : CompleteInput) (auth : Option RunnerAuth)
      (found : Option Job)
      → find (joined_id db id) db.jobs ≡ found
      → P db
      → ((job : Job)
          → find (joined_id db id) db.jobs ≡ some job
          → is_active job.status ≡ true
          → P (finish (completed now input auth job) input.results db id job).1)
      → P ((complete_on now db id input auth found).1)
  complete_on-keeps now db id input auth none e p step = p
  complete_on-keeps now db id input auth (some job) e p step =
      if-elim (λ (r : Result Job × Store). P r.1) (foreign auth job) _ _ (λ _. p)
        (λ _.
          if-elim (λ (r : Result Job × Store). P r.1) (not (is_active job.status)) _ _ (λ _. p)
            (λ a. step job e (ground arith)))

  -- After `complete`: the table as it was, or the row's update, if the row that was read is active.
  pub complete-keeps :
      (now : ℕ) (db : Store) (id : ℕ) (input : CompleteInput) (auth : Option RunnerAuth)
      → P db
      → ((job : Job)
          → find (joined_id db id) db.jobs ≡ some job
          → is_active job.status ≡ true
          → P (finish (completed now input auth job) input.results db id job).1)
      → P ((complete now db id input auth).1)
  unfolding complete
  complete-keeps now db id input auth =
      complete_on-keeps now db id input auth (find (joined_id db id) db.jobs) refl

  cancel_on-keeps :
      (now : ℕ) (db : Store) (org id : ℕ) (found : Option Job)
      → find (own_job db org id) db.jobs ≡ found
      → P db
      → ((job : Job)
          → find (own_job db org id) db.jobs ≡ some job
          → is_active job.status ≡ true
          → P (finish (cancelled_at now) [] db id job).1)
      → P ((cancel_on now db id found).1)
  cancel_on-keeps now db org id none e p step = p
  cancel_on-keeps now db org id (some job) e p step =
      if-elim (λ (r : Result Job × Store). P r.1) (not (is_active job.status)) _ _ (λ _. p)
        (λ a. step job e (ground arith))

  -- After `cancel`: the table as it was, or the row's update, if the row that was read is active.
  pub cancel-keeps :
      (now : ℕ) (db : Store) (org id : ℕ)
      → P db
      → ((job : Job)
          → find (own_job db org id) db.jobs ≡ some job
          → is_active job.status ≡ true
          → P (finish (cancelled_at now) [] db id job).1)
      → P ((cancel now db org id).1)
  unfolding cancel
  cancel-keeps now db org id = cancel_on-keeps now db org id (find (own_job db org id) db.jobs) refl

  progress_on-keeps :
      (now : ℕ) (db : Store) (id : ℕ) (input : ProgressInput) (auth : Option RunnerAuth)
      (found : Option Job)
      → P db
      → ((selected : Metadata)
          → P (with_jobs db (update_where (running_id id) (progressed now input selected) db.jobs)))
      → P ((progress_on now db id input auth found).1)
  progress_on-keeps now db id input auth none p step = p
  progress_on-keeps now db id input auth (some job) p step =
      if-elim (λ (r : Result Unit × Store). P r.1) (not (scoped auth job)) _ _ (λ _. p)
        (λ _.
          if-elim (λ (r : Result Unit × Store). P r.1) (not (is_running job.status)) _ _ (λ _. p)
            (λ _. step job.metadata))

  -- After `updateRunnerProgress`: the table as it was, or the guarded update.
  pub update_progress-keeps :
      (now : ℕ) (db : Store) (id : ℕ) (input : ProgressInput) (auth : Option RunnerAuth)
      → P db
      → ((selected : Metadata)
          → P (with_jobs db (update_where (running_id id) (progressed now input selected) db.jobs)))
      → P ((update_progress now db id input auth).1)
  unfolding update_progress
  update_progress-keeps now db id input auth =
      progress_on-keeps now db id input auth (find (has_id id) db.jobs)

  claim_on-keeps :
      (secret : ℕ → Option String) (now : ℕ) (db : Store) (auth : RunnerAuth) (job : Job)
      (d : DatabaseRow) (r : Result Unit)
      → P db
      → ((selected : Metadata) (id : ℕ)
          → P (with_jobs db (update_where (pending_id id) (claimed now auth selected) db.jobs)))
      → P ((claim_on secret now db auth job d r).1)
  claim_on-keeps secret now db auth job d (failed e) p step = p
  claim_on-keeps secret now db auth job d (ok u) p step = step job.metadata job.id

  claim_found-keeps :
      (secret : ℕ → Option String) (now : ℕ) (db : Store) (auth : RunnerAuth) (job : Job)
      (found : Option DatabaseRow)
      → database_by job.database_id db ≡ found
      → P db
      → ((selected : Metadata) (id : ℕ)
          → P (with_jobs db (update_where (pending_id id) (claimed now auth selected) db.jobs)))
      → P ((claim_job secret now db auth (some job)).1)
  claim_found-keeps secret now db auth job none e p step = rw (e, claim_job) p
  claim_found-keeps secret now db auth job (some d) e p step =
      rw (e, claim_job) (claim_on-keeps secret now db auth job d (assert_supported_mode d) p step)

  claim_job-keeps :
      (secret : ℕ → Option String) (now : ℕ) (db : Store) (auth : RunnerAuth) (next : Option Job)
      → P db
      → ((selected : Metadata) (id : ℕ)
          → P (with_jobs db (update_where (pending_id id) (claimed now auth selected) db.jobs)))
      → P ((claim_job secret now db auth next).1)
  claim_job-keeps secret now db auth none p step = p
  claim_job-keeps secret now db auth (some job) p step =
      claim_found-keeps secret now db auth job (database_by job.database_id db) refl p step

  claim_with-keeps :
      (secret : ℕ → Option String) (now : ℕ) (db : Store) (auth : RunnerAuth) (r : Result Unit)
      → P db
      → ((selected : Metadata) (id : ℕ)
          → P (with_jobs db (update_where (pending_id id) (claimed now auth selected) db.jobs)))
      → P ((claim_with secret now db auth r).1)
  claim_with-keeps secret now db auth (failed e) p step = p
  claim_with-keeps secret now db auth (ok u) p step =
      claim_job-keeps secret now db auth (next_pending db auth) p step

  -- After `claimNext`: the table as it was, or the guarded update.
  pub claim_next-keeps :
      (secret : ℕ → Option String) (now : ℕ) (db : Store) (auth : RunnerAuth)
      → P db
      → ((selected : Metadata) (id : ℕ)
          → P (with_jobs db (update_where (pending_id id) (claimed now auth selected) db.jobs)))
      → P ((claim_next secret now db auth).1)
  unfolding claim_next
  claim_next-keeps secret now db auth =
      claim_with-keeps secret now db auth (claim_guards now db auth)
