-- ===== src/Jobs/Statements.antt =====
-- The single statements that services send for the table of jobs. Calls that overlap interleave
-- these, so between the row that a call reads and the row that it updates any of them can come.
use revenant_cloud.Base.{ℕ, String, ◌≡◌, false, Option, List, [], ◌∷◌, ◌++◌, any, ◌∙◌}
use revenant_cloud.Store.{Job, Metadata, Store, update_where, has_id}
use revenant_cloud.Limits.{reap_pending, reap_running}
use revenant_cloud.Jobs.Claim.{
  RunnerAuth, ProgressInput, claimed, pending_id, progressed, running_id,
}
use revenant_cloud.Jobs.Finish.{CompleteInput, completed, cancelled_at}
use revenant_cloud.Jobs.Services.{run_challenge-keeps, uncleaned, uncleaned_id}
use revenant_cloud.Jobs.Operations.{
  Operation, Operations, more, creates, schedules, claims, reports, completes, cancels, challenges,
}
use revenant_cloud.Jobs.Steps.{
  complete-keeps, cancel-keeps, update_progress-keeps, claim_next-keeps,
}
use revenant_cloud.Jobs.Inserts.{create-keeps, create_from_schedule-keeps, reaped_jobs}
use revenant_cloud.Jobs.Finality.{any-reaped}

-- An update takes what it keeps from a row that was read earlier: that row is arbitrary here.
pub data Statement : List Job → List Job → Type 0 where
  inserts :
      (job : Job) (jobs : List Job)
      → any (has_id job.id) jobs ≡ false
      → Statement jobs (jobs ++ (job ∷ []))
  reaps_pending : (now org : ℕ) (jobs : List Job) → Statement jobs (reap_pending now org jobs)
  reaps_running : (now org : ℕ) (jobs : List Job) → Statement jobs (reap_running now org jobs)
  takes :
      (now : ℕ) (auth : RunnerAuth) (selected : Metadata) (id : ℕ) (jobs : List Job)
      → Statement jobs (update_where (pending_id id) (claimed now auth selected) jobs)
  progresses :
      (now : ℕ) (input : ProgressInput) (selected : Metadata) (id : ℕ) (jobs : List Job)
      → Statement jobs (update_where (running_id id) (progressed now input selected) jobs)
  finishes :
      (now : ℕ) (input : CompleteInput) (auth : Option RunnerAuth) (selected : Job) (id : ℕ)
      (jobs : List Job)
      → Statement jobs (update_where (has_id id) (completed now input auth selected) jobs)
  uncleans :
      (now : ℕ) (message : String) (id : ℕ) (jobs : List Job)
      → Statement jobs (update_where (uncleaned_id id) (uncleaned now message) jobs)
  withdraws :
      (now id : ℕ) (jobs : List Job)
      → Statement jobs (update_where (has_id id) (cancelled_at now) jobs)

pub data Statements : List Job → List Job → Type 0 where
  done : (jobs : List Job) → Statements jobs jobs
  then : (a b c : List Job) → Statements a b → Statement b c → Statements a c

-- What every statement keeps, any number of them keep.
pub Statements-keep :
    (P : List Job → Type 0)
    → ((a b : List Job) → Statement a b → P a → P b)
    → (a b : List Job) → Statements a b
    → P a
    → P b
Statements-keep P keep _ _ (done jobs) p = p
Statements-keep P keep _ _ (then a b c steps step) p =
    keep b c step (Statements-keep P keep a b steps p)

pub Statements-trans : (a b c : List Job) → Statements a b → Statements b c → Statements a c
Statements-trans a _ _ s (done b) = s
Statements-trans a _ _ s (then b c d steps step) = then a c d (Statements-trans a b c s steps) step

one : (a b : List Job) → Statement a b → Statements a b
one a b step = then a a b (done a) step

reaps : (now org : ℕ) (jobs : List Job) → Statements jobs (reaped_jobs now org jobs)
reaps now org jobs =
    then jobs (reap_pending now org jobs) (reaped_jobs now org jobs)
      (one jobs (reap_pending now org jobs) (reaps_pending now org jobs))
      (reaps_running now org (reap_pending now org jobs))

inserted :
    (id : ℕ) (job : Job) (jobs : List Job)
    → job.id ≡ id
    → any (has_id id) jobs ≡ false
    → Statement jobs (jobs ++ (job ∷ []))
inserted id job jobs e fresh = inserts job jobs (rw e fresh)

Operation-Statements : (a b : Store) → Operation a b → Statements a.jobs b.jobs
Operation-Statements _ _ (creates now id db org user input answer fresh) =
    create-keeps (λ s. Statements db.jobs s.jobs) now id db org user input answer (done db.jobs)
      (reaps now org db.jobs)
      (λ job e o st l. one db.jobs (db.jobs ++ (job ∷ [])) (inserted id job db.jobs e fresh))
      (λ job n e o st l room.
        then db.jobs (reaped_jobs now org db.jobs) (reaped_jobs now org db.jobs ++ (job ∷ []))
          (reaps now org db.jobs)
          (inserted id job (reaped_jobs now org db.jobs) e (any-reaped id now org db.jobs ∙ fresh)))
Operation-Statements _ _ (schedules now id db org database answer fresh) =
    create_from_schedule-keeps (λ s. Statements db.jobs s.jobs) now id db org database answer
      (done db.jobs) (reaps now org db.jobs)
      (λ job e o st l. one db.jobs (db.jobs ++ (job ∷ [])) (inserted id job db.jobs e fresh))
      (λ job n e o st l room.
        then db.jobs (reaped_jobs now org db.jobs) (reaped_jobs now org db.jobs ++ (job ∷ []))
          (reaps now org db.jobs)
          (inserted id job (reaped_jobs now org db.jobs) e (any-reaped id now org db.jobs ∙ fresh)))
Operation-Statements _ _ (claims secret now db auth) =
    claim_next-keeps (λ s. Statements db.jobs s.jobs) secret now db auth (done db.jobs)
      (λ selected id. one db.jobs _ (takes now auth selected id db.jobs))
Operation-Statements _ _ (reports now db id input auth) =
    update_progress-keeps (λ s. Statements db.jobs s.jobs) now db id input auth (done db.jobs)
      (λ selected. one db.jobs _ (progresses now input selected id db.jobs))
Operation-Statements _ _ (completes now db id input auth) =
    complete-keeps (λ s. Statements db.jobs s.jobs) now db id input auth (done db.jobs)
      (λ job e active. one db.jobs _ (finishes now input auth job id db.jobs))
Operation-Statements _ _ (challenges now id db org user found fresh) =
    run_challenge-keeps (λ s. Statements db.jobs s.jobs) now id db org user found (done db.jobs)
      (reaps now org db.jobs)
      (λ job e o st l. one db.jobs (db.jobs ++ (job ∷ [])) (inserted id job db.jobs e fresh))
      (λ job n e o st l room.
        then db.jobs (reaped_jobs now org db.jobs) (reaped_jobs now org db.jobs ++ (job ∷ []))
          (reaps now org db.jobs)
          (inserted id job (reaped_jobs now org db.jobs) e (any-reaped id now org db.jobs ∙ fresh)))
Operation-Statements _ _ (Operation.uncleans now db org id check message) =
    one db.jobs _ (uncleans now message id db.jobs)
Operation-Statements _ _ (cancels now db org id) =
    cancel-keeps (λ s. Statements db.jobs s.jobs) now db org id (done db.jobs)
      (λ job e active. one db.jobs _ (withdraws now id db.jobs))

-- Whatever any number of operations do to the table of jobs is done by a sequence of single statements.
pub Operations-Statements : (a b : Store) → Operations a b → Statements a.jobs b.jobs
Operations-Statements _ _ (Operations.none a) = done a.jobs
Operations-Statements _ _ (more a b c steps step) =
    Statements-trans a.jobs b.jobs c.jobs (Operations-Statements a b steps)
      (Operation-Statements b c step)
