-- ===== src/Jobs/Exclusion.antt =====
-- A job is claimed once, however the statements of all callers interleave.
use mathlib.Core.Option.{none-ne-some}
use revenant_cloud.Base.{
  if-elim, ℕ, ◌≡◌, refl, sym, ap, ◌∙◌, Bool, true, false, Option, none, some, List, [], ◌∷◌, All,
  any, ◌==◌, Bool-cases, inl, inr, arith, find,
}
use revenant_cloud.Store.{Job, Metadata, is_pending, update_where, has_id}
use revenant_cloud.Limits.{stale_pending, stale_running}
use revenant_cloud.Jobs.Steps.{update_where-All}
use revenant_cloud.Jobs.Finality.{any-update_where, any-append, All-append, inserted_apart}
use revenant_cloud.Jobs.Claim.{
  RunnerAuth, pending_id, running_id, claimed, progressed, claim_update, returned,
}
use revenant_cloud.Jobs.Finish.{FinalStatus, status_of, completed, cancelled_at}
use revenant_cloud.Jobs.Services.{uncleaned_id, uncleaned}
use revenant_cloud.Jobs.Statements.{
  Statement, Statements, Statements-keep, inserts, reaps_pending, reaps_running, takes, progresses,
  finishes, withdraws, uncleans,
}

-- A job with this identifier is there, and no row that has it is pending.
abbrev pub Taken : ℕ → List Job → Type 0
Taken id jobs =
    (any (has_id id) jobs ≡ true)
    × All (λ job. has_id id job ≡ true → is_pending job.status ≡ false) jobs

Taken-update_where :
    (id : ℕ) (test : Job → Bool) (set : Job → Job)
    → ((job : Job) → (set job).id ≡ job.id)
    → ((job : Job)
        → test job ≡ true
        → is_pending job.status ≡ false
        → is_pending (set job).status ≡ false)
    → (jobs : List Job) → Taken id jobs
    → Taken id (update_where test set jobs)
Taken-update_where id test set keep stays jobs (there, taken) = (
  any-update_where id test set keep jobs ∙ there,
  update_where-All (λ job. has_id id job ≡ true → is_pending job.status ≡ false) test set
      (λ job t h i. stays job t (h (ap (λ k. k == id) (sym (keep job)) ∙ i))) jobs taken,
)

status_not_pending : (f : FinalStatus) → is_pending (status_of f) ≡ false
status_not_pending FinalStatus.pass = refl
status_not_pending FinalStatus.fail = refl
status_not_pending FinalStatus.error = refl

pub Taken-Statement : (id : ℕ) (a b : List Job) → Statement a b → Taken id a → Taken id b
Taken-Statement id _ _ (inserts job jobs fresh) (there, taken) = (
  any-append id jobs job ∙ rw there,
  All-append (λ j. has_id id j ≡ true → is_pending j.status ≡ false) jobs job taken
      (λ i. absurd (inserted_apart id job.id job jobs refl fresh there i)),
)
Taken-Statement id _ _ (reaps_pending now org jobs) h =
    Taken-update_where id (stale_pending now org) _ (λ job. refl) (λ job t p. refl) jobs h
Taken-Statement id _ _ (reaps_running now org jobs) h =
    Taken-update_where id (stale_running now org) _ (λ job. refl) (λ job t p. refl) jobs h
Taken-Statement id _ _ (takes now auth selected other jobs) h =
    Taken-update_where id (pending_id other) (claimed now auth selected) (λ job. refl)
      (λ job t p. refl) jobs h
Taken-Statement id _ _ (progresses now input selected other jobs) h =
    Taken-update_where id (running_id other) (progressed now input selected) (λ job. refl)
      (λ job t p. p) jobs h
Taken-Statement id _ _ (finishes now input auth selected other jobs) h =
    Taken-update_where id (has_id other) (completed now input auth selected) (λ job. refl)
      (λ job t p. status_not_pending input.status) jobs h
Taken-Statement id _ _ (uncleans now message other jobs) h =
    Taken-update_where id (uncleaned_id other) (uncleaned now message) (λ job. refl)
      (λ job t p. refl) jobs h
Taken-Statement id _ _ (withdraws now other jobs) h =
    Taken-update_where id (has_id other) (cancelled_at now) (λ job. refl) (λ job t p. refl) jobs h

any-found :
    (id : ℕ) (jobs : List Job) (job : Job)
    → find (pending_id id) jobs ≡ some job
    → any (has_id id) jobs ≡ true
any-found id [] job e = absurd (none-ne-some job e)
any-found id (j ∷ jobs) job e = elim (Bool-cases (pending_id id j)) [
  | inl t ↦ ground arith
  | inr f ↦ ground (arith, any-found id jobs job (rw f at e))
]

nothing_pending :
    (now : ℕ) (auth : RunnerAuth) (selected : Metadata) (id : ℕ) (jobs : List Job)
    → All
        (λ job. has_id id job ≡ true → is_pending job.status ≡ false)
        (update_where (pending_id id) (claimed now auth selected) jobs)
nothing_pending now auth selected id [] = tt
nothing_pending now auth selected id (job ∷ jobs) = (
  if-elim (λ j. has_id id j ≡ true → is_pending j.status ≡ false) (pending_id id job)
      (claimed now auth selected job) job (λ t i. refl) (λ f i. ground arith),
  nothing_pending now auth selected id jobs,
)

-- A claim that gets its row leaves it taken.
pub claim_update-Taken :
    (now : ℕ) (auth : RunnerAuth) (selected : Metadata) (id : ℕ) (jobs : List Job) (job : Job)
    → find (pending_id id) jobs ≡ some job
    → Taken id (claim_update now auth selected id jobs).1
claim_update-Taken now auth selected id jobs job e = (
  any-update_where id (pending_id id) (claimed now auth selected) (λ j. refl) jobs
      ∙ any-found id jobs job e,
  nothing_pending now auth selected id jobs,
)

-- A claim of a job that is taken gets nothing.
pub Taken-claim_update :
    (now : ℕ) (auth : RunnerAuth) (selected : Metadata) (id : ℕ) (jobs : List Job)
    → All (λ job. has_id id job ≡ true → is_pending job.status ≡ false) jobs
    → (claim_update now auth selected id jobs).0 ≡ none
Taken-claim_update now auth selected id jobs taken =
    ap (returned (claimed now auth selected)) (none_found jobs taken)
  where
    none_found :
        (js : List Job)
        → All (λ job. has_id id job ≡ true → is_pending job.status ≡ false) js
        → find (pending_id id) js ≡ none
    none_found [] h = refl
    none_found (j ∷ js) h = elim (Bool-cases (has_id id j)) [
      | inl t ↦ rw (t, h.0 t) (none_found js h.1)
      | inr f ↦ rw f (none_found js h.1)
    ]

-- A claim that got the job keeps it from every later claim, by whatever runner, however the
-- statements of other calls come between.
pub claim_update-once :
    (now later : ℕ) (auth other : RunnerAuth) (selected reread : Metadata) (id : ℕ)
    (jobs jobs' : List Job) (job : Job)
    → (claim_update now auth selected id jobs).0 ≡ some job
    → Statements (claim_update now auth selected id jobs).1 jobs'
    → (claim_update later other reread id jobs').0 ≡ none
claim_update-once now later auth other selected reread id jobs jobs' job e steps =
    by_found (find (pending_id id) jobs) refl
  where
    by_found :
        (found : Option Job)
        → find (pending_id id) jobs ≡ found
        → (claim_update later other reread id jobs').0 ≡ none
    by_found none f = absurd (none-ne-some job (rw f at e))
    by_found (some row) f =
        Taken-claim_update later other reread id jobs'
          (Statements-keep (Taken id) (Taken-Statement id)
            (claim_update now auth selected id jobs).1 jobs' steps
            (claim_update-Taken now auth selected id jobs row f)).1
