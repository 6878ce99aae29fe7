-- ===== src/Jobs/Finality.antt =====
-- A finished job stays as it is, but for one that passed and whose cleanup failed.
use mathlib.Core.Path.{subst}
use mathlib.Core.Bool.{false≢true}
use revenant_cloud.Base.{
  if-elim, ℕ, ◌≡◌, refl, sym, ap, ◌∙◌, Bool, true, false, ◌||◌, some, List, [], ◌∷◌, ◌++◌, All, any,
  ◌==◌, arith, find, ==_iff, String, ◌⊎◌, inl, inr, Bool-cases,
}
use revenant_cloud.Store.{JobStatus, pass, Job, Store, is_active, update_where, has_id}
use revenant_cloud.Limits.{reap_pending, stale_pending, stale_running}
use revenant_cloud.Jobs.Steps.{
  find-All, update_where-All, complete-keeps, cancel-keeps, update_progress-keeps, claim_next-keeps,
}
use revenant_cloud.Jobs.Inserts.{create-keeps, create_from_schedule-keeps, reaped_jobs}
use revenant_cloud.Jobs.Claim.{pending_id, running_id, claimed, progressed}
use revenant_cloud.Jobs.Finish.{completed, cancelled_at, joined_id, own_job}
use revenant_cloud.Jobs.Services.{run_challenge-keeps, can_fail, uncleaned, uncleaned_id}
use revenant_cloud.Jobs.Operations.{
  Operation, Operations, Operations-keep, creates, schedules, claims, reports, completes, cancels,
  challenges, uncleans,
}

-- A job with this identifier is there, and every row that has it is `row`.
abbrev pub Settled : ℕ → Job → List Job → Type 0
Settled id row jobs =
    (any (has_id id) jobs ≡ true) × All (λ job. has_id id job ≡ true → job ≡ row) jobs

-- An update that keeps the identifiers keeps which are taken.
pub any-update_where :
    (id : ℕ) (test : Job → Bool) (set : Job → Job)
    → ((job : Job) → (set job).id ≡ job.id)
    → (jobs : List Job) → any (has_id id) (update_where test set jobs) ≡ any (has_id id) jobs
any-update_where id test set keep [] = refl
any-update_where id test set keep (job ∷ jobs) =
    if-elim
      (λ j.
        (has_id id j || any (has_id id) (update_where test set jobs))
        ≡ (has_id id job || any (has_id id) jobs))
      (test job) (set job) job (λ t. rw (keep job, any-update_where id test set keep jobs))
      (λ f. rw (any-update_where id test set keep jobs))

Settled-update_where :
    (id : ℕ) (row : Job) (test : Job → Bool) (set : Job → Job)
    → ((job : Job) → (set job).id ≡ job.id)
    → ((job : Job) → has_id id job ≡ true → test job ≡ true → job ≡ row → ⊥)
    → (jobs : List Job) → Settled id row jobs
    → Settled id row (update_where test set jobs)
Settled-update_where id row test set keep apart jobs (there, same) = (
  any-update_where id test set keep jobs ∙ there,
  update_where-All (λ job. has_id id job ≡ true → job ≡ row) test set
      (λ job t h i.
        let own : has_id id job ≡ true = ap (λ k. k == id) (sym (keep job)) ∙ i in
        absurd (apart job own t (h own)))
      jobs same,
)

-- Updates that only touch active rows leave a row that is not.
Settled-active :
    (id : ℕ) (row : Job) (test : Job → Bool) (set : Job → Job)
    → is_active row.status ≡ false
    → ((job : Job) → (set job).id ≡ job.id)
    → ((job : Job) → test job ≡ true → is_active job.status ≡ true)
    → (jobs : List Job) → Settled id row jobs
    → Settled id row (update_where test set jobs)
Settled-active id row test set final keep active =
    Settled-update_where id row test set keep
      (λ job i t e. false≢true (sym final ∙ (ap (λ j. is_active j.status) (sym e) ∙ active job t)))

pub any-append :
    (id : ℕ) (jobs : List Job) (job : Job)
    → any (has_id id) (jobs ++ (job ∷ [])) ≡ (any (has_id id) jobs || has_id id job)
any-append id [] job = ground arith
any-append id (j ∷ jobs) job = ground (arith, any-append id jobs job)

pub All-append :
    (P : Job → Type 0) (jobs : List Job) (job : Job)
    → All P jobs
    → P job
    → All P (jobs ++ (job ∷ []))
All-append P [] job h p = (p, tt)
All-append P (j ∷ jobs) job h p = (h.0, All-append P jobs job h.1 p)

-- A job that is inserted has another identifier than one that is there.
pub inserted_apart :
    (id new : ℕ) (job : Job) (jobs : List Job)
    → job.id ≡ new
    → any (has_id new) jobs ≡ false
    → any (has_id id) jobs ≡ true
    → has_id id job ≡ true
    → ⊥
inserted_apart id new job jobs e fresh there i =
    let same : new ≡ id = sym e ∙ (==_iff job.id id).0 i in
    false≢true (sym (subst (λ k. any (has_id k) jobs ≡ false) same fresh) ∙ there)

Settled-append :
    (id new : ℕ) (row job : Job) (jobs : List Job)
    → job.id ≡ new
    → any (has_id new) jobs ≡ false
    → Settled id row jobs
    → Settled id row (jobs ++ (job ∷ []))
Settled-append id new row job jobs e fresh (there, same) = (
  any-append id jobs job ∙ rw there,
  All-append (λ j. has_id id j ≡ true → j ≡ row) jobs job same
      (λ i. absurd (inserted_apart id new job jobs e fresh there i)),
)

-- The row that an operation reads has its identifier, so an update by that identifier misses a row
-- that is not active.
Settled-found :
    (id other : ℕ) (row found : Job) (test : Job → Bool) (set : Job → Job) (jobs : List Job)
    → is_active row.status ≡ false
    → ((job : Job) → (set job).id ≡ job.id)
    → ((job : Job) → test job ≡ true → has_id other job ≡ true)
    → find test jobs ≡ some found
    → is_active found.status ≡ true
    → Settled id row jobs
    → Settled id row (update_where (has_id other) set jobs)
Settled-found id other row found test set jobs final keep named e active settled =
    let (is_row, passes) =
      find-All (λ job. has_id id job ≡ true → job ≡ row) test jobs found settled.1 e in
    Settled-update_where id row (has_id other) set keep
      (λ job i o s.
        let same : found ≡ row = is_row (ground (arith, named found passes, i, o)) in
        false≢true (sym final ∙ (ap (λ j. is_active j.status) (sym same) ∙ active)))
      jobs settled

-- The statements of the operations.
Settled-reaped :
    (id : ℕ) (row : Job) (now org : ℕ) (jobs : List Job)
    → is_active row.status ≡ false
    → Settled id row jobs
    → Settled id row (reaped_jobs now org jobs)
Settled-reaped id row now org jobs final settled =
    Settled-active id row (stale_running now org) _ final (λ job. refl) (λ job t. ground arith)
      (reap_pending now org jobs)
      (Settled-active id row (stale_pending now org) _ final (λ job. refl) (λ job t. ground arith)
        jobs settled)

pub any-reaped :
    (id now org : ℕ) (jobs : List Job)
    → any (has_id id) (reaped_jobs now org jobs) ≡ any (has_id id) jobs
any-reaped id now org jobs =
    any-update_where id (stale_running now org) _ (λ job. refl) (reap_pending now org jobs)
    ∙ any-update_where id (stale_pending now org) _ (λ job. refl) jobs

-- The row that a finished job has: the one it had or, where it had passed, that row failed by a cleanup.
abbrev pub Lasts : ℕ → Job → List Job → Type 0
Lasts id row jobs =
    Settled id row jobs
    ⊎ ((row.status ≡ pass)
        × (now : ℕ) × (message : String) × Settled id (uncleaned now message row) jobs)

-- An update that applies to the row changes every row that has its identifier alike.
uniform :
    (id : ℕ) (row : Job) (test : Job → Bool) (set : Job → Job)
    → ((job : Job) → (set job).id ≡ job.id)
    → test row ≡ true
    → (jobs : List Job) → All (λ job. has_id id job ≡ true → job ≡ row) jobs
    → All (λ job. has_id id job ≡ true → job ≡ set row) (update_where test set jobs)
uniform id row test set keep passes [] h = tt
uniform id row test set keep passes (job ∷ jobs) (h, hs) = (
  if-elim (λ j. has_id id j ≡ true → j ≡ set row) (test job) (set job) job
      (λ t i. ap set (h (ap (λ k. k == id) (sym (keep job)) ∙ i)))
      (λ f i. absurd (false≢true (sym f ∙ (ap test (h i) ∙ passes)))),
  uniform id row test set keep passes jobs hs,
)

passed_only :
    (status : JobStatus) → is_active status ≡ false → can_fail status ≡ true → status ≡ pass
passed_only status final h = ground (arith, final, h)

Settled-unclean :
    (id other now : ℕ) (message : String) (row : Job) (jobs : List Job)
    → is_active row.status ≡ false
    → Settled id row jobs
    → Lasts id row (update_where (uncleaned_id other) (uncleaned now message) jobs)
Settled-unclean id other now message row jobs final (there, same) =
    elim (Bool-cases (uncleaned_id other row)) [
      | inl t ↦ inr (
        passed_only row.status final (ground (arith, t)),
        now,
        message,
        (
          any-update_where id (uncleaned_id other) (uncleaned now message) (λ job. refl) jobs
              ∙ there,
          uniform id row (uncleaned_id other) (uncleaned now message) (λ job. refl) t jobs same,
        ),
      )
      | inr f ↦ inl (
          Settled-update_where id row (uncleaned_id other) (uncleaned now message) (λ job. refl)
            (λ job i t e. false≢true (sym f ∙ (ap (uncleaned_id other) (sym e) ∙ t))) jobs
            (there, same))
    ]

Lasts-Operation :
    (id : ℕ) (row : Job)
    → is_active row.status ≡ false
    → (a b : Store) → Operation a b
    → Settled id row a.jobs
    → Lasts id row b.jobs
Lasts-Operation id row final _ _ (creates now new db org user input answer fresh) s = inl (
    create-keeps (λ db. Settled id row db.jobs) now new db org user input answer s
      (Settled-reaped id row now org db.jobs final s)
      (λ job e o st l. Settled-append id new row job db.jobs e fresh s)
      (λ job n e o st l room.
        Settled-append id new row job (reaped_jobs now org db.jobs) e
          (any-reaped new now org db.jobs ∙ fresh) (Settled-reaped id row now org db.jobs final s)))
Lasts-Operation id row final _ _ (schedules now new db org database answer fresh) s = inl (
    create_from_schedule-keeps (λ db. Settled id row db.jobs) now new db org database answer s
      (Settled-reaped id row now org db.jobs final s)
      (λ job e o st l. Settled-append id new row job db.jobs e fresh s)
      (λ job n e o st l room.
        Settled-append id new row job (reaped_jobs now org db.jobs) e
          (any-reaped new now org db.jobs ∙ fresh) (Settled-reaped id row now org db.jobs final s)))
Lasts-Operation id row final _ _ (claims secret now db auth) s = inl (
    claim_next-keeps (λ db. Settled id row db.jobs) secret now db auth s
      (λ selected other.
        Settled-active id row (pending_id other) (claimed now auth selected) final (λ job. refl)
          (λ job t. ground arith) db.jobs s))
Lasts-Operation id row final _ _ (reports now db other input auth) s = inl (
    update_progress-keeps (λ db. Settled id row db.jobs) now db other input auth s
      (λ selected.
        Settled-active id row (running_id other) (progressed now input selected) final (λ job. refl)
          (λ job t. ground arith) db.jobs s))
Lasts-Operation id row final _ _ (completes now db other input auth) s = inl (
    complete-keeps (λ db. Settled id row db.jobs) now db other input auth s
      (λ found e active.
        Settled-found id other row found (joined_id db other) (completed now input auth found)
          db.jobs final (λ job. refl) (λ job t. ground arith) e active s))
Lasts-Operation id row final _ _ (cancels now db org other) s = inl (
    cancel-keeps (λ db. Settled id row db.jobs) now db org other s
      (λ found e active.
        Settled-found id other row found (own_job db org other) (cancelled_at now) db.jobs final
          (λ job. refl) (λ job t. ground arith) e active s))
Lasts-Operation id row final _ _ (challenges now new db org user found fresh) s = inl (
    run_challenge-keeps (λ db. Settled id row db.jobs) now new db org user found s
      (Settled-reaped id row now org db.jobs final s)
      (λ job e o st l. Settled-append id new row job db.jobs e fresh s)
      (λ job n e o st l room.
        Settled-append id new row job (reaped_jobs now org db.jobs) e
          (any-reaped new now org db.jobs ∙ fresh) (Settled-reaped id row now org db.jobs final s)))
Lasts-Operation id row final _ _ (uncleans now db org other check message) s =
    Settled-unclean id other now message row db.jobs final s

Lasts-keep :
    (id : ℕ) (row : Job)
    → is_active row.status ≡ false
    → (a b : Store) → Operation a b
    → Lasts id row a.jobs
    → Lasts id row b.jobs
Lasts-keep id row final a b step (inl s) = Lasts-Operation id row final a b step s
Lasts-keep id row final a b step (inr (e, now, message, s)) =
    elim (Lasts-Operation id (uncleaned now message row) refl a b step s) [
      | inl later ↦ inr (e, now, message, later)
      | inr bad ↦ absurd (cc bad.0)
    ]

-- A job that is neither pending nor running keeps every column, and its identifier stays its own,
-- whatever operations follow one after the other, of the jobs service or of the others that write jobs,
-- if each inserted row takes a new identifier; but a job that has passed can be failed, with a message
-- and a new finish time and nothing else changed, by a cleanup, and then keeps every column likewise.
pub finished-Lasts :
    (id : ℕ) (row : Job) (a b : Store)
    → is_active row.status ≡ false
    → Operations a b
    → Settled id row a.jobs
    → Lasts id row b.jobs
finished-Lasts id row a b final steps settled =
    Operations-keep (λ db. Lasts id row db.jobs) (Lasts-keep id row final) a b steps (inl settled)
