-- ===== src/Readiness/LastJob.antt =====
-- Which job the readiness of a database is computed from: the query for `lastJob` of `getForDatabase`
-- (apps/api/src/services/recovery-readiness.service.ts). It sorts by `finished_at` downwards, where
-- PostgreSQL puts the rows that have none first; of equal rows the one inserted first is taken.
use revenant_cloud.Base.{
  ℕ, String, ◌≡◌, refl, ap, ◌∙◌, Bool, true, false, ◌&&◌, ◌||◌, Option, none, some, List, [], ◌∷◌,
  leb, ◌==◌, if◌then◌else◌, filter, any, All, arith, Bool-cases, inl, inr, if-elim,
}
use mathlib.Core.Bool.{false≢true}
use revenant_cloud.Readiness.Status.{drilled, not_ready_iff, critical_lem}
use revenant_cloud.Store.{unfinished, Job, JobStatus, Store, is_active}
use revenant_cloud.Readiness.{
  ReadinessInput, compute, not_ready, latest_failed, has_fail, is_invalidated,
}

abbrev pub status_text : JobStatus → String
status_text JobStatus.pending = "pending"
status_text JobStatus.running = "running"
status_text JobStatus.pass = "pass"
status_text JobStatus.fail = "fail"
status_text JobStatus.error = "error"
status_text JobStatus.cancelled = "cancelled"

abbrev pub of_database : ℕ → ℕ → Job → Bool
of_database org database job = (job.database_id == database) && (job.organization_id == org)

-- Whether a row of the first finish time comes no later than one of the second.
abbrev pub comes_first : Option ℕ → Option ℕ → Bool
comes_first none b = true
comes_first (some a) none = false
comes_first (some a) (some b) = leb b a

abbrev pub first_of : Job → Option Job → Job
first_of job none = job
first_of job (some other) = if comes_first job.finished_at other.finished_at then job else other

abbrev pub first_finished : List Job → Option Job
first_finished [] = none
first_finished (job ∷ jobs) = some (first_of job (first_finished jobs))

unfoldable pub last_job : Store → ℕ → ℕ → Option Job
last_job db org database = first_finished (filter (of_database org database) db.jobs)

abbrev pub last_status : Option Job → Option String
last_status none = none
last_status (some job) = some (status_text job.status)

abbrev any_unfinished : Option Job → Bool
any_unfinished none = false
any_unfinished (some job) = unfinished job

comes_first-unfinished :
    (a b : Option ℕ) (x y : Job)
    → x.finished_at ≡ a
    → y.finished_at ≡ b
    → unfinished (if comes_first a b then x else y) ≡ (unfinished x || unfinished y)
comes_first-unfinished none b x y e e' = rw e refl
comes_first-unfinished (some a) none x y e e' = rw (e, e') refl
comes_first-unfinished (some a) (some b) x y e e' =
    if-elim (λ j. unfinished j ≡ (unfinished x || unfinished y)) (leb b a) x y
      (λ _. rw (e, e') refl) (λ _. rw (e, e') refl)

first_of-unfinished :
    (job : Job) (later : Option Job)
    → unfinished (first_of job later) ≡ (unfinished job || any_unfinished later)
first_of-unfinished job none = ground arith
first_of-unfinished job (some other) =
    comes_first-unfinished job.finished_at other.finished_at job other refl refl

first_finished-unfinished :
    (jobs : List Job) → any_unfinished (first_finished jobs) ≡ any unfinished jobs
first_finished-unfinished [] = refl
first_finished-unfinished (job ∷ jobs) =
    first_of-unfinished job (first_finished jobs)
    ∙ ap (λ b. unfinished job || b) (first_finished-unfinished jobs)

any-filter :
    (test q : Job → Bool) (jobs : List Job)
    → any q (filter test jobs) ≡ any (λ job. test job && q job) jobs
any-filter test q [] = refl
any-filter test q (job ∷ jobs) = elim (Bool-cases (test job)) [
  | inl t ↦ rw t (ap (λ b. q job || b) (any-filter test q jobs))
  | inr f ↦ rw f (any-filter test q jobs)
]

Holds : (Job → Type 0) → Option Job → Type 0
Holds P none = Unit
Holds P (some job) = P job

first_of-Holds :
    (P : Job → Type 0) (job : Job) (later : Option Job)
    → P job
    → Holds P later
    → P (first_of job later)
unfolding Holds
first_of-Holds P job none p h = p
first_of-Holds P job (some other) p h =
    if-elim P (comes_first job.finished_at other.finished_at) job other (λ _. p) (λ _. h)

first_finished-Holds :
    (P : Job → Type 0) (test : Job → Bool) (jobs : List Job)
    → All P jobs
    → Holds P (first_finished (filter test jobs))
unfolding Holds
first_finished-Holds P test [] h = tt
first_finished-Holds P test (job ∷ jobs) h = elim (Bool-cases (test job)) [
  | inl t ↦ rw t (
      first_of-Holds P job (first_finished (filter test jobs)) h.0
        (first_finished-Holds P test jobs h.1))
  | inr f ↦ rw f (first_finished-Holds P test jobs h.1)
]

failed_text : (s : JobStatus) → is_active s ≡ true → latest_failed (some (status_text s)) ≡ true
failed_text JobStatus.pending h = refl
failed_text JobStatus.running h = refl
failed_text JobStatus.pass h = absurd (false≢true h)
failed_text JobStatus.fail h = absurd (false≢true h)
failed_text JobStatus.error h = absurd (false≢true h)
failed_text JobStatus.cancelled h = absurd (false≢true h)

-- The rows without a finish time are those of active jobs.
abbrev pub IsDated : Job → Type 0
IsDated job = unfinished job ≡ true → is_active job.status ≡ true

unfinished-latest_failed :
    (found : Option Job)
    → any_unfinished found ≡ true
    → Holds IsDated found
    → latest_failed (last_status found) ≡ true
unfolding Holds
unfinished-latest_failed none h d = absurd (false≢true h)
unfinished-latest_failed (some job) h d = failed_text job.status (d h)

-- While a drill of a database is queued or running, a workflow that was ever verified or drilled is
-- not ready, whatever its earlier drills say: the active job is the one that is taken for the last
-- drill, and it counts as failed. This supposes that only active jobs lack a finish time.
pub unfinished-not_ready :
    (db : Store) (org database : ℕ) (r : ReadinessInput)
    → any (λ job. of_database org database job && unfinished job) db.jobs ≡ true
    → All IsDated db.jobs
    → r.latest_drill_status ≡ last_status (last_job db org database)
    → drilled r ≡ true
    → (compute r).status ≡ not_ready
unfolding last_job
unfinished-not_ready db org database r some_active dated status drill =
    let first = first_finished (filter (of_database org database) db.jobs) in
    let open_first : any_unfinished first ≡ true =
      first_finished-unfinished (filter (of_database org database) db.jobs)
      ∙ (any-filter (of_database org database) unfinished db.jobs ∙ some_active) in
    let last_failed : latest_failed r.latest_drill_status ≡ true =
      ap latest_failed status
      ∙ unfinished-latest_failed first open_first
          (first_finished-Holds IsDated (of_database org database) db.jobs dated) in
    (not_ready_iff r).1 (
      drill,
      critical_lem r
          ∙ ap (λ b. b || (has_fail r.dimensions || is_invalidated r.drift_status)) last_failed,
    )
