-- ===== src/Jobs/Dates.antt =====
-- The dates of a job agree with its status.
use mathlib.Core.Bool.{false≢true}
use revenant_cloud.Base.{ℕ, ◌≡◌, refl, sym, ◌∙◌, true, false, none, List, All, arith, is_some}
use revenant_cloud.Store.{Job, Store, is_active, is_running, has_id, unfinished, pending}
use revenant_cloud.Limits.{reap_pending, stale_pending, stale_running}
use revenant_cloud.Jobs.Steps.{
  update_where-All, complete-keeps, cancel-keeps, update_progress-keeps, claim_next-keeps,
}
use revenant_cloud.Jobs.Inserts.{create-keeps, create_from_schedule-keeps, reaped_jobs}
use revenant_cloud.Jobs.Claim.{pending_id, running_id, claimed, progressed}
use revenant_cloud.Jobs.Finish.{FinalStatus, status_of, completed, cancelled_at}
use revenant_cloud.Jobs.Finality.{All-append}
use revenant_cloud.Jobs.Services.{run_challenge-keeps, uncleaned, uncleaned_id}
use revenant_cloud.Jobs.Operations.{
  Operation, Operations, Operations-keep, creates, schedules, claims, reports, completes, cancels,
  challenges, uncleans,
}

-- The finish time is missing exactly while the job is pending or running, and a running job has a
-- start time.
abbrev pub WellDated : Job → Type 0
WellDated job =
    (unfinished job ≡ is_active job.status)
    × (is_running job.status ≡ true → is_some job.started_at ≡ true)

abbrev pub AllWellDated : Store → Type 0
AllWellDated db = All WellDated db.jobs

status_ended :
    (f : FinalStatus) → (is_active (status_of f) ≡ false) × (is_running (status_of f) ≡ false)
status_ended FinalStatus.pass = (refl, refl)
status_ended FinalStatus.fail = (refl, refl)
status_ended FinalStatus.error = (refl, refl)

WellDated-reaped :
    (now org : ℕ) (jobs : List Job) → All WellDated jobs → All WellDated (reaped_jobs now org jobs)
WellDated-reaped now org jobs h =
    update_where-All WellDated (stale_running now org) _
      (λ job t d. (refl, (λ r. absurd (false≢true r)))) (reap_pending now org jobs)
      (update_where-All WellDated (stale_pending now org) _
        (λ job t d. (refl, (λ r. absurd (false≢true r)))) jobs h)

WellDated-new : (job : Job) → (job.status ≡ pending) × (job.finished_at ≡ none) → WellDated job
WellDated-new job (s, f) = (rw (s, f) refl, rw s (λ r. absurd (false≢true r)))

WellDated-Operation : (a b : Store) → Operation a b → AllWellDated a → AllWellDated b
WellDated-Operation _ _ (creates now id db org user input answer fresh) h =
    create-keeps AllWellDated now id db org user input answer h (WellDated-reaped now org db.jobs h)
      (λ job e o st l. All-append WellDated db.jobs job h (WellDated-new job st))
      (λ job n e o st l room.
        All-append WellDated (reaped_jobs now org db.jobs) job (WellDated-reaped now org db.jobs h)
          (WellDated-new job st))
WellDated-Operation _ _ (schedules now id db org database answer fresh) h =
    create_from_schedule-keeps AllWellDated now id db org database answer h
      (WellDated-reaped now org db.jobs h)
      (λ job e o st l. All-append WellDated db.jobs job h (WellDated-new job st))
      (λ job n e o st l room.
        All-append WellDated (reaped_jobs now org db.jobs) job (WellDated-reaped now org db.jobs h)
          (WellDated-new job st))
WellDated-Operation _ _ (claims secret now db auth) h =
    claim_next-keeps AllWellDated secret now db auth h (λ selected id.
      update_where-All WellDated (pending_id id) (claimed now auth selected)
        (λ job t d. (d.0 ∙ ground arith, (λ r. refl))) db.jobs h)
WellDated-Operation _ _ (reports now db id input auth) h =
    update_progress-keeps AllWellDated now db id input auth h (λ selected.
      update_where-All WellDated (running_id id) (progressed now input selected) (λ job t d. d)
        db.jobs h)
WellDated-Operation _ _ (completes now db id input auth) h =
    complete-keeps AllWellDated now db id input auth h (λ found e active.
      update_where-All WellDated (has_id id) (completed now input auth found)
        (λ job t d. (sym (status_ended input.status).0, (λ r. refl))) db.jobs h)
WellDated-Operation _ _ (challenges now id db org user found fresh) h =
    run_challenge-keeps AllWellDated now id db org user found h (WellDated-reaped now org db.jobs h)
      (λ job e o st l. All-append WellDated db.jobs job h (WellDated-new job st))
      (λ job n e o st l room.
        All-append WellDated (reaped_jobs now org db.jobs) job (WellDated-reaped now org db.jobs h)
          (WellDated-new job st))
WellDated-Operation _ _ (uncleans now db org id check message) h =
    update_where-All WellDated (uncleaned_id id) (uncleaned now message)
      (λ job t d. (refl, (λ r. absurd (false≢true r)))) db.jobs h
WellDated-Operation _ _ (cancels now db org id) h =
    cancel-keeps AllWellDated now db org id h (λ found e active.
      update_where-All WellDated (has_id id) (cancelled_at now)
        (λ job t d. (refl, (λ r. absurd (false≢true r)))) db.jobs h)

-- Whatever operations run one after the other, a job lacks a finish time exactly while it is pending or
-- running, and a running job has a start time, if this holds at the start.
pub Operations-AllWellDated : (a b : Store) → Operations a b → AllWellDated a → AllWellDated b
Operations-AllWellDated = Operations-keep AllWellDated WellDated-Operation
