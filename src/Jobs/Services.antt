-- ===== src/Jobs/Services.antt =====
-- What other services do to the table of jobs: `run` of
-- apps/api/src/services/recovery-challenges.service.ts, which inserts a job, and `recordCleanupFailure`
-- of apps/api/src/services/recovery-reconciler.service.ts, which fails a job whose resources in AWS could
-- not be removed, also one that had passed. The row of the challenge that is read is an argument, and
-- its columns for the last run are left out; so is the text of a failure, which is cut at 2000 characters.
use revenant_cloud.Base.{
  ℕ, String, ◌<◌, ◌≡◌, refl, Bool, true, false, ◌&&◌, Option, none, some, [], ◌∷◌, ◌++◌, any, count,
  ◌==◌, ◌===◌, if◌then◌else◌,
}
use revenant_cloud.Store.{
  Result, ok, failed, and_then, app_error, ensure, Job, JobStatus, pass, fail, running, pending,
  challenge, no_metadata, JobResult, Store, OfDatabase, has_id, update_where, with_jobs,
}
use revenant_cloud.Limits.{assert_subscription_active, assert_parallel_drills, active_in}
use revenant_cloud.Jobs.{new_job, insert_with_room}
use revenant_cloud.Jobs.Inserts.{drill_limit, reaped_jobs, insert-keeps}

pub record Challenge : Type 0 where
  pub organization_id : ℕ
  pub database_id : ℕ

abbrev pub found_challenge : Option Challenge → Result Challenge
found_challenge none = failed (app_error 404 "NOT_FOUND")
found_challenge (some c) = ok c

-- The plan is looked for by the database alone.
abbrev pub challenge_guards : ℕ → Store → ℕ → Option Challenge → Result Challenge
challenge_guards now db org found = and_then (found_challenge found) (λ c.
    and_then
      (ensure (any (λ (p : OfDatabase). p.database_id == c.database_id) db.validation_plans)
        (app_error 400 "NO_VALIDATION_PLAN"))
      (λ _. and_then (assert_subscription_active now db org) (λ _. ok c)))

abbrev pub challenge_with : ℕ → ℕ → Store → ℕ → ℕ → Result Challenge → Result Job × Store
challenge_with now id db org user (failed e) = (failed e, db)
challenge_with now id db org user (ok c) =
    insert_with_room (new_job id now org c.database_id challenge (some user) no_metadata)
      (assert_parallel_drills now db org)

-- `run`
unfoldable pub run_challenge : ℕ → ℕ → Store → ℕ → ℕ → Option Challenge → Result Job × Store
run_challenge now id db org user found =
    challenge_with now id db org user (challenge_guards now db org found)

abbrev pub can_fail : JobStatus → Bool
can_fail running = true
can_fail pass = true
can_fail _ = false

abbrev pub uncleaned_id : ℕ → Job → Bool
uncleaned_id id job = has_id id job && can_fail job.status

abbrev pub uncleaned : ℕ → String → Job → Job
uncleaned now message job = record job {
  status = fail;
  error_message = some message;
  finished_at = some now;
  updated_at = now;
}

abbrev pub cleanup_failed : ℕ → String → JobResult → Bool
cleanup_failed id check r =
    r.job_id == id
    && r.check.check_type === "cleanup"
    && r.check.check_name === check
    && r.check.status === "fail"

abbrev pub cleanup_result : ℕ → ℕ → String → String → JobResult
cleanup_result org id check message = record {
  organization_id = org;
  job_id = id;
  check = record {
    check_name = check;
    check_type = "cleanup";
    status = "fail";
    message = some message;
  };
  duration_ms = some 0;
}

-- `recordCleanupFailure`
abbrev pub record_cleanup_failure : ℕ → Store → ℕ → ℕ → String → String → Store
record_cleanup_failure now db org id check message = record db {
  job_results =
      if any (cleanup_failed id check) db.job_results
      then db.job_results
      else db.job_results ++ cleanup_result org id check message ∷ [];
  jobs = update_where (uncleaned_id id) (uncleaned now message) db.jobs;
}

module _ (P : Store → Type 0) where
  -- After `run`: the table as it was, with stale drills failed, or with one more job.
  pub run_challenge-keeps :
      (now id : ℕ) (db : Store) (org user : ℕ) (found : Option Challenge)
      → P db
      → P (with_jobs db (reaped_jobs now org db.jobs))
      → ((job : Job)
          → job.id ≡ id
          → job.organization_id ≡ org
          → (job.status ≡ pending) × (job.finished_at ≡ none)
          → drill_limit db org ≡ none
          → P (with_jobs db (db.jobs ++ (job ∷ []))))
      → ((job : Job) (n : ℕ)
          → job.id ≡ id
          → job.organization_id ≡ org
          → (job.status ≡ pending) × (job.finished_at ≡ none)
          → drill_limit db org ≡ some n
          → count (active_in org) (reaped_jobs now org db.jobs) < n
          → P (with_jobs db (reaped_jobs now org db.jobs ++ (job ∷ []))))
      → P ((run_challenge now id db org user found).1)
  unfolding run_challenge
  run_challenge-keeps now id db org user found p r free room =
      guarded (challenge_guards now db org found)
    where
      guarded : (g : Result Challenge) → P ((challenge_with now id db org user g).1)
      guarded (failed e) = p
      guarded (ok c) =
          let job = new_job id now org c.database_id challenge (some user) no_metadata in
          insert-keeps P job now db org p r (free job refl refl (refl, refl))
            (λ n. room job n refl refl (refl, refl))
