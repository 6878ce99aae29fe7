-- ===== src/Jobs/Tests.antt =====
-- The jobs service on a small store.
use revenant_cloud.Base.{ℕ, String, ◌≡◌, refl, Option, none, some, List, [], ◌∷◌, map, arith}
use revenant_cloud.Store.{
  ok, failed, app_error, Job, JobStatus, pending, pass, manual, full_drill, no_metadata,
  DatabaseRow, Organization, Store, has_id, update_where,
}
use revenant_cloud.Contract.{default_contract}
use revenant_cloud.Readiness.{ReadinessInput, compute, not_ready}
use revenant_cloud.Readiness.LastJob.{last_job, unfinished-not_ready}
use revenant_cloud.Jobs.{CreateInput, full, available, create, new_job}
use revenant_cloud.Jobs.Claim.{
  RunnerAuth, org_auth, stub_auth, RunnerKind, Claimed, claim_next, claim_payload, claimed,
  claim_update, pending_id,
}
use revenant_cloud.Jobs.Finish.{
  CompleteInput, FinalStatus, complete, completed, cancel, cancelled_at,
}
use revenant_cloud.Limits.{assert_subscription_active, assert_parallel_drills}
use revenant_cloud.Jobs.Operations.{Operations, more, creates, claims, cancels, uncleans}
use revenant_cloud.Jobs.Dates.{AllWellDated, Operations-AllWellDated}
use revenant_cloud.Jobs.Finality.{Lasts, finished-Lasts}
use revenant_cloud.Jobs.Services.{run_challenge, record_cleanup_failure}
use revenant_cloud.Jobs.Occupancy.{WithinLimits, Operations-WithinLimits}
use revenant_cloud.Jobs.Statements.{done, then, withdraws}
use revenant_cloud.Jobs.Queue.{IsSelected, claim_next-exclusive, next_pending-IsSelected}

abbrev shop : Organization
shop = record { id = 1; plan = "pro"; subscription_status = "active"; trial_ends_at = none }

abbrev orders : DatabaseRow
orders = record {
  id = 7;
  organization_id = 1;
  engine = "postgres";
  recovery_mode = "direct";
  recovery_drills_enabled = "true";
  recovery_max_lifetime_minutes = some 60;
  recovery_use_freetier = "false";
  recovery_sandbox_instance_class = none;
  recovery_cleanup_customer_snapshots = "false";
  rds_source_identifier = none;
  region = none;
}

abbrev store : List Job → Store
store rows = record {
  organizations = shop ∷ [];
  databases = orders ∷ [];
  jobs = rows;
  job_results = [];
  recovery_points = [];
  validation_plans = record { organization_id = 1; database_id = 7 } ∷ [];
  schedules = [];
  users = [];
  webhook_endpoints = [];
  redis_resources = [];
}

abbrev request : CreateInput
request = record { database_id = 7; drill_kind = full; recovery_point_id = none }

abbrev runner : RunnerAuth
runner = org_auth 1 5 7 RunnerKind.agent

abbrev no_secret : ℕ → Option String
no_secret id = none

abbrev queued : Job
queued = new_job 11 500 1 7 full_drill (some 3) no_metadata

abbrev passed : Job
passed = record (new_job 10 100 1 7 manual (some 3) no_metadata) {
  status = pass;
  finished_at = some 400;
}

abbrev good : CompleteInput
good = record {
  status = FinalStatus.pass;
  error_message = none;
  rto_seconds = some 42;
  execution_mode = none;
  results = [];
}

statuses : List Job → List JobStatus
statuses rows = map (λ (j : Job). j.status) rows

created :
    ((create 500 11 (store []) 1 3 request (ok available)).0 ≡ ok queued)
    × ((create 500 11 (store []) 2 3 request (ok available)).0 ≡ failed (app_error 404 "NOT_FOUND"))
    × ((create 500 14 (store (queued ∷ queued ∷ queued ∷ [])) 1 3 request (ok available)).0
        ≡ failed (app_error 403 "PLAN_LIMIT"))
    × (statuses (create 2000000 14 (store (queued ∷ [])) 1 3 request (ok available)).1.jobs
        ≡ JobStatus.error ∷ pending ∷ [])
unfolding create statuses
created = (refl, refl, refl, refl)

finished :
    (statuses (complete 900 (store (queued ∷ [])) 11 good (some stub_auth)).1.jobs ≡ pass ∷ [])
    × ((complete 900 (store (passed ∷ [])) 10 good none).0
        ≡ failed (app_error 409 "JOB_ALREADY_FINISHED"))
    × ((cancel 900 (store (passed ∷ [])) 1 10).0 ≡ failed (app_error 409 "JOB_ALREADY_FINISHED"))
unfolding complete cancel statuses
finished = (refl, refl, refl)

-- A completion that read the job before it was cancelled overwrites the cancellation.
late_completion :
    statuses (
      update_where
        (has_id 11)
        (completed 900 good (some runner) queued)
        (cancel 800 (store (queued ∷ [])) 1 11).1.jobs)
    ≡ pass ∷ []
unfolding cancel statuses
late_completion = refl

-- An agent of another database of the organization can complete the job.
other_agent :
    statuses
      (complete 900 (store (queued ∷ [])) 11 good (some (org_auth 1 6 8 RunnerKind.agent))).1.jobs
    ≡ pass ∷ []
unfolding complete statuses
other_agent = refl

finished-Lasts_example :
    Lasts 10 passed
      (record_cleanup_failure 950
        (cancel 900 (claim_next no_secret 800 (store (passed ∷ queued ∷ [])) runner).1 1 11).1
        1
        10
        "cleanup"
        "still there").jobs
finished-Lasts_example =
    let a = store (passed ∷ queued ∷ []) in
    let b = (claim_next no_secret 800 a runner).1 in
    let c = (cancel 900 b 1 11).1 in
    finished-Lasts 10 passed a (record_cleanup_failure 950 c 1 10 "cleanup" "still there") refl
      (more a c (record_cleanup_failure 950 c 1 10 "cleanup" "still there")
        (more a b c (more a a b (Operations.none a) (claims no_secret 800 a runner))
          (cancels 900 b 1 11))
        (uncleans 950 c 1 10 "cleanup" "still there"))
      (refl, ((λ h. refl), ((λ h. ground arith), tt)))

-- A challenge starts a drill, and one that passed is failed by its cleanup.
other_services :
    (statuses
        (run_challenge 500 12
          (store (passed ∷ []))
          1
          3
          (some (record { organization_id = 1; database_id = 7 }))).1.jobs
      ≡ pass ∷ pending ∷ [])
    × (statuses
          (record_cleanup_failure 900
            (store (passed ∷ queued ∷ []))
            1
            10
            "cleanup"
            "still there").jobs
        ≡ JobStatus.fail ∷ pending ∷ [])
unfolding run_challenge assert_subscription_active assert_parallel_drills statuses
other_services = (refl, refl)

two_operations : (b : Store) × Operations (store []) b
two_operations =
    let a = store [] in
    let b = (create 500 11 a 1 3 request (ok available)).1 in
    let c = (claim_next no_secret 800 b runner).1 in
    (
      c,
      more a b c (more a a b (Operations.none a) (creates 500 11 a 1 3 request (ok available) refl))
          (claims no_secret 800 b runner),
    )

Operations-WithinLimits_example :
    WithinLimits
      (claim_next no_secret 800 (create 500 11 (store []) 1 3 request (ok available)).1 runner).1
unfolding two_operations
Operations-WithinLimits_example =
    Operations-WithinLimits (store [])
      (claim_next no_secret 800 (create 500 11 (store []) 1 3 request (ok available)).1 runner).1
      two_operations.1 (λ org n l. omega arith)

Operations-AllWellDated_example :
    AllWellDated
      (claim_next no_secret 800 (create 500 11 (store []) 1 3 request (ok available)).1 runner).1
unfolding two_operations
Operations-AllWellDated_example =
    Operations-AllWellDated (store [])
      (claim_next no_secret 800 (create 500 11 (store []) 1 3 request (ok available)).1 runner).1
      two_operations.1 tt

abbrev taken_jobs : List Job
taken_jobs = update_where (pending_id 11) (claimed 800 runner no_metadata) (queued ∷ [])

abbrev withdrawn : List Job
withdrawn = update_where (has_id 11) (cancelled_at 850) taken_jobs

abbrev handed : Claimed
handed = claim_payload no_secret runner no_metadata orders (claimed 800 runner no_metadata queued)

claim_next-exclusive_example : (claim_update 900 stub_auth no_metadata 11 withdrawn).0 ≡ none
unfolding claim_next
claim_next-exclusive_example =
    claim_next-exclusive no_secret 800 900 (store (queued ∷ [])) runner stub_auth no_metadata
      withdrawn handed refl
      (then taken_jobs taken_jobs withdrawn (done taken_jobs) (withdraws 850 11 taken_jobs))

next_pending-IsSelected_example : IsSelected (store (passed ∷ queued ∷ [])) runner (some queued)
next_pending-IsSelected_example = next_pending-IsSelected (store (passed ∷ queued ∷ [])) runner

abbrev reading : ReadinessInput
reading = record {
  contract = default_contract;
  dimensions = [];
  drift_status = none;
  drift_summary = none;
  last_verified_at = some "2026-07-01T00:00:00.000Z";
  latest_drill_status = some "pending";
  latest_drill_at = none;
  rto_actual_seconds = none;
  rpo_observed_seconds = none;
}

-- A workflow whose last finished drill passed, with the next one queued.
unfinished-not_ready_example : (compute reading).status ≡ not_ready
unfolding last_job
unfinished-not_ready_example =
    unfinished-not_ready (store (passed ∷ queued ∷ [])) 1 7 reading refl
      ((λ h. ground arith), ((λ h. refl), tt)) refl refl
