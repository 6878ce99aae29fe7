-- ===== src/Jobs/Finish.antt =====
-- How a job ends: `complete` and `cancel`, and the reads of one organization
-- (apps/api/src/services/jobs.service.ts). The `update` of both names the row by its id alone.
use revenant_cloud.Base.{
  ℕ, String, Bool, false, not, ◌&&◌, Option, none, some, List, [], ◌++◌, map, ◌==◌, if◌then◌else◌,
  find, filter,
}
use revenant_cloud.Store.{
  Result, ok, failed, app_error, Job, JobStatus, cancelled, ExecutionMode, Check, JobResult, Store,
  is_active, update_where, has_id, joins,
}
use revenant_cloud.Jobs.Claim.{RunnerAuth, org_auth, auth_mode}

pub data FinalStatus : Type 0 where
  pass fail error : FinalStatus

abbrev pub status_of : FinalStatus → JobStatus
status_of FinalStatus.pass = JobStatus.pass
status_of FinalStatus.fail = JobStatus.fail
status_of FinalStatus.error = JobStatus.error

pub record ResultInput : Type 0 where
  pub check : Check
  pub duration_ms : Option ℕ

pub record CompleteInput : Type 0 where
  pub status : FinalStatus
  pub error_message : Option String
  pub rto_seconds : Option ℕ
  pub execution_mode : Option ExecutionMode
  pub results : List ResultInput

abbrev pub or_else {ℓ} : {A : Type ℓ} → Option A → Option A → Option A
or_else none b = b
or_else (some a) b = some a

abbrev pub mode_of : Option RunnerAuth → Option ExecutionMode
mode_of none = none
mode_of (some auth) = some (auth_mode auth)

abbrev pub started_or : Option ℕ → ℕ → ℕ
started_or none now = now
started_or (some t) now = t

-- What the `update` of `complete` sets. `selected` is the row as it was read.
abbrev pub completed : ℕ → CompleteInput → Option RunnerAuth → Job → Job → Job
completed now input auth selected job = record job {
  status = status_of input.status;
  error_message = input.error_message;
  rto_seconds = input.rto_seconds;
  execution_mode = or_else input.execution_mode (or_else selected.execution_mode (mode_of auth));
  finished_at = some now;
  updated_at = now;
  started_at = some (started_or selected.started_at now);
}

abbrev pub result_row : Job → ResultInput → JobResult
result_row job r = record {
  organization_id = job.organization_id;
  job_id = job.id;
  check = r.check;
  duration_ms = r.duration_ms;
}

-- `auth.organizationId` is not the job's: an agent of another organization.
abbrev pub foreign : Option RunnerAuth → Job → Bool
foreign (some (org_auth org runner database kind)) job = not (job.organization_id == org)
foreign _ job = false

abbrev pub finish : (Job → Job) → List ResultInput → Store → ℕ → Job → Result Job × Store
finish set results db id job = (
  ok (set job),
  record db {
    jobs = update_where (has_id id) set db.jobs;
    job_results = db.job_results ++ map (result_row job) results;
  },
)

abbrev pub complete_on :
    ℕ → Store → ℕ → CompleteInput → Option RunnerAuth → Option Job → Result Job × Store
complete_on now db id input auth none = (failed (app_error 404 "NOT_FOUND"), db)
complete_on now db id input auth (some job) =
    if foreign auth job
    then (failed (app_error 404 "NOT_FOUND"), db)
    else if not (is_active job.status)
    then (failed (app_error 409 "JOB_ALREADY_FINISHED"), db)
    else finish (completed now input auth job) input.results db id job

abbrev pub joined_id : Store → ℕ → Job → Bool
joined_id db id job = has_id id job && joins db job

unfoldable pub complete : ℕ → Store → ℕ → CompleteInput → Option RunnerAuth → Result Job × Store
complete now db id input auth = complete_on now db id input auth (find (joined_id db id) db.jobs)

-- What the `update` of `cancel` sets.
abbrev pub cancelled_at : ℕ → Job → Job
cancelled_at now job = record job {
  status = cancelled;
  error_message = some "Cancelled from the dashboard";
  finished_at = some now;
  updated_at = now;
}

abbrev pub cancel_on : ℕ → Store → ℕ → Option Job → Result Job × Store
cancel_on now db id none = (failed (app_error 404 "NOT_FOUND"), db)
cancel_on now db id (some job) =
    if not (is_active job.status)
    then (failed (app_error 409 "JOB_ALREADY_FINISHED"), db)
    else finish (cancelled_at now) [] db id job

abbrev pub own_job : Store → ℕ → ℕ → Job → Bool
own_job db org id job = joined_id db id job && (job.organization_id == org)

unfoldable pub cancel : ℕ → Store → ℕ → ℕ → Result Job × Store
cancel now db org id = cancel_on now db id (find (own_job db org id) db.jobs)

abbrev pub found_job : Option Job → Result Job
found_job none = failed (app_error 404 "NOT_FOUND")
found_job (some job) = ok job

-- `getById`: the job and its results.
unfoldable pub get_by_id : Store → ℕ → ℕ → Result (Job × List JobResult)
get_by_id db org id = elim (found_job (find (own_job db org id) db.jobs)) [
  | failed e ↦ failed e
  | ok job ↦ ok (job, filter (λ r. r.job_id == id) db.job_results)
]

abbrev pub organization_of : Option Job → Result ℕ
organization_of none = failed (app_error 404 "NOT_FOUND")
organization_of (some job) = ok job.organization_id

unfoldable pub get_organization_id : Store → ℕ → Result ℕ
get_organization_id db id = organization_of (find (has_id id) db.jobs)
