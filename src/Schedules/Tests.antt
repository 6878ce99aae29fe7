-- ===== src/Schedules/Tests.antt =====
-- Twenty schedules of workflows whose drills are switched off, and one that could run.
use revenant_cloud.Base.{ℕ, ◌+◌, ◌≡◌, refl, String, none, some, List, [], ◌∷◌, ◌++◌, map, All}
use revenant_cloud.Store.{AppError, Result, ok, app_error, DatabaseRow, Organization, Store}
use revenant_cloud.Schedules.{RowOrder, ScheduleRow, ScheduleStore, NextRun, tick}
use revenant_cloud.Schedules.Starvation.{IsBlocked, ticks, ticks-starved}
use revenant_cloud.Jobs.{AwsState, available, create_from_schedule}

abbrev switches : String → ℕ → DatabaseRow
switches text id = record {
  id = id;
  organization_id = 1;
  engine = "postgres";
  recovery_mode = "aws-rds";
  recovery_drills_enabled = text;
  recovery_max_lifetime_minutes = some 60;
  recovery_use_freetier = "false";
  recovery_sandbox_instance_class = none;
  recovery_cleanup_customer_snapshots = "false";
  rds_source_identifier = none;
  region = none;
}

abbrev ids : List ℕ
ids = 1 ∷ 2 ∷ 3 ∷ 4 ∷ 5 ∷ 6 ∷ 7 ∷ 8 ∷ 9 ∷ 10 ∷ 11 ∷ 12 ∷ 13 ∷ 14 ∷ 15 ∷ 16 ∷ 17 ∷ 18 ∷ 19 ∷ 20 ∷ []

abbrev agency : Organization
agency = record { id = 1; plan = "pro"; subscription_status = "active"; trial_ends_at = none }

abbrev main_store : Store
main_store = record {
  organizations = agency ∷ [];
  databases = map (switches "false") ids ++ switches "true" 21 ∷ [];
  jobs = [];
  job_results = [];
  recovery_points = [];
  validation_plans = record { organization_id = 1; database_id = 21 } ∷ [];
  schedules = [];
  users = [];
  webhook_endpoints = [];
  redis_resources = [];
}

abbrev nightly : ℕ → ScheduleRow
nightly id = record {
  id = id;
  organization_id = 1;
  database_id = id;
  name = "nightly";
  cron_expression = "0 2 * * *";
  timezone = "UTC";
  enabled = "true";
  last_run_at = none;
  next_run_at = some 100;
  updated_at = 0;
}

abbrev stuck_rows : List ScheduleRow
stuck_rows = map nightly ids

abbrev crowded : ScheduleStore
crowded = record { rows = stuck_rows ++ nightly 21 ∷ []; main = main_store }

abbrev alone : ScheduleStore
alone = record { rows = nightly 21 ∷ []; main = main_store }

abbrev daily : NextRun
daily cron zone at = ok (at + 86400)

abbrev job_id : ℕ → ℕ
job_id now = now

abbrev aws : ℕ → ℕ → Result AwsState
aws now database = ok available

-- An order that PostgreSQL may choose.
abbrev as_stored : RowOrder
as_stored now rows = rows

-- On its own the last schedule runs, and is due again a day later.
alone_runs :
    (map
      (λ (r : ScheduleRow). r.next_run_at)
      (ticks job_id aws daily as_stored (200 ∷ []) alone).rows)
    ≡ some 86600 ∷ []
unfolding tick create_from_schedule
alone_runs = refl

abbrev off : AppError
off = app_error 409 "RECOVERY_DRILLS_DISABLED"

stuck_rows-IsBlocked : All (IsBlocked main_store) stuck_rows
stuck_rows-IsBlocked = (
  (off, refl),
  (
    (off, refl),
    (
      (off, refl),
      (
        (off, refl),
        (
          (off, refl),
          (
            (off, refl),
            (
              (off, refl),
              (
                (off, refl),
                (
                  (off, refl),
                  (
                    (off, refl),
                    (
                      (off, refl),
                      (
                        (off, refl),
                        (
                          (off, refl),
                          (
                            (off, refl),
                            (
                              (off, refl),
                              (
                                (off, refl),
                                ((off, refl), ((off, refl), ((off, refl), ((off, refl), tt)))),
                              ),
                            ),
                          ),
                        ),
                      ),
                    ),
                  ),
                ),
              ),
            ),
          ),
        ),
      ),
    ),
  ),
)

ticks-starved_example :
    (ticks job_id aws daily as_stored (200 ∷ 260 ∷ []) crowded).rows ≡ stuck_rows ++ nightly 21 ∷ []
ticks-starved_example =
    ticks-starved job_id aws daily as_stored (200 ∷ 260 ∷ []) stuck_rows crowded
      stuck_rows-IsBlocked (refl, (refl, tt))
