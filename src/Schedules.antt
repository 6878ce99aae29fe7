-- ===== src/Schedules.antt =====
-- Schedules (apps/api/src/services/schedules.service.ts) and their poll
-- (apps/api/src/scheduler/poll-schedules.ts). The next time of a cron expression
-- (apps/api/src/lib/cron.ts) is a library's, and an argument: it takes the expression, the time zone and
-- the time to start from, and may throw. `createFromSchedule` of the jobs service is an argument of
-- the poll. The due rows come in an order
-- that PostgreSQL does not promise, which is an argument too.
pub mod Starvation
mod Tests
use revenant_cloud.Base.{
  ℕ, ◌+◌, String, Bool, true, false, not, ◌&&◌, ◌||◌, Option, none, some, get_or, List, [], ◌∷◌,
  ◌++◌, map, take, filter, find, any, leb, ◌==◌, ◌===◌, if◌then◌else◌,
}
use revenant_cloud.Plans.{schedules}
use revenant_cloud.Store.{
  AppError, Result, ok, failed, and_then, app_error, ensure, Job, OfDatabase, Store, update_where,
}
use revenant_cloud.Limits.{assert_plan_limit}
use revenant_cloud.Jobs.{plan_saved}

pub record ScheduleRow : Type 0 where
  pub id : ℕ
  pub organization_id : ℕ
  pub database_id : ℕ
  pub name : String
  pub cron_expression : String
  pub timezone : String
  pub enabled : String
  pub last_run_at : Option ℕ
  pub next_run_at : Option ℕ
  pub updated_at : ℕ

pub record ScheduleStore : Type 0 where
  pub rows : List ScheduleRow
  pub main : Store

abbrev pub NextRun : Type 0
NextRun = String → String → ℕ → Result ℕ

abbrev pub database_of : ScheduleRow → OfDatabase
database_of r = record { organization_id = r.organization_id; database_id = r.database_id }

-- The store that the other services read, with the rows of the schedules.
abbrev pub as_store : ScheduleStore → Store
as_store st = record st.main { schedules = map database_of st.rows }

pub record ScheduleInput : Type 0 where
  pub database_id : ℕ
  pub name : String
  pub cron_expression : String
  pub timezone : String
  pub enabled : Bool

abbrev pub scheduled : ℕ → ℕ → ScheduleRow → Bool
scheduled database org r = (r.database_id == database) && (r.organization_id == org)

abbrev pub enabled_text : Bool → String
enabled_text true = "true"
enabled_text false = "false"

abbrev pub next_if : NextRun → Bool → String → String → ℕ → Result (Option ℕ)
next_if next true cron zone now = and_then (next cron zone now) (λ at. ok (some at))
next_if next false cron zone now = ok none

abbrev pub scheduling_guards : ScheduleStore → ℕ → ℕ → Result Unit
scheduling_guards st org database = and_then (assert_plan_limit (as_store st) org schedules) (λ _.
    and_then (ensure (plan_saved st.main org database) (app_error 400 "NO_VALIDATION_PLAN"))
      (λ _. ensure (not (any (scheduled database org) st.rows)) (app_error 409 "SCHEDULE_EXISTS")))

abbrev pub new_schedule : ℕ → ℕ → ℕ → ScheduleInput → Option ℕ → ScheduleRow
new_schedule now id org input next = record {
  id = id;
  organization_id = org;
  database_id = input.database_id;
  name = input.name;
  cron_expression = input.cron_expression;
  timezone = input.timezone;
  enabled = enabled_text input.enabled;
  last_run_at = none;
  next_run_at = next;
  updated_at = now;
}

-- The insert; the unique index on the database refuses a second row with PostgreSQL's code.
abbrev pub insert_schedule : ScheduleRow → ScheduleStore → Result ScheduleRow × ScheduleStore
insert_schedule row st =
    if any (λ r. r.database_id == row.database_id) st.rows
    then (failed (app_error 500 "23505"), st)
    else (ok row, record st { rows = st.rows ++ row ∷ [] })

abbrev pub insert_on :
    ℕ
    → ℕ
    → ℕ
    → ScheduleInput
    → Result (Option ℕ)
    → ScheduleStore
    → Result ScheduleRow × ScheduleStore
insert_on now id org input (failed e) st = (failed e, st)
insert_on now id org input (ok next) st = insert_schedule (new_schedule now id org input next) st

-- `create`
unfoldable pub create_schedule :
    NextRun → ℕ → ℕ → ℕ → ScheduleInput → ScheduleStore → Result ScheduleRow × ScheduleStore
create_schedule next now id org input st =
    insert_on now id org input
      (and_then (scheduling_guards st org input.database_id)
        (λ _. next_if next input.enabled input.cron_expression input.timezone now))
      st

pub record SchedulePatch : Type 0 where
  pub name : Option String
  pub cron_expression : Option String
  pub timezone : Option String
  pub enabled : Option Bool

abbrev pub own_schedule : ℕ → ℕ → ScheduleRow → Bool
own_schedule id org r = (r.id == id) && (r.organization_id == org)

abbrev pub patched_enabled : Option Bool → String → String
patched_enabled none text = text
patched_enabled (some b) text = enabled_text b

abbrev pub patched : ℕ → SchedulePatch → Option ℕ → ScheduleRow → ScheduleRow
patched now patch next r = record r {
  name = get_or patch.name r.name;
  cron_expression = get_or patch.cron_expression r.cron_expression;
  timezone = get_or patch.timezone r.timezone;
  enabled = patched_enabled patch.enabled r.enabled;
  next_run_at = next;
  updated_at = now;
}

abbrev pub next_after : NextRun → ℕ → SchedulePatch → ScheduleRow → Result (Option ℕ)
next_after next now patch r =
    next_if next (get_or patch.enabled (r.enabled === "true"))
      (get_or patch.cron_expression r.cron_expression) (get_or patch.timezone r.timezone) now

abbrev pub patch_on :
    ℕ → ℕ → ℕ → SchedulePatch → Result (Option ℕ) → ScheduleStore → Result Unit × ScheduleStore
patch_on now id org patch (failed e) st = (failed e, st)
patch_on now id org patch (ok next) st = (
  ok tt,
  record st { rows = update_where (own_schedule id org) (patched now patch next) st.rows },
)

abbrev pub found_schedule : Option ScheduleRow → Result ScheduleRow
found_schedule none = failed (app_error 404 "NOT_FOUND")
found_schedule (some r) = ok r

-- `update`
unfoldable pub update_schedule :
    NextRun → ℕ → ℕ → ℕ → SchedulePatch → ScheduleStore → Result Unit × ScheduleStore
update_schedule next now id org patch st =
    patch_on now id org patch
      (and_then (found_schedule (find (own_schedule id org) st.rows)) (next_after next now patch))
      st

-- `remove`
unfoldable pub remove_schedule : ℕ → ℕ → ScheduleStore → Result Unit × ScheduleStore
remove_schedule id org st = (
  ensure (any (own_schedule id org) st.rows) (app_error 404 "NOT_FOUND"),
  record st { rows = filter (λ r. not (own_schedule id org r)) st.rows },
)

abbrev pub reached : ℕ → Option ℕ → Bool
reached now none = false
reached now (some at) = leb at now

-- The rows that a tick selects from.
abbrev pub due : ℕ → ScheduleRow → Bool
due now r = r.enabled === "true" && reached now r.next_run_at

-- `createFromSchedule`, at a time and for an organization and a database.
abbrev pub StartDrill : Type 0
StartDrill = ℕ → ℕ → ℕ → Store → Result Job × Store

abbrev pub ran : ℕ → ℕ → ScheduleRow → ScheduleRow
ran now next r = record r { last_run_at = some now; next_run_at = some next; updated_at = now }

-- The next time is computed after the drill was created; where that throws, the row stays due.
abbrev pub moved : ℕ → ScheduleRow → Result ℕ → ScheduleStore → ScheduleStore
moved now row (failed e) st = st
moved now row (ok next) st = record st {
  rows = update_where (λ r. r.id == row.id) (ran now next) st.rows;
}

abbrev pub ran_on :
    NextRun → ℕ → ScheduleRow → List ScheduleRow → Result Job × Store → ScheduleStore
ran_on next now row rows (failed e, db) = record { rows = rows; main = db }
ran_on next now row rows (ok job, db) =
    moved now row (next row.cron_expression row.timezone now) (record { rows = rows; main = db })

abbrev pub run_row : StartDrill → NextRun → ℕ → ScheduleRow → ScheduleStore → ScheduleStore
run_row start next now row st =
    ran_on next now row st.rows (start now row.organization_id row.database_id (as_store st))

abbrev pub run_rows : StartDrill → NextRun → ℕ → List ScheduleRow → ScheduleStore → ScheduleStore
run_rows start next now [] st = st
run_rows start next now (row ∷ rows) st =
    run_rows start next now rows (run_row start next now row st)

-- The order in which a query at a time gives the rows that it finds.
abbrev pub RowOrder : Type 0
RowOrder = ℕ → List ScheduleRow → List ScheduleRow

-- The query of a tick, which has a limit and no `ORDER BY`.
abbrev pub select_due : RowOrder → ℕ → List ScheduleRow → List ScheduleRow
select_due order now rows = take 20 (order now (filter (due now) rows))

-- `tick`
unfoldable pub tick : RowOrder → StartDrill → NextRun → ℕ → ScheduleStore → ScheduleStore
tick order start next now st = run_rows start next now (select_due order now st.rows) st
