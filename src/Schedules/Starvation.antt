-- ===== src/Schedules/Starvation.antt =====
-- Schedules whose drills cannot be created keep the others from running.
use mathlib.Core.Path.{subst}
use revenant_cloud.Base.{ℕ, ◌≡◌, refl, sym, ap, ◌∙◌, List, [], ◌∷◌, All}
use revenant_cloud.Store.{AppError, Result, failed, Store}
use revenant_cloud.Jobs.{AwsState, database_guards, create_from_schedule}
use revenant_cloud.Schedules.{
  ScheduleRow, ScheduleStore, NextRun, StartDrill, RowOrder, select_due, as_store, ran_on, run_row,
  run_rows, tick,
}

-- The workflow fails the guards of a drill: it is gone, its mode is not supported, its drills are
-- switched off, or its lifetime is above the limit.
abbrev pub IsBlocked : Store → ScheduleRow → Type 0
IsBlocked db r = (e : AppError) × (database_guards db r.organization_id r.database_id ≡ failed e)

still-IsBlocked :
    (a b : Store) (rows : List ScheduleRow)
    → b.databases ≡ a.databases
    → All (IsBlocked a) rows
    → All (IsBlocked b) rows
still-IsBlocked a b [] same h = tt
still-IsBlocked a b (r ∷ rows) same ((e, refused), h) = (
  (
    e,
    ap (λ ds. database_guards (record a { databases = ds }) r.organization_id r.database_id) same
        ∙ refused,
  ),
  still-IsBlocked a b rows same h,
)

module _ (new_id : ℕ → ℕ) (answer : ℕ → ℕ → Result AwsState) (next : NextRun) where
  -- The jobs service, by the identifiers that new jobs get and what AWS answers, at each time.
  abbrev pub start_drill : StartDrill
  start_drill now org database db =
      create_from_schedule now (new_id now) db org database (answer now database)

  blocked_start :
      (now org database : ℕ) (db : Store) (e : AppError)
      → database_guards db org database ≡ failed e
      → start_drill now org database db ≡ (failed e, db)
  unfolding create_from_schedule
  blocked_start now org database db e h = rw h refl

  run_row-same :
      (now : ℕ) (row : ScheduleRow) (st : ScheduleStore)
      → IsBlocked st.main row
      → run_row start_drill next now row st ≡ record { rows = st.rows; main = as_store st }
  run_row-same now row st (e, b) =
      ap (ran_on next now row st.rows)
        (blocked_start now row.organization_id row.database_id (as_store st) e b)

  -- A run of blocked schedules changes neither the schedules nor the databases.
  run_rows-same :
      (now : ℕ) (rows : List ScheduleRow) (st : ScheduleStore)
      → All (IsBlocked st.main) rows
      → let after = run_rows start_drill next now rows st in
        (after.rows ≡ st.rows) × (after.main.databases ≡ st.main.databases)
  run_rows-same now [] st h = (refl, refl)
  run_rows-same now (row ∷ rows) st (b, h) =
      let step = ap (run_rows start_drill next now rows) (run_row-same now row st b) in
      let (same, kept) = run_rows-same now rows (record { rows = st.rows; main = as_store st }) h in
      (
        ap (λ (v : ScheduleStore). v.rows) step ∙ same,
        ap (λ (v : ScheduleStore). v.main.databases) step ∙ kept,
      )

  abbrev pub ticks : RowOrder → List ℕ → ScheduleStore → ScheduleStore
  ticks order [] st = st
  ticks order (now ∷ times) st = ticks order times (tick order start_drill next now st)

  -- As long as the query of the poll, which asks for 20 of the due schedules in no order, keeps answering
  -- schedules whose workflows fail the guards of a drill (because drills were switched off, say), no tick
  -- changes any schedule: these stay due, and the others do not run. The order of the rows, identifiers,
  -- the answers of AWS and the cron library are arbitrary.
  pub ticks-starved :
      (order : RowOrder) (times : List ℕ) (stuck : List ScheduleRow) (st : ScheduleStore)
      → All (IsBlocked st.main) stuck
      → All (λ now. select_due order now st.rows ≡ stuck) times
      → (ticks order times st).rows ≡ st.rows
  unfolding tick
  ticks-starved order [] stuck st blocked selected = refl
  ticks-starved order (now ∷ times) stuck st blocked (first, selected) =
      let picked = ap (λ rows. run_rows start_drill next now rows st) first in
      let (same, kept) = run_rows-same now stuck st blocked in
      let after = tick order start_drill next now st in
      let unmoved : after.rows ≡ st.rows = ap (λ (v : ScheduleStore). v.rows) picked ∙ same in
      ticks-starved order times stuck after
        (still-IsBlocked st.main after.main stuck
          (ap (λ (v : ScheduleStore). v.main.databases) picked ∙ kept) blocked)
        (subst (λ rows. All (λ at. select_due order at rows ≡ stuck) times) (sym unmoved) selected)
      ∙ unmoved
