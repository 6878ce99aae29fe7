-- ===== src/Jobs/Inserts.antt =====
-- What the creation of a job does to the store: a property of it holds after it if it
-- held before, stale drills can be failed under it, and a job can be added where there is room.
use revenant_cloud.Base.{
  ℕ, String, ◌<◌, ◌≡◌, refl, Option, none, some, List, [], ◌∷◌, ◌++◌, count, ltb, ltb→lt,
  Bool-cases, inl, inr,
}
use revenant_cloud.Store.{
  pending, Result, ok, failed, Job, schedule, no_metadata, Store, with_jobs, ensure,
}
use revenant_cloud.Plans.{OrganizationPlan, plan_limits, get_catalog_plan, parse_organization_plan}
use revenant_cloud.Limits.{
  get_organization_plan, assert_parallel_drills, reap_stale_drills, reap_pending, reap_running,
  room_on, room_under, active_in,
}
use revenant_cloud.Jobs.{
  CreateInput, AwsState, create, create_with, create_guards, create_from_schedule, schedule_with,
  schedule_guards, insert_with_room, new_job, snapshot_metadata, trigger_of,
}

abbrev pub limit_on : Result OrganizationPlan → Option ℕ
limit_on (failed e) = none
limit_on (ok plan) = (plan_limits plan).parallel_restore_drills

-- How many drills the plan of an organization lets run at once.
unfoldable pub drill_limit : Store → ℕ → Option ℕ
unfolding get_catalog_plan parse_organization_plan
drill_limit db org = limit_on (get_organization_plan db org)

-- The table once stale drills have failed.
abbrev pub reaped_jobs : ℕ → ℕ → List Job → List Job
reaped_jobs now org jobs = reap_running now org (reap_pending now org jobs)

module _ (P : Store → Type 0) where
  room_under-keeps :
      (job : Job) (now : ℕ) (db : Store) (org : ℕ) (limit : Option ℕ)
      → P db
      → P (with_jobs db (reaped_jobs now org db.jobs))
      → (limit ≡ none → P (with_jobs db (db.jobs ++ (job ∷ []))))
      → ((n : ℕ)
          → limit ≡ some n
          → count (active_in org) (reaped_jobs now org db.jobs) < n
          → P (with_jobs db (reaped_jobs now org db.jobs ++ (job ∷ []))))
      → P ((insert_with_room job (room_under now db org limit)).1)
  unfolding reap_stale_drills
  room_under-keeps job now db org none p r free room = free refl
  room_under-keeps job now db org (some n) p r free room =
      elim (Bool-cases (ltb (count (active_in org) (reaped_jobs now org db.jobs)) n)) [
        | inl t ↦ rw (t, ensure, insert_with_room) (room n refl (ltb→lt _ _ t))
        | inr f ↦ rw (f, ensure, insert_with_room) r
      ]

  room_on-keeps :
      (job : Job) (now : ℕ) (db : Store) (org : ℕ) (plan : Result OrganizationPlan)
      → P db
      → P (with_jobs db (reaped_jobs now org db.jobs))
      → (limit_on plan ≡ none → P (with_jobs db (db.jobs ++ (job ∷ []))))
      → ((n : ℕ)
          → limit_on plan ≡ some n
          → count (active_in org) (reaped_jobs now org db.jobs) < n
          → P (with_jobs db (reaped_jobs now org db.jobs ++ (job ∷ []))))
      → P ((insert_with_room job (room_on now db org plan)).1)
  unfolding reap_stale_drills
  room_on-keeps job now db org (failed e) p r free room = p
  room_on-keeps job now db org (ok plan) p r free room =
      room_under-keeps job now db org ((plan_limits plan).parallel_restore_drills) p r free room

  pub insert-keeps :
      (job : Job) (now : ℕ) (db : Store) (org : ℕ)
      → P db
      → P (with_jobs db (reaped_jobs now org db.jobs))
      → (drill_limit db org ≡ none → P (with_jobs db (db.jobs ++ (job ∷ []))))
      → ((n : ℕ)
          → drill_limit db org ≡ some n
          → count (active_in org) (reaped_jobs now org db.jobs) < n
          → P (with_jobs db (reaped_jobs now org db.jobs ++ (job ∷ []))))
      → P ((insert_with_room job (assert_parallel_drills now db org)).1)
  unfolding assert_parallel_drills drill_limit
  insert-keeps job now db org = room_on-keeps job now db org (get_organization_plan db org)

  -- After `createFromSchedule`: the table as it was, with stale drills failed, or with one more job
  -- where the plan has room.
  pub create_from_schedule-keeps :
      (now id : ℕ) (db : Store) (org database : ℕ) (answer : Result AwsState)
      → P db
      → P (with_jobs db (reaped_jobs now org db.jobs))
      → ((job : Job)
          → job.id ≡ id
          → job.organization_id ≡ org
          → (job.status ≡ pending) × (job.finished_at ≡ none)
          → drill_limit db org ≡ none
          → P (with_jobs db (db.jobs ++ (job ∷ []))))
      → ((job : Job) (n : ℕ)
          → job.id ≡ id
          → job.organization_id ≡ org
          → (job.status ≡ pending) × (job.finished_at ≡ none)
          → drill_limit db org ≡ some n
          → count (active_in org) (reaped_jobs now org db.jobs) < n
          → P (with_jobs db (reaped_jobs now org db.jobs ++ (job ∷ []))))
      → P ((create_from_schedule now id db org database answer).1)
  unfolding create_from_schedule
  create_from_schedule-keeps now id db org database answer p r free room =
      guarded (schedule_guards now db org database answer)
    where
      guarded : (g : Result Unit) → P ((schedule_with now id db org database g).1)
      guarded (failed e) = p
      guarded (ok u) =
          let job = new_job id now org database schedule none no_metadata in
          insert-keeps job now db org p r (free job refl refl (refl, refl))
            (λ n. room job n refl refl (refl, refl))

  -- After `create`: likewise.
  pub create-keeps :
      (now id : ℕ) (db : Store) (org user : ℕ) (input : CreateInput) (answer : Result AwsState)
      → P db
      → P (with_jobs db (reaped_jobs now org db.jobs))
      → ((job : Job)
          → job.id ≡ id
          → job.organization_id ≡ org
          → (job.status ≡ pending) × (job.finished_at ≡ none)
          → drill_limit db org ≡ none
          → P (with_jobs db (db.jobs ++ (job ∷ []))))
      → ((job : Job) (n : ℕ)
          → job.id ≡ id
          → job.organization_id ≡ org
          → (job.status ≡ pending) × (job.finished_at ≡ none)
          → drill_limit db org ≡ some n
          → count (active_in org) (reaped_jobs now org db.jobs) < n
          → P (with_jobs db (reaped_jobs now org db.jobs ++ (job ∷ []))))
      → P ((create now id db org user input answer).1)
  unfolding create
  create-keeps now id db org user input answer p r free room =
      guarded (create_guards now db org input answer)
    where
      guarded : (g : Result (Option String)) → P ((create_with now id db org user input g).1)
      guarded (failed e) = p
      guarded (ok snapshot) =
          let job =
            new_job id now org input.database_id (trigger_of input.drill_kind) (some user)
              (snapshot_metadata snapshot) in
          insert-keeps job now db org p r (free job refl refl (refl, refl))
            (λ n. room job n refl refl (refl, refl))
