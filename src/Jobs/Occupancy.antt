-- ===== src/Jobs/Occupancy.antt =====
-- No organization has more drills queued or running than its plan lets run at once.
use mathlib.Core.Bool.{false≢true}
use revenant_cloud.Base.{
  if-elim, ℕ, suc, ◌+◌, ◌≤◌, ◌<◌, ◌≡◌, refl, sym, ◌∙◌, Bool, true, false, none, some, List, [], ◌∷◌,
  ◌++◌, count, ◌==◌, Bool-cases, inl, inr, arith, if◌then◌else◌, ==_iff, ◌⊎◌,
}
use mathlib.Core.Path.{subst}
use mathlib.Core.Option.{some-injective, none-ne-some}
use revenant_cloud.Store.{Job, Store, is_active, update_where, with_jobs, has_id}
use revenant_cloud.Limits.{reap_pending, stale_pending, stale_running, active_in}
use revenant_cloud.Jobs.Steps.{
  complete-keeps, cancel-keeps, update_progress-keeps, claim_next-keeps,
}
use revenant_cloud.Jobs.Inserts.{create-keeps, create_from_schedule-keeps, reaped_jobs, drill_limit}
use revenant_cloud.Jobs.Claim.{pending_id, running_id, claimed, progressed}
use revenant_cloud.Jobs.Finish.{FinalStatus, status_of, completed, cancelled_at}
use revenant_cloud.Jobs.Services.{run_challenge-keeps, uncleaned, uncleaned_id}
use revenant_cloud.Jobs.Operations.{
  Operation, Operations, Operations-keep, creates, schedules, claims, reports, completes, cancels,
  challenges, uncleans,
}

-- The limit that the plan of an organization sets, where it sets one, bounds its active drills.
abbrev pub WithinLimit : Store → ℕ → Type 0
WithinLimit db org = (n : ℕ) → drill_limit db org ≡ some n → count (active_in org) db.jobs ≤ n

abbrev pub WithinLimits : Store → Type 0
WithinLimits db = (org : ℕ) → WithinLimit db org

counted_le :
    (p q : Bool) (m n : ℕ)
    → m ≤ n
    → (p ≡ true → q ≡ true)
    → (if p then suc m else m) ≤ (if q then suc n else n)
counted_le true true m n h k = omega arith
counted_le false true m n h k = omega arith
counted_le false false m n h k = h
counted_le true false m n h k = absurd (false≢true (k refl))

-- An update that makes no job active that was not adds no active drill.
count-update_where_le :
    (org : ℕ) (test : Job → Bool) (set : Job → Job)
    → ((job : Job) → test job ≡ true → active_in org (set job) ≡ true → active_in org job ≡ true)
    → (jobs : List Job)
    → count (active_in org) (update_where test set jobs) ≤ count (active_in org) jobs
count-update_where_le org test set keep [] = omega arith
count-update_where_le org test set keep (job ∷ jobs) =
    let rest : count (active_in org) (update_where test set jobs) ≤ count (active_in org) jobs =
      count-update_where_le org test set keep jobs in
    if-elim
      (λ j.
        count (active_in org) (j ∷ update_where test set jobs) ≤ count (active_in org) (job ∷ jobs))
      (test job) (set job) job
      (λ t. counted_le (active_in org (set job)) (active_in org job) _ _ rest (keep job t))
      (λ f. counted_le (active_in org job) (active_in org job) _ _ rest (λ a. a))

count-reaped_le :
    (org now other : ℕ) (jobs : List Job)
    → count (active_in org) (reaped_jobs now other jobs) ≤ count (active_in org) jobs
count-reaped_le org now other jobs =
    let late : count (active_in org) (reaped_jobs now other jobs)
        ≤ count (active_in org) (reap_pending now other jobs) =
      count-update_where_le org (stale_running now other) _ (λ job t a. ground arith)
        (reap_pending now other jobs) in
    let early : count (active_in org) (reap_pending now other jobs) ≤ count (active_in org) jobs =
      count-update_where_le org (stale_pending now other) _ (λ job t a. ground arith) jobs in
    omega (arith, late, early)

count-append :
    (org : ℕ) (jobs : List Job) (job : Job)
    → count (active_in org) (jobs ++ (job ∷ []))
      ≡ count (active_in org) jobs + (if active_in org job then 1 else 0)
count-append org [] job = ground arith
count-append org (j ∷ jobs) job = ground (arith, count-append org jobs job)

-- A job of an organization counts for no other.
counts_for_own :
    (org other : ℕ) (job : Job)
    → job.organization_id ≡ other
    → (org ≡ other) ⊎ (active_in org job ≡ false)
counts_for_own org other job e = elim (Bool-cases (org == other)) [
  | inl t ↦ inl ((==_iff org other).0 t)
  | inr f ↦ inr (ground (arith, e, f))
]

no_count : (b : Bool) → b ≡ false → ◌≡◌ {A = ℕ} (if b then 1 else 0) 0
no_count true f = absurd (false≢true (sym f))
no_count false f = refl

one_le : (b : Bool) → (if b then 1 else 0) ≤ 1
one_le true = omega arith
one_le false = omega arith

-- One more job of an organization that has no limit, or whose limit leaves room.
within_inserted :
    (db : Store) (org other : ℕ) (job : Job) (jobs : List Job)
    → job.organization_id ≡ other
    → ((n : ℕ) → drill_limit db org ≡ some n → count (active_in org) jobs ≤ n)
    → ((n : ℕ) → drill_limit db other ≡ some n → count (active_in other) jobs < n)
    → (n : ℕ) → drill_limit db org ≡ some n
    → count (active_in org) (jobs ++ (job ∷ [])) ≤ n
within_inserted db org other job jobs e within room n l = elim (counts_for_own org other job e) [
  | inl same ↦
      let left : count (active_in org) jobs < n =
        subst (λ o. (n : ℕ) → drill_limit db o ≡ some n → count (active_in o) jobs < n) (sym same)
          room n l in
      omega (arith, count-append org jobs job, one_le (active_in org job), left)
  | inr apart ↦
      let no_more = no_count (active_in org job) apart in
      omega (arith, count-append org jobs job, no_more, within n l)
]

WithinLimits-reaped :
    (now org : ℕ) (db : Store)
    → WithinLimits db
    → WithinLimits (with_jobs db (reaped_jobs now org db.jobs))
unfolding drill_limit
WithinLimits-reaped now org db h other n l =
    omega (arith, count-reaped_le other now org db.jobs, h other n l)

WithinLimits-update :
    (db : Store) (test : Job → Bool) (set : Job → Job)
    → ((org : ℕ) (job : Job)
        → test job ≡ true
        → active_in org (set job) ≡ true
        → active_in org job ≡ true)
    → WithinLimits db
    → (org n : ℕ) → drill_limit db org ≡ some n
    → count (active_in org) (update_where test set db.jobs) ≤ n
WithinLimits-update db test set keep h org n l =
    omega (arith, count-update_where_le org test set (keep org) db.jobs, h org n l)

WithinLimits-free :
    (db : Store) (other : ℕ) (job : Job)
    → job.organization_id ≡ other
    → drill_limit db other ≡ none
    → WithinLimits db
    → WithinLimits (with_jobs db (db.jobs ++ (job ∷ [])))
unfolding drill_limit
WithinLimits-free db other job e free h org =
    within_inserted db org other job db.jobs e (h org)
      (λ n l. absurd (none-ne-some n (sym free ∙ l)))

WithinLimits-room :
    (now : ℕ) (db : Store) (other m : ℕ) (job : Job)
    → job.organization_id ≡ other
    → drill_limit db other ≡ some m
    → count (active_in other) (reaped_jobs now other db.jobs) < m
    → WithinLimits db
    → WithinLimits (with_jobs db (reaped_jobs now other db.jobs ++ (job ∷ [])))
unfolding drill_limit
WithinLimits-room now db other m job e limit room h org =
    within_inserted db org other job (reaped_jobs now other db.jobs) e
      (WithinLimits-reaped now other db h org)
      (λ n l. let same : m ≡ n = some-injective m n (sym limit ∙ l) in omega (arith, same, room))

status_of_final : (f : FinalStatus) → is_active (status_of f) ≡ false
status_of_final FinalStatus.pass = refl
status_of_final FinalStatus.fail = refl
status_of_final FinalStatus.error = refl

WithinLimits-Operation : (a b : Store) → Operation a b → WithinLimits a → WithinLimits b
unfolding drill_limit
WithinLimits-Operation _ _ (creates now new db org user input answer fresh) h =
    create-keeps WithinLimits now new db org user input answer h (WithinLimits-reaped now org db h)
      (λ job i e st l. WithinLimits-free db org job e l h)
      (λ job m i e st l room. WithinLimits-room now db org m job e l room h)
WithinLimits-Operation _ _ (schedules now new db org database answer fresh) h =
    create_from_schedule-keeps WithinLimits now new db org database answer h
      (WithinLimits-reaped now org db h) (λ job i e st l. WithinLimits-free db org job e l h)
      (λ job m i e st l room. WithinLimits-room now db org m job e l room h)
WithinLimits-Operation _ _ (claims secret now db auth) h =
    claim_next-keeps WithinLimits secret now db auth h (λ selected id.
      WithinLimits-update db (pending_id id) (claimed now auth selected)
        (λ org job t a. ground arith) h)
WithinLimits-Operation _ _ (reports now db id input auth) h =
    update_progress-keeps WithinLimits now db id input auth h (λ selected.
      WithinLimits-update db (running_id id) (progressed now input selected) (λ org job t a. a) h)
WithinLimits-Operation _ _ (completes now db id input auth) h =
    complete-keeps WithinLimits now db id input auth h (λ found e active.
      WithinLimits-update db (has_id id) (completed now input auth found)
        (λ org job t a. ground (arith, status_of_final input.status, a)) h)
WithinLimits-Operation _ _ (challenges now new db org user found fresh) h =
    run_challenge-keeps WithinLimits now new db org user found h (WithinLimits-reaped now org db h)
      (λ job i e st l. WithinLimits-free db org job e l h)
      (λ job m i e st l room. WithinLimits-room now db org m job e l room h)
WithinLimits-Operation _ _ (uncleans now db org id check message) h =
    WithinLimits-update db (uncleaned_id id) (uncleaned now message) (λ o job t a. ground arith) h
WithinLimits-Operation _ _ (cancels now db org id) h =
    cancel-keeps WithinLimits now db org id h (λ found e active.
      WithinLimits-update db (has_id id) (cancelled_at now) (λ o job t a. ground arith) h)

-- As long as operations run one after the other, no organization comes to have more drills queued or
-- running than its plan allows, if none has at the start.
pub Operations-WithinLimits : (a b : Store) → Operations a b → WithinLimits a → WithinLimits b
Operations-WithinLimits = Operations-keep WithinLimits WithinLimits-Operation
