-- ===== src/Limits/Reaping.antt =====
-- The reaping of stale drills: `reapStaleRestoreDrills`.
use mathlib.Core.Bool.{false≢true}
use revenant_cloud.Base.{
  if-elim, Option, some, none, ℕ, suc, ◌+◌, ◌≤◌, ◌≡◌, refl, sym, Bool, true, false, List, [], ◌∷◌,
  All, count, Bool-cases, inl, inr, arith, if◌then◌else◌,
}
use revenant_cloud.Store.{Job, JobStatus, Store, update_where}
use revenant_cloud.Limits.{
  reap_stale_drills, reap_pending, reap_running, stale_pending, stale_running, active_in,
  count_active_drills, reaped, pending_message, running_message,
}

Freed : Bool → Bool → Bool → Type 0
Freed t before after = (t ≡ true → (before ≡ true) × (after ≡ false)) × (t ≡ false → before ≡ after)

Freed-count :
    (t before after : Bool) (m n k : ℕ)
    → Freed t before after
    → m + k ≡ n
    → (if after then suc m else m) + (if t then suc k else k) ≡ (if before then suc n else n)
unfolding Freed
Freed-count true true true m n k h e = absurd (false≢true (sym (h.0 refl).1))
Freed-count true true false m n k h e = omega (arith, e)
Freed-count true false after m n k h e = absurd (false≢true (h.0 refl).0)
Freed-count false true true m n k h e = omega (arith, e)
Freed-count false true false m n k h e = absurd (false≢true (sym (h.1 refl)))
Freed-count false false true m n k h e = absurd (false≢true (h.1 refl))
Freed-count false false false m n k h e = e

-- An update of active drills that ends them takes their number from that of the active drills.
count-update_where :
    (org : ℕ) (test : Job → Bool) (set : Job → Job)
    → ((job : Job)
        → test job ≡ true
        → (active_in org job ≡ true) × (active_in org (set job) ≡ false))
    → (jobs : List Job)
    → count (active_in org) (update_where test set jobs) + count test jobs
      ≡ count (active_in org) jobs
unfolding Freed
count-update_where org test set ends [] = refl
count-update_where org test set ends (job ∷ jobs) = elim (Bool-cases (test job)) [
  | inl t ↦ rw t (
      Freed-count true (active_in org job) (active_in org (set job))
        (count (active_in org) (update_where test set jobs)) (count (active_in org) jobs)
        (count test jobs) ((λ _. ends job t), (λ f. absurd (false≢true (sym f))))
        (count-update_where org test set ends jobs))
  | inr f ↦ rw f (
      Freed-count false (active_in org job) (active_in org job)
        (count (active_in org) (update_where test set jobs)) (count (active_in org) jobs)
        (count test jobs) ((λ t. absurd (false≢true t)), (λ _. refl))
        (count-update_where org test set ends jobs))
]

-- The number that the reaping reports is by how much the organization's queued and running drills
-- become fewer.
pub reap_stale_drills-count :
    (now : ℕ) (db : Store) (org : ℕ)
    → count_active_drills (reap_stale_drills now db org).1 org + (reap_stale_drills now db org).0
      ≡ count_active_drills db org
unfolding reap_stale_drills
reap_stale_drills-count now db org =
    let late =
      count-update_where org (stale_running now org) (reaped running_message now)
        (λ job t. (ground arith, ground arith)) (reap_pending now org db.jobs) in
    let early =
      count-update_where org (stale_pending now org) (reaped pending_message now)
        (λ job t. (ground arith, ground arith)) db.jobs in
    omega (arith, late, early)

-- Neither of the two updates applies.
abbrev pub Unmarked : ℕ → ℕ → Job → Type 0
Unmarked now org job = (stale_pending now org job ≡ false) × (stale_running now org job ≡ false)

row-Unmarked :
    (now org : ℕ) (job : Job)
    → stale_pending now org job ≡ false
    → Unmarked now org (if stale_running now org job then reaped running_message now job else job)
row-Unmarked now org job p =
    if-elim (Unmarked now org) (stale_running now org job) (reaped running_message now job) job
      (λ t. (ground arith, ground arith)) (λ f. (p, f))

no_longer_pending :
    (now org : ℕ) (job : Job)
    → stale_pending now org
        (if stale_pending now org job then reaped pending_message now job else job)
      ≡ false
no_longer_pending now org job =
    if-elim (λ j. stale_pending now org j ≡ false) (stale_pending now org job)
      (reaped pending_message now job) job (λ t. ground arith) (λ f. f)

reaped-Unmarked :
    (now org : ℕ) (jobs : List Job)
    → All (Unmarked now org) (reap_running now org (reap_pending now org jobs))
reaped-Unmarked now org [] = tt
reaped-Unmarked now org (job ∷ jobs) = (
  row-Unmarked now org (if stale_pending now org job then reaped pending_message now job else job)
      (no_longer_pending now org job),
  reaped-Unmarked now org jobs,
)

reap_stale_drills-Unmarked :
    (now : ℕ) (db : Store) (org : ℕ) → All (Unmarked now org) (reap_stale_drills now db org).1.jobs
unfolding reap_stale_drills
reap_stale_drills-Unmarked now db org = reaped-Unmarked now org db.jobs

-- How long a drill may go on: 30 minutes in the queue, two hours when running, in milliseconds. A running
-- one counts from its start, or from its creation where it has none.
abbrev pub Lasts : ℕ → JobStatus → Option ℕ → ℕ → Type 0
Lasts now JobStatus.pending started created = now ≤ created + 1800000
Lasts now JobStatus.running (some started) created = now ≤ started + 7200000
Lasts now JobStatus.running none created = now ≤ created + 7200000
Lasts now _ started created = Unit

abbrev pub IsFresh : ℕ → ℕ → Job → Type 0
IsFresh now org job = job.organization_id ≡ org → Lasts now job.status job.started_at job.created_at

Unmarked-IsFresh :
    (now org : ℕ) (job : Job) (status : JobStatus) (started : Option ℕ)
    → job.status ≡ status
    → job.started_at ≡ started
    → Unmarked now org job
    → job.organization_id ≡ org
    → Lasts now status started job.created_at
Unmarked-IsFresh now org job JobStatus.pending started s t (p, r) own = ground (arith, p, s, own)
Unmarked-IsFresh now org job JobStatus.running (some at) s t (p, r) own =
    ground (arith, r, s, t, own)
Unmarked-IsFresh now org job JobStatus.running none s t (p, r) own = ground (arith, r, s, t, own)
Unmarked-IsFresh now org job JobStatus.pass started s t h own = tt
Unmarked-IsFresh now org job JobStatus.fail started s t h own = tt
Unmarked-IsFresh now org job JobStatus.error started s t h own = tt
Unmarked-IsFresh now org job JobStatus.cancelled started s t h own = tt

each-IsFresh :
    (now org : ℕ) (jobs : List Job) → All (Unmarked now org) jobs → All (IsFresh now org) jobs
each-IsFresh now org [] h = tt
each-IsFresh now org (job ∷ jobs) (u, h) = (
  Unmarked-IsFresh now org job job.status job.started_at refl refl u,
  each-IsFresh now org jobs h,
)

-- After the reaping no drill of the organization is stale: none has been pending for over 30 minutes,
-- and none running for over two hours since it started or, without a start, since it was created.
pub reap_stale_drills-IsFresh :
    (now : ℕ) (db : Store) (org : ℕ) → All (IsFresh now org) (reap_stale_drills now db org).1.jobs
reap_stale_drills-IsFresh now db org =
    each-IsFresh now org (reap_stale_drills now db org).1.jobs
      (reap_stale_drills-Unmarked now db org)
