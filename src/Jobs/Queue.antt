-- ===== src/Jobs/Queue.antt =====
-- Which job `claimNext` selects, and that the runner it answers has the job to itself.
use mathlib.Core.Option.{some-injective, none-ne-some}
use mathlib.Core.Bool.{false≢true}
use mathlib.Core.Path.{subst}
use revenant_cloud.Base.{
  ℕ, ◌≤◌, String, ◌≡◌, refl, sym, ap, ◌∙◌, Bool, true, false, ◌&&◌, Option, none, some, List, [],
  ◌∷◌, All, Any, is_some, if-elim, ◌↔◌, leb, leb→le, filter, ==_iff, Bool-cases, inl, inr, arith,
  find,
}
use revenant_cloud.Store.{
  Result, ok, failed, Job, JobStatus, pending, is_pending, Metadata, Store, DatabaseRow,
  database_by, joins,
}
use revenant_cloud.Jobs.{assert_supported_mode}
use revenant_cloud.Jobs.Steps.{find-All}
use revenant_cloud.Jobs.Claim.{
  RunnerAuth, stub_auth, org_auth, in_scope, Claimed, pending_id, claim_update, returned,
  claim_next, claim_with, claim_job, claim_on, claim_guards, next_pending, claimable, oldest, older,
  payload_of,
}
use revenant_cloud.Jobs.Exclusion.{Taken, Taken-Statement, claim_update-Taken, Taken-claim_update}
use revenant_cloud.Jobs.Statements.{Statements, Statements-keep}

abbrev claimed_id : Result (Option Claimed) → Option ℕ
claimed_id (ok (some c)) = some c.job.id
claimed_id _ = none

-- The answer names a job that is taken in the store that the call leaves.
abbrev Holds : Result (Option Claimed) × Store → Type 0
Holds r = (id : ℕ) → claimed_id r.0 ≡ some id → Taken id r.1.jobs

every : (jobs : List Job) → All {0, 0} (λ job. Unit) jobs
every [] = tt
every (job ∷ jobs) = (tt, every jobs)

module _ (secret : ℕ → Option String) (now : ℕ) (db : Store) (auth : RunnerAuth) where
  claim_on-Holds :
      (job : Job) (d : DatabaseRow) (r : Result Unit) (found : Option Job)
      → find (pending_id job.id) db.jobs ≡ found
      → Holds (claim_on secret now db auth job d r)
  claim_on-Holds job d (failed e) found f id h = absurd (none-ne-some id h)
  claim_on-Holds job d (ok u) none f id h =
      absurd (none-ne-some id (rw (f, returned, payload_of, claimed_id) at h))
  claim_on-Holds job d (ok u) (some row) f id h =
      let named : row.id ≡ id = some-injective row.id id (rw f at h) in
      let passes : pending_id job.id row ≡ true =
        (find-All (λ j. Unit) (pending_id job.id) db.jobs row (every db.jobs) f).1 in
      let same : job.id ≡ id = sym ((==_iff row.id job.id).0 (ground arith)) ∙ named in
      subst (λ k. Taken k (claim_update now auth job.metadata job.id db.jobs).1) same
        (claim_update-Taken now auth job.metadata job.id db.jobs row f)

  claim_found-Holds :
      (job : Job) (found : Option DatabaseRow)
      → database_by job.database_id db ≡ found
      → Holds (claim_job secret now db auth (some job))
  claim_found-Holds job none e id h = absurd (none-ne-some id (rw (e, claim_job) at h))
  claim_found-Holds job (some d) e id h =
      rw (e, claim_job)
        (claim_on-Holds job d (assert_supported_mode d) (find (pending_id job.id) db.jobs) refl id
          (rw (e, claim_job) at h))

  claim_job-Holds : (next : Option Job) → Holds (claim_job secret now db auth next)
  claim_job-Holds none id h = absurd (none-ne-some id h)
  claim_job-Holds (some job) id h = claim_found-Holds job (database_by job.database_id db) refl id h

  claim_with-Holds : (r : Result Unit) → Holds (claim_with secret now db auth r)
  claim_with-Holds (failed e) id h = absurd (none-ne-some id h)
  claim_with-Holds (ok u) id h = claim_job-Holds (next_pending db auth) id h

-- A runner that `claimNext` hands a job has it to itself: whatever statements other calls send after
-- that, no claim by any runner gets this job any more.
pub claim_next-exclusive :
    (secret : ℕ → Option String) (now later : ℕ) (db : Store) (auth other : RunnerAuth)
    (reread : Metadata) (jobs' : List Job) (c : Claimed)
    → (claim_next secret now db auth).0 ≡ ok (some c)
    → Statements (claim_next secret now db auth).1.jobs jobs'
    → (claim_update later other reread c.job.id jobs').0 ≡ none
unfolding claim_next
claim_next-exclusive secret now later db auth other reread jobs' c e steps =
    Taken-claim_update later other reread c.job.id jobs'
      (Statements-keep (Taken c.job.id) (Taken-Statement c.job.id)
        (claim_next secret now db auth).1.jobs jobs' steps
        (claim_with-Holds secret now db auth (claim_guards now db auth) c.job.id
          (ap claimed_id e))).1

-- The first of the jobs that pass a test: none passes, or it passes and none that passes is older.
abbrev IsFirst : (Job → Bool) → List Job → Option Job → Type 0
IsFirst test jobs none = All (λ job. test job ≡ false) jobs
IsFirst test jobs (some first) =
    (test first ≡ true) × All (λ job. test job ≡ true → first.created_at ≤ job.created_at) jobs

All-map :
    (P Q : Job → Type 0)
    → ((job : Job) → P job → Q job)
    → (jobs : List Job) → All P jobs
    → All Q jobs
All-map P Q f [] h = tt
All-map P Q f (job ∷ jobs) h = (f job h.0, All-map P Q f jobs h.1)

older-IsFirst :
    (test : Job → Bool) (job : Job) (jobs : List Job) (later : Option Job)
    → test job ≡ true
    → IsFirst test jobs later
    → IsFirst test (job ∷ jobs) (some (older job later))
older-IsFirst test job jobs none t h = (
  t,
  (
    (λ _. omega arith),
    All-map (λ j. test j ≡ false) (λ j. test j ≡ true → job.created_at ≤ j.created_at)
        (λ j f p. absurd (false≢true (sym f ∙ p))) jobs h,
  ),
)
older-IsFirst test job jobs (some first) t h =
    elim (Bool-cases (leb job.created_at first.created_at)) [
      | inl l ↦
          subst (λ f. IsFirst test (job ∷ jobs) (some f)) (sym (rw (l, older) refl))
            (
              t,
              (
                (λ _. omega arith),
                All-map (λ j. test j ≡ true → first.created_at ≤ j.created_at)
                    (λ j. test j ≡ true → job.created_at ≤ j.created_at)
                    (λ j k p. omega (arith, k p, leb→le job.created_at first.created_at l)) jobs
                    h.1,
              ),
            )
      | inr g ↦
          subst (λ f. IsFirst test (job ∷ jobs) (some f)) (sym (rw (g, older) refl))
            (h.0, ((λ _. ground arith), h.1))
    ]

skip-IsFirst :
    (test : Job → Bool) (job : Job) (jobs : List Job) (first : Option Job)
    → test job ≡ false
    → IsFirst test jobs first
    → IsFirst test (job ∷ jobs) first
skip-IsFirst test job jobs none f h = (f, h)
skip-IsFirst test job jobs (some first) f h = (h.0, ((λ t. absurd (false≢true (sym f ∙ t))), h.1))

oldest-IsFirst :
    (test : Job → Bool) (jobs : List Job) → IsFirst test jobs (oldest (filter test jobs))
oldest-IsFirst test [] = tt
oldest-IsFirst test (job ∷ jobs) = elim (Bool-cases (test job)) [
  | inl t ↦
      rw t (older-IsFirst test job jobs (oldest (filter test jobs)) t (oldest-IsFirst test jobs))
  | inr f ↦
      rw f (skip-IsFirst test job jobs (oldest (filter test jobs)) f (oldest-IsFirst test jobs))
]

IsMember : List Job → Option Job → Type 0
IsMember jobs none = Unit
IsMember jobs (some job) = Any (λ j. j ≡ job) jobs

older-IsMember :
    (job : Job) (jobs : List Job) (later : Option Job)
    → IsMember jobs later
    → IsMember (job ∷ jobs) (some (older job later))
unfolding IsMember
older-IsMember job jobs none h = inl refl
older-IsMember job jobs (some other) h =
    if-elim (λ f. Any (λ j. j ≡ f) (job ∷ jobs)) (leb job.created_at other.created_at) job other
      (λ t. inl refl) (λ f. inr h)

wider-IsMember :
    (job : Job) (jobs : List Job) (found : Option Job)
    → IsMember jobs found
    → IsMember (job ∷ jobs) found
unfolding IsMember
wider-IsMember job jobs none h = tt
wider-IsMember job jobs (some other) h = inr h

oldest-IsMember : (test : Job → Bool) (jobs : List Job) → IsMember jobs (oldest (filter test jobs))
unfolding IsMember
oldest-IsMember test [] = tt
oldest-IsMember test (job ∷ jobs) = elim (Bool-cases (test job)) [
  | inl t ↦ rw t (older-IsMember job jobs (oldest (filter test jobs)) (oldest-IsMember test jobs))
  | inr f ↦ rw f (wider-IsMember job jobs (oldest (filter test jobs)) (oldest-IsMember test jobs))
]

-- A runner of an organization sees the jobs of its own database, and the stub sees all.
abbrev pub Visible : RunnerAuth → Job → Type 0
Visible stub_auth job = Unit
Visible (org_auth org runner database kind) job =
    (job.organization_id ≡ org) × (job.database_id ≡ database)

abbrev pub IsClaimable : Store → RunnerAuth → Job → Type 0
IsClaimable db auth job =
    (job.status ≡ pending) × Visible auth job × (is_some (database_by job.database_id db) ≡ true)

pending_iff : (status : JobStatus) → (is_pending status ≡ true) ↔ (status ≡ pending)
pending_iff status = (λ h. ground arith, λ h. rw h refl)

scope_iff : (auth : RunnerAuth) (job : Job) → (in_scope auth job ≡ true) ↔ Visible auth job
scope_iff stub_auth job = (λ _. tt, λ _. refl)
scope_iff (org_auth org runner database kind) job =
    (λ h. (ground arith, ground arith), λ (a, b). ground arith)

three : (a b c : Bool) → ((a && b) && c) ≡ true → (a ≡ true) × (b ≡ true) × (c ≡ true)
three true true true h = (refl, refl, refl)
three true true false h = absurd (false≢true h)
three true false c h = absurd (false≢true h)
three false b c h = absurd (false≢true h)

claimable-IsClaimable :
    (db : Store) (auth : RunnerAuth) (job : Job)
    → claimable db auth job ≡ true
    → IsClaimable db auth job
claimable-IsClaimable db auth job h =
    let (p, v, d) = three (is_pending job.status) (in_scope auth job) (joins db job) h in
    ((pending_iff job.status).0 p, (scope_iff auth job).0 v, d)

IsClaimable-claimable :
    (db : Store) (auth : RunnerAuth) (job : Job)
    → IsClaimable db auth job
    → claimable db auth job ≡ true
IsClaimable-claimable db auth job (p, v, d) =
    rw ((pending_iff job.status).1 p, (scope_iff auth job).1 v, d) refl

-- No job of the table is claimable, or this one is a claimable row of it and none of them is older.
abbrev pub IsSelected : Store → RunnerAuth → Option Job → Type 0
IsSelected db auth none = All (λ job. IsClaimable db auth job → ⊥) db.jobs
IsSelected db auth (some first) =
    Any (λ job. job ≡ first) db.jobs
    × IsClaimable db auth first
    × All (λ job. IsClaimable db auth job → first.created_at ≤ job.created_at) db.jobs

selected :
    (db : Store) (auth : RunnerAuth) (found : Option Job)
    → IsMember db.jobs found
    → IsFirst (claimable db auth) db.jobs found
    → IsSelected db auth found
unfolding IsMember
selected db auth none m h =
    All-map (λ job. claimable db auth job ≡ false) (λ job. IsClaimable db auth job → ⊥)
      (λ job f c. false≢true (sym f ∙ IsClaimable-claimable db auth job c)) db.jobs h
selected db auth (some first) m (t, h) = (
  m,
  claimable-IsClaimable db auth first t,
  All-map (λ job. claimable db auth job ≡ true → first.created_at ≤ job.created_at)
      (λ job. IsClaimable db auth job → first.created_at ≤ job.created_at)
      (λ job k c. k (IsClaimable-claimable db auth job c)) db.jobs h,
)

-- `claimNext` selects a row that is pending, that the runner may see (of its organization and its
-- database) and whose database is there, such that no other of these is older; it selects none exactly
-- where there is none.
pub next_pending-IsSelected :
    (db : Store) (auth : RunnerAuth) → IsSelected db auth (next_pending db auth)
next_pending-IsSelected db auth =
    selected db auth (next_pending db auth) (oldest-IsMember (claimable db auth) db.jobs)
      (oldest-IsFirst (claimable db auth) db.jobs)
