-- ===== src/Points/Backed.antt =====
-- After a discovery, the active points have their snapshots at AWS, and no other point is deleted.
use revenant_cloud.Base.{
  Any, ◌⊎◌, Option, none, some, ℕ, ◌≡◌, String, Bool, true, false, not, ◌&&◌, ◌||◌, List, [], ◌∷◌,
  filter, any, All, if◌then◌else◌,
}
use revenant_cloud.Store.{Result, ok, failed, DatabaseRow, Job}
use revenant_cloud.Points.{
  eligible, or_else, verification_started, legacy_missing, Candidate, PointRow, PointStore,
  list_snapshots, is_legacy, reported, tracked, exact_missing, as_deleted, upsert_points,
  is_available, find_missing, find_missing_legacy,
}
use revenant_cloud.Points.Named.{Named}

-- AWS had a snapshot that was available when the verification started, if it is known when.
abbrev pub backed_at : List Candidate → Option ℕ → Bool
backed_at snapshots none = false
backed_at snapshots (some at) = any (eligible at) snapshots

-- A point is for the snapshot with its name, or, with a name of the old form, for one that was there when
-- its verification started.
abbrev pub has_snapshot : ℕ → List Job → List Candidate → PointRow → Bool
has_snapshot org jobs snapshots p =
    if is_legacy p.snapshot_identifier
    then backed_at snapshots
        (or_else (verification_started org jobs p.last_verification_job_id) p.last_verified_at)
    else reported snapshots p.snapshot_identifier

-- A point of the database that is active has a snapshot.
abbrev pub IsBacked : ℕ → ℕ → List Job → List Candidate → PointRow → Type 0
IsBacked org database jobs snapshots p =
    (not (tracked org database p) || has_snapshot org jobs snapshots p) ≡ true

-- The point, or the point marked as deleted, where a row with its identifier is active and has no
-- snapshot.
abbrev pub Swept :
    ℕ → ℕ → ℕ → List Job → List Candidate → List PointRow → PointRow → PointRow → Type 0
Swept now org database jobs snapshots points p q =
    (q ≡ p)
    ⊎ ((q ≡ as_deleted now p)
        × Any
            (λ r.
              (r.id ≡ p.id)
              × (tracked org database r ≡ true)
              × (has_snapshot org jobs snapshots r ≡ false))
            points)

-- Row by row.
abbrev pub Rows : (PointRow → PointRow → Type 0) → List PointRow → List PointRow → Type 0
Rows R [] [] = Unit
Rows R (p ∷ ps) (q ∷ qs) = R p q × Rows R ps qs
Rows R _ _ = ⊥

module _ (now org database : ℕ) (jobs : List Job) (snapshots : List Candidate) where
  abbrev exact : PointRow → Bool
  exact p = tracked org database p && exact_missing snapshots p

  abbrev old : PointRow → Bool
  old p =
      (tracked org database p && is_legacy p.snapshot_identifier)
      && legacy_missing org jobs snapshots p

  abbrev verified_at : PointRow → Option ℕ
  verified_at p =
      or_else (verification_started org jobs p.last_verification_job_id) p.last_verified_at

  abbrev exact_ids : List PointRow → List ℕ
  exact_ids points = find_missing (filter (tracked org database) points) snapshots

  abbrev old_ids : List PointRow → List ℕ
  old_ids points =
      find_missing_legacy org jobs
        (filter (λ (q : PointRow). is_legacy q.snapshot_identifier)
          (filter (tracked org database) points))
        snapshots

  abbrev Lacks : PointRow → PointRow → Type 0
  Lacks p r =
      (r.id ≡ p.id) × (tracked org database r ≡ true) × (has_snapshot org jobs snapshots r ≡ false)

abbrev pub answered : Result (List Candidate) → List Candidate
answered (failed e) = []
answered (ok pages) = list_snapshots [] pages

-- The points once those of the available snapshots were added or made active.
abbrev pub listed_points :
    ℕ → ℕ → DatabaseRow → (String → ℕ) → List Candidate → PointStore → List PointRow
listed_points now org d new_id snapshots st =
    upsert_points now org d new_id (filter is_available snapshots) st.points

-- What a call leaves, by what it answered, for the table that it found.
abbrev pub Reconciled :
    ℕ
    → ℕ
    → DatabaseRow
    → (String → ℕ)
    → List Candidate
    → PointStore
    → Result Unit × PointStore
    → Type 0
Reconciled now org d new_id snapshots before (failed e, after) = after ≡ before
Reconciled now org d new_id snapshots before (ok u, after) =
    All (IsBacked org d.id before.main.jobs snapshots) after.points
    × Rows
        (Swept now org d.id before.main.jobs snapshots
          (listed_points now org d new_id snapshots before))
        (listed_points now org d new_id snapshots before) after.points
