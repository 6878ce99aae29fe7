-- ===== src/Points/Deletion.antt =====
-- The deletion of a snapshot: `deleteSnapshot`, `getById` and `loadDatabase` of
-- apps/api/src/services/recovery-points.service.ts. What AWS answers is an argument.
use revenant_cloud.Base.{
  ℕ, ◌≡◌, refl, String, Bool, true, false, not, ◌&&◌, Option, none, some, find, ◌==◌, ◌===◌,
  if◌then◌else◌, truthy, is_some, Bool-cases, inl, inr,
}
use revenant_cloud.Store.{
  Result, ok, failed, and_then, app_error, ensure, DatabaseRow, Store, database_by, own_database,
  update_where,
}
use revenant_cloud.Jobs.{is_aws}
use revenant_cloud.Points.{PointRow, PointStore, is_legacy, as_deleted}

-- The answer to the question for the snapshot: the type of the one that is there, none, the error that
-- it is unknown, or another error.
pub data Inspection : Type 0 where
  holds : Option String → Inspection
  empty : Inspection
  not_found : Inspection
  broken : Inspection

abbrev pub own_point : ℕ → ℕ → Store → PointRow → Bool
own_point org id db p =
    p.id == id && p.organization_id == org && is_some (database_by p.database_id db)

abbrev pub found_point : Option PointRow → Result PointRow
found_point none = failed (app_error 404 "NOT_FOUND")
found_point (some p) = ok p

-- `getById`
abbrev pub point_by_id : ℕ → ℕ → PointStore → Result PointRow
point_by_id org id st = found_point (find (own_point org id st.main) st.points)

abbrev pub usable : DatabaseRow → Bool
usable d = is_aws d && truthy d.region

abbrev pub loaded : Option DatabaseRow → Result DatabaseRow
loaded none = failed (app_error 404 "NOT_FOUND")
loaded (some d) = if usable d then ok d else failed (app_error 400 "INVALID_RECOVERY_MODE")

-- `loadDatabase`
abbrev pub load_database : ℕ → ℕ → Store → Result DatabaseRow
load_database org database db = loaded (own_database database org db)

abbrev pub mark_deleted : ℕ → ℕ → PointStore → PointStore
mark_deleted now id st = record st {
  points = update_where (λ (p : PointRow). p.id == id) (as_deleted now) st.points;
}

abbrev pub delete_answered : ℕ → ℕ → Result Unit → PointStore → Result Bool × PointStore
delete_answered now id (failed e) st = (failed (app_error 502 "AWS_SNAPSHOT_DELETE_FAILED"), st)
delete_answered now id (ok u) st = (ok true, mark_deleted now id st)

abbrev pub is_manual : Option String → Bool
is_manual none = false
is_manual (some kind) = kind === "manual"

-- What follows the inspection, with the answer to the deletion, which is sent for a manual snapshot.
abbrev pub inspected : ℕ → ℕ → Result Unit → Inspection → PointStore → Result Bool × PointStore
inspected now id answer (holds kind) st =
    if is_manual kind then delete_answered now id answer st else (ok false, st)
inspected now id answer empty st = (ok true, mark_deleted now id st)
inspected now id answer not_found st = (ok true, mark_deleted now id st)
inspected now id answer broken st = (failed (app_error 502 "AWS_SNAPSHOT_LOOKUP_FAILED"), st)

abbrev pub delete_guards : ℕ → ℕ → Result Unit → PointStore → Result Unit
delete_guards org id credentials st = and_then (point_by_id org id st) (λ p.
    and_then
      (ensure (not (is_legacy p.snapshot_identifier))
        (app_error 409 "SNAPSHOT_IDENTIFIER_REQUIRED"))
      (λ _. and_then (load_database org p.database_id st.main) (λ _. credentials)))

abbrev pub delete_guarded :
    ℕ → ℕ → Inspection → Result Unit → Result Unit → PointStore → Result Bool × PointStore
delete_guarded now id inspection answer (failed e) st = (failed e, st)
delete_guarded now id inspection answer (ok u) st = inspected now id answer inspection st

-- `deleteSnapshot`; the answer is `deletedFromAws`.
unfoldable pub delete_rds_snapshot :
    ℕ → ℕ → ℕ → Result Unit → Inspection → Result Unit → PointStore → Result Bool × PointStore
delete_rds_snapshot now org id credentials inspection answer st =
    delete_guarded now id inspection answer (delete_guards org id credentials st) st

-- What AWS has told of the snapshot when a point may be marked: that it is gone, or that it deletes it.
abbrev pub Gone : Inspection → Result Unit → Type 0
Gone (holds kind) answer = (is_manual kind ≡ true) × (answer ≡ ok tt)
Gone empty answer = Unit
Gone not_found answer = Unit
Gone broken answer = ⊥

abbrev pub IsAnswered :
    ℕ → ℕ → Inspection → Result Unit → PointStore → Result Bool × PointStore → Type 0
IsAnswered now id inspection answer before (failed e, after) = after ≡ before
IsAnswered now id inspection answer before (ok false, after) = after ≡ before
IsAnswered now id inspection answer before (ok true, after) =
    (after ≡ mark_deleted now id before) × Gone inspection answer

delete_answered-IsAnswered :
    (now id : ℕ) (kind : Option String) (answer : Result Unit) (st : PointStore)
    → is_manual kind ≡ true
    → IsAnswered now id (holds kind) answer st (delete_answered now id answer st)
delete_answered-IsAnswered now id kind (failed e) st m = refl
delete_answered-IsAnswered now id kind (ok u) st m = (refl, (m, refl))

inspected-IsAnswered :
    (now id : ℕ) (answer : Result Unit) (inspection : Inspection) (st : PointStore)
    → IsAnswered now id inspection answer st (inspected now id answer inspection st)
inspected-IsAnswered now id answer (holds kind) st = elim (Bool-cases (is_manual kind)) [
  | inl m ↦ rw m (delete_answered-IsAnswered now id kind answer st m)
  | inr f ↦ rw f refl
]
inspected-IsAnswered now id answer empty st = (refl, tt)
inspected-IsAnswered now id answer not_found st = (refl, tt)
inspected-IsAnswered now id answer broken st = refl

guarded-IsAnswered :
    (now id : ℕ) (inspection : Inspection) (answer guards : Result Unit) (st : PointStore)
    → IsAnswered now id inspection answer st (delete_guarded now id inspection answer guards st)
guarded-IsAnswered now id inspection answer (failed e) st = refl
guarded-IsAnswered now id inspection answer (ok u) st =
    inspected-IsAnswered now id answer inspection st

-- Where `deleteSnapshot` answers true, it marked the row of the point as deleted and changed nothing
-- else, and AWS had no such snapshot or has accepted the deletion of a manual one. Where it answers
-- false or throws, nothing changed.
pub delete_rds_snapshot-IsAnswered :
    (now org id : ℕ) (credentials : Result Unit) (inspection : Inspection) (answer : Result Unit)
    (st : PointStore)
    → IsAnswered now id inspection answer st
        (delete_rds_snapshot now org id credentials inspection answer st)
unfolding delete_rds_snapshot
delete_rds_snapshot-IsAnswered now org id credentials inspection answer st =
    guarded-IsAnswered now id inspection answer (delete_guards org id credentials st) st
