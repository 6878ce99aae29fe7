-- ===== src/Drift.antt =====
-- Recovery drift (apps/api/src/services/recovery-drift.service.ts): the events that a new fingerprint
-- or a new version of the validation plan opens, and their resolution. Of equal times the fingerprint
-- inserted first counts as newer. A fingerprint keeps the two values of its payload that are compared.
pub mod Resolution
mod Tests
use revenant_cloud.Base.{
  ℕ, ◌+◌, String, Bool, true, false, not, ◌&&◌, Option, none, some, List, [], ◌∷◌, ◌++◌, map, take,
  leb, ◌==◌, ◌===◌, if◌then◌else◌, filter, find, count, concat, show, truthy,
}
use revenant_cloud.Contract.{DriftSeverity, minor_drift}
use revenant_cloud.Store.{update_where}

pub record Fingerprint : Type 0 where
  pub id : ℕ
  pub database_id : ℕ
  pub schema_hash : Option String
  pub plan_version : Option ℕ
  pub created_at : ℕ

pub record DriftEvent : Type 0 where
  pub organization_id : ℕ
  pub database_id : ℕ
  pub from_fingerprint : Option ℕ
  pub to_fingerprint : Option ℕ
  pub severity : DriftSeverity
  pub change_type : String
  pub description : String
  pub status : String

pub record DriftStore : Type 0 where
  pub fingerprints : List Fingerprint
  pub events : List DriftEvent

-- `orderBy(desc(createdAt))`
abbrev pub insert_newest : Fingerprint → List Fingerprint → List Fingerprint
insert_newest f [] = f ∷ []
insert_newest f (g ∷ rest) =
    let later = insert_newest f rest in
    if leb g.created_at f.created_at then f ∷ g ∷ rest else g ∷ later

abbrev pub newest_first : List Fingerprint → List Fingerprint
newest_first [] = []
newest_first (f ∷ rest) = insert_newest f (newest_first rest)

abbrev pub latest : ℕ → ℕ → DriftStore → List Fingerprint
latest n database db =
    take n (newest_first (filter (λ f. f.database_id == database) db.fingerprints))

-- A change of the schema's hash, where both are there and not empty.
abbrev pub schema_changed : Option String → Option String → Bool
schema_changed (some a) (some b) = truthy (some a) && truthy (some b) && not (a === b)
schema_changed _ _ = false

abbrev pub plan_changed : Option ℕ → Option ℕ → Bool
plan_changed (some a) (some b) = not (a == b)
plan_changed _ _ = false

abbrev pub open_event : ℕ → ℕ → ℕ → Option ℕ → String → String → DriftEvent
open_event org database from to change description = record {
  organization_id = org;
  database_id = database;
  from_fingerprint = some from;
  to_fingerprint = to;
  severity = minor_drift;
  change_type = change;
  description = description;
  status = "open";
}

abbrev pub schema_events : ℕ → ℕ → Fingerprint → Fingerprint → List DriftEvent
schema_events org database previous current =
    if schema_changed previous.schema_hash current.schema_hash
    then open_event org database previous.id (some current.id) "schema_change"
        "Schema validation fingerprint changed since last verified recovery"
      ∷ []
    else []

abbrev pub plan_text : Option ℕ → Option ℕ → String
plan_text (some a) (some b) =
    concat (
      "Validation plan changed v" ∷ show a ∷ " → v" ∷ show b ∷ " since last verified recovery" ∷ [])
plan_text _ _ = ""

abbrev pub plan_events : ℕ → ℕ → Fingerprint → Fingerprint → List DriftEvent
plan_events org database previous current =
    if plan_changed previous.plan_version current.plan_version
    then open_event org database previous.id (some current.id) "plan_change"
        (plan_text previous.plan_version current.plan_version)
      ∷ []
    else []

-- The events between the two fingerprints, where both were found.
abbrev pub events_between : ℕ → ℕ → Option Fingerprint → Option Fingerprint → List DriftEvent
events_between org database (some previous) (some current) =
    schema_events org database previous current ++ plan_events org database previous current
events_between org database _ _ = []

-- `detectAfterFingerprint`
unfoldable pub detect_after_fingerprint : DriftStore → ℕ → ℕ → ℕ → DriftStore
detect_after_fingerprint db org database new =
    let two = latest 2 database db in
    record db {
      events =
          db.events
          ++ events_between org database (find (λ f. not (f.id == new)) two)
              (find (λ f. f.id == new) two);
    }

abbrev pub same_version : Option ℕ → ℕ → Bool
same_version none v = false
same_version (some a) v = a == v

abbrev pub update_events : ℕ → ℕ → ℕ → List Fingerprint → List DriftEvent
update_events org database version [] = []
update_events org database version (f ∷ rest) =
    if same_version f.plan_version version
    then []
    else open_event org database f.id none "plan_change"
        (concat ("Validation plan updated to v" ∷ show version ∷ " — re-verify recovery" ∷ []))
      ∷ []

-- `recordPlanDriftOnUpdate`
unfoldable pub record_plan_drift : DriftStore → ℕ → ℕ → ℕ → DriftStore
record_plan_drift db org database version = record db {
  events = db.events ++ update_events org database version (latest 1 database db);
}

-- An open event of a database.
abbrev pub is_open : ℕ → ℕ → DriftEvent → Bool
is_open org database e =
    (e.organization_id == org) && (e.database_id == database) && (e.status === "open")

abbrev pub resolved_by : ℕ → DriftEvent → DriftEvent
resolved_by fingerprint e = record e { status = "resolved"; to_fingerprint = some fingerprint }

-- `resolveOpenOnVerification`: how many were open, and the store then.
unfoldable pub resolve_open : DriftStore → ℕ → ℕ → ℕ → ℕ × DriftStore
resolve_open db org database fingerprint = (
  count (is_open org database) db.events,
  record db { events = update_where (is_open org database) (resolved_by fingerprint) db.events },
)
