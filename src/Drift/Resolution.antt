-- ===== src/Drift/Resolution.antt =====
-- How many drift events of a database are open.
use revenant_cloud.Base.{
  String, ℕ, ◌+◌, ◌≡◌, refl, ◌∙◌, Bool, true, false, Option, none, some, List, [], ◌∷◌, ◌++◌, count,
  if◌then◌else◌, if-elim, arith, find, not, ◌==◌,
}
use revenant_cloud.Store.{update_where}
use revenant_cloud.Drift.{
  Fingerprint, DriftEvent, DriftStore, is_open, resolved_by, resolve_open, detect_after_fingerprint,
  events_between, schema_events, plan_events, open_event, plan_text, schema_changed, plan_changed,
  latest,
}

abbrev pub one_if : Bool → ℕ
one_if true = 1
one_if false = 0

-- How many of the schema and the plan differ between two fingerprints.
abbrev pub changes : Option Fingerprint → Option Fingerprint → ℕ
changes (some previous) (some current) =
    one_if (schema_changed previous.schema_hash current.schema_hash)
    + one_if (plan_changed previous.plan_version current.plan_version)
changes _ _ = 0

count_append :
    (p : DriftEvent → Bool) (xs ys : List DriftEvent) → count p (xs ++ ys) ≡ count p xs + count p ys
count_append p [] ys = omega arith
count_append p (x ∷ xs) ys = ground (arith, count_append p xs ys)

eq_self : (n : ℕ) → (n == n) ≡ true
eq_self n = ground arith

one_event :
    (org database : ℕ) (p c : Fingerprint) (change description : String) (b : Bool)
    → count
        (is_open org database)
        (if b then open_event org database p.id (some c.id) change description ∷ [] else [])
      ≡ one_if b
one_event org database p c change description true = rw (eq_self org, eq_self database) refl
one_event org database p c change description false = refl

count-events_between :
    (org database : ℕ) (previous current : Option Fingerprint)
    → count (is_open org database) (events_between org database previous current)
      ≡ changes previous current
count-events_between org database none current = ground arith
count-events_between org database (some p) none = ground arith
count-events_between org database (some p) (some c) =
    count_append (is_open org database) (schema_events org database p c)
      (plan_events org database p c)
    ∙ let schema =
        one_event org database p c "schema_change"
          "Schema validation fingerprint changed since last verified recovery"
          (schema_changed p.schema_hash c.schema_hash) in
      let plan =
        one_event org database p c "plan_change" (plan_text p.plan_version c.plan_version)
          (plan_changed p.plan_version c.plan_version) in
      omega (arith, schema, plan)

not_open :
    (org database fingerprint : ℕ) (e : DriftEvent)
    → is_open org database (resolved_by fingerprint e) ≡ false
not_open org database fingerprint e = ground arith

no_longer_open :
    (org database fingerprint : ℕ) (events : List DriftEvent)
    → count
        (is_open org database)
        (update_where (is_open org database) (resolved_by fingerprint) events)
      ≡ 0
no_longer_open org database fingerprint [] = refl
no_longer_open org database fingerprint (e ∷ events) =
    let rest = update_where (is_open org database) (resolved_by fingerprint) events in
    if-elim (λ j. count (is_open org database) (j ∷ rest) ≡ 0) (is_open org database e)
      (resolved_by fingerprint e) e
      (λ t.
        rw (not_open org database fingerprint e) (no_longer_open org database fingerprint events))
      (λ f. rw f (no_longer_open org database fingerprint events))

-- After the detection as many more events of the database are open as there are differences, in the
-- schema's hash and in the plan's version, between the new fingerprint and the one before it; with
-- one of the two missing there are no more.
pub detect_after_fingerprint-count :
    (db : DriftStore) (org database new : ℕ)
    → count (is_open org database) (detect_after_fingerprint db org database new).events
      ≡ count (is_open org database) db.events
        + changes
            (find (λ f. not (f.id == new)) (latest 2 database db))
            (find (λ f. f.id == new) (latest 2 database db))
unfolding detect_after_fingerprint
detect_after_fingerprint-count db org database new =
    let two = latest 2 database db in
    let previous = find (λ f. not (f.id == new)) two in
    let current = find (λ f. f.id == new) two in
    omega (
      arith,
      count_append (is_open org database) db.events (events_between org database previous current),
      count-events_between org database previous current,
    )

-- A verification closes what a detection opened: it reports every event of the database that was open
-- before the detection and every difference that this found, and leaves none open.
pub resolve_open-detect_after_fingerprint :
    (db : DriftStore) (org database new : ℕ)
    → ((resolve_open (detect_after_fingerprint db org database new) org database new).0
        ≡ count (is_open org database) db.events
          + changes
              (find (λ f. not (f.id == new)) (latest 2 database db))
              (find (λ f. f.id == new) (latest 2 database db)))
      × (count
            (is_open org database)
            (resolve_open (detect_after_fingerprint db org database new) org database new).1.events
          ≡ 0)
unfolding resolve_open
resolve_open-detect_after_fingerprint db org database new = (
  detect_after_fingerprint-count db org database new,
  no_longer_open org database new (detect_after_fingerprint db org database new).events,
)
