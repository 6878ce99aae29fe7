-- ===== src/Drift/Tests.antt =====
-- Drift on a small store.
use revenant_cloud.Base.{◌≡◌, refl, some, [], ◌∷◌, map, count}
use revenant_cloud.Drift.{
  Fingerprint, DriftEvent, DriftStore, detect_after_fingerprint, record_plan_drift, resolve_open,
  is_open,
}
use revenant_cloud.Drift.Resolution.{resolve_open-detect_after_fingerprint}

abbrev before_change : Fingerprint
before_change = record {
  id = 1;
  database_id = 7;
  schema_hash = some "a";
  plan_version = some 3;
  created_at = 100;
}

abbrev after_change : Fingerprint
after_change = record {
  id = 2;
  database_id = 7;
  schema_hash = some "b";
  plan_version = some 4;
  created_at = 200;
}

abbrev store : DriftStore
store = record { fingerprints = before_change ∷ after_change ∷ []; events = [] }

drifts :
    (map (λ (e : DriftEvent). e.change_type) (detect_after_fingerprint store 1 7 2).events
      ≡ "schema_change" ∷ "plan_change" ∷ [])
    × ((record_plan_drift store 1 7 4).events ≡ [])
    × (map (λ (e : DriftEvent). e.from_fingerprint) (record_plan_drift store 1 7 5).events
        ≡ some 2 ∷ [])
unfolding detect_after_fingerprint record_plan_drift
drifts = (refl, refl, refl)

resolve_open-detect_after_fingerprint_example :
    ((resolve_open (detect_after_fingerprint store 1 7 2) 1 7 2).0 ≡ 2)
    × (count (is_open 1 7) (resolve_open (detect_after_fingerprint store 1 7 2) 1 7 2).1.events ≡ 0)
resolve_open-detect_after_fingerprint_example = resolve_open-detect_after_fingerprint store 1 7 2
