-- ===== src/Proofs/Leaks.antt =====
-- Bytes that the sweep never deletes.
use mathlib.Core.Bool.{false≢true}
use revenant_cloud.Base.{
  ℕ, zero, suc, ◌≡◌, refl, sym, ap, ◌∙◌, ◌⊎◌, inl, inr, String, Bool, true, false, not, ◌||◌,
  Option, none, some, List, [], ◌∷◌, All, length, take, filter, find, ◌===◌, if◌then◌else◌, if-elim,
  is_some, Bool-cases, arith, eq_iff,
}
use revenant_cloud.Store.{Result, ok, failed, update_where}
use revenant_cloud.Proofs.{
  Snapshot, Artifact, ProofStore, Setting, without_key, put_artifact, set_snapshots, set_proofs,
}
use revenant_cloud.Proofs.Completion.{
  Completion, own_snapshot, filled, store_snapshot, close_on, closed_row, own_proof,
  complete_redis_proof,
}
use revenant_cloud.Proofs.Expiry.{
  is_held, sweepable, undeleted_id, swept, SweepResult, expire, sweep_deleted, sweep_row,
  sweep_rows, sweep_expired, get_artifact, bytes_in,
}

-- Out of the sweep's sight: over, or marked as deleted.
abbrev pub unseen : Snapshot → Bool
unseen s = is_some s.deleted_at || not (is_held s.status)

-- No row that the sweep may see has the key.
abbrev pub IsUnseen : String → Snapshot → Type 0
IsUnseen key s = s.storage_key ≡ some key → unseen s ≡ true

abbrev pub AllUnseen : String → ProofStore → Type 0
AllUnseen key db = All (IsUnseen key) db.snapshots

swept-All :
    (key : String) (now id : ℕ) (ss : List Snapshot)
    → All (IsUnseen key) ss
    → All (IsUnseen key) (update_where (undeleted_id id) (swept now) ss)
swept-All key now id [] h = tt
swept-All key now id (s ∷ ss) (u, h) = (
  if-elim (IsUnseen key) (undeleted_id id s) (swept now s) s (λ t k. absurd (cc k)) (λ f. u),
  swept-All key now id ss h,
)

find-without_key :
    (key other : String) (artifacts : List Artifact)
    → (key === other) ≡ false
    → find (λ a. a.key === key) (without_key other artifacts) ≡ find (λ a. a.key === key) artifacts
find-without_key key other [] ne = refl
find-without_key key other (a ∷ rest) ne = elim (Bool-cases (a.key === key)) [
  | inl t ↦
      let same : (a.key === other) ≡ false = ap (λ k. k === other) ((eq_iff a.key key).0 t) ∙ ne in
      rw (same, t) refl
  | inr f ↦
      if-elim
        (λ (as' : List Artifact).
          find (λ (b : Artifact). b.key === key) as'
          ≡ (if a.key === key then some a else find (λ (b : Artifact). b.key === key) rest))
        (not (a.key === other)) (a ∷ without_key other rest) (without_key other rest)
        (λ kept. rw f (find-without_key key other rest ne))
        (λ gone. rw f (find-without_key key other rest ne))
]

-- The bytes under a key are as they were, and still out of the sweep's sight.
IsKept : String → ProofStore → SweepResult × ProofStore → Type 0
IsKept key db acc =
    AllUnseen key acc.1
    × (find (λ a. a.key === key) acc.1.artifacts ≡ find (λ a. a.key === key) db.artifacts)

hidden_unswept : (now : ℕ) (s : Snapshot) → unseen s ≡ true → sweepable now s ≡ true → ⊥
hidden_unswept now s hidden seen = ground (arith, hidden, seen)

seen_key :
    (now : ℕ) (key k : String) (s : Snapshot)
    → (some k ≡ some key → unseen s ≡ true)
    → sweepable now s ≡ true
    → (key === k) ≡ false
seen_key now key k s u seen = elim (Bool-cases (key === k)) [
  | inl t ↦
      let hidden : unseen s ≡ true = u (ap some (sym ((eq_iff key k).0 t))) in
      absurd (hidden_unswept now s hidden seen)
  | inr f ↦ f
]

deleted-IsKept :
    (ctx : Setting) (key k : String) (s : Snapshot) (done : Result Unit)
    (acc : SweepResult × ProofStore)
    → (key === k) ≡ false
    → AllUnseen key acc.1
    → IsKept key acc.1 (sweep_deleted ctx.now s k done acc)
unfolding IsKept
deleted-IsKept ctx key k s (ok done) (result, db) ne h =
    (swept-All key ctx.now s.id db.snapshots h, find-without_key key k db.artifacts ne)
deleted-IsKept ctx key k s (failed e) (result, db) ne h = (h, refl)

row-IsKept :
    (ctx : Setting) (key : String) (s : Snapshot) (at : Option String)
    (acc : SweepResult × ProofStore)
    → (at ≡ some key → unseen s ≡ true)
    → sweepable ctx.now s ≡ true
    → AllUnseen key acc.1
    → IsKept key acc.1 (sweep_row ctx s at acc)
unfolding IsKept
row-IsKept ctx key s none (result, db) u seen h = (swept-All key ctx.now s.id db.snapshots h, refl)
row-IsKept ctx key s (some k) (result, db) u seen h =
    if-elim (IsKept key db) (k === "") (expire ctx.now s.id (result, db))
      (sweep_deleted ctx.now s k (ctx.deletes k) (result, db))
      (λ t. (swept-All key ctx.now s.id db.snapshots h, refl))
      (λ f.
        deleted-IsKept ctx key k s (ctx.deletes k) (result, db) (seen_key ctx.now key k s u seen) h)

rows-IsKept :
    (ctx : Setting) (key : String) (ss : List Snapshot) (acc : SweepResult × ProofStore)
    → All (IsUnseen key) ss
    → All (λ s. sweepable ctx.now s ≡ true) ss
    → AllUnseen key acc.1
    → IsKept key acc.1 (sweep_rows ctx ss acc)
unfolding IsKept
rows-IsKept ctx key [] acc u seen h = (h, refl)
rows-IsKept ctx key (s ∷ ss) acc (u, us) (e, es) h =
    let next = sweep_row ctx s s.storage_key acc in
    let (unseen_next, same) = row-IsKept ctx key s s.storage_key acc u e h in
    let (unseen_last, last) = rows-IsKept ctx key ss next us es unseen_next in
    (unseen_last, last ∙ same)

take-All : {A : Type 0} (P : A → Type 0) (n : ℕ) (xs : List A) → All P xs → All P (take n xs)
take-All P zero xs h = tt
take-All P (suc n) [] h = tt
take-All P (suc n) (x ∷ xs) (p, h) = (p, take-All P n xs h)

filter-All :
    {A : Type 0} (P : A → Type 0) (test : A → Bool) (xs : List A)
    → All P xs
    → All P (filter test xs)
filter-All P test [] h = tt
filter-All P test (x ∷ xs) (p, h) =
    if-elim (All P) (test x) (x ∷ filter test xs) (filter test xs)
      (λ t. (p, filter-All P test xs h)) (λ f. filter-All P test xs h)

filter-passed :
    {A : Type 0} (test : A → Bool) (xs : List A) → All (λ x. test x ≡ true) (filter test xs)
filter-passed test [] = tt
filter-passed test (x ∷ xs) =
    if-elim (All (λ y. test y ≡ true)) (test x) (x ∷ filter test xs) (filter test xs)
      (λ t. (t, filter-passed test xs)) (λ f. filter-passed test xs)

-- Sweeps of the snapshots, each at its own time, of its own size and with its own failures.
abbrev pub sweeps : List (Setting × ℕ) → ProofStore → ProofStore
sweeps [] db = db
sweeps ((ctx, batch) ∷ rest) db = sweeps rest (sweep_expired ctx batch db).1

sweeps-find :
    (runs : List (Setting × ℕ)) (key : String) (db : ProofStore)
    → AllUnseen key db
    → find (λ a. a.key === key) (sweeps runs db).artifacts ≡ find (λ a. a.key === key) db.artifacts
unfolding sweep_expired IsKept
sweeps-find [] key db h = refl
sweeps-find ((ctx, batch) ∷ rest) key db h =
    let rows = take batch (filter (sweepable ctx.now) db.snapshots) in
    let (unseen_next, same) =
      rows-IsKept ctx key rows
        (record { scanned = length rows; deleted_count = 0; bytes_reclaimed = 0; errors = [] }, db)
        (take-All (IsUnseen key) batch (filter (sweepable ctx.now) db.snapshots)
          (filter-All (IsUnseen key) (sweepable ctx.now) db.snapshots h))
        (take-All (λ s. sweepable ctx.now s ≡ true) batch (filter (sweepable ctx.now) db.snapshots)
          (filter-passed (sweepable ctx.now) db.snapshots))
        h in
    sweeps-find rest key (sweep_expired ctx batch db).1 unseen_next ∙ same

-- The row is the proof's own snapshot where it has the key, and where it is, the proof did not restore
-- or the row is marked as deleted already.
abbrev pub IsLate : ℕ → ℕ → String → Completion → Snapshot → Type 0
IsLate snapshot org key input s =
    (s.storage_key ≡ some key → own_snapshot snapshot org s ≡ true)
    × (own_snapshot snapshot org s ≡ true
        → (input.measured.restored ≡ false) ⊎ (is_some s.deleted_at ≡ true))

filled-unseen :
    (ctx : Setting) (input : Completion) (key : String) (bytes : List ℕ) (s : Snapshot)
    → (input.measured.restored ≡ false) ⊎ (is_some s.deleted_at ≡ true)
    → unseen (filled ctx input key bytes s) ≡ true
filled-unseen ctx input key bytes s (inl f) = rw f (ground arith)
filled-unseen ctx input key bytes s (inr t) = rw t refl

filled-All :
    (ctx : Setting) (snapshot org : ℕ) (key : String) (bytes : List ℕ) (input : Completion)
    → (ss : List Snapshot) → All (IsLate snapshot org key input) ss
    → All (IsUnseen key) (update_where (own_snapshot snapshot org) (filled ctx input key bytes) ss)
filled-All ctx snapshot org key bytes input [] h = tt
filled-All ctx snapshot org key bytes input (s ∷ ss) ((own, late), h) = (
  if-elim (IsUnseen key) (own_snapshot snapshot org s) (filled ctx input key bytes s) s
      (λ t k. filled-unseen ctx input key bytes s (late t))
      (λ f k. absurd (false≢true (sym f ∙ own k))),
  filled-All ctx snapshot org key bytes input ss h,
)

-- The store in which the bytes are put and the snapshot's row is filled.
abbrev pub filled_store : Setting → ℕ → ℕ → String → List ℕ → Completion → ProofStore → ProofStore
filled_store ctx org snapshot key bytes input db =
    set_snapshots (own_snapshot snapshot org) (filled ctx input key bytes)
      (put_artifact key bytes db)

pub stored_snapshot :
    (ctx : Setting) (org snapshot : ℕ) (key : String) (b : ℕ) (bytes : List ℕ)
    → (rdb : Option (List ℕ)) (input : Completion) (db : ProofStore) → rdb ≡ some (b ∷ bytes)
    → (key === "") ≡ false
    → ctx.puts key ≡ ok tt
    → store_snapshot ctx org (some snapshot) (some key) rdb input db
      ≡ (ok tt, filled_store ctx org snapshot key (ctx.encode ctx.compression (b ∷ bytes)) input db)
stored_snapshot ctx org snapshot key b bytes rdb input db came named put =
    rw (came, named, put) refl

-- The bytes of a proof that did not restore, or whose snapshot had expired or was deleted before they
-- came, are put under the snapshot's key, and no sweep deletes them, however many run, at whichever
-- times. (The key is the snapshot's alone, and `put` succeeded.)
pub complete_redis_proof-leaks :
    (ctx : Setting) (org proof snapshot : ℕ) (key : String) (b : ℕ) (bytes : List ℕ)
    → (input : Completion) (runs : List (Setting × ℕ)) (db : ProofStore) → (key === "") ≡ false
    → input.rdb ≡ some (b ∷ bytes)
    → ctx.puts key ≡ ok tt
    → All (IsLate snapshot org key input) db.snapshots
    → get_artifact key
        (sweeps runs (complete_redis_proof ctx org proof (some snapshot) (some key) input db).1)
      ≡ ok (ctx.encode ctx.compression (b ∷ bytes))
unfolding complete_redis_proof
complete_redis_proof-leaks ctx org proof snapshot key b bytes input runs db named came put late =
    let held =
      filled_store ctx org snapshot key (ctx.encode ctx.compression (b ∷ bytes)) input db in
    let done = set_proofs (own_proof proof org) (closed_row ctx input) held in
    let step : (complete_redis_proof ctx org proof (some snapshot) (some key) input db).1 ≡ done =
      ap (λ r. (close_on ctx org proof input r).1)
        (stored_snapshot ctx org snapshot key b bytes input.rdb input db came named put) in
    let same : (key === key) ≡ true = (eq_iff key key).1 refl in
    ap (λ v. get_artifact key (sweeps runs v)) step
    ∙ ap bytes_in (
        sweeps-find runs key done (
          filled-All ctx snapshot org key (ctx.encode ctx.compression (b ∷ bytes)) input
            db.snapshots late))
    ∙ rw same refl
