-- ===== src/Proofs/Sweeping.antt =====
-- The sweep of the snapshots reaches every row that it may.
use mathlib.Core.Bool.{false≢true}
use revenant_cloud.Base.{
  ℕ, zero, suc, ◌≤◌, ◌≡◌, refl, ap, ◌⊎◌, inl, inr, String, Bool, true, false, Option, none, some,
  List, [], ◌∷◌, All, length, take, filter, any, ◌==◌, ◌===◌, if◌then◌else◌, if-elim, Bool-cases,
  arith,
}
use revenant_cloud.Store.{Result, ok, failed, update_where}
use revenant_cloud.Proofs.{
  SnapshotStatus, capturing, stored, expired, deleted, failed_capture, Snapshot, ProofStore,
  Setting,
}
use revenant_cloud.Proofs.Expiry.{
  sweepable, undeleted_id, swept, SweepResult, expire, sweep_deleted, sweep_row, sweep_rows,
  sweep_expired,
}

-- A row that may be swept has its identifier among the rows to come.
IsCovered : ℕ → List Snapshot → Snapshot → Type 0
IsCovered now rows s = sweepable now s ≡ true → any (λ r. r.id == s.id) rows ≡ true

take-all : {A : Type 0} (n : ℕ) (xs : List A) → length xs ≤ n → take n xs ≡ xs
take-all zero [] h = refl
take-all zero (x ∷ xs) h = absurd (omega arith)
take-all (suc n) [] h = refl
take-all (suc n) (x ∷ xs) h = ap (◌∷◌ x) (take-all n xs (omega arith))

swept-IsCovered :
    (now : ℕ) (r : Snapshot) (rows : List Snapshot) (s : Snapshot)
    → IsCovered now (r ∷ rows) s
    → IsCovered now rows (if undeleted_id r.id s then swept now s else s)
unfolding IsCovered
swept-IsCovered now r rows s h =
    if-elim (IsCovered now rows) (undeleted_id r.id s) (swept now s) s
      (λ t e. absurd (ground (arith, e))) (λ f e. ground (arith, f, e, h e))

swept-AllCovered :
    (now : ℕ) (r : Snapshot) (rows ss : List Snapshot)
    → All (IsCovered now (r ∷ rows)) ss
    → All (IsCovered now rows) (update_where (undeleted_id r.id) (swept now) ss)
swept-AllCovered now r rows [] h = tt
swept-AllCovered now r rows (s ∷ ss) (c, h) =
    (swept-IsCovered now r rows s c, swept-AllCovered now r rows ss h)

deleted-snapshots :
    (now : ℕ) (s : Snapshot) (key : String) (done : Result Unit) (acc : SweepResult × ProofStore)
    → done ≡ ok tt
    → (sweep_deleted now s key done acc).1.snapshots
      ≡ update_where (undeleted_id s.id) (swept now) acc.1.snapshots
deleted-snapshots now s key (ok done) acc h = refl
deleted-snapshots now s key (failed e) acc h = absurd (cc h)

row-snapshots :
    (ctx : Setting) (s : Snapshot) (at : Option String) (acc : SweepResult × ProofStore)
    → ((key : String) → ctx.deletes key ≡ ok tt)
    → (sweep_row ctx s at acc).1.snapshots
      ≡ update_where (undeleted_id s.id) (swept ctx.now) acc.1.snapshots
row-snapshots ctx s none acc works = refl
row-snapshots ctx s (some key) acc works =
    if-elim
      (λ (next : SweepResult × ProofStore).
        next.1.snapshots ≡ update_where (undeleted_id s.id) (swept ctx.now) acc.1.snapshots)
      (key === "") (expire ctx.now s.id acc) (sweep_deleted ctx.now s key (ctx.deletes key) acc)
      (λ t. refl) (λ f. deleted-snapshots ctx.now s key (ctx.deletes key) acc (works key))

rows-AllCovered :
    (ctx : Setting) (rows : List Snapshot) (acc : SweepResult × ProofStore)
    → ((key : String) → ctx.deletes key ≡ ok tt)
    → All (IsCovered ctx.now rows) acc.1.snapshots
    → All (IsCovered ctx.now []) (sweep_rows ctx rows acc).1.snapshots
rows-AllCovered ctx [] acc works h = h
rows-AllCovered ctx (r ∷ rows) acc works h =
    rows-AllCovered ctx rows (sweep_row ctx r r.storage_key acc) works (
      rw (row-snapshots ctx r r.storage_key acc works)
        (swept-AllCovered ctx.now r rows acc.1.snapshots h))

wider-AllCovered :
    (now : ℕ) (x : Snapshot) (rows wide ss : List Snapshot)
    → (wide ≡ rows) ⊎ (wide ≡ x ∷ rows)
    → All (IsCovered now rows) ss
    → All (IsCovered now wide) ss
unfolding IsCovered
wider-AllCovered now x rows wide [] w h = tt
wider-AllCovered now x rows wide (s ∷ ss) (inl e) (c, h) =
    ((λ t. rw e (c t)), wider-AllCovered now x rows wide ss (inl e) h)
wider-AllCovered now x rows wide (s ∷ ss) (inr e) (c, h) =
    ((λ t. rw e (ground (arith, c t))), wider-AllCovered now x rows wide ss (inr e) h)

filter-cases :
    (test : Snapshot → Bool) (x : Snapshot) (xs : List Snapshot)
    → (filter test (x ∷ xs) ≡ filter test xs) ⊎ (filter test (x ∷ xs) ≡ x ∷ filter test xs)
filter-cases test x xs = elim (Bool-cases (test x)) [
  | inl t ↦ inr (rw t refl)
  | inr f ↦ inl (rw f refl)
]

filter-AllCovered :
    (now : ℕ) (ss : List Snapshot) → All (IsCovered now (filter (sweepable now) ss)) ss
unfolding IsCovered
filter-AllCovered now [] = tt
filter-AllCovered now (s ∷ ss) = (
  (λ t. rw t (ground arith)),
  wider-AllCovered now s (filter (sweepable now) ss) (filter (sweepable now) (s ∷ ss)) ss
      (filter-cases (sweepable now) s ss) (filter-AllCovered now ss),
)

uncovered :
    (now : ℕ) (ss : List Snapshot)
    → All (IsCovered now []) ss
    → All (λ s. sweepable now s ≡ false) ss
unfolding IsCovered
uncovered now [] h = tt
uncovered now (s ∷ ss) (c, h) = (
  elim (Bool-cases (sweepable now s)) [ inl t ↦ absurd (false≢true (c t)) | inr f ↦ f ],
  uncovered now ss h,
)

-- A snapshot that is being captured or stored, and was not deleted, is not past its time.
abbrev pub InTime : ℕ → SnapshotStatus → Option ℕ → ℕ → Type 0
InTime now capturing none expires = now ≤ expires
InTime now stored none expires = now ≤ expires
InTime now _ deleted_at expires = Unit

abbrev pub IsInTime : ℕ → Snapshot → Type 0
IsInTime now s = InTime now s.status s.deleted_at s.expires_at

unswept-IsInTime :
    (now : ℕ) (s : Snapshot) (status : SnapshotStatus) (deleted_at : Option ℕ)
    → s.status ≡ status
    → s.deleted_at ≡ deleted_at
    → sweepable now s ≡ false
    → InTime now status deleted_at s.expires_at
unswept-IsInTime now s capturing none e d h = ground (arith, e, d, h)
unswept-IsInTime now s stored none e d h = ground (arith, e, d, h)
unswept-IsInTime now s capturing (some at) e d h = tt
unswept-IsInTime now s stored (some at) e d h = tt
unswept-IsInTime now s expired deleted_at e d h = tt
unswept-IsInTime now s deleted deleted_at e d h = tt
unswept-IsInTime now s failed_capture deleted_at e d h = tt

each-IsInTime :
    (now : ℕ) (ss : List Snapshot) → All (λ s. sweepable now s ≡ false) ss → All (IsInTime now) ss
each-IsInTime now [] h = tt
each-IsInTime now (s ∷ ss) (f, h) =
    (unswept-IsInTime now s s.status s.deleted_at refl refl f, each-IsInTime now ss h)

-- When the artifact store deletes what it is asked to, and the batch is not smaller than the number of
-- rows that wait, then after one sweep no snapshot whose status is capturing or stored, and which is not
-- marked as deleted, is past its time. Snapshots of status failed are not covered.
pub sweep_expired-IsInTime :
    (ctx : Setting) (batch : ℕ) (db : ProofStore)
    → ((key : String) → ctx.deletes key ≡ ok tt)
    → length (filter (sweepable ctx.now) db.snapshots) ≤ batch
    → All (IsInTime ctx.now) (sweep_expired ctx batch db).1.snapshots
unfolding sweep_expired
sweep_expired-IsInTime ctx batch db works room =
    each-IsInTime ctx.now (sweep_expired ctx batch db).1.snapshots (
      uncovered ctx.now _ (
        rows-AllCovered ctx (take batch (filter (sweepable ctx.now) db.snapshots)) _ works (
          rw (take-all batch (filter (sweepable ctx.now) db.snapshots) room)
            (filter-AllCovered ctx.now db.snapshots))))
