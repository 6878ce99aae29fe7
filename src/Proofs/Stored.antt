-- ===== src/Proofs/Stored.antt =====
-- What was stored reads back, and a proof can be handed out twice.
use revenant_cloud.Base.{
  ℕ, ◌<◌, ◌≡◌, refl, ap, ◌∙◌, inl, inr, String, Bool, true, false, Option, none, some, List, [],
  ◌∷◌, find, ltb, lt→ltb, ◌===◌, if◌then◌else◌, if-elim, is_some, Bool-cases, arith, eq_iff,
}
use revenant_cloud.Store.{ok, failed, app_error, update_where}
use revenant_cloud.Proofs.{
  Resource, Snapshot, stored, failed_capture, Proof, ProofStore, Setting, set_proofs,
}
use revenant_cloud.Proofs.Completion.{
  Completion, own_snapshot, filled, close_on, closed_row, own_proof, complete_redis_proof,
}
use revenant_cloud.Proofs.Expiry.{
  get_artifact, checked, is_over, is_stored, key_present, stored_at, read_key, read_on,
  read_artifact,
}
use revenant_cloud.Proofs.Queue.{take_claim, proof_claim, resource_of}
use revenant_cloud.Proofs.Leaks.{filled_store, stored_snapshot}

find-filled :
    (test : Snapshot → Bool) (set : Snapshot → Snapshot) (s : Snapshot)
    → ((a : Snapshot) → test (set a) ≡ test a)
    → (ss : List Snapshot) → find test ss ≡ some s
    → find test (update_where test set ss) ≡ some (set s)
find-filled test set s keeps [] h = absurd (ground (arith, h))
find-filled test set s keeps (a ∷ ss) h = elim (Bool-cases (test a)) [
  | inl t ↦
      let e : a ≡ s = ground (arith, h, t) in
      let kept : test (set a) ≡ true = keeps a ∙ t in rw (t, kept) (ap (λ x. some (set x)) e)
  | inr f ↦ rw (f, f) (find-filled test set s keeps ss (ground (arith, f, h)))
]

gate :
    (ctx : Setting) (t : Snapshot) (key : String) (db : ProofStore)
    → is_some t.deleted_at ≡ false
    → is_over t.status ≡ false
    → stored_at t ≡ some key
    → read_on ctx (some t) db ≡ read_key ctx t (some key) db
gate ctx t key db alive held at = rw (alive, held, at) refl

key_read :
    (ctx : Setting) (t : Snapshot) (key : String) (encoded : List ℕ) (db : ProofStore)
    → ltb ctx.now t.expires_at ≡ true
    → get_artifact key db ≡ ok encoded
    → read_key ctx t (some key) db ≡ checked ctx t encoded
key_read ctx t key encoded db fresh found = rw (fresh, found) refl

checked_sum :
    (ctx : Setting) (later : ℕ) (input : Completion) (key : String) (encoded bytes : List ℕ)
    (s : Snapshot)
    → ctx.decode ctx.compression encoded ≡ bytes
    → checked (record ctx { now = later }) (filled ctx input key encoded s) encoded
      ≡ ok (bytes, ctx.sha256 encoded)
checked_sum ctx later input key encoded bytes s back =
    let sum = ctx.sha256 encoded in
    let same : (sum === sum) ≡ true = (eq_iff sum sum).1 refl in
    ap
      (λ x.
        if sum === ""
        then ok (x, sum)
        else if sum === sum
        then ok (x, sum)
        else failed (app_error 500 "ARTIFACT_CORRUPT"))
      back
    ∙ if-elim (λ y. y ≡ ok (bytes, sum)) (sum === "") (ok (bytes, sum))
        (if sum === sum then ok (bytes, sum) else failed (app_error 500 "ARTIFACT_CORRUPT"))
        (λ t. refl) (λ f. rw same refl)

over_not : (b : Bool) → b ≡ true → is_over (if b then stored else failed_capture) ≡ false
over_not b h = rw h refl

filled_at :
    (ctx : Setting) (input : Completion) (key : String) (bytes : List ℕ) (s : Snapshot)
    → (key === "") ≡ false
    → input.measured.restored ≡ true
    → stored_at (filled ctx input key bytes s) ≡ some key
filled_at ctx input key bytes s named good =
    ap
      (λ b.
        if is_stored (if b then stored else failed_capture) then key_present (some key) else none)
      good
    ∙ rw named refl

-- The bytes of a proof that restored are read back as they came, with the checksum of what is stored,
-- until the snapshot expires, where decompression undoes compression and `put` succeeded.
pub read_artifact-complete_redis_proof :
    (ctx : Setting) (org proof snapshot : ℕ) (key : String) (b : ℕ) (bytes : List ℕ) (later : ℕ)
    → (input : Completion) (s : Snapshot) (db : ProofStore) → (key === "") ≡ false
    → input.rdb ≡ some (b ∷ bytes)
    → input.measured.restored ≡ true
    → ctx.puts key ≡ ok tt
    → find (own_snapshot snapshot org) db.snapshots ≡ some s
    → s.deleted_at ≡ none
    → later < s.expires_at
    → ctx.decode ctx.compression (ctx.encode ctx.compression (b ∷ bytes)) ≡ b ∷ bytes
    → read_artifact
        (record ctx { now = later })
        org
        snapshot
        (complete_redis_proof ctx org proof (some snapshot) (some key) input db).1
      ≡ ok (b ∷ bytes, ctx.sha256 (ctx.encode ctx.compression (b ∷ bytes)))
unfolding complete_redis_proof read_artifact
read_artifact-complete_redis_proof ctx org proof snapshot key b bytes later input s db named came
      good put there alive fresh back =
    let encoded = ctx.encode ctx.compression (b ∷ bytes) in
    let held = filled_store ctx org snapshot key encoded input db in
    let done = set_proofs (own_proof proof org) (closed_row ctx input) held in
    let step : (complete_redis_proof ctx org proof (some snapshot) (some key) input db).1 ≡ done =
      ap (λ r. (close_on ctx org proof input r).1)
        (stored_snapshot ctx org snapshot key b bytes input.rdb input db came named put) in
    let same : (key === key) ≡ true = (eq_iff key key).1 refl in
    ap (λ v. read_artifact (record ctx { now = later }) org snapshot v) step
    ∙ ap (λ found. read_on (record ctx { now = later }) found done)
        (find-filled (own_snapshot snapshot org) (filled ctx input key encoded) s (λ a. refl)
          db.snapshots there)
    ∙ gate (record ctx { now = later }) (filled ctx input key encoded s) key done
        (ap (λ (d : Option ℕ). is_some d) alive) (over_not input.measured.restored good)
        (filled_at ctx input key encoded s named good)
    ∙ key_read (record ctx { now = later }) (filled ctx input key encoded s) key encoded done
        (lt→ltb later s.expires_at fresh) (rw same refl)
    ∙ checked_sum ctx later input key encoded (b ∷ bytes) s back

-- Selecting and taking a proof are two statements, and the second does not ask whether the proof is
-- still pending: of two executors that both selected the proof before either took it, both are handed
-- it, with the same credentials.
pub take_claim-twice :
    (ctx later : Setting) (one two : Option String) (p : Proof) (r : Resource) (url : String)
    (db : ProofStore)
    → resource_of db p ≡ some r
    → ctx.decrypt r.ciphertext ≡ some url
    → later.decrypt r.ciphertext ≡ some url
    → let (first, after) = take_claim ctx one (some p) db in
      let (second, last) = take_claim later two (some p) after in
      (first ≡ some (proof_claim db r p url)) × (second ≡ first)
unfolding take_claim
take_claim-twice ctx later one two p r url db there key again =
    rw (there, key, there, again) (refl, refl)
