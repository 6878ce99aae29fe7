-- ===== src/Proofs/Served.antt =====
-- What the sweeper of the queue leaves.
use revenant_cloud.Base.{
  ℕ, ◌-◌, ◌≤◌, ◌≡◌, Bool, true, false, Option, none, some, List, [], ◌∷◌, All, leb, if◌then◌else◌,
  arith,
}
use revenant_cloud.Store.{update_where}
use revenant_cloud.Proofs.{
  ProofStatus, ErrorKind, pending, running, unreachable, auth, failed_attempt, Proof, ProofStore,
  Setting,
}
use revenant_cloud.Proofs.Queue.{
  reclaim_stale, abandoned, requeued, out_of_reach, unclaimed, given_up,
}
use revenant_cloud.Proofs.Dates.{IsDatedProof, AllDated}

-- Where a proof may wait: running since `stale`, or pending with a last change since `cutoff`; a proof
-- whose last attempt was refused or thrown may wait for ever.
abbrev pub waits : ℕ → ℕ → ProofStatus → Option ErrorKind → Option ℕ → ℕ → Bool
waits stale cutoff running kind none updated = false
waits stale cutoff running kind (some started) updated = leb stale started
waits stale cutoff pending (some auth) started updated = true
waits stale cutoff pending (some failed_attempt) started updated = true
waits stale cutoff pending (some unreachable) started updated = leb cutoff updated
waits stale cutoff pending none started updated = leb cutoff updated
waits stale cutoff _ kind started updated = true

abbrev pub IsServed : ℕ → ℕ → Proof → Type 0
IsServed stale cutoff p =
    waits stale cutoff p.status p.last_error_kind p.started_at p.updated_at ≡ true

module _ (now stale cutoff : ℕ) (recent : cutoff ≤ now) where
  row : Proof → Proof
  row p =
      let first = if abandoned stale p then requeued now p else p in
      let second = if out_of_reach cutoff first then given_up now "unreachable" first else first in
      if unclaimed cutoff second then given_up now "unclaimed" second else second

  row-IsServed : (p : Proof) → IsDatedProof p → IsServed stale cutoff (row p)
  unfolding row
  row-IsServed p d = ground arith

  reclaimed-IsServed :
      (ps : List Proof)
      → All IsDatedProof ps
      → All (IsServed stale cutoff) (
          update_where (unclaimed cutoff) (given_up now "unclaimed") (
            update_where
              (out_of_reach cutoff)
              (given_up now "unreachable")
              (update_where (abandoned stale) (requeued now) ps)))
  unfolding row
  reclaimed-IsServed [] h = tt
  reclaimed-IsServed (p ∷ ps) (d, h) = (row-IsServed p d, reclaimed-IsServed ps h)

-- After the sweep of the queue, of proofs that are dated as they should be, every running proof started
-- within the last `claim_stale_ms`, and a proof that is pending and was never tried, or was out of the
-- cloud's reach, has changed within the last `queue_timeout_ms`. A pending proof whose last attempt was
-- thrown (`failed`) or refused (`auth`) is not covered.
pub reclaim_stale-IsServed :
    (ctx : Setting) (db : ProofStore)
    → AllDated db
    → All
        (IsServed (ctx.now - ctx.claim_stale_ms) (ctx.now - ctx.queue_timeout_ms))
        (reclaim_stale ctx db).1.proofs
unfolding reclaim_stale
reclaim_stale-IsServed ctx db h =
    reclaimed-IsServed ctx.now (ctx.now - ctx.claim_stale_ms) (ctx.now - ctx.queue_timeout_ms)
      (omega arith) db.proofs h
