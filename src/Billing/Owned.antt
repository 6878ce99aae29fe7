-- ===== src/Billing/Owned.antt =====
-- The verification of a payment marks no order as paid but those with the identifier of an order of the
-- organization.
use mathlib.Core.Bool.{false≢true}
use revenant_cloud.Base.{
  ℕ, String, ◌≡◌, refl, inl, inr, Bool, true, false, Option, none, some, List, [], ◌∷◌, Any, find,
  Bool-cases, arith,
}
use mathlib.Core.Option.{some-injective}
use mathlib.Core.Path.{subst}
use revenant_cloud.Billing.{
  Context, World, Order, Action, raise, pure, gets, ◌>>=◌, ◌>>◌, raise_if, or_raise,
}
use revenant_cloud.Billing.Verify.{
  PaymentInput, names, verify_subscription, verify_order, verify_either, verify_payment,
}
use revenant_cloud.Billing.Change.{Change, Change-refl, IsOwn}
use revenant_cloud.Billing.Operations.{settle_subscription-Keeps, settle_order-Keeps}

names-own :
    (s order : Option String) (org : ℕ) (o : Order)
    → names s order org o ≡ true
    → o.organization_id ≡ org
names-own (some id) order org o h = ground (arith, h)
names-own none (some id) org o h = ground (arith, h)
names-own none none org o h = absurd (false≢true h)

found-IsOwn :
    (s order : Option String) (org : ℕ) (os : List Order) (o : Order)
    → find (names s order org) os ≡ some o
    → Any (λ q. (q.id ≡ o.id) × (q.organization_id ≡ org)) os
found-IsOwn s order org [] o h = absurd (ground (arith, h))
found-IsOwn s order org (q ∷ os) o h = elim (Bool-cases (names s order org q)) [
  | inl t ↦
      let same : q ≡ o = some-injective q o (rw t at h) in
      inl (
        subst (λ r. (q.id ≡ r.id) × (q.organization_id ≡ org)) same
          (refl, names-own s order org q t))
  | inr f ↦ inr (found-IsOwn s order org os o (rw f at h))
]

module _ (P : ℕ → Type 0) (org : ℕ) where
  guard-Change :
      {A : Type 0} (b : Bool) (status : ℕ) (code : String) (m : Action A) (w : World)
      → Change P org w (m w).1
      → Change P org w ((raise_if b status code >> m) w).1
  unfolding ◌>>=◌ raise_if raise pure
  guard-Change true status code m w h = Change-refl P org w
  guard-Change false status code m w h = h

  row-Change :
      {A B : Type 0} (o : Option A) (status : ℕ) (code : String) (f : A → Action B) (w : World)
      → ((a : A) → o ≡ some a → Change P org w (f a w).1)
      → Change P org w ((or_raise o status code >>= f) w).1
  unfolding ◌>>=◌ or_raise raise pure
  row-Change none status code f w h = Change-refl P org w
  row-Change (some a) status code f w h = h a refl

  found-Change :
      {B : Type 0} (test : Order → Bool) (f : Order → Action B) (w : World)
      → ((o : Order) → find test w.orders ≡ some o → Change P org w (f o w).1)
      → Change P org w
          ((gets (λ v. find test v.orders) >>= λ found. or_raise found 404 "ORDER_NOT_FOUND" >>= f)
            w).1
  unfolding ◌>>=◌ gets
  found-Change test f w h = row-Change (find test w.orders) 404 "ORDER_NOT_FOUND" f w h

module _ (ctx : Context) (org user : ℕ) (input : PaymentInput) where
  either-Change :
      (s order : Option String) (w : World)
      → Change (IsOwn org w) org w (verify_either ctx org user input s order w).1
  unfolding verify_subscription verify_order raise
  either-Change (some id) order w = guard-Change (IsOwn org w) org _ _ _ _ w (
      found-Change (IsOwn org w) org (names (some id) order org) _ w (λ o there.
        (settle_subscription-Keeps (IsOwn org w) org ctx id input.razorpay_payment_id o
            (found-IsOwn (some id) order org w.orders o there)).at
          w))
  either-Change none (some id) w = guard-Change (IsOwn org w) org _ _ _ _ w (
      found-Change (IsOwn org w) org (names none (some id) org) _ w (λ o there.
        (settle_order-Keeps (IsOwn org w) org ctx user input.razorpay_payment_id o
            (found-IsOwn none (some id) org w.orders o there)).at
          w))
  either-Change none none w = Change-refl (IsOwn org w) org w

  pub verify-Change :
      (w : World) → Change (IsOwn org w) org w (verify_payment ctx org user input w).1
  unfolding verify_payment
  verify-Change w =
      guard-Change (IsOwn org w) org _ _ _ _ w
        (guard-Change (IsOwn org w) org _ _ _ _ w (either-Change _ _ w))
