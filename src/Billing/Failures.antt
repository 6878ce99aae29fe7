-- ===== src/Billing/Failures.antt =====
-- What a billing operation leaves when it throws.
use revenant_cloud.Base.{
  ℕ, String, ◌≡◌, refl, ◌⊎◌, inl, inr, true, false, Option, none, some, ◌==◌, if-elim, find,
  Bool-cases, Option-cases, arith,
}
use revenant_cloud.Store.{app_error}
use revenant_cloud.Plans.{OrganizationPlan}
use revenant_cloud.Billing.{
  Context, World, Order, RemoteError, refused, threw, Thrown, app, raise, await, catch, ◌>>=◌,
  present,
}
use revenant_cloud.Billing.Razorpay.{
  format_razorpay_error, mentions, status_by_text, status_by_code, razorpay_http_status,
}
use revenant_cloud.Billing.Subscription.{auth_or, resolve_existing}
use revenant_cloud.Billing.Verify.{
  names, PaymentInput, is_upgrade, is_paid, purpose_of, settle_subscription, verify_subscription,
  settle_order, verify_order, verify_either, verify_payment,
}
use revenant_cloud.Billing.Settled.{order_of}
use revenant_cloud.Billing.Atomic.{
  Atomic, guard-Atomic, found-Atomic, pure-Returns, bind-Returns, pay-Returns, take-Returns,
  align-Returns, fetched-Atomic, returned-Atomic,
}

status_by_text_range : (text : String) → (status_by_text text ≡ 401) ⊎ (status_by_text text ≡ 502)
status_by_text_range text = elim (Bool-cases (mentions "auth" text)) [
  | inl t ↦ inl (rw t refl)
  | inr f ↦ inr (rw f refl)
]

status_by_code_range :
    (code : ℕ) (text : String)
    → (status_by_code code text ≡ 400)
      ⊎ ((status_by_code code text ≡ 401) ⊎ (status_by_code code text ≡ 502))
status_by_code_range code text = ground (arith, status_by_text_range text)

-- The status that an error of Razorpay is passed on with is 400, 401 or 502.
pub razorpay_http_status_range :
    (e : RemoteError)
    → (razorpay_http_status e ≡ 400)
      ⊎ ((razorpay_http_status e ≡ 401) ⊎ (razorpay_http_status e ≡ 502))
unfolding razorpay_http_status format_razorpay_error
razorpay_http_status_range e = elim (Option-cases e.status_code) [
  | inl absent ↦ rw absent (inr (status_by_text_range (format_razorpay_error e)))
  | inr (code, eq) ↦ rw eq (status_by_code_range code (format_razorpay_error e))
]

not_404 : (e : RemoteError) → (razorpay_http_status e == 404) ≡ false
not_404 e = ground (arith, razorpay_http_status_range e)

-- A stored subscription that Razorpay refuses to show, be it that it does not exist there any more,
-- ends the checkout with the refusal's status (400, 401 or 502) and is not cleared: the same checkout
-- fails again.
pub resolve_existing-refused :
    (ctx : Context) (org : ℕ) (s : String) (plan : OrganizationPlan) (ends : ℕ) (e : RemoteError)
    → (w : World) → ctx.fetch_subscription s ≡ refused e
    → let status = razorpay_http_status e in
      ((status ≡ 400) ⊎ ((status ≡ 401) ⊎ (status ≡ 502)))
      × (resolve_existing ctx org s plan ends w
          ≡ (threw (app (app_error status (auth_or "RAZORPAY_SUBSCRIPTION_FAILED" status))), w))
unfolding resolve_existing catch ◌>>=◌ await raise
resolve_existing-refused ctx org s plan ends e w h =
    (razorpay_http_status_range e, rw (h, not_404 e) refl)

-- The payment is for an upgrade by an order, which is activated after the order is marked as paid.
abbrev pub UpgradesByOrder : ℕ → PaymentInput → World → Type 0
UpgradesByOrder org input w =
    (present input.razorpay_subscription_id ≡ none)
    × (o : Order) × (order_of org input w ≡ some o)
    × (is_upgrade o ≡ true)

module _ (ctx : Context) (org user : ℕ) (input : PaymentInput) where
  subscription-Atomic :
      (id payment : String) (o : Order) (w : World)
      → Atomic (settle_subscription ctx org id payment o) w
  subscription-Atomic id payment o w =
      if-elim (λ m. Atomic m w) (is_paid o) _ _
        (λ t. returned-Atomic _ w (pure-Returns (purpose_of o)))
        (λ f. fetched-Atomic (ctx.fetch_subscription id) _ w (take-Returns ctx org id payment o))

  order-Atomic :
      (payment : String) (o : Order) (w : World)
      → is_upgrade o ≡ false
      → Atomic (settle_order ctx org user payment o) w
  order-Atomic payment o w plain =
      if-elim (λ m. Atomic m w) (is_paid o) _ _
        (λ t. returned-Atomic _ w (pure-Returns (purpose_of o)))
        (λ f. returned-Atomic _ w (
          bind-Returns _ _ (pay-Returns ctx.now payment o.id) (λ _.
            bind-Returns _ _ (rw plain (align-Returns ctx org none))
              (λ _. pure-Returns (purpose_of o)))))

  either-Atomic :
      (s order : Option String) (w : World)
      → (s ≡ none → (o : Order) → find (names s order org) w.orders ≡ some o → is_upgrade o ≡ false)
      → Atomic (verify_either ctx org user input s order) w
  unfolding verify_subscription verify_order raise
  either-Atomic (some id) order w h =
      guard-Atomic _ _ _ _ w (found-Atomic _ _ w (λ o there. subscription-Atomic id _ o w))
  either-Atomic none (some id) w h =
      guard-Atomic _ _ _ _ w (found-Atomic _ _ w (λ o there. order-Atomic _ o w (h refl o there)))
  either-Atomic none none w h = λ e t. refl

  -- A verification of a payment that throws, for whichever reason (no configuration, missing fields, a
  -- wrong signature, no such order, a refusal of Razorpay), changes nothing and calls off nothing, unless
  -- the payment is for an upgrade by an order.
  pub verify_payment-threw :
      (w : World) (e : Thrown)
      → ¬ UpgradesByOrder org input w
      → (verify_payment ctx org user input w).0 ≡ threw e
      → (verify_payment ctx org user input w).1 ≡ w
  unfolding verify_payment
  verify_payment-threw w e plain =
      guard-Atomic _ _ _ _ w
        (guard-Atomic _ _ _ _ w (
          either-Atomic (present input.razorpay_subscription_id) (present input.razorpay_order_id) w
            (λ direct o there. elim (Bool-cases (is_upgrade o)) [
              | inl t ↦ absurd (plain (direct, o, there, t))
              | inr f ↦ f
            ])))
        e
