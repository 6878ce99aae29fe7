-- ===== src/Billing/Once.antt =====
-- A payment is taken once: what a repeated verification does, after anything that came in between.
use revenant_cloud.Base.{
  ℕ, String, ◌≡◌, refl, sym, ap, ◌∙◌, true, Option, none, some, List, find, arith,
}
use revenant_cloud.Billing.{Context, World, Order, returned, present}
use revenant_cloud.Billing.Subscription.{Purpose, pro_upgrade}
use revenant_cloud.Billing.Verify.{names, PaymentInput, is_upgrade, purpose_of, verify_payment}
use revenant_cloud.Billing.Settled.{
  order_test, order_of, signed, accepts, Settled, names-Stable, Kept-Settled, settle_order-Settled,
}
use revenant_cloud.Billing.Payments.{
  settle, verify-settle, verify-returned, settle-Settled, settle-Yields, settle-paid,
}
use revenant_cloud.Billing.History.{Operation, run_all, run_all-Kept}

signed_part :
    (ctx : Context) (input : PaymentInput)
    → accepts ctx input ≡ true
    → signed ctx input (present input.razorpay_subscription_id) (present input.razorpay_order_id)
      ≡ true
signed_part ctx input h = ground (arith, h)

repeated :
    (ctx : Context) (org user : ℕ) (input : PaymentInput) (purpose : Purpose) (w : World)
    → accepts ctx input ≡ true
    → Settled (order_test input org) purpose w.orders
    → verify_payment ctx org user input w ≡ (returned purpose, w)
repeated ctx org user input purpose w good (p, found, paid, same) =
    verify-settle ctx org user input p w good found
    ∙ settle-paid ctx org user input (present input.razorpay_subscription_id)
        (present input.razorpay_order_id) p w paid (signed_part ctx input good)
    ∙ ap (λ x. (returned x, w)) same

verified-Settled :
    (ctx : Context) (org user : ℕ) (input : PaymentInput) (purpose : Purpose) (w : World)
    → (verify_payment ctx org user input w).0 ≡ returned purpose
    → Settled (order_test input org) purpose (verify_payment ctx org user input w).1.orders
verified-Settled ctx org user input purpose w h =
    let s = present input.razorpay_subscription_id in
    let order = present input.razorpay_order_id in
    let (good, o, found) = verify-returned ctx org user input w purpose h in
    let step = verify-settle ctx org user input o w good found in
    let value = ap (λ r. r.0) (sym step) ∙ h in
    let same : purpose_of o ≡ purpose =
      (settle-Yields ctx org user input s order o).only w purpose value in
    rw (step, sym same) (settle-Settled ctx org user input s order o w purpose found value)

-- When the verification of a payment has returned, then after any further operations of billing, at
-- any times and with any answers of Razorpay, a payment with the same identifiers that is verified
-- with its signature returns the same purpose and changes nothing: no second trial, no second upgrade
-- and no call of Razorpay.
pub verify_payment-once :
    (ctx later : Context) (org user again : ℕ) (input : PaymentInput) (purpose : Purpose)
    → (operations : List (Context × Operation)) (w : World)
    → (verify_payment ctx org user input w).0 ≡ returned purpose
    → accepts later input ≡ true
    → let v = run_all operations (verify_payment ctx org user input w).1 in
      verify_payment later org again input v ≡ (returned purpose, v)
verify_payment-once ctx later org user again input purpose operations w h good =
    let v = (verify_payment ctx org user input w).1 in
    repeated later org again input purpose (run_all operations v) good (
      Kept-Settled (order_test input org) purpose
        (names-Stable (present input.razorpay_subscription_id) (present input.razorpay_order_id)
          org)
        v.orders (run_all operations v).orders (run_all-Kept operations v)
        (verified-Settled ctx org user input purpose w h))

direct-Settled :
    (ctx : Context) (org user : ℕ) (input : PaymentInput) (s order : Option String) (id : String)
    → (o : Order) (w : World) → s ≡ none
    → order ≡ some id
    → find (names s order org) w.orders ≡ some o
    → Settled (names s order org) (purpose_of o) (settle ctx org user input s order o w).1.orders
direct-Settled ctx org user input none (some id) same o w direct ordered found =
    settle_order-Settled ctx org input.razorpay_payment_id (names none (some id) org)
      (names-Stable none (some id) org) user o w found
direct-Settled ctx org user input none none same o w direct ordered found = absurd (cc ordered)
direct-Settled ctx org user input (some id) order same o w direct ordered found = absurd (cc direct)

-- An upgrade paid by an order is marked as paid before the Pro plan is activated. Whether the
-- activation then went through or threw, after any further operations of billing every accepted
-- verification of that payment returns as if it had, and changes nothing: the activation is not tried
-- again.
pub verify_payment-no_retry :
    (ctx later : Context) (org user again : ℕ) (input : PaymentInput) (id : String) (o : Order)
    → (operations : List (Context × Operation)) (w : World)
    → present input.razorpay_subscription_id ≡ none
    → present input.razorpay_order_id ≡ some id
    → accepts ctx input ≡ true
    → order_of org input w ≡ some o
    → is_upgrade o ≡ true
    → accepts later input ≡ true
    → let v = run_all operations (verify_payment ctx org user input w).1 in
      verify_payment later org again input v ≡ (returned pro_upgrade, v)
verify_payment-no_retry ctx later org user again input id o operations w direct ordered good found
      up next =
    let test = order_test input org in
    let stable =
      names-Stable (present input.razorpay_subscription_id) (present input.razorpay_order_id) org in
    let v = (verify_payment ctx org user input w).1 in
    let (p, there, paid, shown) =
      direct-Settled ctx org user input (present input.razorpay_subscription_id)
        (present input.razorpay_order_id) id o w direct ordered found in
    let step = ap (λ r. find test r.1.orders) (verify-settle ctx org user input o w good found) in
    let kept : Settled test pro_upgrade v.orders = (p, step ∙ there, paid, shown ∙ rw up refl) in
    repeated later org again input pro_upgrade (run_all operations v) next (
      Kept-Settled test pro_upgrade stable v.orders (run_all operations v).orders
        (run_all-Kept operations v) kept)
