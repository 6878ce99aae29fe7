-- ===== src/Billing/Verify.antt =====
-- The verification of a payment and the webhook of Razorpay (apps/api/src/services/billing.service.ts).
use revenant_cloud.Base.{
  ℕ, String, Bool, true, false, not, ◌&&◌, ◌||◌, Option, none, some, get_or, ◌==◌, ◌===◌,
  if◌then◌else◌, find,
}
use revenant_cloud.Billing.{
  Context, Account, Order, Entity, Action, pure, gets, await, ◌>>=◌, ◌>>◌, raise_app, raise_if,
  or_raise, set_organization, pay_order, present, is,
}
use revenant_cloud.Billing.Razorpay.{
  trimmed, verify_payment_signature, verify_subscription_signature, verify_webhook_signature,
}
use revenant_cloud.Billing.Access.{find_organization}
use revenant_cloud.Billing.Subscription.{
  Purpose, autopay_setup, pro_upgrade, razorpay_ready, sync_org_subscription, align_trial,
  cancel_previous, on_pro, activate_pro,
}

pub record PaymentInput : Type 0 where
  pub razorpay_order_id : Option String
  pub razorpay_subscription_id : Option String
  pub razorpay_payment_id : String
  pub razorpay_signature : String

-- The purpose that `verifyStarterAutopayPayment` answers with; the other two fields are constant.
abbrev pub purpose_of : Order → Purpose
purpose_of o = if o.purpose === "pro_upgrade" then pro_upgrade else autopay_setup

abbrev pub is_upgrade : Order → Bool
is_upgrade o = o.purpose === "pro_upgrade"

abbrev pub is_paid : Order → Bool
is_paid o = o.status === "paid"

abbrev pub by_subscription_id : String → ℕ → Order → Bool
by_subscription_id id org o = is o.razorpay_subscription_id id && (o.organization_id == org)

abbrev pub by_order_id : String → ℕ → Order → Bool
by_order_id id org o = is o.razorpay_order_id id && (o.organization_id == org)

-- The test by which the order of a payment is found.
abbrev pub names : Option String → Option String → ℕ → Order → Bool
names (some id) order org = by_subscription_id id org
names none (some id) org = by_order_id id org
names none none org = λ o. false

-- The subscription that an upgrade replaces, unless it is the new one.
abbrev pub replaced : String → Option String → Option String
replaced id none = none
replaced id (some old) = if old === id then none else some old

abbrev pub subscription_paid : Context → ℕ → String → Order → Entity → Action Unit
subscription_paid ctx org id o e =
    if is_upgrade o
    then (do
      cancel_previous (replaced id (trimmed e.notes.replaces_subscription_id))
      set_organization org (on_pro id)
      sync_org_subscription org e)
    else (do sync_org_subscription org e; align_trial ctx org (some id))

abbrev pub take_payment : Context → ℕ → String → String → Order → Entity → Action Purpose
take_payment ctx org id payment o e = do
  pay_order ctx.now payment o.id
  subscription_paid ctx org id o e
  pure (purpose_of o)

abbrev pub settle_subscription : Context → ℕ → String → String → Order → Action Purpose
settle_subscription ctx org id payment o =
    if is_paid o
    then pure (purpose_of o)
    else (await (ctx.fetch_subscription id) >>= take_payment ctx org id payment o)

-- The branch of a payment for a subscription.
unfoldable pub verify_subscription : Context → ℕ → String → String → String → Action Purpose
verify_subscription ctx org id payment signature = do
  raise_if (not (verify_subscription_signature ctx id payment signature (get_or ctx.key_secret "")))
      400 "INVALID_SIGNATURE"
  o ← or_raise (← gets (λ w. find (by_subscription_id id org) w.orders)) 404 "ORDER_NOT_FOUND"
  settle_subscription ctx org id payment o

abbrev pub order_paid : Context → ℕ → ℕ → Order → Action Unit
order_paid ctx org user o =
    if is_upgrade o then activate_pro ctx org user else align_trial ctx org none

abbrev pub settle_order : Context → ℕ → ℕ → String → Order → Action Purpose
settle_order ctx org user payment o =
    if is_paid o
    then pure (purpose_of o)
    else (do pay_order ctx.now payment o.id; order_paid ctx org user o; pure (purpose_of o))

-- The branch of a payment for an order.
unfoldable pub verify_order : Context → ℕ → ℕ → String → String → String → Action Purpose
verify_order ctx org user id payment signature = do
  raise_if (not (verify_payment_signature ctx id payment signature (get_or ctx.key_secret ""))) 400
      "INVALID_SIGNATURE"
  o ← or_raise (← gets (λ w. find (by_order_id id org) w.orders)) 404 "ORDER_NOT_FOUND"
  settle_order ctx org user payment o

abbrev pub verify_either :
    Context → ℕ → ℕ → PaymentInput → Option String → Option String → Action Purpose
verify_either ctx org user input (some id) order =
    verify_subscription ctx org id input.razorpay_payment_id input.razorpay_signature
verify_either ctx org user input none (some id) =
    verify_order ctx org user id input.razorpay_payment_id input.razorpay_signature
verify_either ctx org user input none none = raise_app 400 "VALIDATION_ERROR"

-- `verifyStarterAutopayPayment`
unfoldable pub verify_payment : Context → ℕ → ℕ → PaymentInput → Action Purpose
verify_payment ctx org user input = do
  raise_if (not (razorpay_ready ctx)) 503 "BILLING_UNAVAILABLE"
  raise_if (input.razorpay_payment_id === "" || input.razorpay_signature === "") 400
      "VALIDATION_ERROR"
  verify_either ctx org user input (present input.razorpay_subscription_id)
      (present input.razorpay_order_id)

abbrev pub charged_plan : Option String → String
charged_plan plan = if is plan "pro" then "pro" else "starter"

abbrev pub charged : Entity → Account → Account
charged e o = record o { subscription_status = "active"; plan = charged_plan e.notes.plan }

abbrev pub aligned_if : Bool → Context → ℕ → Entity → Action Unit
aligned_if true ctx org e = align_trial ctx org (some e.id)
aligned_if false ctx org e = pure tt

-- What an event does for the organization that was found for its subscription.
abbrev pub synced_event : Context → String → Entity → Option ℕ → Action Unit
synced_event ctx event e none = pure tt
synced_event ctx event e (some org) = do
  sync_org_subscription org e
  aligned_if (event === "subscription.authenticated") ctx org e

abbrev pub charged_event : Entity → Option ℕ → Action Unit
charged_event e none = pure tt
charged_event e (some org) = set_organization org (charged e)

abbrev pub charged_if : Bool → Entity → Action Unit
charged_if true e = gets (find_organization e) >>= charged_event e
charged_if false e = pure tt

abbrev pub with_entity : Option Entity → Option Entity
with_entity none = none
with_entity (some e) = if e.id === "" then none else some e

abbrev pub apply_event : Context → String → Option Entity → Action Unit
apply_event ctx event none = pure tt
apply_event ctx event (some e) = do
  synced_event ctx event e (← gets (find_organization e))
  charged_if (event === "subscription.charged") e

-- `handleRazorpayWebhook`: the event that it answers with.
unfoldable pub handle_webhook : Context → String → Option String → Action String
handle_webhook ctx body header = do
  _ ← or_raise (trimmed ctx.webhook_secret) 503 "BILLING_UNAVAILABLE"
  signature ← or_raise (present header) 400 "INVALID_SIGNATURE"
  raise_if (not (verify_webhook_signature ctx body signature (get_or ctx.webhook_secret ""))) 400
      "INVALID_SIGNATURE"
  payload ← await (ctx.parse_body body)
  let event = get_or payload.event ""
  apply_event ctx event (with_entity payload.subscription)
  pure event
