-- ===== src/Billing/Checkout.antt =====
-- The operations that open a checkout, and the choice of a plan (apps/api/src/services/billing.service.ts).
-- Receipts and texts are left out.
use revenant_cloud.Base.{
  ℕ, String, Bool, true, false, not, ◌&&◌, Option, none, some, get_or, ◌==◌, ◌===◌, if◌then◌else◌,
  find,
}
use revenant_cloud.Plans.{OrganizationPlan, starter, pro, enterprise, parse_organization_plan}
use revenant_cloud.Billing.{
  Context, Account, Order, Entity, RemoteError, RemoteOrder, OrderBody, SubscriptionBody, Answer,
  Action, Thrown, app, remote, pure, raise, gets, await, catch, ◌>>=◌, ◌>>◌, raise_app, raise_if,
  or_raise, set_organization, insert_order, organization_by, present,
}
use revenant_cloud.Billing.Razorpay.{razorpay_http_status, resolve_plan_id}
use revenant_cloud.Billing.Access.{has_autopay_setup}
use revenant_cloud.Billing.Subscription.{
  Checkout, autopay_setup, pro_upgrade, by_order, assert_ready, full_trial, charge_start,
  resolve_customer, resolve_existing, subscription_checkout, setup_paise, auth_or, user_email,
  may_create_plan, notes_for, recurring_amount, Purpose,
}

abbrev pub is_enterprise : OrganizationPlan → Bool
is_enterprise enterprise = true
is_enterprise _ = false

abbrev pub plan_name : OrganizationPlan → String
plan_name starter = "starter"
plan_name pro = "pro"
plan_name enterprise = "enterprise"

abbrev pub with_plan : String → Account → Account
with_plan plan o = record o { plan = plan }

-- `selectBillingPlan`
unfoldable pub select_billing_plan : ℕ → OrganizationPlan → Action OrganizationPlan
select_billing_plan org plan = do
  raise_if (is_enterprise plan) 400 "VALIDATION_ERROR"
  raise_if (← gets (has_autopay_setup org)) 409 "AUTOPAY_ALREADY_ACTIVE"
  set_organization org (with_plan (plan_name plan))
  pure plan

abbrev pub new_order :
    Context → ℕ → ℕ → String → String → String → Option String → Option String → Order
new_order ctx org user currency plan purpose order subscription = record {
  id = ctx.new_id;
  organization_id = org;
  razorpay_order_id = order;
  razorpay_subscription_id = subscription;
  amount_paise = setup_paise;
  currency = currency;
  plan = plan;
  purpose = purpose;
  status = "created";
  razorpay_payment_id = none;
  created_by_user_id = some user;
  paid_at = none;
}

abbrev pub order_checkout : RemoteOrder → Option String → OrganizationPlan → Purpose → ℕ → Checkout
order_checkout r currency plan purpose trial_ends = record {
  mode = by_order r.id;
  amount = r.amount;
  currency = currency;
  plan = plan;
  purpose = purpose;
  trial_ends_at = trial_ends;
  recurring_amount_inr = recurring_amount plan;
}

abbrev pub order_body : ℕ → String → String → Option String → OrderBody
order_body org plan purpose replaces = record {
  amount = setup_paise;
  currency = "INR";
  organization_id = org;
  plan = plan;
  purpose = purpose;
  replaces_subscription_id = replaces;
}

-- `createLegacyOrderCheckout`
unfoldable pub create_legacy_order : Context → ℕ → ℕ → ℕ → OrganizationPlan → Action Checkout
create_legacy_order ctx org user trial_ends plan = do
  order ← await (ctx.create_order (order_body org (plan_name plan) "autopay_setup" none))
  insert_order (
      new_order ctx org user (get_or order.currency "INR") (plan_name plan) "autopay_setup"
        (some order.id) none)
  pure (order_checkout order order.currency plan autopay_setup trial_ends)

-- An upgrade that waits for its payment.
abbrev pub open_upgrade : ℕ → Order → Bool
open_upgrade org o =
    (o.organization_id == org) && o.purpose === "pro_upgrade" && o.status === "created"

abbrev pub order_id_of : Option Order → Option String
order_id_of none = none
order_id_of (some o) = present o.razorpay_order_id

abbrev pub still_open : RemoteOrder → Option RemoteOrder
still_open r = if r.status === "created" then some r else none

-- The remote order of a pending upgrade, where it can still be paid; a refusal counts as none.
abbrev pub reusable : Context → Option String → Action (Option RemoteOrder)
reusable ctx none = pure none
reusable ctx (some id) =
    catch (await (ctx.fetch_order id) >>= λ r. pure (still_open r)) (λ _. pure none)

abbrev pub call_failed : {A : Type 0} → String → Thrown → Action A
call_failed code (app e) = raise (app e)
call_failed code (remote e) =
    let status = razorpay_http_status e in raise_app status (auth_or code status)

abbrev pub upgrade_on : Context → ℕ → ℕ → Account → ℕ → Option RemoteOrder → Action Checkout
upgrade_on ctx org user o trial_ends (some r) =
    pure (order_checkout r (some (get_or r.currency "INR")) pro pro_upgrade trial_ends)
upgrade_on ctx org user o trial_ends none = do
  order ←
      catch
        (await (
          ctx.create_order
            (order_body org "pro" "pro_upgrade" (some (get_or o.razorpay_subscription_id "")))))
        (call_failed "RAZORPAY_ORDER_FAILED")
  insert_order (
      new_order ctx org user (get_or order.currency "INR") "pro" "pro_upgrade" (some order.id) none)
  pure (order_checkout order (some (get_or order.currency "INR")) pro pro_upgrade trial_ends)

abbrev pub is_on_pro : OrganizationPlan → Bool
is_on_pro pro = true
is_on_pro _ = false

-- `createProUpgradeCheckout`
unfoldable pub create_pro_upgrade : Context → ℕ → ℕ → Action Checkout
create_pro_upgrade ctx org user = do
  assert_ready ctx
  o ← or_raise (← gets (organization_by org)) 404 "NOT_FOUND"
  let current = parse_organization_plan o.plan
  raise_if (is_on_pro current) 409 "ALREADY_ON_PRO"
  raise_if (is_enterprise current) 400 "VALIDATION_ERROR"
  raise_if (not (← gets (has_autopay_setup org))) 400 "AUTOPAY_REQUIRED"
  pending ← gets (λ w. find (open_upgrade org) w.orders)
  reused ← reusable ctx (order_id_of pending)
  upgrade_on ctx org user o (get_or o.trial_ends_at (full_trial ctx)) reused

abbrev pub starter_body : Context → ℕ → OrganizationPlan → String → String → ℕ → SubscriptionBody
starter_body ctx org plan plan_id customer trial_ends = record {
  plan_id = plan_id;
  customer_id = customer;
  total_count = 120;
  start_at = charge_start ctx trial_ends;
  addon_amount = some setup_paise;
  notes = notes_for org (plan_name plan);
}

abbrev pub configured_plan : Context → OrganizationPlan → Option String
configured_plan ctx plan = if is_on_pro plan then ctx.pro_plan_id else ctx.starter_plan_id

abbrev pub with_checkout : Entity → Account → Account
with_checkout e o = record o {
  razorpay_subscription_id = some e.id;
  razorpay_subscription_status = some e.status;
}

abbrev pub subscribed_to : Context → ℕ → ℕ → OrganizationPlan → ℕ → Entity → Action Checkout
subscribed_to ctx org user plan trial_ends e = do
  insert_order (new_order ctx org user "INR" (plan_name plan) "autopay_setup" none (some e.id))
  set_organization org (with_checkout e)
  pure (subscription_checkout e.id plan trial_ends)

-- The order that replaces a subscription which Razorpay refused; the first refusal is the one reported.
abbrev pub fall_back : Context → ℕ → ℕ → OrganizationPlan → ℕ → RemoteError → Action Checkout
fall_back ctx org user plan trial_ends e =
    catch (create_legacy_order ctx org user trial_ends plan)
      (λ _. call_failed "RAZORPAY_SUBSCRIPTION_FAILED" (remote e))

abbrev pub subscribe : Context → ℕ → ℕ → OrganizationPlan → ℕ → Answer Entity → Action Checkout
subscribe ctx org user plan trial_ends (Answer.answered e) =
    subscribed_to ctx org user plan trial_ends e
subscribe ctx org user plan trial_ends (Answer.refused e) = fall_back ctx org user plan trial_ends e

abbrev pub customer_failed : {A : Type 0} → Thrown → Action A
customer_failed (app e) = raise_app 502 "RAZORPAY_CUSTOMER_FAILED"
customer_failed (remote e) = raise_app (razorpay_http_status e) "RAZORPAY_CUSTOMER_FAILED"

-- The checkout of an organization that has no subscription to resume.
unfoldable pub fresh_checkout :
    Context → ℕ → ℕ → Account → String → OrganizationPlan → ℕ → Action Checkout
fresh_checkout ctx org user o email plan trial_ends = do
  plan_id ←
      catch (resolve_plan_id ctx plan (configured_plan ctx plan) (may_create_plan ctx))
        (λ _. raise_app 503 "BILLING_MISCONFIGURED")
  customer ← catch (resolve_customer ctx org o email) customer_failed
  subscribe ctx org user plan trial_ends
      (ctx.create_subscription (starter_body ctx org plan plan_id customer trial_ends))

abbrev pub existing_checkout :
    Context → ℕ → Option String → OrganizationPlan → ℕ → Action (Option Checkout)
existing_checkout ctx org none plan trial_ends = pure none
existing_checkout ctx org (some subscription) plan trial_ends =
    resolve_existing ctx org subscription plan trial_ends

abbrev pub or_fresh :
    Context → ℕ → ℕ → Account → String → OrganizationPlan → ℕ → Option Checkout → Action Checkout
or_fresh ctx org user o email plan trial_ends (some resumed) = pure resumed
or_fresh ctx org user o email plan trial_ends none =
    fresh_checkout ctx org user o email plan trial_ends

-- `createStarterAutopayOrder`
unfoldable pub create_starter_autopay : Context → ℕ → ℕ → Action Checkout
create_starter_autopay ctx org user = do
  assert_ready ctx
  raise_if (← gets (has_autopay_setup org)) 409 "AUTOPAY_ALREADY_ACTIVE"
  o ← or_raise (← gets (organization_by org)) 404 "NOT_FOUND"
  email ← or_raise (← gets (user_email user)) 400 "VALIDATION_ERROR"
  let plan = parse_organization_plan o.plan
  raise_if (is_enterprise plan) 400 "VALIDATION_ERROR"
  let trial_ends = get_or o.trial_ends_at (full_trial ctx)
  resumed ← existing_checkout ctx org (present o.razorpay_subscription_id) plan trial_ends
  or_fresh ctx org user o email plan trial_ends resumed
