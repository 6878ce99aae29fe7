-- ===== src/Billing/Subscription.antt =====
-- The steps that the operations of billing share (apps/api/src/services/billing.service.ts up to line
-- 391). Texts for the checkout page are left out.
use revenant_cloud.Base.{
  ℕ, ◌+◌, ◌/◌, max, String, Bool, true, false, not, ◌||◌, Option, none, some, get_or, ◌==◌, ◌===◌,
  if◌then◌else◌, find, truthy,
}
use revenant_cloud.Plans.{
  OrganizationPlan, pro, starter_price_inr, pro_price_inr, starter_trial_days,
}
use revenant_cloud.Limits.{trial_ends_from_now}
use revenant_cloud.Billing.{
  Context, World, Account, User, Entity, Notes, SubscriptionBody, Action, Thrown, app, remote, pure,
  raise, gets, await, catch, ◌>>=◌, ◌>>◌, raise_app, raise_if, or_raise, called, cancel_now,
  start_later, set_organization, organization_by, present,
}
use revenant_cloud.Billing.Razorpay.{
  is_razorpay_configured, map_subscription_status, razorpay_http_status, ensure_customer,
  resolve_plan_id,
}

abbrev pub razorpay_ready : Context → Bool
razorpay_ready ctx = is_razorpay_configured ctx.key_id ctx.key_secret

-- `assertRazorpayReady`
abbrev pub assert_ready : Context → Action Unit
assert_ready ctx = raise_if (not (razorpay_ready ctx)) 503 "BILLING_UNAVAILABLE"

-- The plan that an entity brings: that of its notes, or Starter where it makes the account active.
abbrev pub synced_plan : Option String → Option String → String → String
synced_plan noted status plan =
    let named = get_or noted "" in
    if named === "starter" || named === "pro"
    then named
    else if get_or status "" === "active"
    then "starter"
    else plan

abbrev pub synced : Entity → Account → Account
synced e o =
    let (razorpay_status, mapped) = map_subscription_status e.status in
    record o {
      razorpay_subscription_id = some e.id;
      razorpay_subscription_status = some razorpay_status;
      razorpay_customer_id =
          (if truthy e.customer_id then e.customer_id else o.razorpay_customer_id);
      subscription_status = get_or mapped o.subscription_status;
      plan = synced_plan e.notes.plan mapped o.plan;
    }

-- `syncOrgSubscription`
unfoldable pub sync_org_subscription : ℕ → Entity → Action Unit
sync_org_subscription org e = set_organization org (synced e)

abbrev pub full_trial : Context → ℕ
full_trial ctx = trial_ends_from_now ctx.now starter_trial_days

-- When the monthly charge starts, in seconds: at the trial's end, ten minutes from now at the earliest.
abbrev pub charge_start : Context → ℕ → ℕ
charge_start ctx trial_ends = max (trial_ends / 1000) (ctx.now / 1000 + 600)

abbrev pub trialing_until : ℕ → Account → Account
trialing_until ends o = record o { trial_ends_at = some ends; subscription_status = "trialing" }

abbrev pub move_start : Context → Option String → Action Unit
move_start ctx none = pure tt
move_start ctx (some id) =
    if razorpay_ready ctx
    then called (start_later id (charge_start ctx (full_trial ctx)))
    else pure tt

-- `alignTrialAfterAutopaySetup`
unfoldable pub align_trial : Context → ℕ → Option String → Action Unit
align_trial ctx org subscription = do
  set_organization org (trialing_until (full_trial ctx))
  move_start ctx (present subscription)

abbrev pub recurring_amount : OrganizationPlan → ℕ
recurring_amount pro = pro_price_inr
recurring_amount _ = starter_price_inr

abbrev pub with_customer : String → Account → Account
with_customer id o = record o { razorpay_customer_id = some id }

abbrev pub new_customer : Context → ℕ → String → String → Action String
new_customer ctx org name email = do
  id ← ensure_customer ctx name email org
  set_organization org (with_customer id)
  pure id

-- The customer of the subscription that is there already, or a new one.
abbrev pub customer_of : Context → ℕ → Account → String → Option String → Action String
customer_of ctx org o email none = new_customer ctx org o.name email
customer_of ctx org o email (some id) = do set_organization org (with_customer id); pure id

abbrev pub known_customer : Context → Option String → Action (Option String)
known_customer ctx none = pure none
known_customer ctx (some subscription) =
    catch (await (ctx.fetch_subscription subscription) >>= λ e. pure (present e.customer_id))
      (λ _. pure none)

-- `resolveOrganizationCustomerId`
unfoldable pub resolve_customer : Context → ℕ → Account → String → Action String
resolve_customer ctx org o email = elim (present o.razorpay_customer_id) [
  | some id ↦ pure id
  | none ↦ known_customer ctx (present o.razorpay_subscription_id) >>= customer_of ctx org o email
]

abbrev pub without_subscription : Account → Account
without_subscription o = record o {
  razorpay_subscription_id = none;
  razorpay_subscription_status = none;
}

-- `clearStaleSubscription`
abbrev pub clear_stale : ℕ → Action Unit
clear_stale org = set_organization org without_subscription

pub data Purpose : Type 0 where
  autopay_setup pro_upgrade : Purpose

pub data CheckoutMode : Type 0 where
  by_subscription by_order : String → CheckoutMode

-- `BillingCreateOrderResponse` without its texts.
pub record Checkout : Type 0 where
  pub mode : CheckoutMode
  pub amount : ℕ
  pub currency : Option String
  pub plan : OrganizationPlan
  pub purpose : Purpose
  pub trial_ends_at : ℕ
  pub recurring_amount_inr : ℕ

abbrev pub setup_paise : ℕ
setup_paise = 100

abbrev pub subscription_checkout : String → OrganizationPlan → ℕ → Checkout
subscription_checkout id plan trial_ends = record {
  mode = by_subscription id;
  amount = setup_paise;
  currency = some "INR";
  plan = plan;
  purpose = autopay_setup;
  trial_ends_at = trial_ends;
  recurring_amount_inr = recurring_amount plan;
}

abbrev pub auth_or : String → ℕ → String
auth_or code status = if status == 401 then "RAZORPAY_AUTH_FAILED" else code

-- A checkout that is still open is resumed; any other subscription is forgotten.
abbrev pub unstarted : ℕ → Bool → Checkout → Action (Option Checkout)
unstarted org true checkout = pure (some checkout)
unstarted org false checkout = clear_stale org >> pure none

abbrev pub resume : ℕ → OrganizationPlan → ℕ → Entity → Action (Option Checkout)
resume org plan trial_ends e = do
  sync_org_subscription org e
  raise_if (e.status === "authenticated" || e.status === "active" || e.status === "pending") 409
      "AUTOPAY_ALREADY_ACTIVE"
  unstarted org (e.status === "created") (subscription_checkout e.id plan trial_ends)

abbrev pub resume_failed : ℕ → Thrown → Action (Option Checkout)
resume_failed org (app e) = raise (app e)
resume_failed org (remote e) =
    let status = razorpay_http_status e in
    if status == 404
    then (clear_stale org >> pure none)
    else raise_app status (auth_or "RAZORPAY_SUBSCRIPTION_FAILED" status)

-- `resolveExistingSubscriptionCheckout`
unfoldable pub resolve_existing :
    Context → ℕ → String → OrganizationPlan → ℕ → Action (Option Checkout)
resolve_existing ctx org subscription plan trial_ends =
    catch (await (ctx.fetch_subscription subscription) >>= resume org plan trial_ends)
      (resume_failed org)

abbrev pub email_of : Option User → Option String
email_of none = none
email_of (some u) = present (some u.email)

abbrev pub user_email : ℕ → World → Option String
user_email user w = email_of (find (λ u. u.id == user) w.users)

abbrev pub cancel_previous : Option String → Action Unit
cancel_previous none = pure tt
cancel_previous (some id) = called (cancel_now id)

abbrev pub may_create_plan : Context → Bool
may_create_plan ctx = ctx.auto_create_plan || not (ctx.node_env === "production")

abbrev pub notes_for : ℕ → String → Notes
notes_for org plan = record {
  organization_id = some org;
  plan = some plan;
  replaces_subscription_id = none;
}

abbrev pub pro_body : Context → ℕ → Account → String → String → SubscriptionBody
pro_body ctx org o plan_id customer = record {
  plan_id = plan_id;
  customer_id = customer;
  total_count = 120;
  start_at = charge_start ctx (get_or o.trial_ends_at (full_trial ctx));
  addon_amount = none;
  notes = notes_for org "pro";
}

abbrev pub on_pro : String → Account → Account
on_pro subscription o = record o { plan = "pro"; razorpay_subscription_id = some subscription }

-- `activateProPlanAfterUpgradePayment`
unfoldable pub activate_pro : Context → ℕ → ℕ → Action Unit
activate_pro ctx org user = do
  assert_ready ctx
  o ← or_raise (← gets (organization_by org)) 404 "NOT_FOUND"
  email ← or_raise (← gets (user_email user)) 400 "VALIDATION_ERROR"
  customer ← resolve_customer ctx org o email
  cancel_previous (present o.razorpay_subscription_id)
  plan_id ← resolve_plan_id ctx pro ctx.pro_plan_id (may_create_plan ctx)
  subscription ← await (ctx.create_subscription (pro_body ctx org o plan_id customer))
  set_organization org (on_pro subscription.id)
  sync_org_subscription org subscription
