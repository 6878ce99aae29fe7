-- ===== src/Billing/Tests.antt =====
-- Billing on a small world.
use revenant_cloud.Base.{
  ℕ, String, ◌≡◌, refl, false, Option, none, some, List, [], ◌∷◌, map, ◌===◌, ◌⊎◌, if◌then◌else◌,
}
use revenant_cloud.Store.{app_error}
use revenant_cloud.Plans.{starter, pro}
use revenant_cloud.Limits.{trial_ends_from_now}
use revenant_cloud.Billing.{
  Context, World, Account, Order, Notes, Entity, RemoteError, answered, refused, cancel_now,
  start_later, returned, threw, app, remote, pure, raise, gets, await, ◌>>=◌, catch, raise_if,
  or_raise, called, set_organization, pay_order,
}
use revenant_cloud.Billing.Razorpay.{
  razorpay_http_status, verify_payment_signature, verify_subscription_signature,
  verify_webhook_signature, map_subscription_status, resolve_plan_id,
}
use revenant_cloud.Billing.Access.{find_organization}
use revenant_cloud.Billing.Subscription.{
  autopay_setup, pro_upgrade, sync_org_subscription, align_trial, resolve_customer,
  resolve_existing, activate_pro, auth_or,
}
use revenant_cloud.Billing.Checkout.{select_billing_plan, create_starter_autopay}
use revenant_cloud.Billing.Verify.{
  PaymentInput, verify_subscription, verify_order, verify_payment, handle_webhook,
}
use revenant_cloud.Billing.History.{
  Operation, upgrade, webhook, run, run_all, target, Kept, run-EventChange, run_all-Kept,
}
use revenant_cloud.Billing.Webhooks.{EventChange}
use revenant_cloud.Billing.Once.{verify_payment-once, verify_payment-no_retry}
use revenant_cloud.Billing.Failures.{resolve_existing-refused, verify_payment-threw}
use revenant_cloud.Billing.Autopay.{has_autopay_setup-for_ever}

abbrev nothing : RemoteError
nothing = record { status_code = some 404; description = none; reason = none; message = none }

abbrev plain : Notes
plain = record { organization_id = none; plan = none; replaces_subscription_id = none }

abbrev entity : String → Entity
entity status = record { id = "sub_1"; status = status; notes = plain; customer_id = some "cust_1" }

-- Razorpay knows one subscription, takes new orders and refuses new subscriptions; signatures are
-- the signed texts, and a body is the name of an event.
abbrev context : Context
context = record {
  now = 5000000;
  new_id = 40;
  key_id = some "key";
  key_secret = some "secret";
  webhook_secret = some "hook";
  starter_plan_id = some "plan_s";
  pro_plan_id = some "plan_p";
  auto_create_plan = false;
  node_env = "production";
  hmac = λ key text. text;
  parse_body = λ body. answered (record {
    event = some body;
    subscription =
        some (entity (if body === "subscription.cancelled" then "cancelled" else "authenticated"));
  });
  fetch_subscription =
      λ id. if id === "sub_1" then answered (entity "authenticated") else refused nothing;
  create_subscription = λ body. refused nothing;
  fetch_order = λ id. refused nothing;
  create_order = λ body.
      answered (record { id = "order_9"; status = "created"; amount = 100; currency = none });
  create_customer = λ name email org. answered (some "cust_2");
  all_customers = λ size skip. answered none;
  create_plan = λ name amount. refused nothing;
}

abbrev account : Account
account = record {
  id = 1;
  name = "Small";
  plan = "starter";
  subscription_status = "trialing";
  trial_ends_at = some 9000000;
  razorpay_customer_id = none;
  razorpay_subscription_id = some "sub_1";
  razorpay_subscription_status = some "created";
}

abbrev other : Account
other = record account { id = 2; razorpay_subscription_id = none }

abbrev setup : Order
setup = record {
  id = 10;
  organization_id = 1;
  razorpay_order_id = none;
  razorpay_subscription_id = some "sub_1";
  amount_paise = 100;
  currency = "INR";
  plan = "starter";
  purpose = "autopay_setup";
  status = "created";
  razorpay_payment_id = none;
  created_by_user_id = some 7;
  paid_at = none;
}

abbrev ordered_upgrade : Order
ordered_upgrade = record setup {
  id = 11;
  razorpay_order_id = some "order_1";
  razorpay_subscription_id = none;
  plan = "pro";
  purpose = "pro_upgrade";
}

abbrev world : World
world = record {
  organizations = account ∷ other ∷ [];
  orders = setup ∷ ordered_upgrade ∷ [];
  users = record { id = 7; email = "a@b" } ∷ [];
  calls = [];
}

abbrev setup_payment : PaymentInput
setup_payment = record {
  razorpay_order_id = none;
  razorpay_subscription_id = some "sub_1";
  razorpay_payment_id = "pay_1";
  razorpay_signature = "pay_1|sub_1";
}

abbrev upgrade_payment : PaymentInput
upgrade_payment = record {
  razorpay_order_id = some "order_1";
  razorpay_subscription_id = none;
  razorpay_payment_id = "pay_2";
  razorpay_signature = "order_1|pay_2";
}

abbrev plans : World → List String
plans w = map (λ (a : Account). a.plan) w.organizations

verified :
    ((verify_payment context 1 7 setup_payment world).0 ≡ returned autopay_setup)
    × ((verify_payment context 1 7 setup_payment world).1.calls ≡ start_later "sub_1" 7781000 ∷ [])
unfolding verify_payment verify_subscription verify_subscription_signature sync_org_subscription
    map_subscription_status align_trial trial_ends_from_now pure raise gets await ◌>>=◌ raise_if
    or_raise called set_organization pay_order
verified = (refl, refl)

-- The activation of Pro is refused after the order is marked as paid: the plan stays Starter, the
-- previous subscription is cancelled, and a second verification is answered as a success.
lost_upgrade :
    let (first, w) = verify_payment context 1 7 upgrade_payment world in
    let (second, v) = verify_payment context 1 7 upgrade_payment w in
    (first ≡ threw (remote nothing))
    × (w.calls ≡ cancel_now "sub_1" ∷ [])
    × (second ≡ returned pro_upgrade)
    × (plans v ≡ "starter" ∷ "starter" ∷ [])
unfolding verify_payment verify_order verify_payment_signature sync_org_subscription
    map_subscription_status activate_pro resolve_customer resolve_plan_id trial_ends_from_now pure
    raise gets await ◌>>=◌ catch raise_if or_raise called set_organization pay_order
lost_upgrade = (refl, refl, refl, refl)

abbrev trial_ends : World → List (Option ℕ)
trial_ends w = map (λ (a : Account). a.trial_ends_at) w.organizations

-- An event that is delivered again starts the trial of 90 days again.
repeated_event :
    let again : Context = record context { now = 6000000 } in
    let event = webhook "subscription.authenticated" (some "subscription.authenticated") in
    (trial_ends (run context event world) ≡ some 7781000000 ∷ some 9000000 ∷ [])
    × (trial_ends (run again event (run context event world)) ≡ some 7782000000 ∷ some 9000000 ∷ [])
unfolding handle_webhook verify_webhook_signature find_organization sync_org_subscription
    map_subscription_status align_trial trial_ends_from_now pure raise gets await ◌>>=◌ raise_if
    or_raise called set_organization
repeated_event = (refl, refl)

abbrev pro_account : Account
pro_account = record account { plan = "pro" }

-- An active subscription whose notes name no plan takes the account from Pro to Starter.
downgraded :
    plans
      (sync_org_subscription 1
        (entity "active")
        (record world { organizations = pro_account ∷ [] })).1
    ≡ "starter" ∷ []
unfolding sync_org_subscription map_subscription_status set_organization
downgraded = refl

abbrev cancelled : Operation
cancelled = webhook "subscription.cancelled" (some "subscription.cancelled")

abbrev operations : List (Context × Operation)
operations = (context, cancelled) ∷ (context, upgrade 1 7) ∷ []

run-EventChange_example :
    EventChange (target context cancelled world) world (run context cancelled world)
run-EventChange_example = run-EventChange context cancelled world

run_all-Kept_example : Kept world.orders (run_all operations world).orders
run_all-Kept_example = run_all-Kept operations world

verify_payment-once_example :
    let v = run_all operations (verify_payment context 1 7 setup_payment world).1 in
    verify_payment context 1 8 setup_payment v ≡ (returned autopay_setup, v)
unfolding verify_payment verify_subscription verify_subscription_signature sync_org_subscription
    map_subscription_status align_trial trial_ends_from_now pure raise gets await ◌>>=◌ raise_if
    or_raise called set_organization pay_order
verify_payment-once_example =
    verify_payment-once context context 1 7 8 setup_payment autopay_setup operations world refl refl

verify_payment-no_retry_example :
    let v = run_all operations (verify_payment context 1 7 upgrade_payment world).1 in
    verify_payment context 1 7 upgrade_payment v ≡ (returned pro_upgrade, v)
unfolding verify_payment_signature
verify_payment-no_retry_example =
    verify_payment-no_retry context context 1 7 7 upgrade_payment "order_1" ordered_upgrade
      operations world refl refl refl refl refl refl

abbrev forged : PaymentInput
forged = record setup_payment { razorpay_signature = "x" }

verify_payment-threw_example : (verify_payment context 1 7 forged world).1 ≡ world
unfolding verify_payment verify_subscription verify_subscription_signature pure raise ◌>>=◌ raise_if
verify_payment-threw_example =
    verify_payment-threw context 1 7 forged world (app (app_error 400 "INVALID_SIGNATURE"))
      (λ (direct, o, found, up). cc direct) refl

resolve_existing-refused_example :
    let status = razorpay_http_status nothing in
    ((status ≡ 400) ⊎ ((status ≡ 401) ⊎ (status ≡ 502)))
    × (resolve_existing context 1 "sub_0" starter 9000000 world
        ≡ (threw (app (app_error status (auth_or "RAZORPAY_SUBSCRIPTION_FAILED" status))), world))
resolve_existing-refused_example =
    resolve_existing-refused context 1 "sub_0" starter 9000000 nothing world refl

abbrev paid_world : World
paid_world = record world { orders = record setup { status = "paid"; paid_at = some 4000000 } ∷ [] }

has_autopay_setup-for_ever_example :
    let v = run_all operations paid_world in
    (select_billing_plan 1 pro v ≡ (threw (app (app_error 409 "AUTOPAY_ALREADY_ACTIVE")), v))
    × (create_starter_autopay context 1 7 v
        ≡ (threw (app (app_error 409 "AUTOPAY_ALREADY_ACTIVE")), v))
has_autopay_setup-for_ever_example =
    has_autopay_setup-for_ever context 1 7 pro operations paid_world refl refl refl
