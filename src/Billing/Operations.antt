-- ===== src/Billing/Operations.antt =====
-- Whole operations of billing, each at its own time and with its own answers of Razorpay, and what
-- they leave alone.
use revenant_cloud.Base.{ℕ, String, refl, Bool, true, false, not, Option, none, some, ◌==◌}
use revenant_cloud.Plans.{OrganizationPlan, pro}
use revenant_cloud.Billing.{
  Context, Account, Order, Entity, RemoteOrder, Answer, answered, refused, Thrown, app, remote,
}
use revenant_cloud.Billing.Razorpay.{razorpay_http_status}
use revenant_cloud.Billing.Subscription.{
  Checkout, on_pro, activate_pro, without_subscription, clear_stale, unstarted, resume_failed,
  resolve_existing,
}
use revenant_cloud.Billing.Checkout.{
  select_billing_plan, with_plan, plan_name, create_legacy_order, reusable, upgrade_on, call_failed,
  create_pro_upgrade, subscribe, with_checkout, customer_failed, fresh_checkout, existing_checkout,
  or_fresh, create_starter_autopay,
}
use revenant_cloud.Billing.Verify.{
  is_upgrade, is_paid, subscription_paid, settle_subscription, settle_order, order_paid,
}
use revenant_cloud.Billing.Change.{
  Keeps, Keeps-bind, Keeps-catch, Keeps-await, Keeps-or_raise, Keeps-raise_if, Keeps-set,
  Keeps-insert, Keeps-pay,
}
use revenant_cloud.Billing.Effects.{
  still, gets-Keeps, raise-Keeps, if-Keeps, sync-Keeps, align_trial-Keeps, resolve_customer-Keeps,
  resolve_plan_id-Keeps, cancel-Keeps,
}

module _ (P : ℕ → Type 0) (org : ℕ) (ctx : Context) where
  activate_pro-Keeps : (user : ℕ) → Keeps P org (activate_pro ctx org user)
  unfolding activate_pro
  activate_pro-Keeps user = Keeps-bind P org _ _ (Keeps-raise_if P org _ _ _) (λ _.
      Keeps-bind P org _ _ (gets-Keeps P org _) (λ found.
        Keeps-bind P org _ _ (Keeps-or_raise P org found _ _) (λ o.
          Keeps-bind P org _ _ (gets-Keeps P org _) (λ known.
            Keeps-bind P org _ _ (Keeps-or_raise P org known _ _) (λ email.
              Keeps-bind P org _ _ (resolve_customer-Keeps P org ctx o email) (λ customer.
                Keeps-bind P org _ _ (cancel-Keeps P org _) (λ _.
                  Keeps-bind P org _ _ (resolve_plan_id-Keeps P org ctx pro _ _) (λ plan_id.
                    Keeps-bind P org _ _ (Keeps-await P org _) (λ e.
                      Keeps-bind P org _ _ (Keeps-set P org (on_pro e.id) (λ o. refl))
                        (λ _. sync-Keeps P org e))))))))))

  clear-Keeps : Keeps P org (clear_stale org)
  clear-Keeps = Keeps-set P org without_subscription (λ o. refl)

  unstarted-Keeps : (b : Bool) (c : Checkout) → Keeps P org (unstarted org b c)
  unstarted-Keeps true c = still P org (some c)
  unstarted-Keeps false c = Keeps-bind P org _ _ clear-Keeps (λ _. still P org none)

  resume_failed-Keeps : (e : Thrown) → Keeps P org (resume_failed org e)
  resume_failed-Keeps (app e) = raise-Keeps _ P org (app e)
  resume_failed-Keeps (remote e) =
      if-Keeps P org (razorpay_http_status e == 404) _ _
        (Keeps-bind P org _ _ clear-Keeps (λ _. still P org none)) (raise-Keeps _ P org _)

  existing-Keeps :
      (s : Option String) (plan : OrganizationPlan) (ends : ℕ)
      → Keeps P org (existing_checkout ctx org s plan ends)
  unfolding resolve_existing
  existing-Keeps none plan ends = still P org none
  existing-Keeps (some s) plan ends =
      Keeps-catch P org _ _
        (Keeps-bind P org _ _ (Keeps-await P org (ctx.fetch_subscription s)) (λ e.
          Keeps-bind P org _ _ (sync-Keeps P org e)
            (λ _. Keeps-bind P org _ _ (Keeps-raise_if P org _ _ _) (λ _. unstarted-Keeps _ _))))
        resume_failed-Keeps

  pub select-Keeps : (plan : OrganizationPlan) → Keeps P org (select_billing_plan org plan)
  unfolding select_billing_plan
  select-Keeps plan = Keeps-bind P org _ _ (Keeps-raise_if P org _ _ _) (λ _.
      Keeps-bind P org _ _ (gets-Keeps P org _) (λ b.
        Keeps-bind P org _ _ (Keeps-raise_if P org b _ _) (λ _.
          Keeps-bind P org _ _ (Keeps-set P org (with_plan (plan_name plan)) (λ o. refl))
            (λ _. still P org plan))))

  legacy-Keeps :
      (user ends : ℕ) (plan : OrganizationPlan)
      → Keeps P org (create_legacy_order ctx org user ends plan)
  unfolding create_legacy_order
  legacy-Keeps user ends plan =
      Keeps-bind P org _ _ (Keeps-await P org _)
        (λ r. Keeps-bind P org _ _ (Keeps-insert P org _ (refl, refl)) (λ _. still P org _))

  reusable-Keeps : (id : Option String) → Keeps P org (reusable ctx id)
  reusable-Keeps none = still P org none
  reusable-Keeps (some id) =
      Keeps-catch P org _ _
        (Keeps-bind P org _ _ (Keeps-await P org (ctx.fetch_order id)) (λ r. still P org _))
        (λ _. still P org none)

  failed-Keeps :
      (A : Type 0) (code : String) (e : Thrown) → Keeps P org (call_failed {A = A} code e)
  failed-Keeps A code (app e) = raise-Keeps A P org (app e)
  failed-Keeps A code (remote e) = raise-Keeps A P org _

  upgrade_on-Keeps :
      (user : ℕ) (o : Account) (ends : ℕ) (r : Option RemoteOrder)
      → Keeps P org (upgrade_on ctx org user o ends r)
  upgrade_on-Keeps user o ends (some r) = still P org _
  upgrade_on-Keeps user o ends none =
      Keeps-bind P org _ _
        (Keeps-catch P org _ _ (Keeps-await P org _)
          (failed-Keeps RemoteOrder "RAZORPAY_ORDER_FAILED"))
        (λ r. Keeps-bind P org _ _ (Keeps-insert P org _ (refl, refl)) (λ _. still P org _))

  pub upgrade-Keeps : (user : ℕ) → Keeps P org (create_pro_upgrade ctx org user)
  unfolding create_pro_upgrade
  upgrade-Keeps user = Keeps-bind P org _ _ (Keeps-raise_if P org _ _ _) (λ _.
      Keeps-bind P org _ _ (gets-Keeps P org _) (λ found.
        Keeps-bind P org _ _ (Keeps-or_raise P org found _ _) (λ o.
          Keeps-bind P org _ _ (Keeps-raise_if P org _ _ _) (λ _.
            Keeps-bind P org _ _ (Keeps-raise_if P org _ _ _) (λ _.
              Keeps-bind P org _ _ (gets-Keeps P org _) (λ b.
                Keeps-bind P org _ _ (Keeps-raise_if P org (not b) _ _) (λ _.
                  Keeps-bind P org _ _ (gets-Keeps P org _) (λ pending.
                    Keeps-bind P org _ _ (reusable-Keeps _)
                      (λ r. upgrade_on-Keeps user o _ r)))))))))

  subscribe-Keeps :
      (user : ℕ) (plan : OrganizationPlan) (ends : ℕ) (a : Answer Entity)
      → Keeps P org (subscribe ctx org user plan ends a)
  subscribe-Keeps user plan ends (answered e) =
      Keeps-bind P org _ _ (Keeps-insert P org _ (refl, refl)) (λ _.
        Keeps-bind P org _ _ (Keeps-set P org (with_checkout e) (λ o. refl)) (λ _. still P org _))
  subscribe-Keeps user plan ends (refused e) =
      Keeps-catch P org _ _ (legacy-Keeps user ends plan)
        (λ _. failed-Keeps Checkout "RAZORPAY_SUBSCRIPTION_FAILED" (remote e))

  customer_failed-Keeps : (A : Type 0) (e : Thrown) → Keeps P org (customer_failed {A = A} e)
  customer_failed-Keeps A (app e) = raise-Keeps A P org _
  customer_failed-Keeps A (remote e) = raise-Keeps A P org _

  or_fresh-Keeps :
      (user : ℕ) (o : Account) (email : String) (plan : OrganizationPlan) (ends : ℕ)
      → (c : Option Checkout) → Keeps P org (or_fresh ctx org user o email plan ends c)
  unfolding fresh_checkout
  or_fresh-Keeps user o email plan ends (some c) = still P org c
  or_fresh-Keeps user o email plan ends none =
      Keeps-bind P org _ _
        (Keeps-catch P org _ _ (resolve_plan_id-Keeps P org ctx plan _ _)
          (λ _. raise-Keeps _ P org _))
        (λ plan_id.
          Keeps-bind P org _ _
            (Keeps-catch P org _ _ (resolve_customer-Keeps P org ctx o email)
              (customer_failed-Keeps String))
            (λ customer. subscribe-Keeps user plan ends _))

  pub starter-Keeps : (user : ℕ) → Keeps P org (create_starter_autopay ctx org user)
  unfolding create_starter_autopay
  starter-Keeps user = Keeps-bind P org _ _ (Keeps-raise_if P org _ _ _) (λ _.
      Keeps-bind P org _ _ (gets-Keeps P org _) (λ b.
        Keeps-bind P org _ _ (Keeps-raise_if P org b _ _) (λ _.
          Keeps-bind P org _ _ (gets-Keeps P org _) (λ found.
            Keeps-bind P org _ _ (Keeps-or_raise P org found _ _) (λ o.
              Keeps-bind P org _ _ (gets-Keeps P org _) (λ known.
                Keeps-bind P org _ _ (Keeps-or_raise P org known _ _) (λ email.
                  Keeps-bind P org _ _ (Keeps-raise_if P org _ _ _) (λ _.
                    Keeps-bind P org _ _ (existing-Keeps _ _ _)
                      (λ resumed. or_fresh-Keeps user o email _ _ resumed)))))))))

  pub subscription_paid-Keeps :
      (id : String) (o : Order) (e : Entity) → Keeps P org (subscription_paid ctx org id o e)
  subscription_paid-Keeps id o e =
      if-Keeps P org (is_upgrade o) _ _
        (Keeps-bind P org _ _ (cancel-Keeps P org _) (λ _.
          Keeps-bind P org _ _ (Keeps-set P org (on_pro id) (λ o. refl)) (λ _. sync-Keeps P org e)))
        (Keeps-bind P org _ _ (sync-Keeps P org e) (λ _. align_trial-Keeps P org ctx (some id)))

  pub order_paid-Keeps : (user : ℕ) (o : Order) → Keeps P org (order_paid ctx org user o)
  order_paid-Keeps user o =
      if-Keeps P org (is_upgrade o) _ _ (activate_pro-Keeps user) (align_trial-Keeps P org ctx none)

  -- What is done for an order that may be paid.
  pub settle_subscription-Keeps :
      (id payment : String) (o : Order)
      → P o.id
      → Keeps P org (settle_subscription ctx org id payment o)
  settle_subscription-Keeps id payment o own = if-Keeps P org (is_paid o) _ _ (still P org _) (
      Keeps-bind P org _ _ (Keeps-await P org (ctx.fetch_subscription id)) (λ e.
        Keeps-bind P org _ _ (Keeps-pay P org ctx.now payment o.id own)
          (λ _. Keeps-bind P org _ _ (subscription_paid-Keeps id o e) (λ _. still P org _))))

  pub settle_order-Keeps :
      (user : ℕ) (payment : String) (o : Order)
      → P o.id
      → Keeps P org (settle_order ctx org user payment o)
  settle_order-Keeps user payment o own = if-Keeps P org (is_paid o) _ _ (still P org _) (
      Keeps-bind P org _ _ (Keeps-pay P org ctx.now payment o.id own)
        (λ _. Keeps-bind P org _ _ (order_paid-Keeps user o) (λ _. still P org _)))
