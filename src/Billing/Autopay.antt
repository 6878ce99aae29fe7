-- ===== src/Billing/Autopay.antt =====
-- A card that was set up, and the state of an account after an event of its subscription.
use mathlib.Core.Bool.{false≢true}
use revenant_cloud.Base.{
  ℕ, String, ◌≡◌, refl, sym, ap, ◌∙◌, inl, inr, Bool, true, false, ◌||◌, some, get_or, List, [],
  ◌∷◌, ◌===◌, ◌==◌, if◌then◌else◌, find, is_some, Bool-cases, arith, eq_iff,
}
use revenant_cloud.Store.{update_where, app_error, Organization}
use revenant_cloud.Plans.{OrganizationPlan}
use revenant_cloud.Limits.{is_subscription_active, trial_runs}
use revenant_cloud.Billing.{
  Context, World, Account, Order, Entity, threw, app, pure, raise, gets, ◌>>=◌, raise_if,
  set_organization, organization_by,
}
use revenant_cloud.Billing.Razorpay.{map_subscription_status}
use revenant_cloud.Billing.Access.{has_autopay_setup, paid_setup, subscribed}
use revenant_cloud.Billing.Subscription.{razorpay_ready, synced, sync_org_subscription}
use revenant_cloud.Billing.Checkout.{select_billing_plan, is_enterprise, create_starter_autopay}
use revenant_cloud.Billing.Change.{Step}
use revenant_cloud.Billing.History.{Operation, run_all, Kept, run_all-Kept}

or_right : (a b : Bool) → b ≡ true → (a || b) ≡ true
or_right true b h = refl
or_right false b h = h

has_paid : ℕ → List Order → Bool
has_paid org os = is_some (find (paid_setup org) os)

Step-paid_setup :
    (org : ℕ) (o p : Order) → Step o p → paid_setup org o ≡ true → paid_setup org p ≡ true
Step-paid_setup org o p (inl e) h = rw e h
Step-paid_setup org o p (inr (now, payment, e)) h = rw e (ground (arith, h))

Kept-has_paid :
    (org : ℕ) (os ps : List Order) → Kept os ps → has_paid org os ≡ true → has_paid org ps ≡ true
unfolding has_paid
Kept-has_paid org [] ps k h = absurd (false≢true h)
Kept-has_paid org (o ∷ os) [] k h = absurd k
Kept-has_paid org (o ∷ os) (p ∷ ps) (step, k) h = elim (Bool-cases (paid_setup org p)) [
  | inl t ↦ rw t refl
  | inr f ↦ elim (Bool-cases (paid_setup org o)) [
    | inl u ↦ absurd (false≢true (sym f ∙ Step-paid_setup org o p step u))
    | inr g ↦ rw f (Kept-has_paid org os ps k (ground (arith, g, h)))
  ]
]

-- Once an organization has a paid order for its card, then after any operations of billing, at any
-- times and with any answers of Razorpay (events that cancel or expire its subscription among them),
-- it can neither choose another plan nor open a new checkout for a card: both are refused with
-- AUTOPAY_ALREADY_ACTIVE and change nothing.
pub has_autopay_setup-for_ever :
    (later : Context) (org user : ℕ) (plan : OrganizationPlan)
    → (operations : List (Context × Operation)) (w : World) → is_enterprise plan ≡ false
    → razorpay_ready later ≡ true
    → is_some (find (paid_setup org) w.orders) ≡ true
    → let v = run_all operations w in
      (select_billing_plan org plan v ≡ (threw (app (app_error 409 "AUTOPAY_ALREADY_ACTIVE")), v))
      × (create_starter_autopay later org user v
          ≡ (threw (app (app_error 409 "AUTOPAY_ALREADY_ACTIVE")), v))
unfolding select_billing_plan create_starter_autopay ◌>>=◌ raise_if gets raise pure
    has_autopay_setup has_paid
has_autopay_setup-for_ever later org user plan operations w cloud ready paid =
    let v = run_all operations w in
    let h : has_paid org v.orders ≡ true =
      Kept-has_paid org w.orders v.orders (run_all-Kept operations w) paid in
    let set : has_autopay_setup org v ≡ true =
      or_right (subscribed (organization_by org v)) (has_paid org v.orders) h in
    (rw (cloud, set) refl, rw (ready, set) refl)

-- The columns of an account that decide whether its subscription is active.
abbrev pub as_organization : Account → Organization
as_organization o = record {
  id = o.id;
  plan = o.plan;
  subscription_status = o.subscription_status;
  trial_ends_at = o.trial_ends_at;
}

-- What a status of Razorpay means for the access of an account.
abbrev pub grants : ℕ → String → Account → Bool
grants now status o =
    if status === "active"
    then true
    else if status === "authenticated"
    then trial_runs now o.trial_ends_at
    else if status === "pending"
        || status === "halted"
        || status === "cancelled"
        || status === "completed"
        || status === "expired"
    then false
    else is_subscription_active now (as_organization o)

text_eq : (s t : String) → (s === t) ≡ true → s ≡ t
text_eq s t h = (eq_iff s t).0 h

-- The columns that count once a status was taken over.
abbrev mapped : String → Account → Organization
mapped status o = record {
  id = o.id;
  plan = o.plan;
  subscription_status = get_or (map_subscription_status status).1 o.subscription_status;
  trial_ends_at = o.trial_ends_at;
}

mapped-grants :
    (now : ℕ) (status : String) (o : Account)
    → is_subscription_active now (mapped status o) ≡ grants now status o
unfolding is_subscription_active map_subscription_status
mapped-grants now status o = elim (Bool-cases (status === "authenticated")) [
  | inl t ↦ rw (text_eq status "authenticated" t) refl
  | inr f0 ↦ elim (Bool-cases (status === "active")) [
    | inl t ↦ rw (text_eq status "active" t) refl
    | inr f1 ↦ elim (Bool-cases (status === "pending")) [
      | inl t ↦ rw (text_eq status "pending" t) refl
      | inr f2 ↦ elim (Bool-cases (status === "halted")) [
        | inl t ↦ rw (text_eq status "halted" t) refl
        | inr f3 ↦ elim (Bool-cases (status === "cancelled")) [
          | inl t ↦ rw (text_eq status "cancelled" t) refl
          | inr f4 ↦ elim (Bool-cases (status === "completed")) [
            | inl t ↦ rw (text_eq status "completed" t) refl
            | inr f5 ↦ elim (Bool-cases (status === "expired")) [
              | inl t ↦ rw (text_eq status "expired" t) refl
              | inr f6 ↦ rw (f0, f1, f2, f3, f4, f5, f6) refl
            ]
          ]
        ]
      ]
    ]
  ]
]

updated :
    (org : ℕ) (set : Account → Account) (o : Account)
    → ((a : Account) → (set a).id ≡ a.id)
    → (os : List Account) → find (λ a. a.id == org) os ≡ some o
    → find (λ a. a.id == org) (update_where (λ a. a.id == org) set os) ≡ some (set o)
updated org set o keeps [] h = absurd (ground (arith, h))
updated org set o keeps (a ∷ os) h = elim (Bool-cases (a.id == org)) [
  | inl t ↦
      let e : a ≡ o = ground (arith, h, t) in
      let kept : ((set a).id == org) ≡ true = ap (λ n. n == org) (keeps a) ∙ t in
      rw (t, kept) (ap (λ x. some (set x)) e)
  | inr f ↦ rw (f, f) (updated org set o keeps os (ground (arith, f, h)))
]

-- After a subscription of Razorpay is taken over for an organization, its account is active when the
-- subscription is, is active for the rest of its trial when it is authenticated, and is not active when
-- it is pending, halted, cancelled, completed or expired; any other status leaves the access as it was.
pub sync_org_subscription-grants :
    (now org : ℕ) (e : Entity) (o : Account) (w : World)
    → organization_by org w ≡ some o
    → (a : Account) × (organization_by org (sync_org_subscription org e w).1 ≡ some a)
      × (is_subscription_active now (as_organization a) ≡ grants now e.status o)
unfolding sync_org_subscription set_organization map_subscription_status is_subscription_active
sync_org_subscription-grants now org e o w h = (
  synced e o,
  updated org (synced e) o (λ a. refl) w.organizations h,
  mapped-grants now e.status o,
)
