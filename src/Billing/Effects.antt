-- ===== src/Billing/Effects.antt =====
-- The steps and operations of billing keep to one organization.
use revenant_cloud.Base.{
  ℕ, zero, suc, ◌+◌, String, refl, Bool, true, false, not, Option, none, some, get_or, [],
  if◌then◌else◌, find, ltb, length,
}
use revenant_cloud.Plans.{OrganizationPlan}
use revenant_cloud.Billing.{
  Context, World, Account, Entity, Action, Thrown, pure, raise, gets, cancel_now, present,
}
use revenant_cloud.Billing.Razorpay.{
  find_in_pages, find_customer_by_email, id_in, with_email, reuse_existing, ensure_customer,
  resolve_plan_id, trimmed, mentions, message_of,
}
use revenant_cloud.Billing.Subscription.{
  synced, sync_org_subscription, trialing_until, full_trial, move_start, razorpay_ready,
  align_trial, known_customer, customer_of, with_customer, resolve_customer, cancel_previous,
}
use revenant_cloud.Billing.Change.{
  Keeps, Change-refl, Keeps-bind, Keeps-catch, Keeps-await, Keeps-called, Keeps-set,
}

pub still : {A : Type 0} (P : ℕ → Type 0) (org : ℕ) (a : A) → Keeps P org (pure a)
unfolding pure
still P org a = record { at = Change-refl P org }

pub gets-Keeps : {A : Type 0} (P : ℕ → Type 0) (org : ℕ) (f : World → A) → Keeps P org (gets f)
unfolding gets
gets-Keeps P org f = record { at = Change-refl P org }

pub raise-Keeps :
    (A : Type 0) (P : ℕ → Type 0) (org : ℕ) (e : Thrown) → Keeps P org (raise {A = A} e)
unfolding raise
raise-Keeps A P org e = record { at = Change-refl P org }

pub if-Keeps :
    {A : Type 0} (P : ℕ → Type 0) (org : ℕ) (b : Bool) (m n : Action A)
    → Keeps P org m
    → Keeps P org n
    → Keeps P org (if b then m else n)
if-Keeps P org true m n h k = h
if-Keeps P org false m n h k = k

pub or_else-Keeps :
    {A B : Type 0} (P : ℕ → Type 0) (org : ℕ) (o : Option A) (f : A → Action B) (m : Action B)
    → ((a : A) → Keeps P org (f a))
    → Keeps P org m
    → Keeps P org (elim o [ none ↦ m | some a ↦ f a ])
or_else-Keeps P org none f m h k = k
or_else-Keeps P org (some a) f m h k = h a

pages-Keeps :
    (P : ℕ → Type 0) (org : ℕ) (ctx : Context) (email : String) (pages skip : ℕ)
    → Keeps P org (find_in_pages ctx email pages skip)
pages-Keeps P org ctx email zero skip = still P org none
pages-Keeps P org ctx email (suc pages) skip =
    Keeps-bind P org _ _ (Keeps-await P org (ctx.all_customers 100 skip)) (λ page.
      or_else-Keeps P org (id_in (find (with_email email) (get_or page []))) (λ id. pure (some id))
        _ (λ id. still P org (some id))
        (if-Keeps P org (ltb (length (get_or page [])) 100) _ _ (still P org none)
          (pages-Keeps P org ctx email pages (skip + 100))))

reuse-Keeps :
    (P : ℕ → Type 0) (org : ℕ) (ctx : Context) (email : String) (e : Thrown)
    → Keeps P org (reuse_existing ctx email e)
unfolding find_customer_by_email
reuse-Keeps P org ctx email e =
    if-Keeps P org (mentions "already exists" (message_of e)) _ _
      (Keeps-bind P org _ _ (pages-Keeps P org ctx email 10 0)
        (λ found. or_else-Keeps P org (present found) pure _ (still P org) (raise-Keeps _ P org e)))
      (raise-Keeps _ P org e)

pub ensure_customer-Keeps :
    (P : ℕ → Type 0) (org : ℕ) (ctx : Context) (name email : String) (of : ℕ)
    → Keeps P org (ensure_customer ctx name email of)
unfolding ensure_customer
ensure_customer-Keeps P org ctx name email of =
    Keeps-catch P org _ _
      (Keeps-bind P org _ _ (Keeps-await P org (ctx.create_customer name email of)) (λ created.
        or_else-Keeps P org (present created) pure _ (still P org) (raise-Keeps _ P org _)))
      (reuse-Keeps P org ctx email)

pub resolve_plan_id-Keeps :
    (P : ℕ → Type 0) (org : ℕ) (ctx : Context) (plan : OrganizationPlan)
    (configured : Option String) (auto : Bool)
    → Keeps P org (resolve_plan_id ctx plan configured auto)
unfolding resolve_plan_id
resolve_plan_id-Keeps P org ctx plan configured auto =
    or_else-Keeps P org (trimmed configured) pure _ (still P org)
      (if-Keeps P org (not auto) _ _ (raise-Keeps _ P org _) (Keeps-await P org _))

pub sync-Keeps : (P : ℕ → Type 0) (org : ℕ) (e : Entity) → Keeps P org (sync_org_subscription org e)
unfolding sync_org_subscription
sync-Keeps P org e = Keeps-set P org (synced e) (λ o. refl)

move_start-Keeps :
    (P : ℕ → Type 0) (org : ℕ) (ctx : Context) (s : Option String) → Keeps P org (move_start ctx s)
move_start-Keeps P org ctx none = still P org tt
move_start-Keeps P org ctx (some id) =
    if-Keeps P org (razorpay_ready ctx) _ _ (Keeps-called P org _) (still P org tt)

pub align_trial-Keeps :
    (P : ℕ → Type 0) (org : ℕ) (ctx : Context) (s : Option String)
    → Keeps P org (align_trial ctx org s)
unfolding align_trial
align_trial-Keeps P org ctx s =
    Keeps-bind P org _ _ (Keeps-set P org (trialing_until (full_trial ctx)) (λ o. refl))
      (λ _. move_start-Keeps P org ctx (present s))

known-Keeps :
    (P : ℕ → Type 0) (org : ℕ) (ctx : Context) (s : Option String)
    → Keeps P org (known_customer ctx s)
known-Keeps P org ctx none = still P org none
known-Keeps P org ctx (some id) =
    Keeps-catch P org _ _
      (Keeps-bind P org _ _ (Keeps-await P org (ctx.fetch_subscription id)) (λ e. still P org _))
      (λ _. still P org none)

customer_of-Keeps :
    (P : ℕ → Type 0) (org : ℕ) (ctx : Context) (o : Account) (email : String) (c : Option String)
    → Keeps P org (customer_of ctx org o email c)
customer_of-Keeps P org ctx o email none =
    Keeps-bind P org _ _ (ensure_customer-Keeps P org ctx o.name email org) (λ id.
      Keeps-bind P org _ _ (Keeps-set P org (with_customer id) (λ o. refl)) (λ _. still P org id))
customer_of-Keeps P org ctx o email (some id) =
    Keeps-bind P org _ _ (Keeps-set P org (with_customer id) (λ o. refl)) (λ _. still P org id)

pub resolve_customer-Keeps :
    (P : ℕ → Type 0) (org : ℕ) (ctx : Context) (o : Account) (email : String)
    → Keeps P org (resolve_customer ctx org o email)
unfolding resolve_customer
resolve_customer-Keeps P org ctx o email =
    or_else-Keeps P org (present o.razorpay_customer_id) pure _ (still P org) (
      Keeps-bind P org _ _ (known-Keeps P org ctx (present o.razorpay_subscription_id))
        (customer_of-Keeps P org ctx o email))

pub cancel-Keeps : (P : ℕ → Type 0) (org : ℕ) (s : Option String) → Keeps P org (cancel_previous s)
cancel-Keeps P org none = still P org tt
cancel-Keeps P org (some id) = Keeps-called P org (cancel_now id)
