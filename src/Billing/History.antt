-- ===== src/Billing/History.antt =====
-- Sequences of billing operations, each at its own time and with its own answers of Razorpay.
use revenant_cloud.Base.{ℕ, String, refl, Option, none, some, List, [], ◌∷◌, All, inl}
use revenant_cloud.Plans.{OrganizationPlan}
use revenant_cloud.Billing.{Context, World, Order}
use revenant_cloud.Billing.Checkout.{
  select_billing_plan, create_pro_upgrade, create_starter_autopay,
}
use revenant_cloud.Billing.Verify.{PaymentInput, verify_payment, handle_webhook}
use revenant_cloud.Billing.Change.{
  IsOwn, Settles-Step, Step, Step-trans, Grows, IsDated, Step-IsDated, New,
}
use revenant_cloud.Billing.Operations.{select-Keeps, upgrade-Keeps, starter-Keeps}
use revenant_cloud.Billing.Owned.{verify-Change}
use revenant_cloud.Billing.Webhooks.{EventChange, target_of, handle_webhook-EventChange}

pub data Operation : Type 0 where
  select : ℕ → OrganizationPlan → Operation
  upgrade starter_autopay : ℕ → ℕ → Operation
  verify : ℕ → ℕ → PaymentInput → Operation
  webhook : String → Option String → Operation

-- The world that an operation leaves, also when it throws.
abbrev pub run : Context → Operation → World → World
run ctx (select org plan) w = (select_billing_plan org plan w).1
run ctx (upgrade org user) w = (create_pro_upgrade ctx org user w).1
run ctx (starter_autopay org user) w = (create_starter_autopay ctx org user w).1
run ctx (verify org user input) w = (verify_payment ctx org user input w).1
run ctx (webhook body header) w = (handle_webhook ctx body header w).1

-- The organization that an operation works for.
abbrev pub target : Context → Operation → World → Option ℕ
target ctx (select org plan) w = some org
target ctx (upgrade org user) w = some org
target ctx (starter_autopay org user) w = some org
target ctx (verify org user input) w = some org
target ctx (webhook body header) w = target_of (ctx.parse_body body) w

-- Every operation of billing, on every branch and also when it throws, leaves the accounts of all
-- organizations but its own and all users as they were; of the orders that were there each is as it
-- was, or paid now if its identifier is that of an order of the organization; and the orders added are
-- its organization's. A webhook's organization is the one that the subscription in its body belongs to;
-- without one it changes nothing.
pub run-EventChange :
    (ctx : Context) (operation : Operation) (w : World)
    → EventChange (target ctx operation w) w (run ctx operation w)
run-EventChange ctx (select org plan) w = (select-Keeps (IsOwn org w) org ctx plan).at w
run-EventChange ctx (upgrade org user) w = (upgrade-Keeps (IsOwn org w) org ctx user).at w
run-EventChange ctx (starter_autopay org user) w = (starter-Keeps (IsOwn org w) org ctx user).at w
run-EventChange ctx (verify org user input) w = verify-Change ctx org user input w
run-EventChange ctx (webhook body header) w = handle_webhook-EventChange ctx body header w

abbrev pub run_all : List (Context × Operation) → World → World
run_all [] w = w
run_all ((ctx, operation) ∷ rest) w = run_all rest (run ctx operation w)

-- The orders that were there stay in their places, each as it was or paid; the added ones are dated.
abbrev pub Kept : List Order → List Order → Type 0
Kept [] new = All IsDated new
Kept (o ∷ os) [] = ⊥
Kept (o ∷ os) (p ∷ ps) = Step o p × Kept os ps

Kept-IsDated_nil : (os : List Order) → All IsDated os → Kept [] os
Kept-IsDated_nil os h = h

New-IsDated : (org : ℕ) (os : List Order) → All (New org) os → All IsDated os
New-IsDated org [] h = tt
New-IsDated org (o ∷ os) h = (h.0.1, New-IsDated org os h.1)

pub Grows-Kept : (P : ℕ → Type 0) (org : ℕ) (os ps : List Order) → Grows P org os ps → Kept os ps
Grows-Kept P org [] ps g = New-IsDated org ps g
Grows-Kept P org (o ∷ os) [] g = absurd g
Grows-Kept P org (o ∷ os) (p ∷ ps) g = (Settles-Step P o p g.0, Grows-Kept P org os ps g.1)

Kept-IsDated : (os ps : List Order) → All IsDated os → Kept os ps → All IsDated ps
Kept-IsDated [] ps h k = k
Kept-IsDated (o ∷ os) [] h k = absurd k
Kept-IsDated (o ∷ os) (p ∷ ps) h k = (Step-IsDated o p k.0 h.0, Kept-IsDated os ps h.1 k.1)

Kept-refl : (os : List Order) → Kept os os
Kept-refl [] = tt
Kept-refl (o ∷ os) = (inl refl, Kept-refl os)

Kept-trans : (os ps qs : List Order) → Kept os ps → Kept ps qs → Kept os qs
Kept-trans [] ps qs k l = Kept-IsDated ps qs k l
Kept-trans (o ∷ os) [] qs k l = absurd k
Kept-trans (o ∷ os) (p ∷ ps) [] k l = absurd l
Kept-trans (o ∷ os) (p ∷ ps) (q ∷ qs) k l = (Step-trans o p q k.0 l.0, Kept-trans os ps qs k.1 l.1)

EventChange-Kept : (found : Option ℕ) (w v : World) → EventChange found w v → Kept w.orders v.orders
EventChange-Kept none w v c = rw c (Kept-refl w.orders)
EventChange-Kept (some org) w v (a, b, g) = Grows-Kept (IsOwn org w) org w.orders v.orders g

-- Under any sequence of billing operations no order is deleted or moved, and none changes but by a
-- payment, which leaves its owner, amount, plan and purpose as they were and never makes a paid order
-- unpaid; every order added since has the date of a payment exactly when it is paid.
pub run_all-Kept :
    (ops : List (Context × Operation)) (w : World) → Kept w.orders (run_all ops w).orders
run_all-Kept [] w = Kept-refl w.orders
run_all-Kept ((ctx, operation) ∷ rest) w =
    let v = run ctx operation w in
    Kept-trans w.orders v.orders (run_all rest v).orders
      (EventChange-Kept (target ctx operation w) w v (run-EventChange ctx operation w))
      (run_all-Kept rest v)
