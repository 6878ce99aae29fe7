-- ===== src/Billing/Settled.antt =====
-- The order of a payment, and that it stays paid once it is.
use revenant_cloud.Base.{
  ℕ, String, ◌≡◌, refl, ap, ◌∙◌, inl, inr, Bool, true, false, not, ◌&&◌, ◌||◌, Option, none, some,
  get_or, List, [], ◌∷◌, ◌===◌, ◌==◌, ==_iff, find, Bool-cases, arith,
}
use revenant_cloud.Store.{update_where}
use revenant_cloud.Billing.{
  Context, World, Order, Entity, Answer, answered, refused, Action, returned, pure, raise, await,
  ◌>>=◌, ◌>>◌, pay, pay_order, present,
}
use revenant_cloud.Billing.Razorpay.{verify_payment_signature, verify_subscription_signature}
use revenant_cloud.Billing.Subscription.{Purpose, razorpay_ready}
use revenant_cloud.Billing.Verify.{
  PaymentInput, names, is_paid, purpose_of, subscription_paid, take_payment, order_paid,
  settle_order,
}
use revenant_cloud.Billing.Change.{Step, Keeps, Keeps-bind}
use revenant_cloud.Billing.Effects.{still}
use revenant_cloud.Billing.Operations.{subscription_paid-Keeps, order_paid-Keeps}
use revenant_cloud.Billing.History.{Kept, Grows-Kept}

abbrev pub order_test : PaymentInput → ℕ → Order → Bool
order_test input = names (present input.razorpay_subscription_id) (present input.razorpay_order_id)

-- The order that a payment is for.
abbrev pub order_of : ℕ → PaymentInput → World → Option Order
order_of org input w = find (order_test input org) w.orders

abbrev pub signed : Context → PaymentInput → Option String → Option String → Bool
signed ctx input (some id) order =
    verify_subscription_signature ctx id input.razorpay_payment_id input.razorpay_signature
      (get_or ctx.key_secret "")
signed ctx input none (some id) =
    verify_payment_signature ctx id input.razorpay_payment_id input.razorpay_signature
      (get_or ctx.key_secret "")
signed ctx input none none = false

-- Razorpay is configured, and the payment is complete and carries its signature.
abbrev pub accepts : Context → PaymentInput → Bool
accepts ctx input =
    razorpay_ready ctx
    && not (input.razorpay_payment_id === "" || input.razorpay_signature === "")
    && signed ctx input (present input.razorpay_subscription_id) (present input.razorpay_order_id)

-- An order that is found and paid.
abbrev pub Settled : (Order → Bool) → Purpose → List Order → Type 0
Settled test purpose os =
    (p : Order) × (find test os ≡ some p) × (is_paid p ≡ true) × (purpose_of p ≡ purpose)

-- What a payment does not change about an order.
abbrev pub Stable : (Order → Bool) → Type 0
Stable test = (o : Order) (now : ℕ) (payment : String) → test (pay now payment o) ≡ test o

Step-Stable : (test : Order → Bool) → Stable test → (o p : Order) → Step o p → test p ≡ test o
Step-Stable test h o p (inl e) = ap test e
Step-Stable test h o p (inr (now, payment, e)) = ap test e ∙ h o now payment

Step-paid : (o p : Order) → Step o p → is_paid o ≡ true → is_paid p ≡ true
Step-paid o p (inl e) h = ap is_paid e ∙ h
Step-paid o p (inr (now, payment, e)) h = ap is_paid e

Step-purpose : (o p : Order) → Step o p → purpose_of p ≡ purpose_of o
Step-purpose o p (inl e) = ap purpose_of e
Step-purpose o p (inr (now, payment, e)) = ap purpose_of e

pub Kept-Settled :
    (test : Order → Bool) (purpose : Purpose)
    → Stable test
    → (os ps : List Order) → Kept os ps
    → Settled test purpose os
    → Settled test purpose ps
Kept-Settled test purpose st [] ps k (o, found, paid, same) = absurd (ground (arith, found))
Kept-Settled test purpose st (o ∷ os) [] k s = absurd k
Kept-Settled test purpose st (o ∷ os) (p ∷ ps) (step, k) (q, found, paid, same) =
    elim (Bool-cases (test o)) [
      | inl t ↦
          let e : o ≡ q = ground (arith, found, t) in
          (
            p,
            rw (Step-Stable test st o p step ∙ t) refl,
            Step-paid o p step (rw e paid),
            Step-purpose o p step ∙ rw e same,
          )
      | inr f ↦
          let (r, later, done, shown) =
            Kept-Settled test purpose st os ps k (q, ground (arith, found, f), paid, same) in
          (r, rw (Step-Stable test st o p step ∙ f) later, done, shown)
    ]

pay-Settled :
    (test : Order → Bool) (now : ℕ) (payment : String) (o : Order) (os : List Order)
    → Stable test
    → find test os ≡ some o
    → Settled test (purpose_of o) (update_where (λ p. p.id == o.id) (pay now payment) os)
pay-Settled test now payment o [] st found = absurd (ground (arith, found))
pay-Settled test now payment o (p ∷ os) st found = elim (Bool-cases (test p)) [
  | inl t ↦
      let e : p ≡ o = ground (arith, found, t) in
      let same : (p.id == o.id) ≡ true = (==_iff p.id o.id).1 (ap (λ (q : Order). q.id) e) in
      rw same (pay now payment p, rw (st p now payment ∙ t) refl, refl, ap purpose_of e)
  | inr f ↦
      let (r, later, done, shown) =
        pay-Settled test now payment o os st (ground (arith, found, f)) in
      elim (Bool-cases (p.id == o.id)) [
        | inl same ↦ rw same (r, rw (st p now payment ∙ f) later, done, shown)
        | inr other ↦ rw other (r, rw f later, done, shown)
      ]
]

pub names-Stable : (s o : Option String) (org : ℕ) → Stable (names s o org)
names-Stable (some id) o org p now payment = refl
names-Stable none (some id) org p now payment = refl
names-Stable none none org p now payment = refl

Keeps-Settled :
    {A : Type 0} (P : ℕ → Type 0) (org : ℕ) (m : Action A) (test : Order → Bool) (purpose : Purpose)
    (w : World)
    → Stable test
    → Keeps P org m
    → Settled test purpose w.orders
    → Settled test purpose (m w).1.orders
Keeps-Settled P org m test purpose w st k s =
    let (others, users, grows) = k.at w in
    Kept-Settled test purpose st w.orders (m w).1.orders
      (Grows-Kept P org w.orders (m w).1.orders grows) s

-- Once it is marked as paid, an order stays so while the rest of the verification runs, even when
-- that throws.
module _ (ctx : Context) (org : ℕ) (payment : String) (test : Order → Bool) (st : Stable test) where
  pub settle_order-Settled :
      (user : ℕ) (o : Order) (w : World)
      → find test w.orders ≡ some o
      → Settled test (purpose_of o) (settle_order ctx org user payment o w).1.orders
  unfolding pay_order ◌>>=◌ pure
  settle_order-Settled user o w found = elim (Bool-cases (is_paid o)) [
    | inl t ↦ rw t (o, found, t, refl)
    | inr f ↦ rw f (
        Keeps-Settled (λ _. ⊥) org (order_paid ctx org user o >> pure (purpose_of o)) test
          (purpose_of o) (pay_order ctx.now payment o.id w).1 st
          (Keeps-bind (λ _. ⊥) org _ _ (order_paid-Keeps (λ _. ⊥) org ctx user o)
            (λ _. still (λ _. ⊥) org (purpose_of o)))
          (pay-Settled test ctx.now payment o w.orders st found))
  ]

  pub fetched-Settled :
      (id : String) (o : Order) (a : Answer Entity) (w : World) (purpose : Purpose)
      → find test w.orders ≡ some o
      → ((await a >>= take_payment ctx org id payment o) w).0 ≡ returned purpose
      → Settled test (purpose_of o) ((await a >>= take_payment ctx org id payment o) w).1.orders
  unfolding pay_order ◌>>=◌ pure await raise
  fetched-Settled id o (refused e) w purpose found h = absurd (cc h)
  fetched-Settled id o (answered e) w purpose found h =
      Keeps-Settled (λ _. ⊥) org (subscription_paid ctx org id o e >> pure (purpose_of o)) test
        (purpose_of o) (pay_order ctx.now payment o.id w).1 st
        (Keeps-bind (λ _. ⊥) org _ _ (subscription_paid-Keeps (λ _. ⊥) org ctx id o e)
          (λ _. still (λ _. ⊥) org (purpose_of o)))
        (pay-Settled test ctx.now payment o w.orders st found)
