-- ===== src/Billing/Payments.antt =====
-- The verification of a payment, step by step: what passes its guards, and what is returned.
use mathlib.Core.Bool.{false≢true}
use revenant_cloud.Base.{
  ℕ, String, ◌≡◌, refl, sym, ap, ◌∙◌, inl, inr, Bool, true, false, not, Option, none, some,
  if◌then◌else◌, find, Bool-cases, arith,
}
use revenant_cloud.Billing.{
  Context, World, Order, Action, Ending, returned, threw, pure, raise, gets, await, ◌>>=◌, ◌>>◌,
  raise_app, raise_if, or_raise, after_outcome, present,
}
use revenant_cloud.Billing.Subscription.{Purpose, razorpay_ready}
use revenant_cloud.Billing.Verify.{
  names, PaymentInput, is_paid, purpose_of, take_payment, settle_subscription, verify_subscription,
  settle_order, verify_order, verify_either, verify_payment,
}
use revenant_cloud.Billing.Settled.{
  order_of, signed, accepts, Settled, names-Stable, settle_order-Settled, fetched-Settled,
}

-- The step that takes the payment for an order that was found.
abbrev pub settle :
    Context → ℕ → ℕ → PaymentInput → Option String → Option String → Order → Action Purpose
settle ctx org user input (some id) order o =
    settle_subscription ctx org id input.razorpay_payment_id o
settle ctx org user input none (some id) o = settle_order ctx org user input.razorpay_payment_id o
settle ctx org user input none none o = raise_app 400 "VALIDATION_ERROR"

guard_passes :
    {A : Type 0} (b : Bool) (status : ℕ) (code : String) (m : Action A) (w : World)
    → b ≡ false
    → (raise_if b status code >> m) w ≡ m w
unfolding ◌>>=◌ raise_if pure
guard_passes b status code m w h = rw h refl

-- What is returned behind a guard has passed it.
pub guard_passed :
    {A : Type 0} (b : Bool) (status : ℕ) (code : String) (m : Action A) (w : World) (a : A)
    → ((raise_if b status code >> m) w).0 ≡ returned a
    → (b ≡ false) × ((m w).0 ≡ returned a)
unfolding ◌>>=◌ raise_if pure raise
guard_passed true status code m w a h = absurd (cc h)
guard_passed false status code m w a h = (refl, h)

not-false : (b : Bool) → not b ≡ false → b ≡ true
not-false true h = refl
not-false false h = absurd (false≢true (sym h))

row_passed :
    {A B : Type 0} (o : Option A) (status : ℕ) (code : String) (f : A → Action B) (w : World)
    (b : B)
    → ((or_raise o status code >>= f) w).0 ≡ returned b
    → (a : A) × (o ≡ some a)
unfolding ◌>>=◌ or_raise pure raise
row_passed none status code f w b h = absurd (cc h)
row_passed (some a) status code f w b h = (a, refl)

found_first :
    {B : Type 0} (test : Order → Bool) (f : Order → Action B) (w : World) (b : B)
    → ((gets (λ v. find test v.orders) >>= λ found. or_raise found 404 "ORDER_NOT_FOUND" >>= f) w).0
      ≡ returned b
    → (o : Order) × (find test w.orders ≡ some o)
unfolding ◌>>=◌ gets
found_first test f w b h = row_passed (find test w.orders) 404 "ORDER_NOT_FOUND" f w b h

module _ (ctx : Context) (org user : ℕ) (input : PaymentInput) where
  either-settle :
      (s order : Option String) (o : Order) (w : World)
      → signed ctx input s order ≡ true
      → find (names s order org) w.orders ≡ some o
      → verify_either ctx org user input s order w ≡ settle ctx org user input s order o w
  unfolding verify_subscription verify_order ◌>>=◌ raise_if or_raise gets pure
  either-settle (some id) order o w good found = rw (good, found) refl
  either-settle none (some id) o w good found = rw (good, found) refl
  either-settle none none o w good found = absurd (false≢true good)

  either-returned :
      (s order : Option String) (w : World) (purpose : Purpose)
      → (verify_either ctx org user input s order w).0 ≡ returned purpose
      → (signed ctx input s order ≡ true)
        × (o : Order) × (find (names s order org) w.orders ≡ some o)
  unfolding verify_subscription verify_order raise
  either-returned (some id) order w purpose h =
      let (good, rest) = guard_passed (not (signed ctx input (some id) order)) _ _ _ w purpose h in
      let (o, found) = found_first (names (some id) order org) _ w purpose rest in
      (not-false _ good, o, found)
  either-returned none (some id) w purpose h =
      let (good, rest) = guard_passed (not (signed ctx input none (some id))) _ _ _ w purpose h in
      let (o, found) = found_first (names none (some id) org) _ w purpose rest in
      (not-false _ good, o, found)
  either-returned none none w purpose h = absurd (cc h)

  pub verify-settle :
      (o : Order) (w : World)
      → accepts ctx input ≡ true
      → order_of org input w ≡ some o
      → verify_payment ctx org user input w
        ≡ settle ctx org user input
            (present input.razorpay_subscription_id)
            (present input.razorpay_order_id)
            o
            w
  unfolding verify_payment
  verify-settle o w good found =
      guard_passes (not (razorpay_ready ctx)) _ _ _ w (ground (arith, good))
      ∙ guard_passes _ _ _ _ w (ground (arith, good))
      ∙ either-settle (present input.razorpay_subscription_id) (present input.razorpay_order_id) o w
          (ground (arith, good)) found

  pub verify-returned :
      (w : World) (purpose : Purpose)
      → (verify_payment ctx org user input w).0 ≡ returned purpose
      → (accepts ctx input ≡ true) × (o : Order) × (order_of org input w ≡ some o)
  unfolding verify_payment
  verify-returned w purpose h =
      let (ready, rest) = guard_passed (not (razorpay_ready ctx)) _ _ _ w purpose h in
      let (complete, last) = guard_passed _ _ _ _ w purpose rest in
      let (good, o, found) =
        either-returned (present input.razorpay_subscription_id) (present input.razorpay_order_id) w
          purpose last in
      (rw (not-false _ ready, complete, good) refl, o, found)

-- An action that returns no other value.
pub record Yields {A : Type 0} (a : A) (m : Action A) : Type 0 where
  pub only : (w : World) (b : A) → (m w).0 ≡ returned b → a ≡ b

pure-Yields : {A : Type 0} (a : A) → Yields a (pure a)
unfolding pure
pure-Yields a = record { only = λ w b h. cc h }

after-Yields :
    {A B : Type 0} (f : A → Action B) (b c : B) (r : Ending A × World)
    → ((a : A) → Yields b (f a))
    → (after_outcome f raise r).0 ≡ returned c
    → b ≡ c
unfolding raise
after-Yields f b c (returned a, w) k h = (k a).only w c h
after-Yields f b c (threw e, w) k h = absurd (cc h)

bind-Yields :
    {A B : Type 0} (m : Action A) (f : A → Action B) (b : B)
    → ((a : A) → Yields b (f a))
    → Yields b (m >>= f)
unfolding ◌>>=◌
bind-Yields m f b k = record { only = λ w c h. after-Yields f b c (m w) k h }

if-Yields :
    {A : Type 0} (b : Bool) (m n : Action A) (a : A)
    → Yields a m
    → Yields a n
    → Yields a (if b then m else n)
if-Yields true m n a h k = h
if-Yields false m n a h k = k

unpaid_subscription :
    (ctx : Context) (org : ℕ) (id payment : String) (o : Order) (w : World)
    → is_paid o ≡ false
    → settle_subscription ctx org id payment o w
      ≡ (await (ctx.fetch_subscription id) >>= take_payment ctx org id payment o) w
unpaid_subscription ctx org id payment o w f = rw f refl

module _ (ctx : Context) (org user : ℕ) (input : PaymentInput) where
  pub settle-Settled :
      (s order : Option String) (o : Order) (w : World) (purpose : Purpose)
      → find (names s order org) w.orders ≡ some o
      → (settle ctx org user input s order o w).0 ≡ returned purpose
      → Settled (names s order org) (purpose_of o) (settle ctx org user input s order o w).1.orders
  unfolding raise pure
  settle-Settled (some id) order o w purpose found h = elim (Bool-cases (is_paid o)) [
    | inl t ↦ rw t (o, found, t, refl)
    | inr f ↦ rw f (
        fetched-Settled ctx org input.razorpay_payment_id (names (some id) order org)
          (names-Stable (some id) order org) id o (ctx.fetch_subscription id) w purpose found
          (ap (λ r. r.0) (sym (unpaid_subscription ctx org id input.razorpay_payment_id o w f))
            ∙ h))
  ]
  settle-Settled none (some id) o w purpose found h =
      settle_order-Settled ctx org input.razorpay_payment_id (names none (some id) org)
        (names-Stable none (some id) org) user o w found
  settle-Settled none none o w purpose found h = absurd (cc h)

  pub settle-Yields :
      (s order : Option String) (o : Order)
      → Yields (purpose_of o) (settle ctx org user input s order o)
  unfolding raise
  settle-Yields (some id) order o =
      if-Yields (is_paid o) _ _ (purpose_of o) (pure-Yields (purpose_of o)) (
        bind-Yields _ _ (purpose_of o) (λ e.
          bind-Yields _ _ (purpose_of o)
            (λ _. bind-Yields _ _ (purpose_of o) (λ _. pure-Yields (purpose_of o)))))
  settle-Yields none (some id) o =
      if-Yields (is_paid o) _ _ (purpose_of o) (pure-Yields (purpose_of o)) (
        bind-Yields _ _ (purpose_of o)
          (λ _. bind-Yields _ _ (purpose_of o) (λ _. pure-Yields (purpose_of o))))
  settle-Yields none none o = record { only = λ w b h. absurd (cc h) }

pub settle-paid :
    (ctx : Context) (org user : ℕ) (input : PaymentInput) (s order : Option String) (o : Order)
    (w : World)
    → is_paid o ≡ true
    → signed ctx input s order ≡ true
    → settle ctx org user input s order o w ≡ (returned (purpose_of o), w)
unfolding pure
settle-paid ctx org user input (some id) order o w paid good = rw paid refl
settle-paid ctx org user input none (some id) o w paid good = rw paid refl
settle-paid ctx org user input none none o w paid good = absurd (false≢true good)
