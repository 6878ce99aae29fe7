-- ===== src/Billing/Atomic.antt =====
-- Actions that change nothing when they throw, and actions that do not throw.
use revenant_cloud.Base.{
  ℕ, String, ◌≡◌, refl, Bool, true, false, Option, none, some, if◌then◌else◌, find,
}
use revenant_cloud.Billing.{
  Context, World, Account, Call, Order, Entity, Answer, answered, refused, Action, Ending, returned,
  threw, Thrown, pure, raise, gets, await, ◌>>=◌, ◌>>◌, raise_if, or_raise, after_outcome,
  set_organization, called, pay_order, present,
}
use revenant_cloud.Billing.Subscription.{
  razorpay_ready, synced, on_pro, sync_org_subscription, align_trial, move_start, cancel_previous,
}
use revenant_cloud.Billing.Verify.{is_upgrade, purpose_of, take_payment}

-- A throw that leaves the world as it was.
abbrev pub Atomic : {A : Type 0} → Action A → World → Type 0
Atomic m w = (e : Thrown) → (m w).0 ≡ threw e → (m w).1 ≡ w

pub guard-Atomic :
    {A : Type 0} (b : Bool) (status : ℕ) (code : String) (m : Action A) (w : World)
    → Atomic m w
    → Atomic (raise_if b status code >> m) w
unfolding ◌>>=◌ raise_if raise pure
guard-Atomic true status code m w h e t = refl
guard-Atomic false status code m w h e t = h e t

pub row-Atomic :
    {A B : Type 0} (o : Option A) (status : ℕ) (code : String) (f : A → Action B) (w : World)
    → ((a : A) → o ≡ some a → Atomic (f a) w)
    → Atomic (or_raise o status code >>= f) w
unfolding ◌>>=◌ or_raise raise pure
row-Atomic none status code f w h e t = refl
row-Atomic (some a) status code f w h e t = h a refl e t

pub found-Atomic :
    {B : Type 0} (test : Order → Bool) (f : Order → Action B) (w : World)
    → ((o : Order) → find test w.orders ≡ some o → Atomic (f o) w)
    → Atomic
        (gets (λ v. find test v.orders) >>= λ found. or_raise found 404 "ORDER_NOT_FOUND" >>= f)
        w
unfolding ◌>>=◌ gets
found-Atomic test f w h = row-Atomic (find test w.orders) 404 "ORDER_NOT_FOUND" f w h

-- An action that does not throw.
pub record Returns {A : Type 0} (m : Action A) : Type 0 where
  pub value : (w : World) → (a : A) × ((m w).0 ≡ returned a)

pub pure-Returns : {A : Type 0} (a : A) → Returns (pure a)
unfolding pure
pure-Returns a = record { value = λ w. (a, refl) }

after-Returns :
    {A B : Type 0} (f : A → Action B) (r : Ending A × World)
    → ((a : A) × (r.0 ≡ returned a))
    → ((a : A) → Returns (f a))
    → (b : B) × ((after_outcome f raise r).0 ≡ returned b)
after-Returns f (returned a, w) h k = (k a).value w
after-Returns f (threw e, w) (a, h) k = absurd (cc h)

pub bind-Returns :
    {A B : Type 0} (m : Action A) (f : A → Action B)
    → Returns m
    → ((a : A) → Returns (f a))
    → Returns (m >>= f)
unfolding ◌>>=◌
bind-Returns m f h k = record { value = λ w. after-Returns f (m w) (h.value w) k }

pub if-Returns :
    {A : Type 0} (b : Bool) (m n : Action A) → Returns m → Returns n → Returns (if b then m else n)
if-Returns true m n h k = h
if-Returns false m n h k = k

set-Returns : (org : ℕ) (set : Account → Account) → Returns (set_organization org set)
unfolding set_organization
set-Returns org set = record { value = λ w. (tt, refl) }

called-Returns : (c : Call) → Returns (called c)
unfolding called
called-Returns c = record { value = λ w. (tt, refl) }

pub pay-Returns : (now : ℕ) (payment : String) (id : ℕ) → Returns (pay_order now payment id)
unfolding pay_order
pay-Returns now payment id = record { value = λ w. (tt, refl) }

sync-Returns : (org : ℕ) (e : Entity) → Returns (sync_org_subscription org e)
unfolding sync_org_subscription
sync-Returns org e = set-Returns org (synced e)

move-Returns : (ctx : Context) (s : Option String) → Returns (move_start ctx s)
move-Returns ctx none = pure-Returns tt
move-Returns ctx (some id) =
    if-Returns (razorpay_ready ctx) _ _ (called-Returns _) (pure-Returns tt)

pub align-Returns : (ctx : Context) (org : ℕ) (s : Option String) → Returns (align_trial ctx org s)
unfolding align_trial
align-Returns ctx org s = bind-Returns _ _ (set-Returns org _) (λ _. move-Returns ctx (present s))

cancel-Returns : (s : Option String) → Returns (cancel_previous s)
cancel-Returns none = pure-Returns tt
cancel-Returns (some id) = called-Returns _

pub take-Returns :
    (ctx : Context) (org : ℕ) (id payment : String) (o : Order) (e : Entity)
    → Returns (take_payment ctx org id payment o e)
take-Returns ctx org id payment o e = bind-Returns _ _ (pay-Returns ctx.now payment o.id) (λ _.
    bind-Returns _ _
      (if-Returns (is_upgrade o) _ _
        (bind-Returns _ _ (cancel-Returns _)
          (λ _. bind-Returns _ _ (set-Returns org (on_pro id)) (λ _. sync-Returns org e)))
        (bind-Returns _ _ (sync-Returns org e) (λ _. align-Returns ctx org (some id))))
      (λ _. pure-Returns (purpose_of o)))

pub fetched-Atomic :
    {A B : Type 0} (a : Answer A) (f : A → Action B) (w : World)
    → ((x : A) → Returns (f x))
    → Atomic (await a >>= f) w
unfolding ◌>>=◌ await raise
fetched-Atomic (answered x) f w k e t = let (b, h) = (k x).value w in absurd (cc (h, t))
fetched-Atomic (refused r) f w k e t = refl

pub returned-Atomic : {A : Type 0} (m : Action A) (w : World) → Returns m → Atomic m w
returned-Atomic m w h e t = let (a, r) = h.value w in absurd (cc (r, t))
