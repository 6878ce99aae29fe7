-- ===== src/Billing.antt =====
-- Billing (apps/api/src/services/billing.service.ts): the rows and calls that it works on, and the
-- actions that its operations are made of. A call of Razorpay is answered or refused by the
-- `Context`, which also holds the configuration and the clock; calls whose outcome the code ignores
-- are kept in `calls`. An identifier of Razorpay is a string, where an identifier of ours is a number.
mod Razorpay
mod Access
mod Subscription
mod Checkout
mod Verify
mod Change
mod Effects
mod Operations
mod Owned
mod Webhooks
mod History
mod Settled
mod Payments
mod Once
mod Atomic
mod Failures
mod Autopay
mod Tests
use revenant_cloud.Base.{
  ℕ, String, Bool, true, false, Option, none, some, List, [], ◌∷◌, ◌++◌, ◌==◌, ◌===◌, find, truthy,
}
use revenant_cloud.Store.{AppError, app_error, update_where}

-- A row of `organizations` with its columns for billing.
pub record Account : Type 0 where
  pub id : ℕ
  pub name : String
  pub plan : String
  pub subscription_status : String
  pub trial_ends_at : Option ℕ
  pub razorpay_customer_id : Option String
  pub razorpay_subscription_id : Option String
  pub razorpay_subscription_status : Option String

pub record Order : Type 0 where
  pub id : ℕ
  pub organization_id : ℕ
  pub razorpay_order_id : Option String
  pub razorpay_subscription_id : Option String
  pub amount_paise : ℕ
  pub currency : String
  pub plan : String
  pub purpose : String
  pub status : String
  pub razorpay_payment_id : Option String
  pub created_by_user_id : Option ℕ
  pub paid_at : Option ℕ

pub record User : Type 0 where
  pub id : ℕ
  pub email : String

-- The notes of a subscription; an empty identifier counts as absent.
pub record Notes : Type 0 where
  pub organization_id : Option ℕ
  pub plan : Option String
  pub replaces_subscription_id : Option String

pub record Entity : Type 0 where
  pub id : String
  pub status : String
  pub notes : Notes
  pub customer_id : Option String

-- What the Razorpay SDK rejects with, or another thrown value.
pub record RemoteError : Type 0 where
  pub status_code : Option ℕ
  pub description : Option String
  pub reason : Option String
  pub message : Option String

pub data Answer (A : Type 0) : Type 0 where
  answered : A → Answer A
  refused : RemoteError → Answer A

pub record RemoteOrder : Type 0 where
  pub id : String
  pub status : String
  pub amount : ℕ
  pub currency : Option String

pub record Customer : Type 0 where
  pub id : String
  pub email : Option String

pub record SubscriptionBody : Type 0 where
  pub plan_id : String
  pub customer_id : String
  pub total_count : ℕ
  pub start_at : ℕ
  pub addon_amount : Option ℕ
  pub notes : Notes

pub record OrderBody : Type 0 where
  pub amount : ℕ
  pub currency : String
  pub organization_id : ℕ
  pub plan : String
  pub purpose : String
  pub replaces_subscription_id : Option String

pub record Webhook : Type 0 where
  pub event : Option String
  pub subscription : Option Entity

pub record Context : Type 0 where
  pub now : ℕ
  pub new_id : ℕ
  pub key_id : Option String
  pub key_secret : Option String
  pub webhook_secret : Option String
  pub starter_plan_id : Option String
  pub pro_plan_id : Option String
  pub auto_create_plan : Bool
  pub node_env : String
  -- HMAC-SHA256 in hexadecimal, of a key and a text.
  pub hmac : String → String → String
  -- `JSON.parse` of the body of a webhook.
  pub parse_body : String → Answer Webhook
  pub fetch_subscription : String → Answer Entity
  pub create_subscription : SubscriptionBody → Answer Entity
  pub fetch_order : String → Answer RemoteOrder
  pub create_order : OrderBody → Answer RemoteOrder
  pub create_customer : String → String → ℕ → Answer (Option String)
  pub all_customers : ℕ → ℕ → Answer (Option (List Customer))
  pub create_plan : String → ℕ → Answer String

pub data Call : Type 0 where
  cancel_now : String → Call
  start_later : String → ℕ → Call

pub record World : Type 0 where
  pub organizations : List Account
  pub orders : List Order
  pub users : List User
  pub calls : List Call

pub data Thrown : Type 0 where
  app : AppError → Thrown
  remote : RemoteError → Thrown

pub data Ending (A : Type 0) : Type 0 where
  returned : A → Ending A
  threw : Thrown → Ending A

-- What was written stays written when a later step throws.
abbrev pub Action : Type 0 → Type 0
Action A = World → Ending A × World

module _ {A : Type 0} where
  unfoldable pub pure : A → Action A
  pure a w = (returned a, w)

  unfoldable pub raise : Thrown → Action A
  raise e w = (threw e, w)

  unfoldable pub gets : (World → A) → Action A
  gets f w = (returned (f w), w)

  -- `await` of a call of Razorpay.
  unfoldable pub await : Answer A → Action A
  await (answered a) w = (returned a, w)
  await (refused e) w = (threw (remote e), w)

  abbrev pub after_outcome :
      {B : Type 0} → (A → Action B) → (Thrown → Action B) → Ending A × World → Ending B × World
  after_outcome f g (returned a, w) = f a w
  after_outcome f g (threw e, w) = g e w

infixl 5 ◌>>=◌ ◌>>◌
unfoldable pub ◌>>=◌ : {A B : Type 0} → Action A → (A → Action B) → Action B
unfolding raise
◌>>=◌ m f w = after_outcome f raise (m w)

abbrev pub ◌>>◌ : {A B : Type 0} → Action A → Action B → Action B
m >> k = m >>= λ _. k

-- `try … catch`
unfoldable pub catch : {A : Type 0} → Action A → (Thrown → Action A) → Action A
unfolding pure
catch m g w = after_outcome pure g (m w)

abbrev pub raise_app : {A : Type 0} → ℕ → String → Action A
raise_app status code = raise (app (app_error status code))

-- `if (condition) throw …`
unfoldable pub raise_if : Bool → ℕ → String → Action Unit
unfolding raise pure
raise_if true status code = raise_app status code
raise_if false status code = pure tt

unfoldable pub or_raise : {A : Type 0} → Option A → ℕ → String → Action A
unfolding raise pure
or_raise none status code = raise_app status code
or_raise (some a) status code = pure a

unfoldable pub called : Call → Action Unit
called c w = (returned tt, record w { calls = w.calls ++ c ∷ [] })

-- `update organizations set … where id = …`
unfoldable pub set_organization : ℕ → (Account → Account) → Action Unit
set_organization org set w =
    (returned tt, record w { organizations = update_where (λ o. o.id == org) set w.organizations })

unfoldable pub insert_order : Order → Action Unit
insert_order o w = (returned tt, record w { orders = w.orders ++ o ∷ [] })

-- The update that marks an order as paid.
abbrev pub pay : ℕ → String → Order → Order
pay now payment o = record o {
  status = "paid";
  razorpay_payment_id = some payment;
  paid_at = some now;
}

unfoldable pub pay_order : ℕ → String → ℕ → Action Unit
pay_order now payment id w =
    (returned tt, record w { orders = update_where (λ o. o.id == id) (pay now payment) w.orders })

abbrev pub organization_by : ℕ → World → Option Account
organization_by org w = find (λ o. o.id == org) w.organizations

-- The value of an optional string that is neither absent nor empty.
abbrev pub present : Option String → Option String
present none = none
present (some s) = elim (s === "") [ true ↦ none | false ↦ some s ]

abbrev pub is : Option String → String → Bool
is none t = false
is (some s) t = s === t
