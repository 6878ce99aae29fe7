-- ===== src/Billing/Razorpay.antt =====
-- The helpers around the Razorpay SDK (apps/api/src/lib/razorpay.ts). `toLowerCase` is that of ASCII.
use Prim.Native.Char.{code}
use revenant_cloud.Base.{
  starts_with, ℕ, zero, suc, ◌+◌, ◌*◌, String, Bool, true, false, not, ◌&&◌, ◌||◌, Option, none,
  some, get_or, List, [], ◌∷◌, map, leb, ltb, ◌==◌, ◌===◌, if◌then◌else◌, find, length, truthy,
  codes, concat, is_space,
}
use revenant_cloud.Plans.{OrganizationPlan, pro, starter_price_inr, pro_price_inr}
use revenant_cloud.Billing.{
  Context, Action, pure, raise, await, catch, ◌>>=◌, Thrown, app, remote, RemoteError, Customer,
  present,
}

-- `String.prototype.trim`
abbrev pub trim_start : String → String
trim_start String.[] = String.[]
trim_start (String.◌∷◌ c s) =
    let rest = trim_start s in if is_space (code c) then rest else String.◌∷◌ c s

abbrev pub trim_end : String → String
trim_end String.[] = String.[]
trim_end (String.◌∷◌ c s) =
    let rest = trim_end s in
    if is_space (code c) && rest === "" then String.[] else String.◌∷◌ c rest

abbrev pub trim : String → String
trim s = trim_end (trim_start s)

-- The trimmed text, where it is there and not blank.
abbrev pub trimmed : Option String → Option String
trimmed none = none
trimmed (some s) = present (some (trim s))

abbrev pub lower : ℕ → ℕ
lower c = if leb 65 c && leb c 90 then c + 32 else c

abbrev pub contains : List ℕ → List ℕ → Bool
contains p [] = starts_with p []
contains p (c ∷ s) = starts_with p (c ∷ s) || contains p s

-- `/pattern/i.test`, of a pattern in lower case.
abbrev pub mentions : String → String → Bool
mentions pattern s = contains (codes pattern) (map lower (codes s))

abbrev pub same_text : List ℕ → List ℕ → Bool
same_text [] [] = true
same_text (a ∷ s) (b ∷ t) = (a == b) && same_text s t
same_text _ _ = false

abbrev pub folded : String → List ℕ
folded s = map lower (codes (trim s))

-- `isRazorpayConfigured`
abbrev pub is_razorpay_configured : Option String → Option String → Bool
is_razorpay_configured key secret = truthy (trimmed key) && truthy (trimmed secret)

abbrev pub first_present : Option String → Option String → Option String
first_present (some a) b = some a
first_present none b = b

-- `formatRazorpayError`
unfoldable pub format_razorpay_error : RemoteError → String
format_razorpay_error e =
    get_or (present (first_present e.description e.reason))
      (get_or (present e.message) "Razorpay request failed")

abbrev pub status_by_text : String → ℕ
status_by_text text = if mentions "auth" text then 401 else 502

abbrev pub status_by_code : ℕ → String → ℕ
status_by_code code text =
    if code == 401
    then 401
    else if code == 400
    then 400
    else if leb 400 code && ltb code 500
    then 400
    else if leb 500 code
    then 502
    else status_by_text text

-- `razorpayHttpStatus`
unfoldable pub razorpay_http_status : RemoteError → ℕ
razorpay_http_status e = elim e.status_code [
  | none ↦ status_by_text (format_razorpay_error e)
  | some code ↦ status_by_code code (format_razorpay_error e)
]

-- `verifyRazorpayPaymentSignature`; the comparison in constant time is the equality of the texts.
unfoldable pub verify_payment_signature : Context → String → String → String → String → Bool
verify_payment_signature ctx order payment signature secret =
    ctx.hmac secret (concat (order ∷ "|" ∷ payment ∷ [])) === signature

-- `verifyRazorpaySubscriptionPaymentSignature`
unfoldable pub verify_subscription_signature : Context → String → String → String → String → Bool
verify_subscription_signature ctx subscription payment signature secret =
    ctx.hmac secret (concat (payment ∷ "|" ∷ subscription ∷ [])) === signature

-- `verifyRazorpayWebhookSignature`
unfoldable pub verify_webhook_signature : Context → String → String → String → Bool
verify_webhook_signature ctx body signature secret = ctx.hmac secret body === signature

-- `mapRazorpaySubscriptionToOrgStatus`
unfoldable pub map_subscription_status : String → String × Option String
map_subscription_status status =
    if status === "authenticated"
    then ("authenticated", some "trialing")
    else if status === "active"
    then ("active", some "active")
    else if status === "pending"
    then ("pending", some "past_due")
    else if status === "halted"
    then ("halted", some "past_due")
    else if status === "cancelled" || status === "completed" || status === "expired"
    then (status, some "canceled")
    else ("created", none)

abbrev pub with_email : String → Customer → Bool
with_email email c = same_text (folded (get_or c.email "")) (folded email)

abbrev pub id_in : Option Customer → Option String
id_in none = none
id_in (some c) = present (some c.id)

-- The pages from `skip` on, of which at most `pages` are read.
abbrev pub find_in_pages : Context → String → ℕ → ℕ → Action (Option String)
find_in_pages ctx email zero skip = pure none
find_in_pages ctx email (suc pages) skip = do
  page ← await (ctx.all_customers 100 skip)
  let items = get_or page []
  let later = find_in_pages ctx email pages (skip + 100)
  elim (id_in (find (with_email email) items)) [
    | some id ↦ pure (some id)
    | none ↦ if ltb (length items) 100 then pure none else later
  ]

-- `findRazorpayCustomerIdByEmail`
unfoldable pub find_customer_by_email : Context → String → Action (Option String)
find_customer_by_email ctx email = find_in_pages ctx email 10 0

abbrev pub message_of : Thrown → String
message_of (app e) = ""
message_of (remote e) = format_razorpay_error e

abbrev pub plain_error : String → Thrown
plain_error text =
    remote (record { status_code = none; description = none; reason = none; message = some text })

abbrev pub reuse_existing : Context → String → Thrown → Action String
reuse_existing ctx email e =
    if mentions "already exists" (message_of e)
    then (do
      found ← find_customer_by_email ctx email
      elim (present found) [ none ↦ raise e | some id ↦ pure id ])
    else raise e

-- `ensureRazorpayCustomer`
unfoldable pub ensure_customer : Context → String → String → ℕ → Action String
ensure_customer ctx name email org =
    catch
      (do
        created ← await (ctx.create_customer name email org)
        elim (present created) [
          | none ↦ raise (plain_error "Razorpay did not return a customer id")
          | some id ↦ pure id
        ])
      (reuse_existing ctx email)

abbrev pub is_pro : OrganizationPlan → Bool
is_pro pro = true
is_pro _ = false

abbrev pub plan_key : OrganizationPlan → String
plan_key plan = if is_pro plan then "RAZORPAY_PRO_PLAN_ID" else "RAZORPAY_STARTER_PLAN_ID"

abbrev pub plan_price : OrganizationPlan → ℕ
plan_price plan = if is_pro plan then pro_price_inr else starter_price_inr

abbrev pub missing_plan : OrganizationPlan → Thrown
missing_plan plan = plain_error (concat (plan_key plan ∷ " is not set." ∷ []))

-- `resolveRazorpayPlanId`; of the message the first sentence is kept.
unfoldable pub resolve_plan_id : Context → OrganizationPlan → Option String → Bool → Action String
resolve_plan_id ctx plan configured auto = elim (trimmed configured) [
  | some id ↦ pure id
  | none ↦
      if not auto
      then raise (missing_plan plan)
      else await (
          ctx.create_plan (if is_pro plan then "Revenant Pro" else "Revenant Starter")
            (plan_price plan * 100))
]
