-- ===== src/Billing/Access.antt =====
-- Whether a card is set up, and whose subscription it is (apps/api/src/lib/billing-access.ts).
use revenant_cloud.Base.{
  ℕ, String, Bool, false, ◌&&◌, ◌||◌, Option, none, some, ◌==◌, ◌===◌, find, is_some, truthy,
}
use revenant_cloud.Billing.{World, Account, Order, Entity, organization_by, is}

-- `ACTIVE_RAZORPAY_SUBSCRIPTION.includes`
abbrev pub holds_card : String → Bool
holds_card status = status === "authenticated" || status === "active" || status === "pending"

abbrev pub subscribed : Option Account → Bool
subscribed none = false
subscribed (some o) =
    truthy o.razorpay_subscription_id
    && elim o.razorpay_subscription_status [ none ↦ false | some status ↦ holds_card status ]

abbrev pub paid_setup : ℕ → Order → Bool
paid_setup org o =
    (o.organization_id == org) && o.purpose === "autopay_setup" && o.status === "paid"

-- `hasAutopaySetup`
unfoldable pub has_autopay_setup : ℕ → World → Bool
has_autopay_setup org w =
    subscribed (organization_by org w) || is_some (find (paid_setup org) w.orders)

abbrev pub id_of : Option Account → Option ℕ
id_of none = none
id_of (some o) = some o.id

-- `findOrganizationByRazorpaySubscription`
unfoldable pub find_organization : Entity → World → Option ℕ
find_organization e w = elim e.notes.organization_id [
  | some org ↦ some org
  | none ↦ id_of (find (λ o. is o.razorpay_subscription_id e.id) w.organizations)
]
