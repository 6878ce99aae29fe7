-- ===== src/Billing/Webhooks.antt =====
-- A webhook changes the account of the organization that its subscription belongs to, and no other.
use revenant_cloud.Base.{
  ℕ, String, ◌≡◌, refl, ap, inl, inr, Bool, true, false, Option, none, some, get_or, List, [], ◌∷◌,
  ◌===◌, ◌==◌, ==_iff, find, Bool-cases, Option-cases, arith, eq_iff,
}
use revenant_cloud.Store.{update_where}
use revenant_cloud.Billing.{
  Context, World, Account, Entity, Webhook, Answer, answered, refused, Action, Ending, returned,
  threw, pure, raise, gets, await, ◌>>=◌, ◌>>◌, raise_if, or_raise, after_outcome, set_organization,
  called, present, is,
}
use revenant_cloud.Billing.Razorpay.{trimmed}
use revenant_cloud.Billing.Access.{id_of, find_organization}
use revenant_cloud.Billing.Subscription.{
  synced, sync_org_subscription, trialing_until, full_trial, move_start, razorpay_ready,
  align_trial,
}
use revenant_cloud.Billing.Verify.{
  charged, aligned_if, synced_event, charged_if, with_entity, apply_event, handle_webhook,
}
use revenant_cloud.Billing.Change.{
  Keeps, Change, IsOwn, Change-refl, Change-trans, Keeps-bind, Keeps-set,
}
use revenant_cloud.Billing.Effects.{still, sync-Keeps, align_trial-Keeps}

abbrev pub has_subscription : Entity → Account → Bool
has_subscription e o = is o.razorpay_subscription_id e.id

-- An update of the account that was found leaves the search with the same answer.
find-update_where :
    (org : ℕ) (test : Account → Bool) (set : Account → Account)
    → ((o : Account) → (set o).id ≡ o.id)
    → ((o : Account) → test o ≡ true → test (set o) ≡ true)
    → (os : List Account) → id_of (find test os) ≡ some org
    → id_of (find test (update_where (λ o. o.id == org) set os)) ≡ some org
find-update_where org test set keeps stays [] h = h
find-update_where org test set keeps stays (o ∷ os) h = elim (Bool-cases (test o)) [
  | inl t ↦ elim (Bool-cases (o.id == org)) [
    | inl same ↦ rw (same, stays o t, keeps o) (ap some ((==_iff o.id org).0 same))
    | inr other ↦ rw (other, t) (ground (arith, t, h))
  ]
  | inr f ↦ elim (Bool-cases (o.id == org)) [
    | inl same ↦ elim (Bool-cases (test (set o))) [
      | inl t ↦ rw (same, t, keeps o) (ap some ((==_iff o.id org).0 same))
      | inr still_not ↦
          rw (same, still_not)
            (find-update_where org test set keeps stays os (ground (arith, f, h)))
    ]
    | inr other ↦
        rw (other, f) (find-update_where org test set keeps stays os (ground (arith, f, h)))
  ]
]

-- The update of the found account, for an entity whose notes may name the organization.
Finds : Entity → ℕ → World → Type 0
Finds e org w = find_organization e w ≡ some org

Finds-set :
    (e : Entity) (org : ℕ) (set : Account → Account) (w : World)
    → ((o : Account) → (set o).id ≡ o.id)
    → ((o : Account) → has_subscription e o ≡ true → has_subscription e (set o) ≡ true)
    → Finds e org w
    → Finds e org (set_organization org set w).1
unfolding Finds find_organization set_organization
Finds-set e org set w keeps stays h = elim (Option-cases e.notes.organization_id) [
  | inl unnamed ↦ rw unnamed (
      find-update_where org (has_subscription e) set keeps stays w.organizations
        (ground (arith, unnamed, h)))
  | inr (named, eq) ↦ ground (arith, eq, h)
]

move_start-Finds :
    (ctx : Context) (s : Option String) (e : Entity) (org : ℕ) (w : World)
    → Finds e org w
    → Finds e org (move_start ctx s w).1
unfolding Finds find_organization called pure
move_start-Finds ctx none e org w h = h
move_start-Finds ctx (some id) e org w h = elim (Bool-cases (razorpay_ready ctx)) [
  | inl t ↦ rw t h
  | inr f ↦ rw f h
]

sync-Finds :
    (e : Entity) (org : ℕ) (w : World)
    → Finds e org w
    → Finds e org (sync_org_subscription org e w).1
unfolding sync_org_subscription
sync-Finds e org w h = Finds-set e org (synced e) w (λ o. refl) (λ o _. (eq_iff e.id e.id).1 refl) h

aligned-Finds :
    (b : Bool) (ctx : Context) (e : Entity) (org : ℕ) (w : World)
    → Finds e org w
    → Finds e org (aligned_if b ctx org e w).1
unfolding align_trial pure ◌>>=◌ set_organization
aligned-Finds false ctx e org w h = h
aligned-Finds true ctx e org w h =
    move_start-Finds ctx (present (some e.id)) e org
      (set_organization org (trialing_until (full_trial ctx)) w).1
      (Finds-set e org (trialing_until (full_trial ctx)) w (λ o. refl) (λ o t. t) h)

synced_event-Finds :
    (ctx : Context) (event : String) (e : Entity) (org : ℕ) (w : World)
    → Finds e org w
    → Finds e org (synced_event ctx event e (some org) w).1
unfolding ◌>>=◌ sync_org_subscription set_organization
synced_event-Finds ctx event e org w h =
    aligned-Finds (event === "subscription.authenticated") ctx e org
      (sync_org_subscription org e w).1 (sync-Finds e org w h)

-- What a webhook may change, by the organization that its subscription is found for.
abbrev pub EventChange : Option ℕ → World → World → Type 0
EventChange none w v = v ≡ w
EventChange (some org) w v = Change (IsOwn org w) org w v

module _ (P : ℕ → Type 0) where
  aligned-Keeps :
      (b : Bool) (ctx : Context) (e : Entity) (org : ℕ) → Keeps P org (aligned_if b ctx org e)
  aligned-Keeps true ctx e org = align_trial-Keeps P org ctx (some e.id)
  aligned-Keeps false ctx e org = still P org tt

  synced_event-Keeps :
      (ctx : Context) (event : String) (e : Entity) (org : ℕ)
      → Keeps P org (synced_event ctx event e (some org))
  synced_event-Keeps ctx event e org =
      Keeps-bind P org _ _ (sync-Keeps P org e) (λ _. aligned-Keeps _ ctx e org)

  charged_if-Change :
      (b : Bool) (e : Entity) (org : ℕ) (w : World)
      → Finds e org w
      → Change P org w (charged_if b e w).1
  unfolding Finds ◌>>=◌ gets pure
  charged_if-Change false e org w h = Change-refl P org w
  charged_if-Change true e org w h = rw h ((Keeps-set P org (charged e) (λ o. refl)).at w)

  after-Change :
      (org : ℕ) (event : String) (e : Entity) (w : World) (r : Ending Unit × World)
      → Change P org w r.1
      → Finds e org r.1
      → Change P org w
          (after_outcome (λ _. charged_if (event === "subscription.charged") e) raise r).1
  unfolding raise
  after-Change org event e w (returned tt, v) c h =
      Change-trans P org w v (charged_if (event === "subscription.charged") e v).1 c
        (charged_if-Change (event === "subscription.charged") e org v h)
  after-Change org event e w (threw t, v) c h = c

charged_if-unfound :
    (b : Bool) (e : Entity) (w : World) → find_organization e w ≡ none → (charged_if b e w).1 ≡ w
unfolding ◌>>=◌ gets pure
charged_if-unfound false e w h = refl
charged_if-unfound true e w h = rw h refl

apply_event-EventChange :
    (ctx : Context) (event : String) (e : Entity) (w : World) (found : Option ℕ)
    → find_organization e w ≡ found
    → EventChange found w (apply_event ctx event (some e) w).1
unfolding ◌>>=◌ gets pure Finds
apply_event-EventChange ctx event e w none h =
    rw h (charged_if-unfound (event === "subscription.charged") e w h)
apply_event-EventChange ctx event e w (some org) h = rw h (
    after-Change (IsOwn org w) org event e w (synced_event ctx event e (some org) w)
      ((synced_event-Keeps (IsOwn org w) ctx event e org).at w)
      (synced_event-Finds ctx event e org w h))

-- The organization that an entity belongs to, where there is an entity.
abbrev pub owner : Option Entity → World → Option ℕ
owner none w = none
owner (some e) w = find_organization e w

abbrev pub target_of : Answer Webhook → World → Option ℕ
target_of (answered payload) w = owner (with_entity payload.subscription) w
target_of (refused e) w = none

EventChange-refl : (found : Option ℕ) (w : World) → EventChange found w w
EventChange-refl none w = refl
EventChange-refl (some org) w = Change-refl (IsOwn org w) org w

outcome-EventChange :
    {A B : Type 0} (found : Option ℕ) (f : A → Action B) (w : World) (r : Ending A × World)
    → r.1 ≡ w
    → ((a : A) → EventChange found w (f a w).1)
    → EventChange found w (after_outcome f raise r).1
unfolding raise
outcome-EventChange found f w (returned a, v) same h = rw same (h a)
outcome-EventChange found f w (threw e, v) same h = rw same (EventChange-refl found w)

raise_if_same :
    (b : Bool) (status : ℕ) (code : String) (w : World) → (raise_if b status code w).1 ≡ w
unfolding raise_if raise pure
raise_if_same true status code w = refl
raise_if_same false status code w = refl

or_raise_same :
    {A : Type 0} (o : Option A) (status : ℕ) (code : String) (w : World)
    → (or_raise o status code w).1 ≡ w
unfolding or_raise raise pure
or_raise_same none status code w = refl
or_raise_same (some a) status code w = refl

-- A step that reads, before one that changes no more than an event may.
guarded-EventChange :
    {A B : Type 0} (found : Option ℕ) (m : Action A) (f : A → Action B) (w : World)
    → (m w).1 ≡ w
    → ((a : A) → EventChange found w (f a w).1)
    → EventChange found w ((m >>= f) w).1
unfolding ◌>>=◌
guarded-EventChange found m f w same h = outcome-EventChange found f w (m w) same h

entity-EventChange :
    (ctx : Context) (event : String) (e : Option Entity) (w : World)
    → EventChange (owner e w) w (apply_event ctx event e w).1
unfolding pure
entity-EventChange ctx event none w = refl
entity-EventChange ctx event (some e) w =
    apply_event-EventChange ctx event e w (find_organization e w) refl

final-EventChange :
    (found : Option ℕ) (event : String) (w : World) (r : Ending Unit × World)
    → EventChange found w r.1
    → EventChange found w (after_outcome (λ _. pure event) raise r).1
unfolding pure raise
final-EventChange found event w (returned tt, v) c = c
final-EventChange found event w (threw e, v) c = c

answer-EventChange :
    (ctx : Context) (a : Answer Webhook) (w : World)
    → EventChange
        (target_of a w)
        w
        ((await a >>= λ payload.
            apply_event ctx (get_or payload.event "") (with_entity payload.subscription)
            >> pure (get_or payload.event ""))
          w).1
unfolding ◌>>=◌ await pure raise
answer-EventChange ctx (refused e) w = refl
answer-EventChange ctx (answered payload) w =
    final-EventChange (owner (with_entity payload.subscription) w) (get_or payload.event "") w
      (apply_event ctx (get_or payload.event "") (with_entity payload.subscription) w)
      (entity-EventChange ctx (get_or payload.event "") (with_entity payload.subscription) w)

-- A webhook changes at most the account of the organization that the subscription in its body belongs
-- to, by its notes or else by the stored subscription, as the store was before: the accounts of the
-- others and the users stay, and so do the orders, up to new or paid ones of that organization.
-- Where there is no such organization it changes nothing, and so does one whose body is not JSON.
pub handle_webhook-EventChange :
    (ctx : Context) (body : String) (header : Option String) (w : World)
    → EventChange (target_of (ctx.parse_body body) w) w (handle_webhook ctx body header w).1
unfolding handle_webhook
handle_webhook-EventChange ctx body header w =
    let t = target_of (ctx.parse_body body) w in
    guarded-EventChange t _ _ w (or_raise_same (trimmed ctx.webhook_secret) _ _ w) (λ _.
      guarded-EventChange t _ _ w (or_raise_same (present header) _ _ w) (λ signature.
        guarded-EventChange t _ _ w (raise_if_same _ _ _ w)
          (λ _. answer-EventChange ctx (ctx.parse_body body) w)))
