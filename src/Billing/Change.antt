-- ===== src/Billing/Change.antt =====
-- What an operation of billing may change: the account of one organization, and its orders, which
-- are added or paid and never anything else. The steps of the operations keep to it.
use mathlib.Core.Path.{subst}
use revenant_cloud.Base.{
  Any, sym, ==_iff, ℕ, String, ◌≡◌, refl, ap, ◌∙◌, ◌⊎◌, inl, inr, Bool, true, false, not, Option,
  none, some, List, [], ◌∷◌, ◌++◌, ◌==◌, ◌===◌, filter, is_some, All, Bool-cases,
}
use revenant_cloud.Store.{update_where}
use revenant_cloud.Billing.{
  World, Account, Order, Action, Ending, returned, threw, Thrown, Answer, answered, refused, Call,
  pure, raise, await, catch, after_outcome, ◌>>=◌, raise_if, or_raise, called, set_organization,
  insert_order, pay, pay_order,
}

-- An order that stays as it is or is paid.
abbrev pub Step : Order → Order → Type 0
Step o p = (p ≡ o) ⊎ ((now : ℕ) × (payment : String) × (p ≡ pay now payment o))

-- A payment is dated exactly when the order is paid.
abbrev pub IsDated : Order → Type 0
IsDated o = (o.status === "paid") ≡ is_some o.paid_at

abbrev pub New : ℕ → Order → Type 0
New org o = (o.organization_id ≡ org) × IsDated o

-- An order that stays as it is, or is paid if its identifier may be.
abbrev pub Settles : (ℕ → Type 0) → Order → Order → Type 0
Settles P o p = (p ≡ o) ⊎ (P o.id × (now : ℕ) × (payment : String) × (p ≡ pay now payment o))

abbrev pub Grows : (ℕ → Type 0) → ℕ → List Order → List Order → Type 0
Grows P org [] new = All (New org) new
Grows P org (o ∷ os) [] = ⊥
Grows P org (o ∷ os) (p ∷ ps) = Settles P o p × Grows P org os ps

-- The accounts of the other organizations.
abbrev pub other_accounts : ℕ → List Account → List Account
other_accounts org = filter (λ o. not (o.id == org))

abbrev pub Change : (ℕ → Type 0) → ℕ → World → World → Type 0
Change P org w v =
    (other_accounts org v.organizations ≡ other_accounts org w.organizations)
    × (v.users ≡ w.users)
    × Grows P org w.orders v.orders

-- The identifier is one of the organization's orders.
abbrev pub IsOwn : ℕ → World → ℕ → Type 0
IsOwn org w id = Any (λ o. (o.id ≡ id) × (o.organization_id ≡ org)) w.orders

pub Settles-Step : (P : ℕ → Type 0) (o p : Order) → Settles P o p → Step o p
Settles-Step P o p (inl e) = inl e
Settles-Step P o p (inr (allowed, now, payment, e)) = inr (now, payment, e)

Settles-trans : (P : ℕ → Type 0) (o p q : Order) → Settles P o p → Settles P p q → Settles P o q
Settles-trans P o p q (inl e) (inl f) = inl (f ∙ e)
Settles-trans P o p q (inl e) (inr (a, now, payment, f)) =
    inr (subst P (ap (λ (r : Order). r.id) e) a, now, payment, f ∙ ap (pay now payment) e)
Settles-trans P o p q (inr (a, now, payment, e)) (inl f) = inr (a, now, payment, f ∙ e)
Settles-trans P o p q (inr (a, now, payment, e)) (inr (b, later, other, f)) =
    inr (a, later, other, f ∙ ap (pay later other) e)

pub Step-trans : (o p q : Order) → Step o p → Step p q → Step o q
Step-trans o p q (inl e) (inl f) = inl (f ∙ e)
Step-trans o p q (inl e) (inr (now, payment, f)) = inr (now, payment, f ∙ ap (pay now payment) e)
Step-trans o p q (inr (now, payment, e)) (inl f) = inr (now, payment, f ∙ e)
Step-trans o p q (inr (now, payment, e)) (inr (later, other, f)) =
    inr (later, other, f ∙ ap (pay later other) e)

pub Step-IsDated : (o p : Order) → Step o p → IsDated o → IsDated p
Step-IsDated o p (inl e) h = rw e h
Step-IsDated o p (inr (now, payment, e)) h = rw e refl

Step-New : (org : ℕ) (o p : Order) → Step o p → New org o → New org p
Step-New org o p (inl e) h = rw e h
Step-New org o p (inr (now, payment, e)) h = rw e (h.0, refl)

pub Grows-refl : (P : ℕ → Type 0) (org : ℕ) (os : List Order) → Grows P org os os
Grows-refl P org [] = tt
Grows-refl P org (o ∷ os) = (inl refl, Grows-refl P org os)

New-Grows :
    (P : ℕ → Type 0) (org : ℕ) (os ps : List Order)
    → All (New org) os
    → Grows P org os ps
    → All (New org) ps
New-Grows P org [] ps h g = g
New-Grows P org (o ∷ os) [] h g = absurd g
New-Grows P org (o ∷ os) (p ∷ ps) h g =
    (Step-New org o p (Settles-Step P o p g.0) h.0, New-Grows P org os ps h.1 g.1)

pub Grows-trans :
    (P : ℕ → Type 0) (org : ℕ) (os ps qs : List Order)
    → Grows P org os ps
    → Grows P org ps qs
    → Grows P org os qs
Grows-trans P org [] ps qs g h = New-Grows P org ps qs g h
Grows-trans P org (o ∷ os) [] qs g h = absurd g
Grows-trans P org (o ∷ os) (p ∷ ps) [] g h = absurd h
Grows-trans P org (o ∷ os) (p ∷ ps) (q ∷ qs) g h =
    (Settles-trans P o p q g.0 h.0, Grows-trans P org os ps qs g.1 h.1)

Grows-append :
    (P : ℕ → Type 0) (org : ℕ) (os : List Order) (o : Order)
    → New org o
    → Grows P org os (os ++ o ∷ [])
Grows-append P org [] o h = (h, tt)
Grows-append P org (p ∷ os) o h = (inl refl, Grows-append P org os o h)

Grows-pay :
    (P : ℕ → Type 0) (org now : ℕ) (payment : String) (id : ℕ) (os : List Order)
    → P id
    → Grows P org os (update_where (λ o. o.id == id) (pay now payment) os)
Grows-pay P org now payment id [] h = tt
Grows-pay P org now payment id (o ∷ os) h = elim (Bool-cases (o.id == id)) [
  | inl t ↦
      let own : P o.id = subst P (sym ((==_iff o.id id).0 t)) h in
      rw t (inr (own, now, payment, refl), Grows-pay P org now payment id os h)
  | inr f ↦ rw f (inl refl, Grows-pay P org now payment id os h)
]

pub other_accounts-update_where :
    (org : ℕ) (set : Account → Account)
    → ((o : Account) → (set o).id ≡ o.id)
    → (os : List Account)
    → other_accounts org (update_where (λ o. o.id == org) set os) ≡ other_accounts org os
other_accounts-update_where org set keeps [] = refl
other_accounts-update_where org set keeps (o ∷ os) = elim (Bool-cases (o.id == org)) [
  | inl t ↦ rw (t, keeps o, t) (other_accounts-update_where org set keeps os)
  | inr f ↦ rw (f, f) (ap (λ rest. o ∷ rest) (other_accounts-update_where org set keeps os))
]

pub Change-refl : (P : ℕ → Type 0) (org : ℕ) (w : World) → Change P org w w
Change-refl P org w = (refl, refl, Grows-refl P org w.orders)

pub Change-trans :
    (P : ℕ → Type 0) (org : ℕ) (u v w : World)
    → Change P org u v
    → Change P org v w
    → Change P org u w
Change-trans P org u v w (a, b, c) (d, e, f) =
    (d ∙ a, e ∙ b, Grows-trans P org u.orders v.orders w.orders c f)

-- An action that changes only what `Change` allows, also when it throws.
pub record Keeps {A : Type 0} (P : ℕ → Type 0) (org : ℕ) (m : Action A) : Type 0 where
  pub at : (w : World) → Change P org w (m w).1

module _ {A B : Type 0} (P : ℕ → Type 0) (org : ℕ) where
  Keeps-after :
      (f : A → Action B) (g : Thrown → Action B) (w : World) (r : Ending A × World)
      → ((a : A) → Keeps P org (f a))
      → ((e : Thrown) → Keeps P org (g e))
      → Change P org w r.1
      → Change P org w (after_outcome f g r).1
  Keeps-after f g w (returned a, v) hf hg c = Change-trans P org w v (f a v).1 c ((hf a).at v)
  Keeps-after f g w (threw e, v) hf hg c = Change-trans P org w v (g e v).1 c ((hg e).at v)

  pub Keeps-bind :
      (m : Action A) (f : A → Action B)
      → Keeps P org m
      → ((a : A) → Keeps P org (f a))
      → Keeps P org (m >>= f)
  unfolding ◌>>=◌ raise
  Keeps-bind m f h k = record {
    at = λ w. Keeps-after f raise w (m w) k (λ e. record { at = Change-refl P org }) (h.at w);
  }

module _ {A : Type 0} (P : ℕ → Type 0) (org : ℕ) where
  pub Keeps-catch :
      (m : Action A) (g : Thrown → Action A)
      → Keeps P org m
      → ((e : Thrown) → Keeps P org (g e))
      → Keeps P org (catch m g)
  unfolding catch pure
  Keeps-catch m g h k = record {
    at = λ w. Keeps-after P org pure g w (m w) (λ a. record { at = Change-refl P org }) k (h.at w);
  }

  pub Keeps-await : (a : Answer A) → Keeps P org (await a)
  unfolding await
  Keeps-await (answered a) = record { at = Change-refl P org }
  Keeps-await (refused e) = record { at = Change-refl P org }

  pub Keeps-or_raise :
      (o : Option A) (status : ℕ) (code : String) → Keeps P org (or_raise o status code)
  unfolding or_raise raise pure
  Keeps-or_raise none status code = record { at = Change-refl P org }
  Keeps-or_raise (some a) status code = record { at = Change-refl P org }

pub Keeps-raise_if :
    (P : ℕ → Type 0) (org : ℕ) (b : Bool) (status : ℕ) (code : String)
    → Keeps P org (raise_if b status code)
unfolding raise_if raise pure
Keeps-raise_if P org true status code = record { at = Change-refl P org }
Keeps-raise_if P org false status code = record { at = Change-refl P org }

pub Keeps-called : (P : ℕ → Type 0) (org : ℕ) (c : Call) → Keeps P org (called c)
unfolding called
Keeps-called P org c = record { at = Change-refl P org }

pub Keeps-set :
    (P : ℕ → Type 0) (org : ℕ) (set : Account → Account)
    → ((o : Account) → (set o).id ≡ o.id)
    → Keeps P org (set_organization org set)
unfolding set_organization
Keeps-set P org set keeps = record {
  at = λ w.
      (other_accounts-update_where org set keeps w.organizations, refl, Grows-refl P org w.orders);
}

pub Keeps-insert : (P : ℕ → Type 0) (org : ℕ) (o : Order) → New org o → Keeps P org (insert_order o)
unfolding insert_order
Keeps-insert P org o h = record { at = λ w. (refl, refl, Grows-append P org w.orders o h) }

pub Keeps-pay :
    (P : ℕ → Type 0) (org now : ℕ) (payment : String) (id : ℕ)
    → P id
    → Keeps P org (pay_order now payment id)
unfolding pay_order
Keeps-pay P org now payment id h = record {
  at = λ w. (refl, refl, Grows-pay P org now payment id w.orders h);
}
