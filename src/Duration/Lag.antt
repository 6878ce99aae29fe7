-- ===== src/Duration/Lag.antt =====
-- The observed recovery point objective is the largest lag that a freshness check reports.
use mathlib.Core.Path.{subst}
use revenant_cloud.Base.{
  ℕ, ◌≤◌, ◌≡◌, refl, sym, ◌∙◌, ◌⊎◌, inl, inr, Option, none, some, List, [], ◌∷◌, arith, All, Any,
  false, length, ltb, ◌===◌, Bool-cases, eq_iff,
}
use revenant_cloud.Duration.{
  CheckResult, match_fresh, parse_go_duration, lag, larger, extract_from, extract_rpo,
}

-- `none` is below every value.
abbrev pub AtMost : Option ℕ → Option ℕ → Type 0
AtMost none b = Unit
AtMost (some a) none = ⊥
AtMost (some a) (some b) = a ≤ b

AtMost-refl : (a : Option ℕ) → AtMost a a
AtMost-refl none = tt
AtMost-refl (some a) = omega arith

AtMost-trans : (a b c : Option ℕ) → AtMost a b → AtMost b c → AtMost a c
AtMost-trans none b c p q = tt
AtMost-trans (some a) (some b) (some c) p q = omega arith
AtMost-trans (some a) (some b) none p q = absurd q
AtMost-trans (some a) none c p q = absurd p

larger_bounds : (a b : Option ℕ) → AtMost a (larger a b) × AtMost b (larger a b)
larger_bounds none none = (tt, tt)
larger_bounds none (some b) = (tt, omega arith)
larger_bounds (some a) none = (omega arith, tt)
larger_bounds (some a) (some b) = (omega arith, omega arith)

larger_cases : (a b : Option ℕ) → (larger a b ≡ a) ⊎ (larger a b ≡ b)
larger_cases a none = inl refl
larger_cases none (some b) = inr refl
larger_cases (some a) (some b) = ground arith

extract_from-bound : (m : Option ℕ) (rs : List CheckResult) → AtMost m (extract_from m rs)
unfolding extract_from
extract_from-bound m [] = AtMost-refl m
extract_from-bound m (r ∷ rs) =
    AtMost-trans m (larger m (lag r)) _ (larger_bounds m (lag r)).0
      (extract_from-bound (larger m (lag r)) rs)

extract_from-All :
    (m : Option ℕ) (rs : List CheckResult) → All (λ r. AtMost (lag r) (extract_from m rs)) rs
unfolding extract_from
extract_from-All m [] = tt
extract_from-All m (r ∷ rs) = (
  AtMost-trans (lag r) (larger m (lag r)) _ (larger_bounds m (lag r)).1
      (extract_from-bound (larger m (lag r)) rs),
  extract_from-All (larger m (lag r)) rs,
)

extract_from-Any :
    (m : Option ℕ) (rs : List CheckResult)
    → (extract_from m rs ≡ m) ⊎ Any (λ r. lag r ≡ extract_from m rs) rs
unfolding extract_from
extract_from-Any m [] = inl refl
extract_from-Any m (r ∷ rs) = elim (extract_from-Any (larger m (lag r)) rs) [
  | inr later ↦ inr (inr later)
  | inl same ↦ elim (larger_cases m (lag r)) [
    | inl old ↦ inl (same ∙ old)
    | inr new ↦ inr (inl (sym new ∙ sym same))
  ]
]

-- The check is one of freshness and has passed.
abbrev pub Passed : CheckResult → Type 0
Passed r = (r.check_type ≡ "freshness") × (r.status ≡ "pass")

-- What the message of a check tells, whatever its type and its status.
abbrev pub told : Option (List ℕ) → Option ℕ
told none = none
told (some m) = elim (match_fresh m) [ none ↦ none | some t ↦ parse_go_duration t ]

nothing_told : (m : List ℕ) → ltb 0 (length m) ≡ false → told (some m) ≡ none
unfolding match_fresh
nothing_told [] h = refl
nothing_told (c ∷ m) h = absurd (ground (arith, h))

lag-message : (r : CheckResult) (m : Option (List ℕ)) → r.message ≡ m → Passed r → lag r ≡ told m
unfolding lag
lag-message r none e p = rw e refl
lag-message r (some m) e (t, s) = elim (Bool-cases (ltb 0 (length m))) [
  | inl l ↦ rw (e, t, s, l) refl
  | inr n ↦ rw (e, t, s, n) (sym (nothing_told m n))
]

-- A check reports no lag, or it passed.
lag_cases : (r : CheckResult) (m : Option (List ℕ)) → r.message ≡ m → (lag r ≡ none) ⊎ Passed r
unfolding lag
lag_cases r none e = inl (rw e refl)
lag_cases r (some m) e = elim (Bool-cases (r.check_type === "freshness")) [
  | inr f ↦ inl (rw (e, f) refl)
  | inl t ↦ elim (Bool-cases (r.status === "pass")) [
    | inr f ↦ inl (rw (e, t, f) refl)
    | inl s ↦ inr ((eq_iff r.check_type "freshness").0 t, (eq_iff r.status "pass").0 s)
  ]
]

Bounds : Option ℕ → CheckResult → Type 0
Bounds top r = Passed r → AtMost (told r.message) top

Reaches : Option ℕ → CheckResult → Type 0
Reaches top r = Passed r × (told r.message ≡ top)

each-Bounds :
    (top : Option ℕ) (rs : List CheckResult)
    → All (λ r. AtMost (lag r) top) rs
    → All (Bounds top) rs
unfolding Bounds
each-Bounds top [] h = tt
each-Bounds top (r ∷ rs) (b, h) =
    ((λ p. subst (λ l. AtMost l top) (lag-message r r.message refl p) b), each-Bounds top rs h)

found-Reaches :
    (top : Option ℕ) (rs : List CheckResult)
    → Any (λ r. lag r ≡ top) rs
    → (top ≡ none) ⊎ Any (Reaches top) rs
unfolding Reaches
found-Reaches top [] h = absurd h
found-Reaches top (r ∷ rs) (inl e) = elim (lag_cases r r.message refl) [
  | inl silent ↦ inl (sym e ∙ silent)
  | inr p ↦ inr (inl (p, sym (lag-message r r.message refl p) ∙ e))
]
found-Reaches top (r ∷ rs) (inr later) = elim (found-Reaches top rs later) [
  | inl e ↦ inl e
  | inr found ↦ inr (inr found)
]

-- No freshness check that passed tells a lag above the result, whatever other checks say, and the
-- result is absent or what such a check tells.
pub extract_rpo_lem :
    (rs : List CheckResult)
    → All (λ r. Passed r → AtMost (told r.message) (extract_rpo rs)) rs
      × ((extract_rpo rs ≡ none) ⊎ Any (λ r. Passed r × (told r.message ≡ extract_rpo rs)) rs)
unfolding extract_rpo Bounds Reaches
extract_rpo_lem rs = (
  each-Bounds (extract_from none rs) rs (extract_from-All none rs),
  elim (extract_from-Any none rs) [
    | inl e ↦ inl e
    | inr h ↦ found-Reaches (extract_from none rs) rs h
  ],
)
