-- ===== src/Points/Named.antt =====
-- Identifiers of points, as `discoverAvailableRecoveryPoints` (apps/api/src/services/recovery-points.service.ts)
-- collects them for its last update, and the points that they name.
use mathlib.Core.Bool.{false≢true}
use revenant_cloud.Base.{
  Any, ◌⊎◌, ℕ, ◌≡◌, refl, sym, ◌∙◌, Bool, true, false, ◌&&◌, List, [], ◌∷◌, ◌++◌, map, filter, any,
  ◌==◌, All, Bool-cases, inl, inr, if◌then◌else◌, ==_iff,
}
use revenant_cloud.Points.{PointRow}

abbrev pub named : List ℕ → PointRow → Bool
named ids p = any (λ id. id == p.id) ids

abbrev pub Named : (PointRow → Bool) → List ℕ → PointRow → Type 0
Named test ids p = test p ≡ true → named ids p ≡ true

abbrev pub ids_of : List PointRow → List ℕ
ids_of points = map (λ (p : PointRow). p.id) points

pub named_append : (p : PointRow) (a b : List ℕ) → named a p ≡ true → named (a ++ b) p ≡ true
named_append p [] b h = absurd (false≢true h)
named_append p (x ∷ a) b h = elim (Bool-cases (x == p.id)) [
  | inl t ↦ rw t refl
  | inr f ↦ rw f (named_append p a b (rw f at h))
]

pub weaken-Named :
    (test : PointRow → Bool) (a b : List ℕ) (points : List PointRow)
    → ((p : PointRow) → named a p ≡ true → named b p ≡ true)
    → All (Named test a) points
    → All (Named test b) points
weaken-Named test a b [] f h = tt
weaken-Named test a b (p ∷ points) f (h, hs) = ((λ t. f p (h t)), weaken-Named test a b points f hs)

itself : (p : PointRow) (ids : List ℕ) → named (p.id ∷ ids) p ≡ true
itself p ids = let same : (p.id == p.id) ≡ true = (==_iff p.id p.id).1 refl in rw same refl

pub more_ids :
    (p : PointRow) (id : ℕ) (ids : List ℕ) → named ids p ≡ true → named (id ∷ ids) p ≡ true
more_ids p id ids h = elim (Bool-cases (id == p.id)) [ inl t ↦ rw t refl | inr f ↦ rw f h ]

step-Named :
    (test : PointRow → Bool) (p : PointRow) (points rest : List PointRow) (passes : Bool)
    → test p ≡ passes
    → All (Named test (ids_of rest)) points
    → All (Named test (ids_of (if passes then p ∷ rest else rest))) (p ∷ points)
step-Named test p points rest true e h = (
  (λ _. itself p (ids_of rest)),
  weaken-Named test (ids_of rest) (ids_of (p ∷ rest)) points (λ q. more_ids q p.id (ids_of rest)) h,
)
step-Named test p points rest false e h = ((λ t. absurd (false≢true (sym e ∙ t))), h)

pub filter-Named :
    (test : PointRow → Bool) (points : List PointRow)
    → All (Named test (ids_of (filter test points))) points
filter-Named test [] = tt
filter-Named test (p ∷ points) =
    step-Named test p points (filter test points) (test p) refl (filter-Named test points)

pub filter-filter :
    (mine test : PointRow → Bool) (points : List PointRow)
    → filter (λ p. mine p && test p) points ≡ filter test (filter mine points)
filter-filter mine test [] = refl
filter-filter mine test (p ∷ points) = elim (Bool-cases (mine p)) [
  | inl m ↦ rw (m, filter-filter mine test points) refl
  | inr n ↦ rw (n, filter-filter mine test points) refl
]

pub named_later : (p : PointRow) (a b : List ℕ) → named b p ≡ true → named (a ++ b) p ≡ true
named_later p [] b h = h
named_later p (x ∷ a) b h = more_ids p x (a ++ b) (named_later p a b h)

pub named_split :
    (p : PointRow) (a b : List ℕ)
    → named (a ++ b) p ≡ true
    → (named a p ≡ true) ⊎ (named b p ≡ true)
named_split p [] b h = inr h
named_split p (x ∷ a) b h = elim (Bool-cases (x == p.id)) [
  | inl t ↦ inl (rw t refl)
  | inr f ↦ rw f (named_split p a b (rw f at h))
]

-- An identifier that is named is that of a row that passes the test.
pub named_row :
    (test : PointRow → Bool) (p : PointRow) (points : List PointRow)
    → named (ids_of (filter test points)) p ≡ true
    → Any (λ r. (r.id ≡ p.id) × (test r ≡ true)) points
named_row test p [] h = absurd (false≢true h)
named_row test p (q ∷ points) h = elim (Bool-cases (test q)) [
  | inr f ↦ inr (named_row test p points (rw f at h))
  | inl t ↦ elim (Bool-cases (q.id == p.id)) [
    | inl e ↦ inl ((==_iff q.id p.id).0 e, t)
    | inr n ↦ inr (named_row test p points (rw (t, n) at h))
  ]
]

pub some_map :
    (P Q : PointRow → Type 0) (points : List PointRow)
    → ((r : PointRow) → P r → Q r)
    → Any P points
    → Any Q points
some_map P Q [] f h = h
some_map P Q (r ∷ points) f (inl h) = inl (f r h)
some_map P Q (r ∷ points) f (inr h) = inr (some_map P Q points f h)
