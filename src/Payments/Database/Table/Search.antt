-- ===== src/Payments/Database/Table/Search.antt =====
-- What the queries of the table find.
use somegram_backend.Prelude.{
  ℕ, zero, suc, ◌<◌, ◌≤◌, ◌≡◌, refl, sym, ap, subst, ◌∙◌, Bool, true, false, Option, none, some,
  arith, ◌==◌, ltb, if◌then◌else◌, inl, inr, All, Bool-cases, ltb→lt, ==→eq, ◌⊎◌,
}
use mathlib.Core.Option.{some-injective}
use somegram_backend.Payments.SubscriptionEntity.{Subscription}
use somegram_backend.Payments.Database.Table.{Table, stored, row_of, or_if, search, collect}

pub row_of-lt : (d : Table) (k : ℕ) → k < d.size → row_of d k ≡ some (stored d k)
unfolding row_of
row_of-lt d k h = ground arith

pub row_of-some :
    (d : Table) (k : ℕ) (s : Subscription) → row_of d k ≡ some s → (k < d.size) × (stored d k ≡ s)
unfolding row_of
row_of-some d k s e = elim (Bool-cases (ltb k d.size)) [
  | inl holds ↦ (
    ltb→lt k d.size holds,
    some-injective _ _ (sym (ap (λ b. if b then some (stored d k) else none) holds) ∙ e),
  )
  | inr fails ↦ absurd (ground arith)
]

-- What `search` has found below `k + 1`.
pub or_if-some :
    (p : Subscription → Bool) (r s : Subscription) (o : Option Subscription)
    → or_if p r o ≡ some s
    → (o ≡ some s) ⊎ ((r ≡ s) × (p s ≡ true))
or_if-some p r s (some t) e = inl e
or_if-some p r s none e = elim (Bool-cases (p r)) [
  | inl holds ↦
      let same : r ≡ s =
        some-injective _ _ (sym (ap (λ b. if b then some r else none) holds) ∙ e) in
      inr (same, sym (ap p same) ∙ holds)
  | inr fails ↦ absurd (ground arith)
]

pub or_if-none :
    (p : Subscription → Bool) (r : Subscription) (o : Option Subscription)
    → or_if p r o ≡ none
    → (o ≡ none) × (p r ≡ false)
or_if-none p r (some t) e = absurd (ground arith)
or_if-none p r none e = (refl, ground arith)

pub search_found :
    (p : Subscription → Bool) (d : Table) (k : ℕ) (s : Subscription)
    → k ≤ d.size
    → search p d k ≡ some s
    → (row_of d s.id ≡ some s) × (p s ≡ true)
unfolding search
search_found p d zero s h e = absurd (ground arith)
search_found p d (suc k) s h e = elim (or_if-some p (stored d k) s (search p d k) e) [
  | inl below ↦ search_found p d k s (omega (arith, h)) below
  | inr (same, holds) ↦
      (subst (λ r. row_of d r.id ≡ some r) same (row_of-lt d k (omega (arith, h))), holds)
]

pub search_missing :
    (p : Subscription → Bool) (d : Table) (k : ℕ)
    → search p d k ≡ none
    → (i : ℕ) → i < k
    → p (stored d i) ≡ false
unfolding search
search_missing p d zero e i h = absurd (omega (arith, h))
search_missing p d (suc k) e i h =
    let (below, here) = or_if-none p (stored d k) (search p d k) e in
    elim (Bool-cases (i == k)) [
      | inl same ↦ subst (λ j. p (stored d j) ≡ false) (sym (==→eq i k same)) here
      | inr other ↦ search_missing p d k below i (ground (arith, other, h))
    ]

pub collect_found :
    (p : Subscription → Bool) (d : Table) (k : ℕ)
    → k ≤ d.size
    → All (λ s. (row_of d s.id ≡ some s) × (p s ≡ true)) (collect p d k)
unfolding collect
collect_found p d zero h = tt
collect_found p d (suc k) h =
    let rest = collect_found p d k (omega (arith, h)) in
    elim (Bool-cases (p (stored d k))) [
      | inl holds ↦ rw holds ((row_of-lt d k (omega (arith, h)), holds), rest)
      | inr fails ↦ rw fails rest
    ]
