-- ===== src/Payments/Database/Table/Updates.antt =====
-- What the writes of the table change.
use somegram_backend.Prelude.{
  ℕ, ◌+◌, ◌<◌, ◌≡◌, refl, sym, ap, subst, ◌∙◌, true, false, none, some, arith, ◌==◌, ltb,
  if◌then◌else◌, inl, inr, Bool-cases, ltb→lt, lt→ltb, ==→eq, eq→==,
}
use mathlib.Core.Option.{some-injective}
use somegram_backend.Payments.SubscriptionEntity.{Subscription}
use somegram_backend.Payments.Database.Table.{Table, stored, row_of, put, update_cell, add_row}
use somegram_backend.Payments.Database.Table.Search.{row_of-lt}

pub set_id_eq : (s : Subscription) (i : ℕ) → s.id ≡ i → record s { id = i } ≡ s
set_id_eq s i e = subst (λ j. record s { id = j } ≡ s) e refl

pub put-row :
    (d : Table) (i n : ℕ) (s : Subscription)
    → s.id ≡ i
    → i < n
    → ((j : ℕ) → (i == j) ≡ false → ltb j n ≡ ltb j d.size)
    → (j : ℕ) → row_of (record (put i s d) { size = n }) j ≡ (if i == j then some s else row_of d j)
unfolding row_of
put-row d i n s same h bounds j = elim (Bool-cases (i == j)) [
  | inl here ↦
      subst
        (λ k. row_of (record (put i s d) { size = n }) k ≡ (if i == k then some s else row_of d k))
        (==→eq i j here) put-here
  | inr other ↦ rw (other, bounds j other) refl
]
  where
    bound : ltb i n ≡ true
    bound = ground arith

    put-here : row_of (record (put i s d) { size = n }) i ≡ (if i == i then some s else row_of d i)
    put-here = rw (bound, eq→== i i refl) (ap some (set_id_eq s i same))

pub update_cell-some :
    (i : ℕ) (f : Subscription → Subscription) (d d' : Table)
    → update_cell i f d ≡ some d'
    → (i < d.size) × (put i (f (stored d i)) d ≡ d')
unfolding update_cell
update_cell-some i f d d' e = elim (Bool-cases (ltb i d.size)) [
  | inl there ↦ (
    ltb→lt i d.size there,
    some-injective _ _
        (sym (ap (λ b. if b then some (put i (f (stored d i)) d) else none) there) ∙ e),
  )
  | inr fails ↦ absurd (ground arith)
]

pub update_cell-row :
    (i : ℕ) (f : Subscription → Subscription) (d d' : Table)
    → ((r : Subscription) → r.id ≡ i → (f r).id ≡ i)
    → update_cell i f d ≡ some d'
    → (r : Subscription) × (row_of d i ≡ some r)
      × ((j : ℕ) → row_of d' j ≡ (if i == j then some (f r) else row_of d j))
update_cell-row i f d d' ids e =
    let (bound, same) = update_cell-some i f d d' e in
    (
      stored d i,
      row_of-lt d i bound,
      subst (λ t. (j : ℕ) → row_of t j ≡ (if i == j then some (f (stored d i)) else row_of d j))
          same (put-row d i d.size (f (stored d i)) (ids (stored d i) refl) bound λ j _. refl),
    )

-- An update of a row that is there succeeds.
pub update_cell-lt :
    (i : ℕ) (f : Subscription → Subscription) (d : Table)
    → i < d.size
    → update_cell i f d ≡ some (put i (f (stored d i)) d)
unfolding update_cell
update_cell-lt i f d below = rw (lt→ltb i d.size below) refl

pub add_row-eq :
    (f : ℕ → Subscription) (i : ℕ) (d d' : Table)
    → add_row f d ≡ some (i, d')
    → (d.size ≡ i) × (record (put d.size (f d.size) d) { size = d.size + 1 } ≡ d')
unfolding add_row
add_row-eq f i d d' e = let pair = some-injective _ _ e in (ap (λ x. x.0) pair, ap (λ x. x.1) pair)

pub row_of-size : (d : Table) → row_of d d.size ≡ none
unfolding row_of
row_of-size d = ground arith

pub add_row-row :
    (f : ℕ → Subscription) (i : ℕ) (d d' : Table)
    → ((j : ℕ) → (f j).id ≡ j)
    → add_row f d ≡ some (i, d')
    → (row_of d i ≡ none) × ((j : ℕ) → row_of d' j ≡ (if i == j then some (f i) else row_of d j))
add_row-row f i d d' ids e =
    let (at, same) = add_row-eq f i d d' e in
    subst
      (λ k.
        (row_of d k ≡ none) × ((j : ℕ) → row_of d' j ≡ (if k == j then some (f k) else row_of d j)))
      at
      (
        row_of-size d,
        subst (λ t. (j : ℕ) → row_of t j ≡ (if d.size == j then some (f d.size) else row_of d j))
            same
            (put-row d d.size (d.size + 1) (f d.size) (ids d.size) (omega arith)
              λ j other. ground (arith, other)),
      )
