-- ===== src/Payments/Creation/Rows.antt =====
-- What `createPayment` may do to the table, however it ends.
use somegram_backend.Prelude.{
  ℕ, ◌≡◌, refl, sym, ap, subst, ◌∙◌, Bool, true, false, Option, none, some, arith, ==→eq, ◌⊎◌, inl,
  inr, ◌==◌, if◌then◌else◌, Bool-cases,
}
use mathlib.Core.Option.{some-injective}
use somegram_backend.Effects.Rules.{Ends-world}
use somegram_backend.Payments.Types.{PaymentSystem, SubscriptionType, pending, UserInfo}
use somegram_backend.Payments.SubscriptionEntity.{Subscription}
use somegram_backend.Payments.World.{Env, World}
use somegram_backend.Payments.Commands.{create_payment}
use somegram_backend.Payments.Creation.{create_payment-Stays}
use somegram_backend.Payments.Database.{DbLaws}
use somegram_backend.Payments.OneCurrent.Steps.{Anything}

module _ {E : Env} (L : DbLaws E) where
  -- The table `d` has the rows and the transactions of `before`; another row is pending and of the
  -- user.
  abbrev pub IsAdded : ℕ → E.Db → E.Db → Type 0
  IsAdded user before d =
      ((i : ℕ) (s : Subscription) → L.row before i ≡ some s → L.row d i ≡ some s)
      × ((i : ℕ) (s : Subscription)
          → L.row d i ≡ some s
          → (L.row before i ≡ some s) ⊎ ((s.status ≡ pending) × (s.user_id ≡ user)))
      × (L.payments d ≡ L.payments before)

  chosen_new :
      {s t : Subscription} (b : Bool) (old : Option Subscription)
      → (if b then some s else old) ≡ some t
      → (s ≡ t) ⊎ (old ≡ some t)
  chosen_new true old h = inl (some-injective _ _ h)
  chosen_new false old h = inr h

  -- A row that is there does not have the new id.
  kept_old :
      (s : Subscription) {t : Subscription} (i j : ℕ) (d : E.Db)
      → L.row d i ≡ none
      → L.row d j ≡ some t
      → (if i == j then some s else L.row d j) ≡ some t
  kept_old s i j d fresh h = elim (Bool-cases (i == j)) [
    | inl same ↦
        let gone = subst (λ k. L.row d k ≡ none) (==→eq i j same) fresh in absurd (ground arith)
    | inr other ↦ rw other h
  ]

  new-IsAdded :
      (user : ℕ) (before : E.Db) (f : ℕ → Subscription) (i : ℕ) (d d' : E.Db)
      → ((j : ℕ) → (f j).id ≡ j)
      → (f i).status ≡ pending
      → (f i).user_id ≡ user
      → E.create_subscription f d ≡ some (i, d')
      → IsAdded user before d
      → IsAdded user before d'
  new-IsAdded user before f i d d' ids waits own e (old, new, paid) =
      let (fresh, rows) = L.create_row f i d d' ids e in
      (
        λ j t h. rows j ∙ kept_old (f i) i j d fresh (old j t h),
        λ j t h. elim (chosen_new (i == j) (L.row d j) (sym (rows j) ∙ h)) [
          | inl same ↦
              inr (sym (ap (λ r. r.status) same) ∙ waits, sym (ap (λ r. r.user_id) same) ∙ own)
          | inr there ↦ new j t there
        ],
        L.create_payments f i d d' e ∙ paid,
      )

  -- However a request to pay ends, the table keeps its rows and its transactions, and a row that
  -- was not there before is pending and of the user who pays.
  pub create_payment-IsAdded :
      (user : UserInfo) (type : SubscriptionType) (system : PaymentSystem) (w : World E)
      → IsAdded user.user_id w.db (create_payment E user type system w).1.db
  create_payment-IsAdded user type system w =
      Ends-world (λ v. IsAdded user.user_id w.db v.db) (Anything L) _
        (create_payment-Stays L (IsAdded user.user_id w.db) user.user_id
          (new-IsAdded user.user_id w.db) user type system refl w
          ((λ i s h. h), (λ i s h. inl h), refl))
