-- ===== src/Payments/OneCurrent/Creation.antt =====
-- `createPayment` on tables with at most one current subscription for each user.
use somegram_backend.Prelude.{ℕ, ◌≡◌, refl, sym, ap, subst, some, ◌==◌, if◌then◌else◌}
use somegram_backend.Payments.Types.{PaymentSystem, SubscriptionType, pending, is_current, UserInfo}
use somegram_backend.Payments.SubscriptionEntity.{Subscription}
use somegram_backend.Payments.World.{Env}
use somegram_backend.Payments.Commands.{create_payment}
use somegram_backend.Payments.Creation.{create_payment-Stays}
use somegram_backend.Payments.Database.{DbLaws}
use somegram_backend.Payments.OneCurrent.{IsAtMostOne, idle-Fits, written-IsAtMostOne}
use somegram_backend.Payments.OneCurrent.Steps.{Keeps}

module _ {E : Env} (L : DbLaws E) where
  created-IsAtMostOne :
      (f : ℕ → Subscription) (i : ℕ) (d d' : E.Db)
      → ((j : ℕ) → (f j).id ≡ j)
      → (f i).status ≡ pending
      → E.create_subscription f d ≡ some (i, d')
      → IsAtMostOne L d
      → IsAtMostOne L d'
  created-IsAtMostOne f i d d' ids waits e one =
      let (fresh, rows) = L.create_row f i d d' ids e in
      written-IsAtMostOne L (f i) d d'
        (λ j.
          subst (λ k. L.row d' j ≡ (if k == j then some (f i) else L.row d j)) (sym (ids i))
            (rows j))
        one (idle-Fits L (f i) d (ap is_current waits))

  pub create_payment-Keeps :
      (user : UserInfo) (type : SubscriptionType) (system : PaymentSystem)
      → Keeps L (create_payment E user type system)
  create_payment-Keeps user type system =
      create_payment-Stays L (IsAtMostOne L) user.user_id
        (λ f i d d' ids waits own e one. created-IsAtMostOne f i d d' ids waits e one) user type
        system refl
