-- ===== src/Payments/Records/Closing.antt =====
-- What `PayPalPaymentFailedHandler` has recorded when it answers success.
use somegram_backend.Prelude.{ℕ, ◌≡◌, true, List, ◌∷◌, some}
use somegram_backend.Payments.Types.{canceled, payment_failed, Message, send_subscription_info}
use somegram_backend.Payments.SubscriptionEntity.{Subscription}
use somegram_backend.Payments.TransactionEntity.{PaymentTransaction}
use somegram_backend.Payments.World.{Env, World}
use somegram_backend.Payments.Handlers.PayPal.{PaymentSale}
use somegram_backend.Payments.Database.{DbLaws}

module _ {E : Env} (L : DbLaws E) where
  -- After a failed sale: the row of the subscription is canceled, but with the renewal on; one
  -- failed transaction is recorded, and the gateway is told of the end of the subscription.
  pub record Closed (paid_at : ℕ) (sale : PaymentSale) (s : Subscription) (before : E.Db)
      (v : World E) : Type 0 where
    row : Subscription
    there : L.row v.db s.id ≡ some row
    is_closed : row.status ≡ canceled
    renews : row.auto_renewal ≡ true
    ends : row.end_date_of_subscription ≡ s.end_date_of_subscription
    transaction : PaymentTransaction
    recorded : L.payments v.db ≡ transaction ∷ L.payments before
    is_failed : transaction.status ≡ payment_failed
    dated : transaction.date_of_payment ≡ some paid_at
    amount : transaction.price ≡ sale.total
    of_sub : transaction.sub_id ≡ s.id
    sent : List Message
    told :
        v.outbox
        ≡ send_subscription_info
            (record { user_id = s.user_id; end_date_of_subscription = s.end_date_of_subscription })
          ∷ sent
