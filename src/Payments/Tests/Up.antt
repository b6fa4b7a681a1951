-- ===== src/Payments/Tests/Up.antt =====
-- The services of the table in memory, which are up.
use somegram_backend.Prelude.{◌≡◌, ℕ, refl, true, Option, some, none}
use somegram_backend.Effects.{ok}
use somegram_backend.Outcome.{succeed}
use somegram_backend.Payments.Types.{PaymentSystem, active, pending}
use somegram_backend.Payments.World.{World}
use somegram_backend.Payments.Handlers.PayPal.{
  PaymentSale, payment_succeeded_handle, payment_failed_handle,
}
use somegram_backend.Payments.Handlers.Stripe.{CheckoutSession, session_completed_handle}
use somegram_backend.Payments.SubscriptionEntity.{Subscription}
use somegram_backend.Payments.Database.Table.{Table, env, row_of, add_payment}
use somegram_backend.Payments.Database.Table.Laws.{laws, laws-row-lt, laws-row-eq}
use somegram_backend.Payments.Database.Table.Updates.{update_cell-lt}
use somegram_backend.Payments.Live.{AllUp, Cancels}
use somegram_backend.Payments.Live.Sessions.{session_completed_handle-Succeeds}
use somegram_backend.Payments.Live.Sales.{IsSold, sale_handles-Succeeds}
use somegram_backend.Payments.Tests.{subscription, world_of}

-- An update of a row that is there answers.
update_env :
    (i : ℕ) (f : Subscription → Subscription) (d : Table) (r : Subscription)
    → laws.row d i ≡ some r
    → (d' : Table) × (env.update i f d ≡ some d')
update_env i f d r here = let below = (laws-row-lt d i r here).0 in (_, update_cell-lt i f d below)

up : AllUp laws
unfolding add_payment
up = record {
  find_first_up = λ p d. (_, refl);
  update_up = update_env;
  transaction_up = λ t d here whole. (_, _, refl);
  token_up = λ r. (_, _, refl);
}

-- The providers of the table in memory cancel what they are asked to.
cancels : (d : Table) → Cancels laws d
cancels d i s here current paypal token r = (_, _, refl)

sold : (id : Option ℕ) → IsSold env id
sold id = record {
  plan_id = 1;
  details_up = λ token r. (_, refl);
  plans_up = λ token r. (_, _, _, refl, refl);
}

abbrev waiting : World env
waiting = world_of (subscription PaymentSystem.stripe pending true)

abbrev session : CheckoutSession
session = record { client_reference_id = 0; subscription = some 91; customer = some 55 }

session_completed_handle-Succeeds_example :
    (session_completed_handle env session waiting).0 ≡ ok (succeed none)
unfolding row_of
session_completed_handle-Succeeds_example =
    session_completed_handle-Succeeds laws up session waiting
      (subscription PaymentSystem.stripe pending true) (laws-row-eq waiting.db 0)
      (cancels waiting.db)

abbrev subscribed : World env
subscribed = world_of (subscription PaymentSystem.paypal active true)

abbrev sale : PaymentSale
sale = record {
  billing_agreement_id = 90;
  custom = 3;
  total = 10_000;
  create_time = 1_699_999_000_000;
}

sale_handles-Succeeds_example :
    ((payment_succeeded_handle env sale subscribed).0 ≡ ok (succeed none))
    × ((payment_failed_handle env sale subscribed).0 ≡ ok (succeed none))
unfolding row_of
sale_handles-Succeeds_example =
    sale_handles-Succeeds laws up sale subscribed (subscription PaymentSystem.paypal active true) 0
      (laws-row-eq subscribed.db 0) refl (sold (some 90)) (100, refl) (cancels subscribed.db)
