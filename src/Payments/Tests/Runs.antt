-- ===== src/Payments/Tests/Runs.antt =====
-- Runs of requests on a table with one subscription.
use somegram_backend.Prelude.{some, true, arith}
use somegram_backend.Payments.Types.{PaymentSystem, monthly, active, pending}
use somegram_backend.Payments.World.{World}
use somegram_backend.Payments.Service.{handle_active_subscription, disable_subscription}
use somegram_backend.Payments.Handlers.PayPal.{subscription_activated}
use somegram_backend.Payments.Commands.{create_payment}
use somegram_backend.Payments.Database.Table.{env}
use somegram_backend.Payments.Database.Table.Laws.{laws}
use somegram_backend.Payments.Database.Frames.{Holds}
use somegram_backend.Payments.OneCurrent.{IsAtMostOne}
use somegram_backend.Payments.OneCurrent.Steps.{Anything}
use somegram_backend.Payments.OneCurrent.Replacing.{IsReplaced, handle_active_holds}
use somegram_backend.Payments.OneCurrent.Jobs.{IsNarrowed, disable_subscription_narrows}
use somegram_backend.Payments.OneCurrent.Runs.{
  serve, idle, serving, paypal_body, pay, stop_renewal, execute, Run-IsAtMostOne,
}
use somegram_backend.Payments.Creation.Rows.{IsAdded, create_payment-IsAdded}
use somegram_backend.Payments.Tests.{user_three, subscription, world_of, single-IsAtMostOne}

abbrev before : World env
before = world_of (subscription PaymentSystem.paypal pending true)

-- The subscription is activated, the user pays again, stops the renewal, and midnight comes.
abbrev after : World env
after = serve env execute (
    serve env (stop_renewal 3) (
      serve env (pay user_three monthly PaymentSystem.stripe)
        (serve env (paypal_body (some (subscription_activated 90))) before)))

Run-IsAtMostOne_example : IsAtMostOne laws after.db
Run-IsAtMostOne_example =
    Run-IsAtMostOne laws {v = before} {w = after}
      (serving (paypal_body (some (subscription_activated 90))) tt (
        serving (pay user_three monthly PaymentSystem.stripe) tt
          (serving (stop_renewal 3) tt (serving execute tt idle))))
      (single-IsAtMostOne before.db (omega arith))

abbrev renewed : World env
renewed = world_of (subscription PaymentSystem.stripe active true)

handle_active_holds_example :
    Holds
      (IsAtMostOne laws)
      (IsReplaced laws 3 1 renewed.db)
      (handle_active_subscription env 3 1 renewed)
handle_active_holds_example =
    handle_active_holds laws 3 1 renewed (single-IsAtMostOne renewed.db (omega arith))

disable_subscription_narrows_example :
    Holds (IsNarrowed laws renewed.db) (Anything laws) (disable_subscription env renewed)
disable_subscription_narrows_example = disable_subscription_narrows laws renewed

create_payment-IsAdded_example :
    IsAdded laws 3 renewed.db
      (create_payment env user_three monthly PaymentSystem.paypal renewed).1.db
create_payment-IsAdded_example =
    create_payment-IsAdded laws user_three monthly PaymentSystem.paypal renewed
