-- ===== src/Payments/Tests/Recorded.antt =====
-- The handlers and the commands that answer success on a table with one subscription.
use somegram_backend.Prelude.{◌≡◌, ◌+◌, ◌*◌, ◌≤◌, refl, true, false, [], ◌∷◌, some, none, arith}
use somegram_backend.Effects.{ok, ◌>>=◌, pure, attempt, branch}
use somegram_backend.Outcome.{succeed, fail}
use somegram_backend.Calendar.{ms_per_day}
use somegram_backend.Payments.Types.{
  PaymentSystem, monthly, active, pending, canceled, month_interval,
}
use somegram_backend.Payments.SubscriptionEntity.{Subscription}
use somegram_backend.Payments.SubscriptionEntity
use somegram_backend.Payments.World.{World, query, write, change, call, emit, new_date, required}
use somegram_backend.Payments.Repository.{has_id}
use somegram_backend.Payments.Repository
use somegram_backend.Payments.Answers.{found}
use somegram_backend.Payments.Service.{handle_date_end}
use somegram_backend.Payments.Service
use somegram_backend.Payments.Adapters.PayPal
use somegram_backend.Payments.Adapters.Stripe
use somegram_backend.Payments.Adapters.Manager
use somegram_backend.Payments.Handlers.PayPal.{
  PaymentSale, payment_succeeded_handle, subscription_suspended_handle, subscription_cancel_handle,
}
use somegram_backend.Payments.Handlers.PayPal as PayPalHandlers
use somegram_backend.Payments.Handlers.Stripe.{
  Invoice, CheckoutSession, subscription_deleted, invoice_payment_failed_handle,
  session_completed_handle, stripe_webhook, StripeEvent,
}
use somegram_backend.Payments.Handlers.Stripe as StripeHandlers
use somegram_backend.Payments.Commands.{disable_auto_renewal, enable_auto_renewal}
use somegram_backend.Payments.Commands
use somegram_backend.Payments.Database.Table.{env, search, update_cell, add_payment}
use somegram_backend.Payments.Database.Table.Laws.{laws}
use somegram_backend.Payments.Records.Period.{period_days, handle_date_end_lem}
use somegram_backend.Payments.Records.Sales.{IsOfSale}
use somegram_backend.Payments.Records.Renewal.{Renewed, payment_succeeded_handle-Renewed}
use somegram_backend.Payments.Records.Changes.{
  IsKnown, IsSuspended, IsCancelled, subscription_suspended_handle-IsSuspended,
  subscription_cancel_handle-IsCancelled,
}
use somegram_backend.Payments.Records.Invoices.{Unpaid, invoice_payment_failed_handle-Unpaid}
use somegram_backend.Payments.Records.Sessions.{Completed, session_completed_handle-Completed}
use somegram_backend.Payments.Records.Replies.{stripe_webhook_replies}
use somegram_backend.Payments.Records.Switches.{
  IsCurrentOf, IsSwitched, disable_auto_renewal-IsSwitched, enable_auto_renewal-IsSwitched,
}
use somegram_backend.Payments.Tests.{subscription, world_of, single-IsAtMostOne}

abbrev paypal_active : World env
paypal_active = world_of (subscription PaymentSystem.paypal active true)

abbrev sale : PaymentSale
sale = record {
  billing_agreement_id = 90;
  custom = 3;
  total = 10_000;
  create_time = 1_699_999_000_000;
}

sale_succeeds : (payment_succeeded_handle env sale paypal_active).0 ≡ ok (succeed none)
unfolding ◌>>=◌ pure attempt branch query write change call emit new_date required found search
    update_cell add_payment Repository.get_subscription_by_payment_system_sub_id
    Repository.get_active_subscription_by_user_id Repository.update_sub Repository.save_transaction
    Service.handle_date_end Service.handle_active_subscription Service.replace_active
    Service.send_notification_after_success_payment PayPal.login PayPal.token_or_login
    PayPal.get_plans PayPal.get_subscription_details PayPalHandlers.handle_plan PayPalHandlers.renew
    PayPalHandlers.with_details PayPalHandlers.payment payment_succeeded_handle
    SubscriptionEntity.update
sale_succeeds = refl

payment_succeeded_handle-Renewed_example :
    (s : Subscription) × IsOfSale laws sale s paypal_active.db
    × Renewed laws
        (env.clock 0)
        sale
        s
        paypal_active.db
        (payment_succeeded_handle env sale paypal_active).1
payment_succeeded_handle-Renewed_example =
    payment_succeeded_handle-Renewed laws sale paypal_active sale_succeeds

-- PayPal suspends a subscription that was cancelled.
abbrev paypal_canceled : World env
paypal_canceled = world_of (subscription PaymentSystem.paypal canceled false)

suspension_succeeds : (subscription_suspended_handle env 90 paypal_canceled).0 ≡ ok (succeed none)
unfolding ◌>>=◌ pure attempt branch query write change call emit new_date required found search
    update_cell add_payment Repository.get_subscription_by_payment_system_sub_id
    Repository.update_sub PayPalHandlers.suspend_found subscription_suspended_handle
    SubscriptionEntity.suspend_subscription
suspension_succeeds = refl

subscription_suspended_handle-IsSuspended_example :
    (s : Subscription) × IsKnown laws 90 s paypal_canceled.db
    × IsSuspended laws s (subscription_suspended_handle env 90 paypal_canceled).1
subscription_suspended_handle-IsSuspended_example =
    subscription_suspended_handle-IsSuspended laws 90 paypal_canceled suspension_succeeds

cancellation_succeeds : (subscription_cancel_handle env 90 paypal_active).0 ≡ ok (succeed none)
unfolding ◌>>=◌ pure attempt branch query write change call emit new_date required found search
    update_cell add_payment Repository.get_subscription_by_payment_system_sub_id
    Repository.update_sub PayPalHandlers.cancel_found subscription_cancel_handle
    SubscriptionEntity.cancel_subscription
cancellation_succeeds = refl

subscription_cancel_handle-IsCancelled_example :
    (s : Subscription) × IsKnown laws 90 s paypal_active.db
    × IsCancelled laws paypal_active s (subscription_cancel_handle env 90 paypal_active).1
subscription_cancel_handle-IsCancelled_example =
    subscription_cancel_handle-IsCancelled laws 90 paypal_active cancellation_succeeds

abbrev stripe_pending : World env
stripe_pending = world_of (subscription PaymentSystem.stripe pending true)

abbrev session : CheckoutSession
session = record { client_reference_id = 0; subscription = some 91; customer = some 55 }

session_succeeds : (session_completed_handle env session stripe_pending).0 ≡ ok (succeed none)
unfolding ◌>>=◌ pure attempt branch query write change call emit new_date required found search
    update_cell add_payment Repository.get_subscription_by_id
    Repository.get_active_subscription_by_user_id Repository.update_subscription
    Repository.merge_columns Service.handle_active_subscription Service.replace_active
    StripeHandlers.complete_session session_completed_handle
session_succeeds = refl

session_completed_handle-Completed_example :
    (s : Subscription) × (laws.row stripe_pending.db s.id ≡ some s)
    × (has_id 0 s ≡ true)
    × Completed laws session s (session_completed_handle env session stripe_pending).1
session_completed_handle-Completed_example =
    session_completed_handle-Completed laws session stripe_pending
      (single-IsAtMostOne stripe_pending.db (omega arith)) session_succeeds

abbrev invoice : Invoice
invoice = record {
  sub_id = 0;
  period_start = 1_699_000_000;
  period_end = 1_699_000_000;
  lines =
      record {
        amount = 10_000;
        period_start = 1_700_000_000;
        period_end = 1_702_592_000;
        interval = month_interval;
      }
      ∷ [];
}

unpaid_succeeds : (invoice_payment_failed_handle env invoice stripe_pending).0 ≡ ok (succeed none)
unfolding ◌>>=◌ pure attempt branch query write change call emit new_date required found search
    update_cell add_payment Repository.get_subscription_by_id Repository.update_sub
    Repository.save_transaction StripeHandlers.settle_failed StripeHandlers.with_period
    invoice_payment_failed_handle
unpaid_succeeds = refl

invoice_payment_failed_handle-Unpaid_example :
    (s : Subscription) × (laws.row stripe_pending.db s.id ≡ some s)
    × (has_id 0 s ≡ true)
    × Unpaid laws invoice s stripe_pending
        (invoice_payment_failed_handle env invoice stripe_pending).1
invoice_payment_failed_handle-Unpaid_example =
    invoice_payment_failed_handle-Unpaid laws invoice stripe_pending unpaid_succeeds

switch_off_succeeds : (disable_auto_renewal env 3 paypal_active).0 ≡ ok (succeed none)
unfolding ◌>>=◌ pure attempt branch query write change call emit new_date required found search
    update_cell add_payment Repository.get_active_subscription_by_user_id Repository.update_sub
    PayPal.login PayPal.manage PayPal.disable_auto_renewal Manager.disable_auto_renewal
    Commands.disabled_row Commands.switch_row Commands.disable_found disable_auto_renewal
    SubscriptionEntity.suspend_subscription
switch_off_succeeds = refl

disable_auto_renewal-IsSwitched_example :
    (s : Subscription) × IsCurrentOf laws 3 s paypal_active
    × IsSwitched laws false paypal_active s (disable_auto_renewal env 3 paypal_active).1
disable_auto_renewal-IsSwitched_example =
    disable_auto_renewal-IsSwitched laws 3 paypal_active switch_off_succeeds

abbrev stripe_stopped : World env
stripe_stopped = world_of (subscription PaymentSystem.stripe active false)

switch_on_succeeds : (enable_auto_renewal env 3 stripe_stopped).0 ≡ ok (succeed none)
unfolding ◌>>=◌ pure attempt branch query write change call emit new_date required found search
    update_cell add_payment Repository.get_active_subscription_by_user_id Repository.update_sub
    Stripe.enable_auto_renewal Manager.enable_auto_renewal Commands.enabled_row Commands.switch_row
    Commands.enable_found enable_auto_renewal SubscriptionEntity.enable_auto_renewal
switch_on_succeeds = refl

enable_auto_renewal-IsSwitched_example :
    (s : Subscription) × IsCurrentOf laws 3 s stripe_stopped
    × IsSwitched laws true stripe_stopped s (enable_auto_renewal env 3 stripe_stopped).1
enable_auto_renewal-IsSwitched_example =
    enable_auto_renewal-IsSwitched laws 3 stripe_stopped switch_on_succeeds

stripe_webhook_replies_example :
    ((event : StripeEvent) → (stripe_webhook env (some event) stripe_pending).0 ≡ ok (succeed none))
    × (stripe_webhook env none stripe_pending ≡ (ok fail, stripe_pending))
stripe_webhook_replies_example = stripe_webhook_replies stripe_pending

handle_date_end_lem_example :
    (handle_date_end env 1_700_000_000_000 monthly paypal_active ≡ (
      ok (1_700_000_000_000 + period_days monthly 1_700_000_000_000 * ms_per_day),
      paypal_active,
    ))
    × (1 ≤ period_days monthly 1_700_000_000_000)
    × (period_days monthly 1_700_000_000_000 ≤ 31)
handle_date_end_lem_example =
    handle_date_end_lem env monthly 1_700_000_000_000 paypal_active λ e. absurd (ground arith)
