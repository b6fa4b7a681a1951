-- ===== src/Payments/Handlers/Stripe.antt =====
-- application/handlers/stripe/*.ts, common/adapters/stripe-event.adaper.ts and the use case
-- stripe-webhook. Amounts of an invoice are whole numbers of the smallest unit and not negative.
use somegram_backend.Prelude.{ℕ, ◌*◌, false, List, [], ◌∷◌, Option, none, some, ltb}
use somegram_backend.Effects.{◌>>=◌, ◌>>◌, pure, attempt, branch}
use somegram_backend.Outcome.{succeed, fail}
use somegram_backend.Payments.Types.{
  PaymentSystem, SubscriptionType, monthly, day, weekly, active, canceled, TransactionStatuses,
  payment_succeeded, payment_failed, is_canceled, Interval, day_interval, week_interval,
  month_interval, year_interval, send_subscription_info,
}
use somegram_backend.Payments.SubscriptionEntity.{Subscription}
use somegram_backend.Payments.TransactionEntity
use somegram_backend.Payments.TransactionEntity.{TransactionInputDto}
use somegram_backend.Payments.World.{Env, Service, emit, new_date, required}
use somegram_backend.Payments.Repository.{
  get_subscription_by_id, get_subscription_by_payment_system_sub_id, update_sub,
  update_subscription, save_transaction,
}
use somegram_backend.Payments.Service.{
  handle_active_subscription, send_notification_after_success_payment, info,
}
use somegram_backend.Payments.Answers.{Answer, found}

-- The first line of an invoice; periods are in seconds.
pub record InvoiceLine : Type 0 where
  pub amount : ℕ
  pub period_start : ℕ
  pub period_end : ℕ
  pub interval : Interval

pub record Invoice : Type 0 where
  pub sub_id : ℕ
  pub period_start : ℕ
  pub period_end : ℕ
  pub lines : List InvoiceLine

pub record CheckoutSession : Type 0 where
  pub client_reference_id : ℕ
  pub subscription : Option ℕ
  pub customer : Option ℕ

-- `unhandled` stands for an event that has no handler.
pub data StripeEvent : Type 0 where
  invoice_payment_succeeded invoice_payment_failed : Invoice → StripeEvent
  subscription_deleted : ℕ → StripeEvent
  session_completed : CheckoutSession → StripeEvent
  unhandled : StripeEvent

-- `SUBSCRIPTION_TYPE[interval]`
unfoldable pub subscription_type_of : Interval → Option SubscriptionType
subscription_type_of day_interval = some day
subscription_type_of week_interval = some weekly
subscription_type_of month_interval = some monthly
subscription_type_of year_interval = none

unfoldable pub generate_data_transaction :
    TransactionStatuses
    → ℕ
    → ℕ
    → Option SubscriptionType
    → Option ℕ
    → Option ℕ
    → TransactionInputDto
generate_data_transaction status price sub_id type date_of_payment end_date = record {
  price = price;
  system = PaymentSystem.stripe;
  subscription_type = type;
  status = status;
  sub_id = sub_id;
  date_of_payment = date_of_payment;
  end_date_of_subscription = end_date;
}

-- `data[0]`
abbrev pub first_line : List InvoiceLine → Option InvoiceLine
first_line [] = none
first_line (l ∷ rest) = some l

-- A subscription with the dates of a paid period.
unfoldable pub with_period : Subscription → ℕ → ℕ → Subscription
with_period s start end = record s {
  date_of_payment = some (start * 1000);
  end_date_of_subscription = some (end * 1000);
}

-- The transaction of a line. The price is `amount / 100` for a payment that succeeded and
-- `amount` for one that failed, each in hundredths.
unfoldable pub line_transaction :
    TransactionStatuses → ℕ → Subscription → InvoiceLine → TransactionInputDto
line_transaction status price s line =
    generate_data_transaction status price s.id (subscription_type_of line.interval)
      s.date_of_payment s.end_date_of_subscription

module _ (E : Env) where
  unfoldable pub record_paid : Subscription → InvoiceLine → Service E (Unit {0})
  record_paid s line =
      branch (ltb 0 line.amount)
        (do
          save_transaction E
              (TransactionEntity.create (line_transaction payment_succeeded line.amount s line))
          pure tt)
        (pure tt)

  -- `new Date(end)` is the date of the subscription that was written just before.
  unfoldable pub settle_paid : Invoice → Subscription → Service E Answer
  settle_paid invoice found_row = do
    line ← required (first_line invoice.lines)
    let s = with_period found_row line.period_start line.period_end
    update_sub E s
    emit (send_subscription_info (info s))
    send_notification_after_success_payment E s.user_id (line.period_end * 1000)
    record_paid s line
    pure (succeed none)

  unfoldable pub settle_failed : Invoice → Subscription → Service E Answer
  settle_failed invoice found_row = do
    let s = with_period found_row invoice.period_start invoice.period_end
    update_sub E s
    line ← required (first_line invoice.lines)
    save_transaction E
        (TransactionEntity.create (line_transaction payment_failed (line.amount * 100) s line))
    emit (send_subscription_info (info s))
    pure (succeed none)

  unfoldable pub invoice_payment_succeeded_handle : Invoice → Service E Answer
  invoice_payment_succeeded_handle invoice =
      attempt (do s ← get_subscription_by_id E invoice.sub_id; found E (settle_paid invoice) s) fail

  unfoldable pub invoice_payment_failed_handle : Invoice → Service E Answer
  invoice_payment_failed_handle invoice =
      attempt (do s ← get_subscription_by_id E invoice.sub_id; found E (settle_failed invoice) s)
        fail

  unfoldable pub complete_session : CheckoutSession → Subscription → Service E Answer
  complete_session session s = do
    handle_active_subscription E s.user_id s.id
    update_subscription E (record s {
      status = active;
      payment_system_sub_id = session.subscription;
      payment_system_customer_id = session.customer;
    })
    pure (succeed none)

  unfoldable pub session_completed_handle : CheckoutSession → Service E Answer
  session_completed_handle session =
      attempt
        (do
          s ← get_subscription_by_id E session.client_reference_id
          found E (complete_session session) s)
        fail

  -- A subscription that is not found, or is cancelled already, is left alone.
  unfoldable pub delete_found : Option Subscription → Service E Answer
  delete_found none = pure (succeed none)
  delete_found (some s) = branch (is_canceled s.status) (pure (succeed none)) (do
    now ← new_date
    update_sub E (record s { updated_at = some now; status = canceled; auto_renewal = false })
    emit (send_subscription_info (info s))
    pure (succeed none))

  unfoldable pub subscription_deleted_handle : ℕ → Service E Answer
  subscription_deleted_handle id =
      attempt (do s ← get_subscription_by_payment_system_sub_id E id; delete_found s) fail

  -- What a handler answers is dropped.
  unfoldable pub handle_event : StripeEvent → Service E (Option Answer)
  handle_event (invoice_payment_succeeded invoice) = do
    invoice_payment_succeeded_handle invoice
    pure none
  handle_event (invoice_payment_failed invoice) = do
    invoice_payment_failed_handle invoice
    pure none
  handle_event (subscription_deleted id) = do subscription_deleted_handle id; pure none
  handle_event (session_completed session) = do session_completed_handle session; pure none
  handle_event unhandled = pure (some (succeed none))

  -- From the `try` on: the gateway sends the raw body of every request. `none` is a body whose
  -- signature Stripe's library refuses, by throwing.
  unfoldable pub stripe_webhook : Option StripeEvent → Service E Answer
  stripe_webhook body =
      attempt (do event ← required body; handle_event event; pure (succeed none)) fail
