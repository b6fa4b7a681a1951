-- ===== src/Payments/Handlers/PayPal.antt =====
-- application/handlers/paypal/*.ts and common/adapters/paypal-event.adapter.ts. An event is read
-- as far as the handlers read it; a signature that the guard refuses never comes here.
use somegram_backend.Prelude.{ℕ, Bool, not, ◌&&◌, Option, none, some, find, ◌==◌}
use somegram_backend.Effects.{◌>>=◌, ◌>>◌, pure, attempt, branch}
use somegram_backend.Outcome.{succeed, fail}
use somegram_backend.Payments.Types.{
  PaymentSystem, SubscriptionType, SubscriptionStatuses, active, canceled, TransactionStatuses,
  payment_succeeded, payment_failed, is_canceled, is_suspended, is_pending, PayPalPlan,
  send_subscription_info,
}
use somegram_backend.Payments.SubscriptionEntity
use somegram_backend.Payments.SubscriptionEntity.{
  Subscription, SubscriptionUpdateDto, ActiveSubscriptionDate,
}
use somegram_backend.Payments.TransactionEntity
use somegram_backend.Payments.TransactionEntity.{TransactionInputDto}
use somegram_backend.Payments.Answers.{Answer, found}
use somegram_backend.Payments.World.{Env, Service, emit, new_date, required}
use somegram_backend.Payments.Repository.{
  get_subscription_by_payment_system_sub_id, update_sub, save_transaction,
}
use somegram_backend.Payments.Service.{
  handle_date_end, handle_active_subscription, send_notification_after_success_payment, info,
}
use somegram_backend.Payments.Adapters.PayPal.{get_plans, get_subscription_details}

-- `WHPaymentSaleType`; `total` is the number in the text, in hundredths.
pub record PaymentSale : Type 0 where
  pub billing_agreement_id : ℕ
  pub custom : ℕ
  pub total : ℕ
  pub create_time : ℕ

-- `PayPalWebHookEventType`; `unhandled` stands for an event that has no handler.
pub data PayPalEvent : Type 0 where
  payment_completed subscription_failed : PaymentSale → PayPalEvent
  subscription_activated subscription_suspended subscription_cancelled : ℕ → PayPalEvent
  unhandled : PayPalEvent

unfoldable pub generate_data_transaction :
    TransactionStatuses → ℕ → ℕ → SubscriptionType → ℕ → Option ℕ → TransactionInputDto
generate_data_transaction status price sub_id sub_type date_of_payment end_date = record {
  price = price;
  system = PaymentSystem.paypal;
  subscription_type = some sub_type;
  status = status;
  sub_id = sub_id;
  date_of_payment = some date_of_payment;
  end_date_of_subscription = end_date;
}

-- `autoRenewal` is left out, so that the entity takes its default.
unfoldable pub generate_data_update_subscription :
    SubscriptionStatuses → ℕ → ℕ → Option ℕ → ℕ → SubscriptionUpdateDto
generate_data_update_subscription status customer_id date_of_payment end_date now = record {
  updated_at = now;
  date_of_payment = some date_of_payment;
  end_date_of_subscription = end_date;
  payment_system_customer_id = customer_id;
  status = status;
  auto_renewal = none;
}

abbrev pub is_plan : ℕ → PayPalPlan → Bool
is_plan id p = p.id == id

-- The two branches of `handlePending`.
unfoldable pub activate_with : Subscription → Option ActiveSubscriptionDate → ℕ → Subscription
activate_with s none now = SubscriptionEntity.activate_subscription s none none now
activate_with s (some d) now =
    SubscriptionEntity.activate_subscription s d.date_of_payment d.date_end_subscription now

module _ (E : Env) where
  -- `undefined` where no plan has the id, of which the callers read a field at once.
  unfoldable pub handle_plan : ℕ → Service E SubscriptionType
  handle_plan plan_id = do
    plans ← get_plans E none
    plan ← required (find (is_plan plan_id) plans)
    pure plan.name

  -- `PayPalPaymentSucceededHandler` once the subscription and its plan are found.
  unfoldable pub renew : PaymentSale → ℕ → Subscription → ℕ → Service E Answer
  renew sale current_date s plan_id = do
    handle_active_subscription E sale.custom s.id
    plan_name ← handle_plan plan_id
    date_end ← handle_date_end E current_date plan_name
    updated_at ← new_date
    update_sub E (
        SubscriptionEntity.update s (
          generate_data_update_subscription active sale.custom sale.create_time (some date_end)
            updated_at))
    save_transaction E (
        TransactionEntity.create (
          generate_data_transaction payment_succeeded sale.total s.id plan_name current_date
            (some date_end)))
    emit (
        send_subscription_info
          (record { user_id = s.user_id; end_date_of_subscription = some date_end }))
    send_notification_after_success_payment E s.user_id date_end
    pure (succeed none)

  -- `PayPalPaymentFailedHandler` once the subscription and its plan are found.
  unfoldable pub close_unpaid : PaymentSale → ℕ → Subscription → ℕ → Service E Answer
  close_unpaid sale current_date s plan_id = do
    updated_at ← new_date
    plan_name ← handle_plan plan_id
    let updated = SubscriptionEntity.update s (
        generate_data_update_subscription canceled sale.custom sale.create_time
          s.end_date_of_subscription updated_at)
    update_sub E updated
    save_transaction E (
        TransactionEntity.create (
          generate_data_transaction payment_failed sale.total s.id plan_name current_date
            s.end_date_of_subscription))
    emit (send_subscription_info (info updated))
    pure (succeed none)

  -- `if (!subscriptionDetails) return internalServerError()`
  unfoldable pub with_details : (ℕ → Service E Answer) → Option ℕ → Service E Answer
  with_details next none = pure fail
  with_details next (some plan_id) = next plan_id

  -- The part that both payment handlers begin with.
  unfoldable pub payment :
      (PaymentSale → ℕ → Subscription → ℕ → Service E Answer) → PaymentSale → Service E Answer
  payment settle sale =
      attempt
        (do
          current_date ← new_date
          s ← get_subscription_by_payment_system_sub_id E sale.billing_agreement_id
          found E
              (λ sub. do
                details ← get_subscription_details E sub.payment_system_sub_id
                with_details (settle sale current_date sub) details)
              s)
        fail

  unfoldable pub payment_succeeded_handle : PaymentSale → Service E Answer
  payment_succeeded_handle sale = payment renew sale

  unfoldable pub payment_failed_handle : PaymentSale → Service E Answer
  payment_failed_handle sale = payment close_unpaid sale

  unfoldable pub handle_pending : Subscription → Service E (Unit {0})
  handle_pending s = do
    dates ← handle_active_subscription E s.user_id s.id
    now ← new_date
    update_sub E (activate_with s dates now)

  unfoldable pub handle_suspend : Subscription → Service E (Unit {0})
  handle_suspend s = do
    now ← new_date
    update_sub E (SubscriptionEntity.activate_subscription s none none now)

  unfoldable pub reactivate : Subscription → Service E Answer
  reactivate s =
      branch (is_pending s.status) (do handle_pending s; pure (succeed none))
        (branch (is_suspended s.status) (do handle_suspend s; pure (succeed none))
          (pure (succeed none)))

  unfoldable pub subscription_active_handle : ℕ → Service E Answer
  subscription_active_handle id =
      attempt (do s ← get_subscription_by_payment_system_sub_id E id; found E reactivate s) fail

  unfoldable pub suspend_found : Subscription → Service E Answer
  suspend_found s = branch (is_suspended s.status && not s.auto_renewal) (pure (succeed none)) (do
    now ← new_date
    update_sub E (SubscriptionEntity.suspend_subscription s now)
    pure (succeed none))

  unfoldable pub subscription_suspended_handle : ℕ → Service E Answer
  subscription_suspended_handle id =
      attempt (do s ← get_subscription_by_payment_system_sub_id E id; found E suspend_found s) fail

  unfoldable pub cancel_found : Subscription → Service E Answer
  cancel_found s = branch (is_canceled s.status) (pure (succeed none)) (do
    now ← new_date
    update_sub E (SubscriptionEntity.cancel_subscription s now)
    emit (send_subscription_info (info s))
    pure (succeed none))

  unfoldable pub subscription_cancel_handle : ℕ → Service E Answer
  subscription_cancel_handle id =
      attempt (do s ← get_subscription_by_payment_system_sub_id E id; found E cancel_found s) fail

  -- `if (!handler) return success(null)`, and else the handler of the type of the event
  unfoldable pub dispatch : PayPalEvent → Service E Answer
  dispatch (payment_completed sale) = payment_succeeded_handle sale
  dispatch (subscription_failed sale) = payment_failed_handle sale
  dispatch (subscription_activated id) = subscription_active_handle id
  dispatch (subscription_suspended id) = subscription_suspended_handle id
  dispatch (subscription_cancelled id) = subscription_cancel_handle id
  dispatch unhandled = pure (succeed none)

  -- `none` is a body that `Buffer.from` or `JSON.parse` refuses, by throwing; nothing catches it.
  unfoldable pub handle_event : Option PayPalEvent → Service E Answer
  handle_event body = do event ← required body; dispatch event
