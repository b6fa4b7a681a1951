-- ===== src/Payments/Service.antt =====
-- payments/application/payments.service.ts and common/utils/convert-date.util.ts.
use somegram_backend.Prelude.{
  ℕ, ◌+◌, ◌-◌, ◌/◌, ◌%◌, Bool, ◌&&◌, List, [], ◌∷◌, ◌++◌, Option, none, some, ◌==◌, ltb,
  if◌then◌else◌,
}
use somegram_backend.Effects.{◌>>=◌, ◌>>◌, pure, attempt, branch}
use somegram_backend.Calendar
use somegram_backend.Payments.Types.{
  PaymentSystem, SubscriptionType, monthly, day, weekly, other_plan, is_suspended, SubscriptionInfo,
  CreateNotificationInputDto, Text, expires_after_7_days, payment_after_1_day, expires_after_1_day,
  activated_until, send_subscriptions_info, create_notifications, create_notification_with_delay,
}
use somegram_backend.Payments.SubscriptionEntity
use somegram_backend.Payments.SubscriptionEntity.{Subscription, ActiveSubscriptionDate}
use somegram_backend.Payments.World.{Env, Service, emit, new_date}
use somegram_backend.Payments.Repository.{
  get_active_subscriptions, get_active_subscriptions_by_date, get_active_subscription_by_user_id,
  update_sub, update_many_sub,
}
use somegram_backend.Payments.Adapters.Stripe.{time_value}
use somegram_backend.Payments.Adapters.Manager

-- Eight hours back.
unfoldable pub get_pst_date : ℕ → ℕ
get_pst_date date = date - 28_800_000

-- `getHours()`
unfoldable pub hours : ℕ → ℕ
hours t = t / 3_600_000 % 24

unfoldable pub should_cancel_paypal_subscription : Subscription → ℕ → Bool
should_cancel_paypal_subscription s date =
    ltb (time_value s.end_date_of_subscription) date && ltb 6 (hours (get_pst_date date))

-- The whole days from the midnight before `date` to the midnight before the end, 0 where the code
-- computes a negative number of them.
unfoldable pub diff_in_days : Subscription → ℕ → ℕ
diff_in_days s date = Calendar.day (time_value s.end_date_of_subscription) - Calendar.day date

unfoldable pub note : Subscription → Text → CreateNotificationInputDto
note s text = record { user_id = s.user_id; message = text }

-- What one round of the loop pushes.
unfoldable pub notices : ℕ → Subscription → List CreateNotificationInputDto
notices date s =
    (if diff_in_days s date == 7 then note s expires_after_7_days ∷ [] else [])
    ++ (if diff_in_days s date == 1
        then (if s.auto_renewal then note s payment_after_1_day ∷ [] else [])
          ++ note s expires_after_1_day ∷ []
        else [])

unfoldable pub all_notices : ℕ → List Subscription → List CreateNotificationInputDto
all_notices date [] = []
all_notices date (s ∷ l) = notices date s ++ all_notices date l

unfoldable pub convert_to_dd_mm_yy : ℕ → Text
convert_to_dd_mm_yy t =
    activated_until (Calendar.date t) (Calendar.month t + 1) (Calendar.year t + 1970)

-- What the loop of `disableSubscription` has gathered.
pub record Sweep : Type 0 where
  pub suspended_ids : List (Option ℕ)
  pub gateway_data : List SubscriptionInfo
  pub subscriptions : List Subscription

abbrev pub info : Subscription → SubscriptionInfo
info s = record { user_id = s.user_id; end_date_of_subscription = s.end_date_of_subscription }

abbrev pub keep : Subscription → Sweep → Sweep
keep s r = record r { subscriptions = s ∷ r.subscriptions }

abbrev pub drop_sub : Subscription → ℕ → Sweep → Sweep
drop_sub s now r = record r {
  gateway_data = info s ∷ r.gateway_data;
  subscriptions = SubscriptionEntity.cancel_subscription s now ∷ r.subscriptions;
}

abbrev pub drop_paypal : Subscription → ℕ → Sweep → Sweep
drop_paypal s now r =
    let dropped = drop_sub s now r in
    if is_suspended s.status
    then record dropped { suspended_ids = s.payment_system_sub_id ∷ r.suspended_ids }
    else dropped

module _ (E : Env) where
  unfoldable pub handle_date_end : ℕ → SubscriptionType → Service E ℕ
  handle_date_end payment_date day =
      pure (Calendar.set_date payment_date (Calendar.date payment_date + 1))
  handle_date_end payment_date weekly =
      pure (Calendar.set_date payment_date (Calendar.date payment_date + 7))
  handle_date_end payment_date monthly =
      pure (Calendar.set_month payment_date (Calendar.month payment_date + 1))
  handle_date_end payment_date other_plan = new_date

  -- One round of the loop, on the way back from the rounds after it.
  unfoldable pub sweep_one : ℕ → Subscription → PaymentSystem → Service E (Sweep → Sweep)
  sweep_one date s PaymentSystem.paypal =
      branch (should_cancel_paypal_subscription s date)
        (do now ← new_date; pure (drop_paypal s now)) (pure (keep s))
  sweep_one date s _ = do now ← new_date; pure (drop_sub s now)

  unfoldable pub sweep : ℕ → List Subscription → Service E Sweep
  sweep date [] = pure (record { suspended_ids = []; gateway_data = []; subscriptions = [] })
  sweep date (s ∷ l) = do f ← sweep_one date s s.payment_system; r ← sweep date l; pure (f r)

  unfoldable pub cancel_suspended : List (Option ℕ) → Service E (Unit {0})
  cancel_suspended [] = pure tt
  cancel_suspended (id ∷ ids) = do
    Manager.cancel_many_subscriptions E PaymentSystem.paypal (id ∷ ids)
    pure tt

  unfoldable pub send_infos : List SubscriptionInfo → Service E (Unit {0})
  send_infos [] = pure tt
  send_infos (i ∷ l) = emit (send_subscriptions_info (i ∷ l))

  unfoldable pub disable_all : ℕ → Option (List Subscription) → Service E (Unit {0})
  disable_all date none = pure tt
  disable_all date (some l) = do
    r ← sweep date l
    cancel_suspended r.suspended_ids
    update_many_sub E r.subscriptions
    send_infos r.gateway_data

  unfoldable pub disable_subscription : Service E (Unit {0})
  disable_subscription =
      attempt (do date ← new_date; l ← get_active_subscriptions_by_date E date; disable_all date l)
        tt

  unfoldable pub send_notices : List CreateNotificationInputDto → Service E (Unit {0})
  send_notices [] = pure tt
  send_notices (n ∷ l) = emit (create_notifications (n ∷ l))

  unfoldable pub notify_all : ℕ → Option (List Subscription) → Service E (Unit {0})
  notify_all date none = pure tt
  notify_all date (some l) = send_notices (all_notices date l)

  unfoldable pub check_and_notify_subscription_end : Service E (Unit {0})
  check_and_notify_subscription_end =
      attempt (do date ← new_date; l ← get_active_subscriptions E; notify_all date l) tt

  -- The other subscription of the user is cancelled at its provider and then in the database; what
  -- the manager answers is not looked at.
  unfoldable pub replace_active :
      Option Subscription → ℕ → Service E (Option ActiveSubscriptionDate)
  replace_active none processed_sub_id = pure none
  replace_active (some s) processed_sub_id = branch (s.id == processed_sub_id) (pure none) (do
    Manager.cancel_subscription E s.payment_system s.payment_system_sub_id
    now ← new_date
    update_sub E (SubscriptionEntity.cancel_subscription s now)
    pure (
        some (record {
          date_of_payment = s.date_of_payment;
          date_end_subscription = s.end_date_of_subscription;
        })))

  unfoldable pub handle_active_subscription : ℕ → ℕ → Service E (Option ActiveSubscriptionDate)
  handle_active_subscription user processed_sub_id = do
    s ← get_active_subscription_by_user_id E user
    replace_active s processed_sub_id

  unfoldable pub send_notification_after_success_payment : ℕ → ℕ → Service E (Unit {0})
  send_notification_after_success_payment user date = emit (
      create_notification_with_delay
        (record { user_id = user; message = convert_to_dd_mm_yy date }))
