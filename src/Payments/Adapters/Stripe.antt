-- ===== src/Payments/Adapters/Stripe.antt =====
-- common/adapters/stripe.adapter.ts.
use somegram_backend.Prelude.{
  ℕ, ◌-◌, String, Bool, true, false, List, [], ◌∷◌, Option, none, some, leb, if◌then◌else◌,
}
use somegram_backend.Effects.{◌>>=◌, ◌>>◌, pure, attempt, branch}
use somegram_backend.Calendar
use somegram_backend.Payments.Types.{
  SubscriptionType, monthly, day, weekly, other_plan, Interval, day_interval, week_interval,
  month_interval, UserInfo, PaymentData, SessionCreateParams,
}
use somegram_backend.Payments.World.{Env, Service, call, new_date}
use somegram_backend.Payments.Adapters.Commands.{stripe_subscription_create}
use somegram_backend.Payments.Adapters.PayPal.{is_success}

unfoldable pub get_interval_by_sub_type : SubscriptionType → Option Interval
get_interval_by_sub_type monthly = some month_interval
get_interval_by_sub_type weekly = some week_interval
get_interval_by_sub_type day = some day_interval
get_interval_by_sub_type other_plan = none

-- `new Date(date)`, where `null` is the time value 0
abbrev pub time_value : Option ℕ → ℕ
time_value none = 0
time_value (some t) = t

-- The days from the midnight before `now` to the midnight before the end, 0 where the code
-- computes a negative number of them.
unfoldable pub get_trial_days : Option ℕ → ℕ → ℕ
get_trial_days current_sub_date_end now =
    Calendar.day (time_value current_sub_date_end) - Calendar.day now

unfoldable pub session_params : PaymentData → Option ℕ → ℕ → Option ℕ → SessionCreateParams
session_params payload sub_id customer trial = record {
  interval = get_interval_by_sub_type payload.subscription_type;
  interval_count = payload.payment_count;
  unit_amount = payload.price;
  quantity = payload.payment_count;
  user_id = payload.user_info.user_id;
  sub_id = sub_id;
  client_reference_id = sub_id;
  customer = customer;
  trial_period_days = trial;
}

abbrev pub trial_period : ℕ → Option ℕ
trial_period days = if leb 1 days then some days else none

module _ (E : Env) where
  unfoldable pub customer_of : UserInfo → List ℕ → Service E ℕ
  customer_of user [] = call (E.create_customer user.user_name user.email user.user_id)
  customer_of user (customer ∷ others) = pure customer

  -- The first customer with the e-mail address, or a new one.
  unfoldable pub find_customer : UserInfo → Service E ℕ
  find_customer user = do l ← call (E.list_customers user.email); customer_of user l

  unfoldable pub create_auto_payment : PaymentData → Service E (Option String)
  create_auto_payment payload =
      attempt
        (do
          customer ← find_customer payload.user_info
          result ← stripe_subscription_create E payload.user_info payload.subscription_type
          branch (is_success result.app_result)
              (call (E.create_session (session_params payload result.payload customer none)))
              (pure none))
        none

  unfoldable pub update_auto_payment : PaymentData → Service E (Option String)
  update_auto_payment payload =
      attempt
        (do
          result ← stripe_subscription_create E payload.user_info payload.subscription_type
          branch (is_success result.app_result)
              (do
                now ← new_date
                customer ← find_customer payload.user_info
                call (
                    E.create_session (
                      session_params payload result.payload customer
                        (trial_period (get_trial_days payload.current_sub_date_end now)))))
              (pure none))
        none

  unfoldable pub disable_auto_renewal : Option ℕ → Service E Bool
  disable_auto_renewal id = attempt (do call (E.set_cancel_at_period_end id true); pure true) false

  unfoldable pub enable_auto_renewal : Option ℕ → Service E Bool
  enable_auto_renewal id = attempt (do call (E.set_cancel_at_period_end id false); pure true) false

  unfoldable pub cancel_subscription : Option ℕ → Service E Bool
  cancel_subscription id = attempt (do call (E.cancel_stripe id); pure true) false
