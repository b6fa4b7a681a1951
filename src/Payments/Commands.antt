-- ===== src/Payments/Commands.antt =====
-- application/use-cases/command: create-payment, enable-autorenewal, disable-autorenewal and
-- update-username-after-change.
use somegram_backend.Prelude.{ℕ, ◌*◌, String, Bool, true, false, Option, none, some, ltb}
use somegram_backend.Effects.{◌>>=◌, ◌>>◌, pure, attempt, branch}
use somegram_backend.Outcome.{AppNotificationResult, succeed, fail}
use somegram_backend.Payments.Types.{
  PaymentSystem, SubscriptionType, monthly, day, weekly, other_plan, UserInfo, PaymentData,
}
use somegram_backend.Payments.SubscriptionEntity
use somegram_backend.Payments.SubscriptionEntity.{Subscription}
use somegram_backend.Payments.World.{Env, Service, new_date}
use somegram_backend.Payments.Repository.{get_active_subscription_by_user_id, update_sub}
use somegram_backend.Payments.Adapters.Stripe.{time_value}
use somegram_backend.Payments.Adapters.Manager
use somegram_backend.Payments.Answers.{Answer, found}

-- In the smallest unit; `undefined` for a type that is none of the three.
unfoldable pub handle_price : SubscriptionType → Option ℕ
handle_price day = some (10 * 100)
handle_price weekly = some (50 * 100)
handle_price monthly = some (100 * 100)
handle_price other_plan = none

unfoldable pub generate_payment_data :
    Option ℕ → UserInfo → PaymentSystem → SubscriptionType → PaymentData
generate_payment_data price user system type = record {
  price = price;
  payment_count = 1;
  payment_system = system;
  subscription_type = type;
  user_info = user;
  customer_id = none;
  sub_id = none;
  current_sub_date_end = none;
}

module _ (E : Env) where
  -- The clock is read only where renewal is off.
  unfoldable pub is_valid_active_subscription : Option Subscription → Service E Bool
  is_valid_active_subscription none = pure false
  is_valid_active_subscription (some s) =
      branch s.auto_renewal (pure true)
        (do now ← new_date; pure (ltb now (time_value s.end_date_of_subscription)))

  -- `if (url) return success(url); return internalServerError()`
  unfoldable pub url_answer : Option String → Service E (AppNotificationResult String (Unit {0}))
  url_answer none = pure fail
  url_answer (some url) = pure (succeed (some url))

  unfoldable pub with_current : PaymentData → Option Subscription → PaymentData
  with_current payment none = payment
  with_current payment (some s) = record payment {
    customer_id = s.payment_system_customer_id;
    sub_id = s.payment_system_sub_id;
    current_sub_date_end = s.end_date_of_subscription;
  }

  unfoldable pub handle_subscription_update :
      PaymentData → Option Subscription → Service E (AppNotificationResult String (Unit {0}))
  handle_subscription_update payment s = do
    url ← Manager.update_current_sub E (with_current payment s)
    url_answer url

  unfoldable pub handle_new_subscription :
      PaymentData → Service E (AppNotificationResult String (Unit {0}))
  handle_new_subscription payment = do url ← Manager.create_auto_payment E payment; url_answer url

  unfoldable pub create_payment :
      UserInfo
      → SubscriptionType
      → PaymentSystem
      → Service E (AppNotificationResult String (Unit {0}))
  create_payment user type system =
      attempt
        (do
          let payment = generate_payment_data (handle_price type) user system type
          s ← get_active_subscription_by_user_id E user.user_id
          valid ← is_valid_active_subscription s
          branch valid (handle_subscription_update payment s) (handle_new_subscription payment))
        fail

  -- What a switch of the renewal writes; an unknown system keeps the row as it is.
  unfoldable pub disabled_row : PaymentSystem → Subscription → Service E Subscription
  disabled_row PaymentSystem.paypal s = do
    now ← new_date
    pure (SubscriptionEntity.suspend_subscription s now)
  disabled_row PaymentSystem.stripe s = do
    now ← new_date
    pure (SubscriptionEntity.disable_auto_renewal s now)
  disabled_row PaymentSystem.unknown s = pure s

  unfoldable pub enabled_row : PaymentSystem → Subscription → Service E Subscription
  enabled_row PaymentSystem.paypal s = do
    now ← new_date
    pure (SubscriptionEntity.activate_subscription s none none now)
  enabled_row PaymentSystem.stripe s = do
    now ← new_date
    pure (SubscriptionEntity.enable_auto_renewal s now)
  enabled_row PaymentSystem.unknown s = pure s

  -- `if (!result) return internalServerError()`, or the row is changed and written.
  unfoldable pub switch_row : Service E Subscription → Bool → Service E Answer
  switch_row row false = pure fail
  switch_row row true = do s ← row; update_sub E s; pure (succeed none)

  unfoldable pub disable_found : Subscription → Service E Answer
  disable_found s =
      branch s.auto_renewal
        (do
          result ← Manager.disable_auto_renewal E s.payment_system s.payment_system_sub_id
          switch_row (disabled_row s.payment_system s) result)
        (pure (succeed none))

  unfoldable pub enable_found : Subscription → Service E Answer
  enable_found s = branch s.auto_renewal (pure (succeed none)) (do
    result ← Manager.enable_auto_renewal E s.payment_system s.payment_system_sub_id
    switch_row (enabled_row s.payment_system s) result)

  unfoldable pub disable_auto_renewal : ℕ → Service E Answer
  disable_auto_renewal user =
      attempt (do s ← get_active_subscription_by_user_id E user; found E disable_found s) fail

  unfoldable pub enable_auto_renewal : ℕ → Service E Answer
  enable_auto_renewal user =
      attempt (do s ← get_active_subscription_by_user_id E user; found E enable_found s) fail

  unfoldable pub rename_found : String → Subscription → Service E Answer
  rename_found name s = do update_sub E (record s { username = name }); pure (succeed none)

  unfoldable pub update_username : ℕ → String → Service E Answer
  update_username user name =
      attempt (do s ← get_active_subscription_by_user_id E user; found E (rename_found name) s) fail
