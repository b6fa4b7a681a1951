-- ===== src/Payments/Adapters/Commands.antt =====
-- application/use-cases/command: paypal-subscription-create and stripe-subscription-create, which
-- the adapters run to record a subscription that is not paid yet.
use somegram_backend.Prelude.{ℕ, true, none, some}
use somegram_backend.Effects.{◌>>=◌, ◌>>◌, pure, attempt}
use somegram_backend.Outcome.{AppNotificationResult, succeed, fail}
use somegram_backend.Payments.Types.{PaymentSystem, SubscriptionType, pending, UserInfo}
use somegram_backend.Payments.SubscriptionEntity.{SubscriptionInputDto}
use somegram_backend.Payments.SubscriptionEntity
use somegram_backend.Payments.World.{Env, Service, new_date}
use somegram_backend.Payments.Repository.{create_sub}

unfoldable pub generate_paypal_data : UserInfo → ℕ → SubscriptionType → ℕ → SubscriptionInputDto
generate_paypal_data user sub_id type now = record {
  user_id = user.user_id;
  username = user.user_name;
  auto_renewal = true;
  status = pending;
  payment_system = PaymentSystem.paypal;
  payment_system_sub_id = some sub_id;
  created_at = now;
  subscription_type = type;
}

unfoldable pub generate_stripe_data : UserInfo → SubscriptionType → ℕ → SubscriptionInputDto
generate_stripe_data user type now = record {
  user_id = user.user_id;
  username = user.user_name;
  auto_renewal = true;
  status = pending;
  payment_system = PaymentSystem.stripe;
  payment_system_sub_id = none;
  created_at = now;
  subscription_type = type;
}

module _ (E : Env) where
  unfoldable pub paypal_subscription_create :
      UserInfo → ℕ → SubscriptionType → Service E (AppNotificationResult (Unit {0}) (Unit {0}))
  paypal_subscription_create user sub_id type =
      attempt
        (do
          now ← new_date
          create_sub E (SubscriptionEntity.create (generate_paypal_data user sub_id type now))
          pure (succeed none))
        fail

  unfoldable pub stripe_subscription_create :
      UserInfo → SubscriptionType → Service E (AppNotificationResult ℕ (Unit {0}))
  stripe_subscription_create user type =
      attempt
        (do
          now ← new_date
          new_sub_id ← create_sub E (SubscriptionEntity.create (generate_stripe_data user type now))
          pure (succeed (some new_sub_id)))
        fail
