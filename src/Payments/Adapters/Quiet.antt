-- ===== src/Payments/Adapters/Quiet.antt =====
-- Which calls of the adapters leave the database alone.
use somegram_backend.Prelude.{ℕ, true, false, List, [], ◌∷◌, Option, none, some}
use somegram_backend.Payments.Types.{PaymentSystem, ManageAction, suspend, activate, cancel}
use somegram_backend.Payments.World.{Env}
use somegram_backend.Payments.Database.Frames.{
  IsQuiet, >>=-IsQuiet, attempt-IsQuiet, pure-IsQuiet, call-IsQuiet,
}
use somegram_backend.Payments.Adapters.PayPal
use somegram_backend.Payments.Adapters.Stripe
use somegram_backend.Payments.Adapters.Manager

module _ (E : Env) where
  pub login-IsQuiet : IsQuiet (PayPal.login E)
  unfolding PayPal.login
  login-IsQuiet = call-IsQuiet E.fetch_token

  manage-IsQuiet : (action : ManageAction) (id : Option ℕ) → IsQuiet (PayPal.manage E action id)
  unfolding PayPal.manage
  manage-IsQuiet action id =
      >>=-IsQuiet _ _ login-IsQuiet λ t. >>=-IsQuiet _ _ (call-IsQuiet _) λ _. pure-IsQuiet _

  -- Plans and details are read; nothing is written.
  pub get_plans-IsQuiet : (token : Option ℕ) → IsQuiet (PayPal.get_plans E token)
  unfolding PayPal.get_plans PayPal.token_or_login
  get_plans-IsQuiet none = >>=-IsQuiet _ _ login-IsQuiet λ t. call-IsQuiet _
  get_plans-IsQuiet (some token) = >>=-IsQuiet _ _ (pure-IsQuiet token) λ t. call-IsQuiet _

  pub get_subscription_details-IsQuiet :
      (id : Option ℕ) → IsQuiet (PayPal.get_subscription_details E id)
  unfolding PayPal.get_subscription_details
  get_subscription_details-IsQuiet id = >>=-IsQuiet _ _ login-IsQuiet λ t. call-IsQuiet _

  pub cancel_subscription-IsQuiet :
      (system : PaymentSystem) (id : Option ℕ) → IsQuiet (Manager.cancel_subscription E system id)
  unfolding Manager.cancel_subscription PayPal.cancel_subscription Stripe.cancel_subscription
  cancel_subscription-IsQuiet PaymentSystem.paypal id = manage-IsQuiet cancel id
  cancel_subscription-IsQuiet PaymentSystem.stripe id =
      attempt-IsQuiet _ _ (>>=-IsQuiet _ _ (call-IsQuiet _) λ _. pure-IsQuiet _)
  cancel_subscription-IsQuiet PaymentSystem.unknown id = pure-IsQuiet false

  pub disable_auto_renewal-IsQuiet :
      (system : PaymentSystem) (id : Option ℕ) → IsQuiet (Manager.disable_auto_renewal E system id)
  unfolding Manager.disable_auto_renewal PayPal.disable_auto_renewal Stripe.disable_auto_renewal
  disable_auto_renewal-IsQuiet PaymentSystem.paypal id =
      attempt-IsQuiet _ _ (manage-IsQuiet suspend id)
  disable_auto_renewal-IsQuiet PaymentSystem.stripe id =
      attempt-IsQuiet _ _ (>>=-IsQuiet _ _ (call-IsQuiet _) λ _. pure-IsQuiet _)
  disable_auto_renewal-IsQuiet PaymentSystem.unknown id = pure-IsQuiet false

  pub enable_auto_renewal-IsQuiet :
      (system : PaymentSystem) (id : Option ℕ) → IsQuiet (Manager.enable_auto_renewal E system id)
  unfolding Manager.enable_auto_renewal PayPal.enable_auto_renewal Stripe.enable_auto_renewal
  enable_auto_renewal-IsQuiet PaymentSystem.paypal id =
      attempt-IsQuiet _ _ (manage-IsQuiet activate id)
  enable_auto_renewal-IsQuiet PaymentSystem.stripe id =
      attempt-IsQuiet _ _ (>>=-IsQuiet _ _ (call-IsQuiet _) λ _. pure-IsQuiet _)
  enable_auto_renewal-IsQuiet PaymentSystem.unknown id = pure-IsQuiet false

  cancel_each-IsQuiet : (t : ℕ) (ids : List (Option ℕ)) → IsQuiet (PayPal.cancel_each E t ids)
  unfolding PayPal.cancel_each
  cancel_each-IsQuiet t [] = pure-IsQuiet tt
  cancel_each-IsQuiet t (id ∷ ids) = >>=-IsQuiet _ _ (call-IsQuiet _) λ _. cancel_each-IsQuiet t ids

  pub cancel_many_subscriptions-IsQuiet :
      (system : PaymentSystem) (ids : List (Option ℕ))
      → IsQuiet (Manager.cancel_many_subscriptions E system ids)
  unfolding Manager.cancel_many_subscriptions PayPal.cancel_many_subscription
  cancel_many_subscriptions-IsQuiet PaymentSystem.paypal ids =
      >>=-IsQuiet _ _ login-IsQuiet
        λ t. >>=-IsQuiet _ _ (cancel_each-IsQuiet t ids) λ _. pure-IsQuiet true
  cancel_many_subscriptions-IsQuiet PaymentSystem.stripe ids = pure-IsQuiet true
  cancel_many_subscriptions-IsQuiet PaymentSystem.unknown ids = pure-IsQuiet false
