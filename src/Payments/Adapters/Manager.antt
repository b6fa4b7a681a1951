-- ===== src/Payments/Adapters/Manager.antt =====
-- common/managers/payment.manager.ts: the choice of the adapter by the payment system. A branch
-- that returns no value answers `none`.
use somegram_backend.Prelude.{ℕ, String, Bool, true, false, List, Option, none}
use somegram_backend.Effects.{pure}
use somegram_backend.Payments.Types.{PaymentSystem, PaymentData}
use somegram_backend.Payments.World.{Env, Service}
use somegram_backend.Payments.Adapters.PayPal
use somegram_backend.Payments.Adapters.Stripe

module _ (E : Env) where
  unfoldable pub create_auto_payment_by : PaymentSystem → PaymentData → Service E (Option String)
  create_auto_payment_by PaymentSystem.paypal p = PayPal.create_auto_payment E p none none
  create_auto_payment_by PaymentSystem.stripe p = Stripe.create_auto_payment E p
  create_auto_payment_by PaymentSystem.unknown p = pure none

  unfoldable pub create_auto_payment : PaymentData → Service E (Option String)
  create_auto_payment payment = create_auto_payment_by payment.payment_system payment

  unfoldable pub update_current_sub_by : PaymentSystem → PaymentData → Service E (Option String)
  update_current_sub_by PaymentSystem.paypal p = PayPal.update_auto_payment E p
  update_current_sub_by PaymentSystem.stripe p = Stripe.update_auto_payment E p
  update_current_sub_by PaymentSystem.unknown p = pure none

  unfoldable pub update_current_sub : PaymentData → Service E (Option String)
  update_current_sub payment = update_current_sub_by payment.payment_system payment

  unfoldable pub disable_auto_renewal : PaymentSystem → Option ℕ → Service E Bool
  disable_auto_renewal PaymentSystem.paypal id = PayPal.disable_auto_renewal E id
  disable_auto_renewal PaymentSystem.stripe id = Stripe.disable_auto_renewal E id
  disable_auto_renewal PaymentSystem.unknown id = pure false

  unfoldable pub enable_auto_renewal : PaymentSystem → Option ℕ → Service E Bool
  enable_auto_renewal PaymentSystem.paypal id = PayPal.enable_auto_renewal E id
  enable_auto_renewal PaymentSystem.stripe id = Stripe.enable_auto_renewal E id
  enable_auto_renewal PaymentSystem.unknown id = pure false

  unfoldable pub cancel_subscription : PaymentSystem → Option ℕ → Service E Bool
  cancel_subscription PaymentSystem.paypal id = PayPal.cancel_subscription E id
  cancel_subscription PaymentSystem.stripe id = Stripe.cancel_subscription E id
  cancel_subscription PaymentSystem.unknown id = pure false

  unfoldable pub cancel_many_subscriptions : PaymentSystem → List (Option ℕ) → Service E Bool
  cancel_many_subscriptions PaymentSystem.paypal ids = PayPal.cancel_many_subscription E ids
  cancel_many_subscriptions PaymentSystem.stripe ids = pure true
  cancel_many_subscriptions PaymentSystem.unknown ids = pure false
