-- ===== src/Payments/Answers.antt =====
-- What the handlers of webhooks and the commands answer, and how they begin.
use somegram_backend.Prelude.{Option, none, some}
use somegram_backend.Effects.{pure}
use somegram_backend.Outcome.{AppNotificationResult, missing}
use somegram_backend.Payments.SubscriptionEntity.{Subscription}
use somegram_backend.Payments.World.{Env, Service}

abbrev pub Answer : Type 0
Answer = AppNotificationResult (Unit {0}) (Unit {0})

module _ (E : Env) where
  -- `if (!subscription) return this.appNotification.notFound()`
  unfoldable pub found : (Subscription → Service E Answer) → Option Subscription → Service E Answer
  found next none = pure missing
  found next (some s) = next s
