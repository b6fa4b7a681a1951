-- ===== src/Payments/OneCurrent/Runs.antt =====
-- The requests that reach the payments service, served one after the other, and what the table
-- keeps in every run of them.
use somegram_backend.Prelude.{ℕ, String, sym, subst, List, [], ◌∷◌, Option, none, some}
use somegram_backend.Effects.Rules.{Ends-world}
use somegram_backend.Payments.Types.{
  PaymentSystem, SubscriptionType, UserInfo, CreateNotificationInputDto,
}
use somegram_backend.Payments.SubscriptionEntity.{Subscription}
use somegram_backend.Payments.World.{Env, World}
use somegram_backend.Payments.Repository.{get_active_subscriptions}
use somegram_backend.Payments.Service.{
  disable_subscription, send_notices, notify_all, check_and_notify_subscription_end,
}
use somegram_backend.Payments.Handlers.PayPal.{PayPalEvent}
use somegram_backend.Payments.Handlers.PayPal
use somegram_backend.Payments.Handlers.Stripe.{StripeEvent, stripe_webhook}
use somegram_backend.Payments.Commands.{
  create_payment, disable_auto_renewal, enable_auto_renewal, update_username,
}
use somegram_backend.Payments.Database.{DbLaws}
use somegram_backend.Payments.Database.Frames.{
  IsQuiet, >>=-IsQuiet, attempt-IsQuiet, query-IsQuiet, pure-IsQuiet, new_date-IsQuiet,
  emit-IsQuiet,
}
use somegram_backend.Payments.OneCurrent.{IsAtMostOne}
use somegram_backend.Payments.OneCurrent.Steps.{Anything}
use somegram_backend.Payments.OneCurrent.PayPalEvents.{BodyFits, handle_event_holds}
use somegram_backend.Payments.OneCurrent.StripeEvents.{stripe_webhook-Keeps}
use somegram_backend.Payments.OneCurrent.Commands.{
  disable_auto_renewal-Keeps, enable_auto_renewal-Keeps, update_username-Keeps,
}
use somegram_backend.Payments.OneCurrent.Creation.{create_payment-Keeps}
use somegram_backend.Payments.OneCurrent.Jobs.{
  IsNarrowed, disable_subscription_narrows, narrowed-IsAtMostOne,
}

module _ (E : Env) where
  -- What the service is asked to do; the last two are its midnight jobs.
  pub data Request : Type 0 where
    paypal_body : Option PayPalEvent → Request
    stripe_body : Option StripeEvent → Request
    pay : UserInfo → SubscriptionType → PaymentSystem → Request
    stop_renewal start_renewal : ℕ → Request
    rename : ℕ → String → Request
    execute execute12_am : Request

  -- The world after a request, however its method ends.
  unfoldable pub serve : Request → World E → World E
  serve (paypal_body body) w = (PayPal.handle_event E body w).1
  serve (stripe_body body) w = (stripe_webhook E body w).1
  serve (pay user type system) w = (create_payment E user type system w).1
  serve (stop_renewal user) w = (disable_auto_renewal E user w).1
  serve (start_renewal user) w = (enable_auto_renewal E user w).1
  serve (rename user name) w = (update_username E user name w).1
  serve execute w = (disable_subscription E w).1
  serve execute12_am w = (check_and_notify_subscription_end E w).1

  send_notices-IsQuiet : (l : List CreateNotificationInputDto) → IsQuiet (send_notices E l)
  unfolding send_notices
  send_notices-IsQuiet [] = pure-IsQuiet tt
  send_notices-IsQuiet (n ∷ l) = emit-IsQuiet _

  notify_all-IsQuiet : (date : ℕ) (l : Option (List Subscription)) → IsQuiet (notify_all E date l)
  unfolding notify_all
  notify_all-IsQuiet date none = pure-IsQuiet tt
  notify_all-IsQuiet date (some l) = send_notices-IsQuiet _

  notify-IsQuiet : IsQuiet (check_and_notify_subscription_end E)
  unfolding check_and_notify_subscription_end get_active_subscriptions
  notify-IsQuiet = attempt-IsQuiet _ _ (
      >>=-IsQuiet _ _ new_date-IsQuiet λ date.
        >>=-IsQuiet _ _ (>>=-IsQuiet _ _ (query-IsQuiet _) λ l. pure-IsQuiet _)
          (notify_all-IsQuiet date))

module _ {E : Env} (L : DbLaws E) where
  -- A PayPal event has to agree with the table; every other request may come at any time.
  abbrev pub IsFitting : Request E → World E → Type 0
  IsFitting (paypal_body body) w = BodyFits L body w.db
  IsFitting _ w = Unit {0}

  -- A run serves fitting requests, one after the other.
  pub data Run : World E → World E → Type 0 where
    idle : {w : World E} → Run w w
    serving : {v w : World E} (r : Request E) → IsFitting r v → Run (serve E r v) w → Run v w

  serve_keeps :
      (r : Request E) (w : World E)
      → IsFitting r w
      → IsAtMostOne L w.db
      → IsAtMostOne L (serve E r w).db
  unfolding serve
  serve_keeps (paypal_body body) w fit one =
      Ends-world (λ v. IsAtMostOne L v.db) (Anything L) _ (handle_event_holds L body w fit one)
  serve_keeps (stripe_body body) w fit one =
      Ends-world (λ v. IsAtMostOne L v.db) (Anything L) _ (stripe_webhook-Keeps L body w one)
  serve_keeps (pay user type system) w fit one =
      Ends-world (λ v. IsAtMostOne L v.db) (Anything L) _
        (create_payment-Keeps L user type system w one)
  serve_keeps (stop_renewal user) w fit one =
      Ends-world (λ v. IsAtMostOne L v.db) (Anything L) _ (disable_auto_renewal-Keeps L user w one)
  serve_keeps (start_renewal user) w fit one =
      Ends-world (λ v. IsAtMostOne L v.db) (Anything L) _ (enable_auto_renewal-Keeps L user w one)
  serve_keeps (rename user name) w fit one =
      Ends-world (λ v. IsAtMostOne L v.db) (Anything L) _ (update_username-Keeps L user name w one)
  serve_keeps execute w fit one =
      narrowed-IsAtMostOne L w.db _ one
        (Ends-world (λ v. IsNarrowed L w.db v.db) (Anything L) _ (disable_subscription_narrows L w))
  serve_keeps execute12_am w fit one = subst (IsAtMostOne L) (sym (notify-IsQuiet E w)) one

  -- In every run of requests, served one after the other and each fitting the table when it is
  -- served, that begins with at most one current subscription for each user, each user has at most
  -- one current subscription afterwards. A PayPal event fits if a completed payment names the owner
  -- of the subscription and a suspension concerns a current one; every other request always fits.
  pub Run-IsAtMostOne : {v w : World E} → Run v w → IsAtMostOne L v.db → IsAtMostOne L w.db
  Run-IsAtMostOne idle one = one
  Run-IsAtMostOne (serving {v} r fit rest) one = Run-IsAtMostOne rest (serve_keeps r v fit one)
