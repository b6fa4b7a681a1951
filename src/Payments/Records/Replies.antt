-- ===== src/Payments/Records/Replies.antt =====
-- What the webhook of Stripe replies.
use somegram_backend.Prelude.{◌≡◌, refl, ◌≢◌, none, some, arith}
use somegram_backend.Effects.{Result, ok, thrown, continue, recover, ◌>>=◌, pure, attempt}
use somegram_backend.Outcome.{succeed, fail}
use somegram_backend.Payments.World.{Env, World, Service, required}
use somegram_backend.Payments.Handlers.Stripe.{
  StripeEvent, invoice_payment_succeeded, invoice_payment_failed, subscription_deleted,
  session_completed, invoice_payment_succeeded_handle, invoice_payment_failed_handle,
  subscription_deleted_handle, session_completed_handle, stripe_webhook,
}
use somegram_backend.Payments.Handlers.Stripe

ok_ended : {A : Type 0} (x : Result A) (a : A) → x ≡ ok a → x ≢ thrown
ok_ended x a e t = absurd (ground arith)

module _ {E : Env} where
  -- The method ends with an answer.
  abbrev Ended : {A : Type 0} → Result A × World E → Type 0
  Ended r = r.0 ≢ thrown

  recover-Ended : {A : Type 0} (r : Result A × World E) (a : A) → Ended (recover r a)
  recover-Ended (ok b, w) a e = absurd (ground arith)
  recover-Ended (thrown, w) a e = absurd (ground arith)

  attempt-Ended : {A : Type 0} (m : Service E A) (a : A) (w : World E) → Ended (attempt m a w)
  unfolding attempt
  attempt-Ended m a w = recover-Ended (m w) a

  continue-Ended :
      {A B : Type 0} (r : Result A × World E) (b : B)
      → Ended r
      → (continue r (λ a. pure b)).0 ≡ ok b
  unfolding pure
  continue-Ended (ok a, w) b h = refl
  continue-Ended (thrown, w) b h = absurd (h refl)

  -- A method that ends, and then a fixed answer.
  then_pure :
      {A B : Type 0} (m : Service E A) (b : B) (w : World E)
      → Ended (m w)
      → ((m >>= λ a. pure b) w).0 ≡ ok b
  unfolding ◌>>=◌
  then_pure m b w h = continue-Ended (m w) b h

  pure-Ended : {A : Type 0} (a : A) (w : World E) → Ended (pure a w)
  unfolding pure
  pure-Ended a w e = absurd (ground arith)

  recover-ok : {A : Type 0} (r : Result A × World E) (a b : A) → r.0 ≡ ok b → (recover r a).0 ≡ ok b
  recover-ok (ok c, w) a b e = e
  recover-ok (thrown, w) a b e = absurd (ground arith)

  stripe_event-Ended : (event : StripeEvent) (w : World E) → Ended (Stripe.handle_event E event w)
  unfolding Stripe.handle_event invoice_payment_succeeded_handle invoice_payment_failed_handle
      subscription_deleted_handle session_completed_handle
  stripe_event-Ended (invoice_payment_succeeded invoice) w =
      ok_ended _ none (then_pure _ none w (attempt-Ended _ _ w))
  stripe_event-Ended (invoice_payment_failed invoice) w =
      ok_ended _ none (then_pure _ none w (attempt-Ended _ _ w))
  stripe_event-Ended (subscription_deleted id) w =
      ok_ended _ none (then_pure _ none w (attempt-Ended _ _ w))
  stripe_event-Ended (session_completed session) w =
      ok_ended _ none (then_pure _ none w (attempt-Ended _ _ w))
  stripe_event-Ended StripeEvent.unhandled w = pure-Ended _ w

  -- What Stripe is answered depends on the signature only: success for every event whose
  -- signature is accepted, whatever its handler has answered, and an internal error, with the
  -- world unchanged, for a body that is refused.
  pub stripe_webhook_replies :
      (w : World E)
      → ((event : StripeEvent) → (stripe_webhook E (some event) w).0 ≡ ok (succeed none))
        × (stripe_webhook E none w ≡ (ok fail, w))
  unfolding stripe_webhook attempt ◌>>=◌ required
  stripe_webhook_replies w = (
    λ event.
        recover-ok (continue (Stripe.handle_event E event w) (λ a. pure (succeed none))) fail
          (succeed none) (continue-Ended _ (succeed none) (stripe_event-Ended event w)),
    refl,
  )
