-- ===== src/Payments/Records/Unknown.antt =====
-- The bodies of PayPal's webhook that concern no subscription of the table.
use somegram_backend.Prelude.{ℕ, ◌≡◌, refl, sym, ◌∙◌, false, Option, none, some, ◌⊎◌, inl, inr}
use mathlib.Core.Bool.{false≢true}
use somegram_backend.Effects.{Result, ok, thrown, continue, recover, ◌>>=◌, pure, attempt}
use somegram_backend.Outcome.{succeed, missing, fail}
use somegram_backend.Payments.SubscriptionEntity.{Subscription}
use somegram_backend.Payments.World.{Env, World, Service, answer, query, new_date, required}
use somegram_backend.Payments.Repository.{
  has_system_sub_id, get_subscription_by_payment_system_sub_id,
}
use somegram_backend.Payments.Answers.{Answer, found}
use somegram_backend.Payments.Handlers.PayPal.{
  PayPalEvent, payment_completed, subscription_failed, subscription_activated,
  subscription_suspended, subscription_cancelled, unhandled, payment, payment_succeeded_handle,
  payment_failed_handle, subscription_active_handle, subscription_suspended_handle,
  subscription_cancel_handle, dispatch, handle_event,
}
use somegram_backend.Payments.Database.{DbLaws}

module _ {E : Env} where
  -- The tables and the messages are those of `w`.
  abbrev IsAsBefore : World E → World E → Type 0
  IsAsBefore w v = (v.db ≡ w.db) × (v.outbox ≡ w.outbox)

  abbrev Unfound : World E → Result Answer × World E → Type 0
  Unfound w r = ((r.0 ≡ ok missing) ⊎ (r.0 ≡ ok fail)) × IsAsBefore w r.1

  -- What is replied to a body that concerns no subscription.
  abbrev pub Refused : Option PayPalEvent → World E → Result Answer × World E → Type 0
  Refused none w r = r ≡ (thrown, w)
  Refused (some unhandled) w r = r ≡ (ok (succeed none), w)
  Refused (some _) w r = Unfound w r

module _ {E : Env} (L : DbLaws E) where
  -- No row of the table has the agreement.
  abbrev IsMissing : ℕ → E.Db → Type 0
  IsMissing id d = (i : ℕ) (s : Subscription) → L.row d i ≡ some s → has_system_sub_id id s ≡ false

  abbrev pub ConcernsNone : Option PayPalEvent → E.Db → Type 0
  ConcernsNone none d = Unit {0}
  ConcernsNone (some (payment_completed sale)) d = IsMissing sale.billing_agreement_id d
  ConcernsNone (some (subscription_failed sale)) d = IsMissing sale.billing_agreement_id d
  ConcernsNone (some (subscription_activated id)) d = IsMissing id d
  ConcernsNone (some (subscription_suspended id)) d = IsMissing id d
  ConcernsNone (some (subscription_cancelled id)) d = IsMissing id d
  ConcernsNone (some unhandled) d = Unit {0}

  lookup-Unfound :
      (id : ℕ) (next : Subscription → Service E Answer) (w : World E)
      → IsMissing id w.db
      → Unfound w (
          recover ((get_subscription_by_payment_system_sub_id E id >>= λ s. found E next s) w) fail)
  unfolding ◌>>=◌ query get_subscription_by_payment_system_sub_id found pure
  lookup-Unfound id next w gone = on_answer (E.find_first (has_system_sub_id id) w.db) refl
    where
      on_answer :
          (o : Option (Option Subscription))
          → E.find_first (has_system_sub_id id) w.db ≡ o
          → Unfound w (recover (continue (answer o w) (λ s. found E next s)) fail)
      on_answer none e = (inr refl, (refl, refl))
      on_answer (some none) e = (inl refl, (refl, refl))
      on_answer (some (some s)) e =
          let (here, has) = L.find_first_found (has_system_sub_id id) w.db s e in
          absurd (false≢true (sym (gone s.id s here) ∙ has))

  -- A body that is no event makes the method reject. An event of a type without a handler is
  -- answered success. An event on an agreement that no subscription in the table has is answered
  -- not found, or an internal error. Each time the tables and the messages are as before.
  pub handle_event-Refused :
      (body : Option PayPalEvent) (w : World E)
      → ConcernsNone body w.db
      → Refused body w (handle_event E body w)
  unfolding handle_event dispatch payment payment_succeeded_handle payment_failed_handle
      subscription_active_handle subscription_suspended_handle subscription_cancel_handle attempt
      ◌>>=◌ required new_date pure
  handle_event-Refused none w h = refl
  handle_event-Refused (some (payment_completed sale)) w h =
      lookup-Unfound sale.billing_agreement_id _ (record w { reads = _ }) h
  handle_event-Refused (some (subscription_failed sale)) w h =
      lookup-Unfound sale.billing_agreement_id _ (record w { reads = _ }) h
  handle_event-Refused (some (subscription_activated id)) w h = lookup-Unfound id _ w h
  handle_event-Refused (some (subscription_suspended id)) w h = lookup-Unfound id _ w h
  handle_event-Refused (some (subscription_cancelled id)) w h = lookup-Unfound id _ w h
  handle_event-Refused (some unhandled) w h = refl
