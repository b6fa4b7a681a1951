-- ===== src/Payments/OneCurrent/Steps.antt =====
-- The steps that the handlers share: those that write no subscription, and how a handler begins.
use somegram_backend.Prelude.{ℕ, ◌≡◌, refl, sym, ◌∙◌, Option, none, some}
use somegram_backend.Effects.{◌>>=◌}
use somegram_backend.Payments.Types.{SubscriptionType, monthly, day, weekly, other_plan}
use somegram_backend.Payments.SubscriptionEntity.{Subscription}
use somegram_backend.Payments.TransactionEntity.{PaymentTransaction}
use somegram_backend.Payments.World.{Env, World, Service}
use somegram_backend.Payments.Repository.{save_transaction}
use somegram_backend.Payments.Service.{handle_date_end, send_notification_after_success_payment}
use somegram_backend.Payments.Adapters.Quiet.{get_plans-IsQuiet}
use somegram_backend.Payments.Answers.{Answer, found}
use somegram_backend.Payments.Handlers.PayPal.{handle_plan}
use somegram_backend.Payments.Database.{DbLaws}
use somegram_backend.Payments.Database.Frames.{
  IsQuiet, >>=-IsQuiet, pure-IsQuiet, new_date-IsQuiet, emit-IsQuiet, required-IsQuiet, Holds,
  write_then, pure_holds,
}
use somegram_backend.Payments.OneCurrent.{IsAtMostOne}

module _ (E : Env) where
  pub handle_plan-IsQuiet : (plan_id : ℕ) → IsQuiet (handle_plan E plan_id)
  unfolding handle_plan
  handle_plan-IsQuiet plan_id =
      >>=-IsQuiet _ _ (get_plans-IsQuiet E none)
        λ plans. >>=-IsQuiet _ _ (required-IsQuiet _) λ plan. pure-IsQuiet _

  pub handle_date_end-IsQuiet :
      (date : ℕ) (type : SubscriptionType) → IsQuiet (handle_date_end E date type)
  unfolding handle_date_end
  handle_date_end-IsQuiet date day = pure-IsQuiet _
  handle_date_end-IsQuiet date weekly = pure-IsQuiet _
  handle_date_end-IsQuiet date monthly = pure-IsQuiet _
  handle_date_end-IsQuiet date other_plan = new_date-IsQuiet

  pub send_notification-IsQuiet :
      (user date : ℕ) → IsQuiet (send_notification_after_success_payment E user date)
  unfolding send_notification_after_success_payment
  send_notification-IsQuiet user date = emit-IsQuiet _

module _ {E : Env} (L : DbLaws E) where
  -- Nothing is said of the answer.
  abbrev pub Anything : {A : Type 0} → A → World E → Type 0
  Anything a w = Unit {0}

  -- At most one current subscription for each user before, and so after, however `m` ends.
  abbrev pub Keeps : {A : Type 0} → Service E A → Type 0
  Keeps m = (w : World E) → IsAtMostOne L w.db → Holds (IsAtMostOne L) Anything (m w)

  transaction-IsAtMostOne :
      (t : PaymentTransaction) (i : ℕ) (d d' : E.Db)
      → E.create_transaction t d ≡ some (i, d')
      → IsAtMostOne L d
      → IsAtMostOne L d'
  transaction-IsAtMostOne t i d d' e one j k a b ha hb =
      one j k a b (sym (L.transaction_row t i d d' e j) ∙ ha)
        (sym (L.transaction_row t i d d' e k) ∙ hb)

  pub save_transaction_then :
      {B : Type 0} (Q : B → World E → Type 0) (t : PaymentTransaction) (f : ℕ → Service E B)
      (w : World E)
      → IsAtMostOne L w.db
      → ((i : ℕ) (v : World E) → IsAtMostOne L v.db → Holds (IsAtMostOne L) Q (f i v))
      → Holds (IsAtMostOne L) Q ((save_transaction E t >>= f) w)
  unfolding save_transaction
  save_transaction_then Q t f w one k =
      write_then (IsAtMostOne L) Q (E.create_transaction t) f w one
        λ i d e. k i (record w { db = d }) (transaction-IsAtMostOne t i w.db d e one)

  -- A handler answers at once where it finds no subscription.
  pub found_holds :
      (next : Subscription → Service E Answer) (s : Option Subscription) (w : World E)
      → IsAtMostOne L w.db
      → ((r : Subscription) → s ≡ some r → Holds (IsAtMostOne L) Anything (next r w))
      → Holds (IsAtMostOne L) Anything (found E next s w)
  unfolding found
  found_holds next none w one k = pure_holds (IsAtMostOne L) Anything _ w one tt
  found_holds next (some r) w one k = k r refl
