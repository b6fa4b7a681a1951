-- ===== src/Payments/OneCurrent/PayPalEvents.antt =====
-- The PayPal handlers on tables with at most one current subscription for each user.
use somegram_backend.Prelude.{ℕ, ◌≡◌, ap, ◌∙◌, true, Option, none, some}
use native.Mathlib.Omega.{arith}
use somegram_backend.Effects.{◌>>=◌, attempt}
use somegram_backend.Payments.Types.{is_current}
use somegram_backend.Payments.SubscriptionEntity.{
  Subscription, ActiveSubscriptionDate, activate_subscription, suspend_subscription,
  cancel_subscription,
}
use somegram_backend.Payments.World.{Env, World, Service, required}
use somegram_backend.Payments.Repository.{
  has_system_sub_id, get_subscription_by_payment_system_sub_id,
}
use somegram_backend.Payments.Answers.{Answer, found}
use somegram_backend.Payments.Handlers.PayPal.{
  PayPalEvent, payment_completed, subscription_failed, subscription_activated,
  subscription_suspended, subscription_cancelled, unhandled, renew, close_unpaid,
  payment_succeeded_handle, payment_failed_handle, activate_with, handle_pending, handle_suspend,
  reactivate, subscription_active_handle, suspend_found, subscription_suspended_handle,
  cancel_found, subscription_cancel_handle, dispatch, handle_event,
}
use somegram_backend.Payments.Database.{DbLaws}
use somegram_backend.Payments.Database.Frames.{
  quiet_then, query_then, pure_holds, branch_holds, attempt_holds, holds_then, new_date-IsQuiet,
  emit-IsQuiet, Holds,
}
use somegram_backend.Payments.OneCurrent.{
  IsAtMostOne, HasOnly, current-HasOnly, Fits, update_sub_then, update_sub_holds,
}
use somegram_backend.Payments.OneCurrent.Replacing.{IsReplaced, handle_active_holds, cancelled-Fits}
use somegram_backend.Payments.OneCurrent.PayPalPayments.{
  renew_holds, close_unpaid_holds, payment_keeps,
}
use somegram_backend.Payments.OneCurrent.Steps.{Anything, Keeps, found_holds}

module _ {E : Env} (L : DbLaws E) where
  -- The other handlers read the subscription by its id at PayPal.
  pub by_system_id_keeps :
      (next : Subscription → Service E Answer) (id : ℕ) (fallback : Answer) (w : World E)
      → IsAtMostOne L w.db
      → ((s : Subscription)
          → L.row w.db s.id ≡ some s
          → has_system_sub_id id s ≡ true
          → Holds (IsAtMostOne L) (Anything L) (next s w))
      → Holds
          (IsAtMostOne L)
          (Anything L)
          (attempt (get_subscription_by_payment_system_sub_id E id >>= found E next) fallback w)
  unfolding get_subscription_by_payment_system_sub_id
  by_system_id_keeps next id fallback w one k =
      let Q = Anything L {A = Answer} in
      attempt_holds (IsAtMostOne L) Q _ _ w
        (query_then (IsAtMostOne L) Q _ _ w one λ o q. found_holds L next o w one λ s p.
          let (here, has) = L.find_first_found (has_system_sub_id id) w.db s (q ∙ ap some p) in
          k s here has)
        λ v h. tt

  -- A row that is current may become `active`.
  activated-Fits :
      (s : Subscription) (a b : Option ℕ) (now : ℕ) (d : E.Db)
      → HasOnly L s.user_id s.id d
      → Fits L (activate_subscription s a b now) d
  unfolding activate_subscription
  activated-Fits s a b now d only cur = only

  activate_with-Fits :
      (s : Subscription) (dates : Option ActiveSubscriptionDate) (now : ℕ) (d : E.Db)
      → HasOnly L s.user_id s.id d
      → Fits L (activate_with s dates now) d
  unfolding activate_with activate_subscription
  activate_with-Fits s none now d only cur = only
  activate_with-Fits s (some dates) now d only cur = only

  handle_pending_holds : (s : Subscription) → Keeps L (handle_pending E s)
  unfolding handle_pending
  handle_pending_holds s w one =
      let Q = Anything L {A = Unit {0}} in
      holds_then (IsAtMostOne L) (IsReplaced L s.user_id s.id w.db) Q _ _ w
        (handle_active_holds L s.user_id s.id w one)
        λ dates w₁ one₁ replaced.
          quiet_then (IsAtMostOne L) Q _ _ w₁ new_date-IsQuiet one₁ λ now w₂ e₂ one₂.
            update_sub_holds L Q _ w₂ one₂ (activate_with-Fits s dates now w₂.db (rw e₂ replaced.0))
              λ a v. tt

  reactivate_holds :
      (s : Subscription) (w : World E)
      → IsAtMostOne L w.db
      → L.row w.db s.id ≡ some s
      → Holds (IsAtMostOne L) (Anything L) (reactivate E s w)
  unfolding reactivate handle_suspend
  reactivate_holds s w one here =
      let Q = Anything L {A = Answer} in
      let R = Anything L {A = Unit {0}} in
      branch_holds (IsAtMostOne L) Q _ _ _ w
        (λ pending.
          holds_then (IsAtMostOne L) R Q _ _ w (handle_pending_holds s w one)
            λ a v one₁ _. pure_holds (IsAtMostOne L) Q _ v one₁ tt)
        λ other.
          branch_holds (IsAtMostOne L) Q _ _ _ w
            (λ suspended.
              holds_then (IsAtMostOne L) R Q _ _ w
                (quiet_then (IsAtMostOne L) R _ _ w new_date-IsQuiet one λ now w₁ e₁ one₁.
                  update_sub_holds L R _ w₁ one₁
                    (activated-Fits s none none now w₁.db
                      (rw e₁ (current-HasOnly L w.db s one here (ground arith))))
                    λ a v. tt)
                λ a v one₂ _. pure_holds (IsAtMostOne L) Q _ v one₂ tt)
            λ neither. pure_holds (IsAtMostOne L) Q _ w one tt

  suspend_found_holds :
      (s : Subscription) (w : World E)
      → IsAtMostOne L w.db
      → L.row w.db s.id ≡ some s
      → is_current s.status ≡ true
      → Holds (IsAtMostOne L) (Anything L) (suspend_found E s w)
  unfolding suspend_found suspend_subscription
  suspend_found_holds s w one here cur =
      let Q = Anything L {A = Answer} in
      branch_holds (IsAtMostOne L) Q _ _ _ w (λ done. pure_holds (IsAtMostOne L) Q _ w one tt)
        λ open_. quiet_then (IsAtMostOne L) Q _ _ w new_date-IsQuiet one λ now w₁ e₁ one₁.
          update_sub_then L Q _ _ w₁ one₁ (λ _. rw e₁ (current-HasOnly L w.db s one here cur))
            λ d u one₂. pure_holds (IsAtMostOne L) Q _ (record w₁ { db = d }) one₂ tt

  cancel_found_holds : (s : Subscription) → Keeps L (cancel_found E s)
  unfolding cancel_found
  cancel_found_holds s w one =
      let Q = Anything L {A = Answer} in
      branch_holds (IsAtMostOne L) Q _ _ _ w (λ done. pure_holds (IsAtMostOne L) Q _ w one tt)
        λ open_. quiet_then (IsAtMostOne L) Q _ _ w new_date-IsQuiet one λ now w₁ e₁ one₁.
          update_sub_then L Q (cancel_subscription s now) _ w₁ one₁ (cancelled-Fits L s now w₁.db)
            λ d u one₂.
              quiet_then (IsAtMostOne L) Q _ _ (record w₁ { db = d }) (emit-IsQuiet _) one₂
                λ _ w₃ e₃ one₃. pure_holds (IsAtMostOne L) Q _ w₃ one₃ tt

  -- What an event has to agree with in the table: a completed payment names the owner of the
  -- subscription, and a subscription is suspended only while it is current.
  abbrev pub EventFits : PayPalEvent → E.Db → Type 0
  EventFits (payment_completed sale) d =
      (s : Subscription)
      → L.row d s.id ≡ some s
      → has_system_sub_id sale.billing_agreement_id s ≡ true
      → s.user_id ≡ sale.custom
  EventFits (subscription_suspended id) d =
      (s : Subscription)
      → L.row d s.id ≡ some s
      → has_system_sub_id id s ≡ true
      → is_current s.status ≡ true
  EventFits _ d = Unit {0}

  -- However the handler of a fitting event ends, each user has at most one current subscription.
  dispatch_holds :
      (e : PayPalEvent) (w : World E)
      → EventFits e w.db
      → IsAtMostOne L w.db
      → Holds (IsAtMostOne L) (Anything L) (dispatch E e w)
  unfolding dispatch payment_succeeded_handle payment_failed_handle subscription_active_handle
      subscription_suspended_handle subscription_cancel_handle
  dispatch_holds (payment_completed sale) w fit one =
      payment_keeps L (renew E) sale w one
        λ now s plan v one' here has. renew_holds L sale now s plan v one' (fit s here has)
  dispatch_holds (subscription_failed sale) w fit one =
      payment_keeps L (close_unpaid E) sale w one
        λ now s plan v one' here has. close_unpaid_holds L sale now s plan v one'
  dispatch_holds (subscription_activated id) w fit one =
      by_system_id_keeps (reactivate E) id _ w one λ s here has. reactivate_holds s w one here
  dispatch_holds (subscription_suspended id) w fit one =
      by_system_id_keeps (suspend_found E) id _ w one
        λ s here has. suspend_found_holds s w one here (fit s here has)
  dispatch_holds (subscription_cancelled id) w fit one =
      by_system_id_keeps (cancel_found E) id _ w one λ s here has. cancel_found_holds s w one
  dispatch_holds unhandled w fit one = pure_holds (IsAtMostOne L) (Anything L) _ w one tt

  -- A body that is refused changes nothing, so that it fits every table.
  abbrev pub BodyFits : Option PayPalEvent → E.Db → Type 0
  BodyFits none d = Unit {0}
  BodyFits (some event) d = EventFits event d

  pub handle_event_holds :
      (body : Option PayPalEvent) (w : World E)
      → BodyFits body w.db
      → IsAtMostOne L w.db
      → Holds (IsAtMostOne L) (Anything L) (handle_event E body w)
  unfolding handle_event ◌>>=◌ required
  handle_event_holds none w fit one = one
  handle_event_holds (some event) w fit one = dispatch_holds event w fit one
