-- ===== src/Payments/OneCurrent/StripeEvents.antt =====
-- The Stripe handlers on tables with at most one current subscription for each user.
use somegram_backend.Prelude.{
  ℕ, ◌≡◌, sym, ap, subst, ◌==◌, if◌then◌else◌, ◌∙◌, Option, none, some, arith,
}
use somegram_backend.Effects.{◌>>=◌, pure, attempt}
use somegram_backend.Payments.SubscriptionEntity.{Subscription}
use somegram_backend.Payments.World.{Env, World, Service}
use somegram_backend.Payments.Repository.{
  has_id, get_subscription_by_id, get_subscription_by_payment_system_sub_id, update_subscription,
  merge_columns,
}
use somegram_backend.Payments.Answers.{Answer, found}
use somegram_backend.Payments.Handlers.Stripe.{
  Invoice, InvoiceLine, CheckoutSession, StripeEvent, invoice_payment_succeeded,
  invoice_payment_failed, subscription_deleted, session_completed, unhandled, with_period,
  record_paid, settle_paid, settle_failed, invoice_payment_succeeded_handle,
  invoice_payment_failed_handle, complete_session, session_completed_handle, delete_found,
  subscription_deleted_handle, handle_event, stripe_webhook,
}
use somegram_backend.Payments.Database.{DbLaws}
use somegram_backend.Payments.Database.Frames.{
  quiet_then, query_then, change_holds, pure_holds, branch_holds, attempt_holds, holds_then,
  new_date-IsQuiet, emit-IsQuiet, required-IsQuiet, Holds,
}
use somegram_backend.Payments.OneCurrent.{
  IsAtMostOne, HasOnly, current-HasOnly, Fits, update_sub_then, written-IsAtMostOne,
}
use somegram_backend.Payments.OneCurrent.Replacing.{IsReplaced, handle_active_holds}
use somegram_backend.Payments.OneCurrent.Steps.{
  send_notification-IsQuiet, Anything, Keeps, save_transaction_then, found_holds,
}

module _ {E : Env} (L : DbLaws E) where
  by_id_keeps :
      (next : Subscription → Service E Answer) (id : ℕ) (fallback : Answer) (w : World E)
      → IsAtMostOne L w.db
      → ((s : Subscription)
          → L.row w.db s.id ≡ some s
          → Holds (IsAtMostOne L) (Anything L) (next s w))
      → Holds
          (IsAtMostOne L)
          (Anything L)
          (attempt (get_subscription_by_id E id >>= found E next) fallback w)
  unfolding get_subscription_by_id
  by_id_keeps next id fallback w one k =
      let Q = Anything L {A = Answer} in
      attempt_holds (IsAtMostOne L) Q _ _ w
        (query_then (IsAtMostOne L) Q _ _ w one λ o q. found_holds L next o w one λ s p.
          let (here, has) = L.find_first_found (has_id id) w.db s (q ∙ ap some p) in k s here)
        λ v h. tt

  -- Dates do not bear on the property.
  with_period-Fits :
      (s : Subscription) (a b : ℕ) (d : E.Db)
      → IsAtMostOne L d
      → L.row d s.id ≡ some s
      → Fits L (with_period s a b) d
  unfolding with_period
  with_period-Fits s a b d one here cur = current-HasOnly L d s one here cur

  record_paid-Keeps : (s : Subscription) (line : InvoiceLine) → Keeps L (record_paid E s line)
  unfolding record_paid
  record_paid-Keeps s line w one =
      let R = Anything L {A = Unit {0}} in
      branch_holds (IsAtMostOne L) R _ _ _ w
        (λ paid.
          save_transaction_then L R _ _ w one λ i v one₁. pure_holds (IsAtMostOne L) R _ v one₁ tt)
        λ free. pure_holds (IsAtMostOne L) R _ w one tt

  settle_paid_holds :
      (invoice : Invoice) (s : Subscription) (w : World E)
      → IsAtMostOne L w.db
      → L.row w.db s.id ≡ some s
      → Holds (IsAtMostOne L) (Anything L) (settle_paid E invoice s w)
  unfolding settle_paid
  settle_paid_holds invoice s w one here =
      let Q = Anything L {A = Answer} in
      quiet_then (IsAtMostOne L) Q _ _ w (required-IsQuiet _) one λ line w₁ e₁ one₁.
        update_sub_then L Q (with_period s line.period_start line.period_end) _ w₁ one₁
          (with_period-Fits s _ _ w₁.db one₁ (rw e₁ here))
          λ d u one₂.
            quiet_then (IsAtMostOne L) Q _ _ (record w₁ { db = d }) (emit-IsQuiet _) one₂
              λ _ w₃ e₃ one₃.
                quiet_then (IsAtMostOne L) Q _ _ w₃ (send_notification-IsQuiet E _ _) one₃
                  λ _ w₄ e₄ one₄.
                    holds_then (IsAtMostOne L) (Anything L) Q _ _ w₄
                      (record_paid-Keeps _ line w₄ one₄)
                      λ _ w₅ one₅ _. pure_holds (IsAtMostOne L) Q _ w₅ one₅ tt

  settle_failed_holds :
      (invoice : Invoice) (s : Subscription) (w : World E)
      → IsAtMostOne L w.db
      → L.row w.db s.id ≡ some s
      → Holds (IsAtMostOne L) (Anything L) (settle_failed E invoice s w)
  unfolding settle_failed
  settle_failed_holds invoice s w one here =
      let Q = Anything L {A = Answer} in
      update_sub_then L Q (with_period s invoice.period_start invoice.period_end) _ w one
        (with_period-Fits s _ _ w.db one here)
        λ d u one₁.
          quiet_then (IsAtMostOne L) Q _ _ (record w { db = d }) (required-IsQuiet _) one₁
            λ line w₂ e₂ one₂. save_transaction_then L Q _ _ w₂ one₂ λ i w₃ one₃.
              quiet_then (IsAtMostOne L) Q _ _ w₃ (emit-IsQuiet _) one₃
                λ _ w₄ e₄ one₄. pure_holds (IsAtMostOne L) Q _ w₄ one₄ tt

  -- The five columns that are written keep the owner of the row.
  merged-IsAtMostOne :
      (s r : Subscription) (now : ℕ) (d d' : E.Db)
      → E.update s.id (merge_columns s now) d ≡ some d'
      → IsAtMostOne L d
      → L.row d s.id ≡ some r
      → HasOnly L r.user_id s.id d
      → IsAtMostOne L d'
  unfolding merge_columns
  merged-IsAtMostOne s r now d d' e one here only =
      let (r', here', rows) = L.update_row s.id (merge_columns s now) d d' (λ x h. h) e in
      let own : s.id ≡ r'.id = sym (L.row_id d s.id r' here') in
      let same : r.user_id ≡ r'.user_id = ground arith in
      written-IsAtMostOne L (merge_columns s now r') d d'
        (λ j.
          subst (λ i. L.row d' j ≡ (if i == j then some (merge_columns s now r') else L.row d j))
            own (rows j))
        one
        λ cur. subst (λ i. HasOnly L r'.user_id i d) own (subst (λ u. HasOnly L u s.id d) same only)

  update_subscription_keeps :
      (s r : Subscription) (w : World E)
      → IsAtMostOne L w.db
      → L.row w.db s.id ≡ some r
      → HasOnly L r.user_id s.id w.db
      → Holds (IsAtMostOne L) (Anything L) (update_subscription E s w)
  unfolding update_subscription
  update_subscription_keeps s r w one here only =
      let R = Anything L {A = Unit {0}} in
      quiet_then (IsAtMostOne L) R _ _ w new_date-IsQuiet one λ now w₁ e₁ one₁.
        change_holds (IsAtMostOne L) R (E.update s.id (merge_columns s now)) w₁ one₁
          λ d u. (merged-IsAtMostOne s r now w₁.db d u one₁ (rw e₁ here) (rw e₁ only), tt)

  complete_session_holds :
      (session : CheckoutSession) (s : Subscription) (w : World E)
      → IsAtMostOne L w.db
      → L.row w.db s.id ≡ some s
      → Holds (IsAtMostOne L) (Anything L) (complete_session E session s w)
  unfolding complete_session
  complete_session_holds session s w one here =
      let Q = Anything L {A = Answer} in
      let R = Anything L {A = Unit {0}} in
      holds_then (IsAtMostOne L) (IsReplaced L s.user_id s.id w.db) Q _ _ w
        (handle_active_holds L s.user_id s.id w one)
        λ dates w₁ one₁ replaced.
          holds_then (IsAtMostOne L) R Q _ _ w₁
            (update_subscription_keeps _ s w₁ one₁ (replaced.1 ∙ here) replaced.0)
            λ _ w₂ one₂ _. pure_holds (IsAtMostOne L) Q _ w₂ one₂ tt

  delete_found_holds : (s : Option Subscription) → Keeps L (delete_found E s)
  unfolding delete_found
  delete_found_holds none w one = pure_holds (IsAtMostOne L) (Anything L) _ w one tt
  delete_found_holds (some s) w one =
      let Q = Anything L {A = Answer} in
      branch_holds (IsAtMostOne L) Q _ _ _ w (λ done. pure_holds (IsAtMostOne L) Q _ w one tt)
        λ open_. quiet_then (IsAtMostOne L) Q _ _ w new_date-IsQuiet one λ now w₁ e₁ one₁.
          update_sub_then L Q _ _ w₁ one₁ (λ cur. cc)
            λ d u one₂.
              quiet_then (IsAtMostOne L) Q _ _ (record w₁ { db = d }) (emit-IsQuiet _) one₂
                λ _ w₃ e₃ one₃. pure_holds (IsAtMostOne L) Q _ w₃ one₃ tt

  deleted-Keeps : (id : ℕ) → Keeps L (subscription_deleted_handle E id)
  unfolding subscription_deleted_handle get_subscription_by_payment_system_sub_id
  deleted-Keeps id w one =
      let Q = Anything L {A = Answer} in
      attempt_holds (IsAtMostOne L) Q _ _ w
        (query_then (IsAtMostOne L) Q _ _ w one λ o q. delete_found_holds o w one) λ v h. tt

  drop_answer :
      (m : Service E Answer) → Keeps L m → Keeps L (m >>= λ _. pure {A = Option Answer} none)
  drop_answer m k w one =
      holds_then (IsAtMostOne L) (Anything L) (Anything L) m _ w (k w one)
        λ a v one₁ _. pure_holds (IsAtMostOne L) (Anything L) _ v one₁ tt

  handle_event-Keeps : (e : StripeEvent) → Keeps L (handle_event E e)
  unfolding handle_event invoice_payment_succeeded_handle invoice_payment_failed_handle
      session_completed_handle
  handle_event-Keeps (invoice_payment_succeeded invoice) = drop_answer _ λ w one.
      by_id_keeps (settle_paid E invoice) _ _ w one λ s here. settle_paid_holds invoice s w one here
  handle_event-Keeps (invoice_payment_failed invoice) = drop_answer _ λ w one.
      by_id_keeps (settle_failed E invoice) _ _ w one
        λ s here. settle_failed_holds invoice s w one here
  handle_event-Keeps (subscription_deleted id) = drop_answer _ (deleted-Keeps id)
  handle_event-Keeps (session_completed session) = drop_answer _ λ w one.
      by_id_keeps (complete_session E session) _ _ w one
        λ s here. complete_session_holds session s w one here
  handle_event-Keeps unhandled = λ w one. pure_holds (IsAtMostOne L) (Anything L) _ w one tt

  -- However the webhook of Stripe ends, each user has at most one current subscription.
  pub stripe_webhook-Keeps : (body : Option StripeEvent) → Keeps L (stripe_webhook E body)
  unfolding stripe_webhook
  stripe_webhook-Keeps body w one =
      let Q = Anything L {A = Answer} in
      attempt_holds (IsAtMostOne L) Q _ _ w
        (quiet_then (IsAtMostOne L) Q _ _ w (required-IsQuiet body) one λ event w₁ e₁ one₁.
          holds_then (IsAtMostOne L) (Anything L) Q _ _ w₁ (handle_event-Keeps event w₁ one₁)
            λ _ w₂ one₂ _. pure_holds (IsAtMostOne L) Q _ w₂ one₂ tt)
        λ v h. tt
