-- ===== src/Payments/OneCurrent/PayPalPayments.antt =====
-- The two payment handlers of PayPal on tables with at most one current subscription for each user.
use somegram_backend.Prelude.{ℕ, ◌≡◌, ap, ◌∙◌, true, none, some}
use somegram_backend.Payments.SubscriptionEntity.{Subscription, update}
use somegram_backend.Payments.World.{Env, World, Service}
use somegram_backend.Payments.Repository.{
  has_system_sub_id, get_subscription_by_payment_system_sub_id,
}
use somegram_backend.Payments.Adapters.Quiet.{get_subscription_details-IsQuiet}
use somegram_backend.Payments.Answers.{Answer}
use somegram_backend.Payments.Handlers.PayPal.{
  PaymentSale, generate_data_update_subscription, renew, close_unpaid, with_details, payment,
}
use somegram_backend.Payments.Database.{DbLaws}
use somegram_backend.Payments.Database.Frames.{
  quiet_then, query_then, pure_holds, attempt_holds, holds_then, new_date-IsQuiet, emit-IsQuiet,
  Holds,
}
use somegram_backend.Payments.OneCurrent.{IsAtMostOne, update_sub_then}
use somegram_backend.Payments.OneCurrent.Replacing.{IsReplaced, handle_active_holds}
use somegram_backend.Payments.OneCurrent.Steps.{
  handle_plan-IsQuiet, handle_date_end-IsQuiet, send_notification-IsQuiet, Anything,
  save_transaction_then, found_holds,
}

module _ {E : Env} (L : DbLaws E) where
  -- A renewal, for a sale that names the owner of the subscription.
  pub renew_holds :
      (sale : PaymentSale) (now : ℕ) (s : Subscription) (plan_id : ℕ) (w : World E)
      → IsAtMostOne L w.db
      → s.user_id ≡ sale.custom
      → Holds (IsAtMostOne L) (Anything L) (renew E sale now s plan_id w)
  unfolding renew update generate_data_update_subscription
  renew_holds sale now s plan_id w one own =
      let Q = Anything L {A = Answer} in
      holds_then (IsAtMostOne L) (IsReplaced L sale.custom s.id w.db) Q _ _ w
        (handle_active_holds L sale.custom s.id w one)
        λ dates w₁ one₁ replaced.
          quiet_then (IsAtMostOne L) Q _ _ w₁ (handle_plan-IsQuiet E plan_id) one₁
            λ name w₂ e₂ one₂.
              quiet_then (IsAtMostOne L) Q _ _ w₂ (handle_date_end-IsQuiet E now name) one₂
                λ end w₃ e₃ one₃.
                  quiet_then (IsAtMostOne L) Q _ _ w₃ new_date-IsQuiet one₃ λ at w₄ e₄ one₄.
                    update_sub_then L Q _ _ w₄ one₄ (λ cur. rw (e₄, e₃, e₂, own) replaced.0)
                      λ d u one₅.
                        save_transaction_then L Q _ _ (record w₄ { db = d }) one₅
                          λ i w₆ one₆.
                            quiet_then (IsAtMostOne L) Q _ _ w₆ (emit-IsQuiet _) one₆
                              λ _ w₇ e₇ one₇.
                                quiet_then (IsAtMostOne L) Q _ _ w₇
                                  (send_notification-IsQuiet E s.user_id end) one₇
                                  λ _ w₈ e₈ one₈. pure_holds (IsAtMostOne L) Q _ w₈ one₈ tt

  pub close_unpaid_holds :
      (sale : PaymentSale) (now : ℕ) (s : Subscription) (plan_id : ℕ) (w : World E)
      → IsAtMostOne L w.db
      → Holds (IsAtMostOne L) (Anything L) (close_unpaid E sale now s plan_id w)
  unfolding close_unpaid update generate_data_update_subscription
  close_unpaid_holds sale now s plan_id w one =
      let Q = Anything L {A = Answer} in
      quiet_then (IsAtMostOne L) Q _ _ w new_date-IsQuiet one λ at w₁ e₁ one₁.
        quiet_then (IsAtMostOne L) Q _ _ w₁ (handle_plan-IsQuiet E plan_id) one₁ λ name w₂ e₂ one₂.
          update_sub_then L Q _ _ w₂ one₂ (λ cur. cc)
            λ d u one₃.
              save_transaction_then L Q _ _ (record w₂ { db = d }) one₃
                λ i w₄ one₄.
                  quiet_then (IsAtMostOne L) Q _ _ w₄ (emit-IsQuiet _) one₄
                    λ _ w₅ e₅ one₅. pure_holds (IsAtMostOne L) Q _ w₅ one₅ tt

  -- Both payment handlers read the subscription and its details first.
  pub payment_keeps :
      (settle : PaymentSale → ℕ → Subscription → ℕ → Service E Answer) (sale : PaymentSale)
      (w : World E)
      → IsAtMostOne L w.db
      → ((now : ℕ) (s : Subscription) (plan_id : ℕ) (v : World E)
          → IsAtMostOne L v.db
          → L.row w.db s.id ≡ some s
          → has_system_sub_id sale.billing_agreement_id s ≡ true
          → Holds (IsAtMostOne L) (Anything L) (settle sale now s plan_id v))
      → Holds (IsAtMostOne L) (Anything L) (payment E settle sale w)
  unfolding payment get_subscription_by_payment_system_sub_id with_details
  payment_keeps settle sale w one k =
      let Q = Anything L {A = Answer} in
      attempt_holds (IsAtMostOne L) Q _ _ w
        (quiet_then (IsAtMostOne L) Q _ _ w new_date-IsQuiet one λ now w₁ e₁ one₁.
          query_then (IsAtMostOne L) Q _ _ w₁ one₁ λ o q. found_holds L _ o w₁ one₁ λ s p.
            let asked = E.find_first (has_system_sub_id sale.billing_agreement_id) in
            let (here, has) =
              L.find_first_found (has_system_sub_id sale.billing_agreement_id) w.db s
                (rw (← e₁) (q ∙ ap some p)) in
            quiet_then (IsAtMostOne L) Q _ _ w₁ (get_subscription_details-IsQuiet E _) one₁ (elim [
              | none ↦ λ w₂ e₂ one₂. pure_holds (IsAtMostOne L) Q _ w₂ one₂ tt
              | some plan ↦ λ w₂ e₂ one₂. k now s plan w₂ one₂ here has
            ]))
        λ v h. tt
