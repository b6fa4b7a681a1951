-- ===== src/Payments/Live/Sales.antt =====
-- The handlers of PayPal's sales where the services are up.
use somegram_backend.Prelude.{
  ℕ, ◌≡◌, refl, ap, ◌∙◌, subst, sym, true, Option, none, some, find, List, ==→eq, arith,
}
use somegram_backend.Effects.{ok}
use somegram_backend.Outcome.{succeed, fail}
use somegram_backend.Payments.Types.{SubscriptionType, monthly, day, weekly, other_plan, PayPalPlan}
use somegram_backend.Payments.SubscriptionEntity.{Subscription, update}
use somegram_backend.Payments.TransactionEntity
use somegram_backend.Payments.TransactionEntity.{PaymentTransaction}
use somegram_backend.Payments.World.{Env, World, Service}
use somegram_backend.Payments.Repository.{
  has_system_sub_id, holds_id, get_subscription_by_payment_system_sub_id, save_transaction,
}
use somegram_backend.Payments.Service.{handle_date_end, send_notification_after_success_payment}
use somegram_backend.Payments.Adapters.PayPal
use somegram_backend.Payments.Answers.{Answer}
use somegram_backend.Payments.Handlers.PayPal.{
  PaymentSale, is_plan, handle_plan, renew, close_unpaid, with_details, payment,
  generate_data_transaction, payment_succeeded_handle, payment_failed_handle,
}
use somegram_backend.Payments.Database.{DbLaws}
use somegram_backend.Payments.Live.{
  AllUp, Cancels, IsWhole, Answers, HasRow, Answers-then, pure-Answers, attempt-Answers,
  query-Answers, called, required-Answers, write-Answers, new_date-Answers, emit-Answers,
  update_sub-Answers,
}
use somegram_backend.Payments.Live.Replacing.{Leaves, Has, login-Answers, handle_active-Answers}
use somegram_backend.Payments.Live.Sessions.{Succeeds, found-Answers}

-- PayPal names a plan for the agreement whenever it is asked, and the plan is in its list.
pub record IsSold (E : Env) (id : Option ℕ) : Type 0 where
  pub plan_id : ℕ
  pub details_up :
      (token : ℕ) (r : E.Remote)
      → (r' : E.Remote) × (E.get_details token id r ≡ (some (some plan_id), r'))
  pub plans_up :
      (token : ℕ) (r : E.Remote)
      → (plans : List PayPalPlan) × (r' : E.Remote) × (plan : PayPalPlan) × (E.get_plans token r
          ≡ (some plans, r'))
        × (find (is_plan plan_id) plans ≡ some plan)

agreement_eq :
    (id : ℕ) (s : Subscription) → has_system_sub_id id s ≡ true → s.payment_system_sub_id ≡ some id
agreement_eq id s h = on_id s.payment_system_sub_id h
  where
    on_id : (o : Option ℕ) → holds_id id o ≡ true → o ≡ some id
    on_id none h = absurd (ground arith)
    on_id (some j) h = ap some (==→eq j id h)

module _ {E : Env} (L : DbLaws E) (up : AllUp L) {id : Option ℕ} (sold : IsSold E id) where
  details-Answers :
      (w : World E)
      → Answers
          (λ a v. (a ≡ some sold.plan_id) × (v.db ≡ w.db))
          (PayPal.get_subscription_details E id w)
  unfolding PayPal.get_subscription_details
  details-Answers w = Answers-then (Leaves L up w.db) _ _ _ w (login-Answers L up w) λ t v e.
      let (r, here) = sold.details_up t v.remote in
      called _ (E.get_details t id) v (some sold.plan_id) r here (refl, e)

  -- The list of plans has the plan of the subscription.
  plans-Answers :
      (w : World E)
      → Answers
          (λ plans v.
            ((plan : PayPalPlan) × (find (is_plan sold.plan_id) plans ≡ some plan)) × (v.db ≡ w.db))
          (PayPal.get_plans E none w)
  unfolding PayPal.get_plans PayPal.token_or_login
  plans-Answers w = Answers-then (Leaves L up w.db) _ _ _ w (login-Answers L up w) λ t v e.
      let (plans, r, plan, here, listed) = sold.plans_up t v.remote in
      called _ (E.get_plans t) v plans r here ((plan, listed), e)

  handle_plan-Answers : (w : World E) → Answers (Leaves L up w.db) (handle_plan E sold.plan_id w)
  unfolding handle_plan
  handle_plan-Answers w =
      Answers-then _ (Leaves L up w.db) _ _ w (plans-Answers w) λ plans v ((plan, listed), e).
        Answers-then (Leaves L up w.db) (Leaves L up w.db) _ _ v
          (required-Answers (Leaves L up w.db) _ v plan listed e)
          λ p u e'. pure-Answers (Leaves L up w.db) p.name u e'

  date_end-Answers :
      (t : ℕ) (type : SubscriptionType) (w : World E)
      → Answers (Leaves L up w.db) (handle_date_end E t type w)
  unfolding handle_date_end
  date_end-Answers t day w = pure-Answers (Leaves L up w.db) _ w refl
  date_end-Answers t weekly w = pure-Answers (Leaves L up w.db) _ w refl
  date_end-Answers t monthly w = pure-Answers (Leaves L up w.db) _ w refl
  date_end-Answers t other_plan w = new_date-Answers (Leaves L up w.db) w refl

  abbrev Any : {A : Type 0} → A → World E → Type 0
  Any a v = Unit {0}

  save-Answers :
      (t : PaymentTransaction) (w : World E)
      → HasRow L t.sub_id w.db
      → IsWhole t.price
      → Answers Any (save_transaction E t w)
  unfolding save_transaction
  save-Answers t w here whole =
      let (i, d, e) = up.transaction_up t w.db here whole in
      write-Answers Any (E.create_transaction t) w i d e tt

  renew-Answers :
      (sale : PaymentSale) (now : ℕ) (s : Subscription) (w : World E)
      → L.row w.db s.id ≡ some s
      → Cancels L w.db
      → IsWhole sale.total
      → Answers (Succeeds L up) (renew E sale now s sold.plan_id w)
  unfolding renew update generate_data_transaction TransactionEntity.create
      send_notification_after_success_payment
  renew-Answers sale now s w here cancels whole =
      let Q = Succeeds L up in
      Answers-then (Has L up s.id) Q _ _ w
        (handle_active-Answers L up sale.custom s.id w cancels (s, here))
        λ a v kept. Answers-then (Leaves L up v.db) Q _ _ v (handle_plan-Answers v) λ plan v₁ e₁.
          Answers-then (Leaves L up v₁.db) Q _ _ v₁ (date_end-Answers now plan v₁) λ end v₂ e₂.
            Answers-then (Leaves L up v₂.db) Q _ _ v₂ (new_date-Answers (Leaves L up v₂.db) v₂ refl)
              λ at v₃ e₃.
                let kept₃ : HasRow L s.id v₃.db = rw (e₃, e₂, e₁) kept in
                Answers-then (Has L up s.id) Q _ _ v₃
                  (update_sub-Answers L up _ s.id v₃ kept₃ kept₃)
                  λ b v₄ kept₄. Answers-then Any Q _ _ v₄ (save-Answers _ v₄ kept₄ whole) λ i v₅ _.
                    Answers-then Any Q _ _ v₅ (emit-Answers Any _ v₅ tt) λ c v₆ _.
                      Answers-then Any Q _ _ v₆ (emit-Answers Any _ v₆ tt)
                        λ c v₇ _. pure-Answers Q _ v₇ refl

  close_unpaid-Answers :
      (sale : PaymentSale) (now : ℕ) (s : Subscription) (w : World E)
      → L.row w.db s.id ≡ some s
      → IsWhole sale.total
      → Answers (Succeeds L up) (close_unpaid E sale now s sold.plan_id w)
  unfolding close_unpaid update generate_data_transaction TransactionEntity.create
  close_unpaid-Answers sale now s w here whole =
      let Q = Succeeds L up in
      Answers-then (Leaves L up w.db) Q _ _ w (new_date-Answers (Leaves L up w.db) w refl)
        λ at v₁ e₁. Answers-then (Leaves L up v₁.db) Q _ _ v₁ (handle_plan-Answers v₁) λ plan v₂ e₂.
          let kept₂ : HasRow L s.id v₂.db = (s, rw (e₂, e₁) here) in
          Answers-then (Has L up s.id) Q _ _ v₂ (update_sub-Answers L up _ s.id v₂ kept₂ kept₂)
            λ b v₃ kept₃. Answers-then (Any) Q _ _ v₃ (save-Answers _ v₃ kept₃ whole) λ i v₄ _.
              Answers-then (Any) Q _ _ v₄ (emit-Answers (Any) _ v₄ tt)
                λ c v₅ _. pure-Answers Q _ v₅ refl

  payment-Answers :
      (settle : PaymentSale → ℕ → Subscription → ℕ → Service E Answer) (sale : PaymentSale)
      (w : World E) (s : Subscription) (i : ℕ)
      → L.row w.db i ≡ some s
      → has_system_sub_id sale.billing_agreement_id s ≡ true
      → id ≡ some sale.billing_agreement_id
      → ((now : ℕ) (r : Subscription) (v : World E)
          → L.row v.db r.id ≡ some r
          → v.db ≡ w.db
          → Answers (Succeeds L up) (settle sale now r sold.plan_id v))
      → (payment E settle sale w).0 ≡ ok (succeed none)
  unfolding payment get_subscription_by_payment_system_sub_id with_details
  payment-Answers settle sale w s i here known same_id k =
      let p = has_system_sub_id sale.billing_agreement_id in
      let Q = Succeeds L up in
      let (o, e) = up.find_first_up p w.db in
      let (a, v, ended, success) = attempt-Answers Q _ fail w (
        Answers-then (Leaves L up w.db) Q _ _ w (new_date-Answers (Leaves L up w.db) w refl)
          λ now v₁ e₁.
            Answers-then (λ a v. (a ≡ o) × (v ≡ v₁)) Q _ _ v₁
              (query-Answers (λ a v. (a ≡ o) × (v ≡ v₁)) (E.find_first p) v₁ o (rw e₁ e)
                (refl, refl))
              λ a v (same, unchanged).
                let e₂ : v.db ≡ w.db = ap (λ u. u.db) unchanged ∙ e₁ in
                found-Answers L up p _ v s i (rw e₂ here) known a (rw e₂ (e ∙ ap some (sym same)))
                  λ r there own.
                    Answers-then (λ a u. (a ≡ some sold.plan_id) × (u.db ≡ v.db)) Q _ _ v
                      (subst
                        (λ x.
                          Answers (λ a u. (a ≡ some sold.plan_id) × (u.db ≡ v.db))
                            (PayPal.get_subscription_details E x v))
                        (same_id ∙ sym (agreement_eq sale.billing_agreement_id r own))
                        (details-Answers v))
                      λ d u (plan, e₃).
                        subst (λ x. Answers Q (with_details E (settle sale now r) x u)) (sym plan)
                          (k now r u (rw e₃ there) (e₃ ∙ e₂))) in
      ap (λ x. x.0) ended ∙ ap ok success

module _ {E : Env} (L : DbLaws E) (up : AllUp L) where
  -- The database is up, and PayPal gives tokens. A subscription with the agreement of the sale is
  -- in the table, the price is a whole number, as its column demands, PayPal names a plan of its
  -- list for the agreement, and it cancels the current subscriptions of the table that were made
  -- there. Then the handler of a completed and that of a failed PayPal sale answer success.
  pub sale_handles-Succeeds :
      (sale : PaymentSale) (w : World E) (s : Subscription) (i : ℕ)
      → L.row w.db i ≡ some s
      → has_system_sub_id sale.billing_agreement_id s ≡ true
      → IsSold E (some sale.billing_agreement_id)
      → IsWhole sale.total
      → Cancels L w.db
      → ((payment_succeeded_handle E sale w).0 ≡ ok (succeed none))
        × ((payment_failed_handle E sale w).0 ≡ ok (succeed none))
  unfolding payment_succeeded_handle payment_failed_handle
  sale_handles-Succeeds sale w s i here known sold whole cancels = (
    payment-Answers L up sold (renew E) sale w s i here known refl
        λ now r v there e. renew-Answers L up sold sale now r v there (rw e cancels) whole,
    payment-Answers L up sold (close_unpaid E) sale w s i here known refl
        λ now r v there e. close_unpaid-Answers L up sold sale now r v there whole,
  )
