-- ===== src/Payments/Records/Renewal.antt =====
-- What `PayPalPaymentSucceededHandler` has recorded when it answers success.
use somegram_backend.Prelude.{ℕ, ◌≡◌, refl, ap, ◌∙◌, true, List, ◌∷◌, none, some}
use somegram_backend.Effects.{ok}
use somegram_backend.Outcome.{succeed}
use somegram_backend.Payments.Types.{
  SubscriptionType, active, payment_succeeded, Message, send_subscription_info,
  create_notification_with_delay,
}
use somegram_backend.Payments.SubscriptionEntity.{Subscription, update}
use somegram_backend.Payments.TransactionEntity.{PaymentTransaction, create}
use somegram_backend.Payments.World.{Env, World}
use somegram_backend.Payments.Service.{send_notification_after_success_payment, convert_to_dd_mm_yy}
use somegram_backend.Payments.Handlers.PayPal.{
  PaymentSale, generate_data_transaction, generate_data_update_subscription, renew,
  payment_succeeded_handle,
}
use somegram_backend.Payments.Database.{DbLaws}
use somegram_backend.Payments.Database.Frames.{
  Holds, quiet_then, pure_holds, holds_then, new_date-IsQuiet,
}
use somegram_backend.Payments.Records.{
  Always, OnSuccess, emit_then, SamePayments, handle_active_payments,
}
use somegram_backend.Payments.Records.Plans.{HasPlanId, IsListed, IsPlanOf, handle_plan_records}
use somegram_backend.Payments.Records.Period.{IsEnd, handle_date_end_holds}
use somegram_backend.Payments.Records.Writes.{update_records, save_records}
use somegram_backend.Payments.Records.Sales.{IsOfSale, payment_records}

module _ {E : Env} (L : DbLaws E) where
  -- After a paid sale: the row of the subscription is active until the end of the new period, one
  -- transaction with the same end is recorded, and the gateway is told of the end and asked for a
  -- notification.
  pub record Renewed (paid_at : ℕ) (sale : PaymentSale) (s : Subscription) (before : E.Db)
      (v : World E) : Type 0 where
    plan : SubscriptionType
    is_plan : IsPlanOf E s plan
    end : ℕ
    lasts : IsEnd E paid_at plan end
    row : Subscription
    there : L.row v.db s.id ≡ some row
    is_active : row.status ≡ active
    renews : row.auto_renewal ≡ true
    paid : row.date_of_payment ≡ some sale.create_time
    ends : row.end_date_of_subscription ≡ some end
    transaction : PaymentTransaction
    recorded : L.payments v.db ≡ transaction ∷ L.payments before
    is_paid : transaction.status ≡ payment_succeeded
    dated : transaction.date_of_payment ≡ some paid_at
    amount : transaction.price ≡ sale.total
    of_sub : transaction.sub_id ≡ s.id
    of_plan : transaction.subscription_type ≡ some plan
    transaction_ends : transaction.end_date_of_subscription ≡ some end
    sent : List Message
    told :
        v.outbox
        ≡ create_notification_with_delay
            (record { user_id = s.user_id; message = convert_to_dd_mm_yy end })
          ∷ send_subscription_info
              (record { user_id = s.user_id; end_date_of_subscription = some end })
          ∷ sent

  renew_records :
      (sale : PaymentSale) (now : ℕ) (s : Subscription) (plan_id : ℕ) (w : World E)
      → HasPlanId E s plan_id
      → Holds Always (OnSuccess (Renewed now sale s w.db)) (renew E sale now s plan_id w)
  unfolding renew update generate_data_update_subscription create generate_data_transaction
      send_notification_after_success_payment
  renew_records sale now s plan_id w named =
      let Q = OnSuccess (Renewed now sale s w.db) in
      holds_then Always (λ a v. SamePayments L w.db v.db) Q _ _ w
        (handle_active_payments L sale.custom s.id w)
        λ a v₁ _ same₁.
          holds_then Always (λ plan v. IsListed E plan_id plan × (v.db ≡ v₁.db)) Q _ _ v₁
            (handle_plan_records E plan_id v₁)
            λ plan v₂ _ (listed, e₂).
              holds_then Always (λ end v. IsEnd E now plan end × (v.db ≡ v₂.db)) Q _ _ v₂
                (handle_date_end_holds E plan now v₂)
                λ end v₃ _ (lasts, e₃).
                  quiet_then Always Q _ _ v₃ new_date-IsQuiet tt λ updated_at v₄ e₄ _.
                    update_records L Q _ _ v₄ λ d there same₅.
                      save_records L Q _ _ (record v₄ { db = d })
                        λ i d₂ rows new.
                          emit_then Always Q _ _ (record v₄ { db = d₂ })
                            (emit_then Always Q _ _ _ (
                              pure_holds Always Q _ _ tt λ _.
                                let t = create (
                                  generate_data_transaction payment_succeeded sale.total s.id plan
                                    now (some end)) in
                                record {
                                  plan = plan;
                                  is_plan = (plan_id, named, listed);
                                  end = end;
                                  lasts = lasts;
                                  row = update s (
                                      generate_data_update_subscription active sale.custom
                                        sale.create_time (some end) updated_at);
                                  there = rows s.id ∙ there;
                                  is_active = refl;
                                  renews = refl;
                                  paid = refl;
                                  ends = refl;
                                  transaction = t;
                                  recorded =
                                      new
                                      ∙ ap (λ l. t ∷ l)
                                          (same₅ ∙ ap L.payments (e₄ ∙ e₃ ∙ e₂) ∙ same₁);
                                  is_paid = refl;
                                  dated = refl;
                                  amount = refl;
                                  of_sub = refl;
                                  of_plan = refl;
                                  transaction_ends = refl;
                                  sent = v₄.outbox;
                                  told = refl;
                                }))

  -- When the handler of a completed PayPal sale answers success, the sale belongs to a
  -- subscription of the table, and the sale has been recorded for the plan that PayPal has named for
  -- the subscription. The row is active and renewing and lasts until the end of the period of that
  -- plan from the clock's reading on: a day, a week or the length of the month, or, for a plan of
  -- another name, until a reading of the clock. One succeeded transaction of the same plan, end,
  -- price and date is added, and the last two messages tell the gateway of the end and ask it to
  -- notify the user.
  pub payment_succeeded_handle-Renewed :
      (sale : PaymentSale) (w : World E)
      → (payment_succeeded_handle E sale w).0 ≡ ok (succeed none)
      → (s : Subscription) × IsOfSale L sale s w.db
        × Renewed (E.clock w.reads) sale s w.db (payment_succeeded_handle E sale w).1
  unfolding payment_succeeded_handle
  payment_succeeded_handle-Renewed sale w e =
      payment_records L (renew E) Renewed sale w (renew_records sale) e
