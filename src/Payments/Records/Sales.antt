-- ===== src/Payments/Records/Sales.antt =====
-- How the two handlers of PayPal's sales begin.
use somegram_backend.Prelude.{ℕ, ◌≡◌, refl, ap, subst, ◌∙◌, true, Option, none, some, arith}
use somegram_backend.Effects.{ok}
use somegram_backend.Outcome.{succeed, fail}
use somegram_backend.Payments.SubscriptionEntity.{Subscription}
use somegram_backend.Payments.World.{Env, World, Service}
use somegram_backend.Payments.Repository.{
  has_system_sub_id, get_subscription_by_payment_system_sub_id,
}
use somegram_backend.Payments.Answers.{Answer}
use somegram_backend.Payments.Records.Plans.{HasPlanId, details_records}
use somegram_backend.Payments.Handlers.PayPal.{PaymentSale, with_details, payment}
use somegram_backend.Payments.Database.{DbLaws}
use somegram_backend.Payments.Database.Frames.{Holds, query_then, pure_holds, holds_then}
use somegram_backend.Payments.Records.{
  Always, OnSuccess, on_success, success_map, new_date_then, attempt_success, found_success,
}

module _ {E : Env} (L : DbLaws E) where
  -- The subscription of a sale, as it was before.
  abbrev pub IsOfSale : PaymentSale → Subscription → E.Db → Type 0
  IsOfSale sale s d =
      (L.row d s.id ≡ some s) × (has_system_sub_id sale.billing_agreement_id s ≡ true)

  with_details_success :
      (R : World E → Type 0) (next : ℕ → Service E Answer) (o : Option ℕ) (w : World E)
      → ((plan_id : ℕ) → o ≡ some plan_id → Holds Always (OnSuccess R) (next plan_id w))
      → Holds Always (OnSuccess R) (with_details E next o w)
  unfolding with_details
  with_details_success R next none w k =
      pure_holds Always (OnSuccess R) fail w tt λ e. absurd (ground arith)
  with_details_success R next (some plan_id) w k = k plan_id refl

  pub payment_records :
      (settle : PaymentSale → ℕ → Subscription → ℕ → Service E Answer)
      (Q : ℕ → PaymentSale → Subscription → E.Db → World E → Type 0) (sale : PaymentSale)
      (w : World E)
      → ((now : ℕ) (s : Subscription) (plan_id : ℕ) (v : World E)
          → HasPlanId E s plan_id
          → Holds Always (OnSuccess (Q now sale s v.db)) (settle sale now s plan_id v))
      → (payment E settle sale w).0 ≡ ok (succeed none)
      → (s : Subscription) × IsOfSale sale s w.db
        × Q (E.clock w.reads) sale s w.db (payment E settle sale w).1
  unfolding payment get_subscription_by_payment_system_sub_id
  payment_records settle Q sale w h =
      let now = E.clock w.reads in
      let R : World E → Type 0 =
        λ v. (s : Subscription) × IsOfSale sale s w.db × Q now sale s w.db v in
      on_success Always R _ (
        attempt_success R _ w (
          new_date_then Always (OnSuccess R) _ w (
            query_then Always (OnSuccess R) _ _ _ tt λ o e. found_success R _ o _ λ s same.
              let of_sale =
                L.find_first_found (has_system_sub_id sale.billing_agreement_id) w.db s
                  (e ∙ ap some same) in
              holds_then Always _ (OnSuccess R) _ _ _ (details_records E s _)
                λ details v _ (named, same_db). with_details_success R _ details v λ plan_id is_id.
                  success_map (Q now sale s v.db) R _
                    (λ u q. (s, of_sale, subst (λ d. Q now sale s d u) same_db q))
                    (h now s plan_id v (named plan_id is_id)))))
