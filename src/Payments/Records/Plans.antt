-- ===== src/Payments/Records/Plans.antt =====
-- Which plan a PayPal subscription has, as far as PayPal tells.
use somegram_backend.Prelude.{ℕ, ◌≡◌, refl, ap, ◌∙◌, List, Option, none, some, find}
use somegram_backend.Effects.{◌>>=◌, pure}
use somegram_backend.Payments.Types.{SubscriptionType, PayPalPlan}
use somegram_backend.Payments.SubscriptionEntity.{Subscription}
use somegram_backend.Payments.World.{Env, World, required}
use somegram_backend.Payments.Adapters.PayPal.{get_plans, token_or_login, get_subscription_details}
use somegram_backend.Payments.Adapters.Quiet.{login-IsQuiet}
use somegram_backend.Payments.Handlers.PayPal.{is_plan, handle_plan}
use somegram_backend.Payments.Database.Frames.{Holds, quiet_then, holds_then, called_records}
use somegram_backend.Payments.Records.{Always}

module _ (E : Env) where
  -- PayPal has named the plan of the subscription.
  abbrev pub HasPlanId : Subscription → ℕ → Type 0
  HasPlanId s plan_id =
      (token : ℕ) × (r : E.Remote) × ((E.get_details token s.payment_system_sub_id r).0
        ≡ some (some plan_id))

  pub details_records :
      (s : Subscription) (w : World E)
      → Holds Always
          (λ o v. ((plan_id : ℕ) → o ≡ some plan_id → HasPlanId s plan_id) × (v.db ≡ w.db))
          (get_subscription_details E s.payment_system_sub_id w)
  unfolding get_subscription_details
  details_records s w = quiet_then Always _ _ _ w (login-IsQuiet E) tt λ token v e _.
      called_records _ (E.get_details token s.payment_system_sub_id) v
        λ o r answered. (λ plan_id named. (token, v.remote, answered ∙ ap some named), e)

  -- A list of plans of PayPal has the plan under that name.
  abbrev pub IsListed : ℕ → SubscriptionType → Type 0
  IsListed plan_id name =
      (token : ℕ) × (r : E.Remote) × (plans : List PayPalPlan) × (plan : PayPalPlan) × ((E.get_plans
          token r).0
        ≡ some plans)
      × (find (is_plan plan_id) plans ≡ some plan)
      × (name ≡ plan.name)

  -- The plan that PayPal has named for the subscription.
  abbrev pub IsPlanOf : Subscription → SubscriptionType → Type 0
  IsPlanOf s name = (plan_id : ℕ) × HasPlanId s plan_id × IsListed plan_id name

  named_records :
      (plan_id : ℕ) (w : World E) (plans : List PayPalPlan) (v : World E)
      → (token : ℕ) × (r : E.Remote) × ((E.get_plans token r).0 ≡ some plans)
      → v.db ≡ w.db
      → (o : Option PayPalPlan) → find (is_plan plan_id) plans ≡ o
      → Holds Always
          (λ name v. IsListed plan_id name × (v.db ≡ w.db))
          ((required o >>= λ plan. pure plan.name) v)
  unfolding required ◌>>=◌ pure
  named_records plan_id w plans v (token, r, answered) e none q = tt
  named_records plan_id w plans v (token, r, answered) e (some plan) q =
      (tt, ((token, r, plans, plan, answered, q, refl), e))

  pub handle_plan_records :
      (plan_id : ℕ) (w : World E)
      → Holds Always (λ name v. IsListed plan_id name × (v.db ≡ w.db)) (handle_plan E plan_id w)
  unfolding handle_plan get_plans token_or_login
  handle_plan_records plan_id w =
      let R : List PayPalPlan → World E → Type 0 = λ plans v.
        ((token : ℕ) × (r : E.Remote) × ((E.get_plans token r).0 ≡ some plans)) × (v.db ≡ w.db) in
      holds_then Always R (λ name v. IsListed plan_id name × (v.db ≡ w.db)) _ _ w
        (quiet_then Always R _ _ w (login-IsQuiet E) tt λ token v e _.
          called_records R (E.get_plans token) v
            λ plans r answered. ((token, v.remote, answered), e))
        λ plans v _ ((token, r, answered), e).
          named_records plan_id w plans v (token, r, answered) e (find (is_plan plan_id) plans) refl
