-- ===== src/Payments/Adapters/PayPal.antt =====
-- common/adapters/paypal.adapter.ts. Every public method gets an access token first, unless it is
-- given one; `fetch` and `handleResult` are the client's calls in `Env`.
use somegram_backend.Prelude.{
  ℕ, String, Bool, true, false, ◌&&◌, List, [], ◌∷◌, Option, none, some, find,
}
use somegram_backend.Effects.{◌>>=◌, ◌>>◌, pure, attempt, branch}
use somegram_backend.Outcome.{AppNotificationResultEnum, success, AppNotificationResult}
use somegram_backend.Payments.Types.{
  SubscriptionType, monthly, day, weekly, other_plan, PaymentData, PayPalPlan, PayPalLinksRel,
  approve, ManageAction, suspend, activate, cancel, CreateSubscriptionData,
}
use somegram_backend.Payments.World.{Env, Service, call, required}
use somegram_backend.Payments.Adapters.Commands.{paypal_subscription_create}
use text.Mathlib.Text.{◌==◌ as str_eq}

-- `PayPalProductIdEnum[type]`
unfoldable pub product_key : SubscriptionType → Option String
product_key monthly = some "monthly_p"
product_key day = some "daily_p"
product_key weekly = some "weekly_p"
product_key other_plan = none

abbrev pub is_key : Option String → String → Bool
is_key none id = false
is_key (some key) id = str_eq id key

unfoldable pub sells : SubscriptionType → PayPalPlan → Bool
sells type p = is_key (product_key type) p.product_id && p.is_active

abbrev pub is_approve : PayPalLinksRel × String → Bool
is_approve (approve, href) = true
is_approve (_, href) = false

abbrev pub href : PayPalLinksRel × String → String
href (rel, link) = link

abbrev pub is_success : AppNotificationResultEnum → Bool
is_success success = true
is_success _ = false

unfoldable pub subscription_data : PaymentData → ℕ → Option ℕ → CreateSubscriptionData
subscription_data payload plan_id start_date = record {
  plan_id = plan_id;
  custom_id = payload.user_info.user_id;
  user_name = payload.user_info.user_name;
  email = payload.user_info.email;
  start_time = start_date;
}

module _ (E : Env) where
  unfoldable pub login : Service E ℕ
  login = call E.fetch_token

  -- `if (!accessToken) accessToken = await this.login()`
  unfoldable pub token_or_login : Option ℕ → Service E ℕ
  token_or_login none = login
  token_or_login (some token) = pure token

  unfoldable pub get_plans : Option ℕ → Service E (List PayPalPlan)
  get_plans token = do t ← token_or_login token; call (E.get_plans t)

  unfoldable pub get_subscription_details : Option ℕ → Service E (Option ℕ)
  get_subscription_details id = do t ← login; call (E.get_details t id)

  -- A link is read only after the subscription is recorded.
  unfoldable pub approved_link :
      Option (PayPalLinksRel × String)
      → AppNotificationResult (Unit {0}) (Unit {0})
      → Service E (Option String)
  approved_link link r =
      branch (is_success r.app_result) (do l ← required link; pure (some (href l))) (pure none)

  unfoldable pub create_auto_payment : PaymentData → Option ℕ → Option ℕ → Service E (Option String)
  create_auto_payment payload token start_date =
      attempt
        (do
          t ← token_or_login token
          plans ← get_plans (some t)
          plan ← required (find (sells payload.subscription_type) plans)
          created ← call (E.post_subscription t (subscription_data payload plan.id start_date))
          result ←
              paypal_subscription_create E payload.user_info created.id payload.subscription_type
          approved_link (find is_approve created.links) result)
        none

  unfoldable pub update_auto_payment : PaymentData → Service E (Option String)
  update_auto_payment payload = do
    t ← login
    create_auto_payment payload (some t) payload.current_sub_date_end

  unfoldable pub manage : ManageAction → Option ℕ → Service E Bool
  manage action id = do t ← login; call (E.post_manage t action id); pure true

  unfoldable pub disable_auto_renewal : Option ℕ → Service E Bool
  disable_auto_renewal id = attempt (manage suspend id) false

  unfoldable pub enable_auto_renewal : Option ℕ → Service E Bool
  enable_auto_renewal id = attempt (manage activate id) false

  -- Nothing is caught here.
  unfoldable pub cancel_subscription : Option ℕ → Service E Bool
  cancel_subscription id = manage cancel id

  -- The calls are made one after the other; the code has up to eight of them under way.
  unfoldable pub cancel_each : ℕ → List (Option ℕ) → Service E (Unit {0})
  cancel_each t [] = pure tt
  cancel_each t (id ∷ ids) = do call (E.post_manage t cancel id); cancel_each t ids

  unfoldable pub cancel_many_subscription : List (Option ℕ) → Service E Bool
  cancel_many_subscription ids = do t ← login; cancel_each t ids; pure true
