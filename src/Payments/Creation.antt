-- ===== src/Payments/Creation.antt =====
-- `createPayment` and the rows that it writes, for any property of the table that a new pending row
-- of the user cannot break.
pub mod Rows
use somegram_backend.Prelude.{
  ℕ, String, ◌≡◌, refl, sym, subst, Bool, true, false, List, [], ◌∷◌, Option, none, some, ◌==◌,
  if◌then◌else◌,
}
use somegram_backend.Effects.{◌>>=◌, ◌>>◌, pure, attempt, branch}
use somegram_backend.Payments.Types.{
  PaymentSystem, SubscriptionType, pending, is_current, UserInfo, PaymentData,
}
use somegram_backend.Payments.SubscriptionEntity.{Subscription, SubscriptionInputDto}
use somegram_backend.Payments.SubscriptionEntity
use somegram_backend.Payments.World.{Env, World, Service, new_date}
use somegram_backend.Payments.Repository.{create_sub, get_active_subscription_by_user_id}
use somegram_backend.Payments.Adapters.Commands.{
  generate_paypal_data, generate_stripe_data, paypal_subscription_create,
  stripe_subscription_create,
}
use somegram_backend.Payments.Adapters.PayPal
use somegram_backend.Payments.Adapters.Stripe
use somegram_backend.Payments.Adapters.Manager
use somegram_backend.Payments.Adapters.Quiet.{get_plans-IsQuiet}
use somegram_backend.Payments.Commands.{
  is_valid_active_subscription, url_answer, with_current, generate_payment_data,
  handle_subscription_update, handle_new_subscription, create_payment,
}
use somegram_backend.Payments.Database.{DbLaws}
use somegram_backend.Payments.Database.Frames.{
  IsQuiet, call-IsQuiet, required-IsQuiet, query-IsQuiet, pure-IsQuiet, new_date-IsQuiet,
  write_holds, quiet_last, pure_holds, branch_holds, attempt_holds, holds_then, Holds, >>=-IsQuiet,
}
use somegram_backend.Payments.OneCurrent.{IsAtMostOne, idle-Fits, written-IsAtMostOne}
use somegram_backend.Payments.OneCurrent.Steps.{Anything, Keeps}

module _ {E : Env} (L : DbLaws E) (P : E.Db → Type 0) where
  -- `P` of the database before, and so after, however `m` ends.
  abbrev pub Stays : {A : Type 0} → Service E A → Type 0
  Stays m = (w : World E) → P w.db → Holds P (Anything L) (m w)

  >>=-Stays :
      {A B : Type 0} (m : Service E A) (f : A → Service E B)
      → Stays m
      → ((a : A) → Stays (f a))
      → Stays (m >>= f)
  >>=-Stays m f h k w one =
      holds_then P (Anything L) (Anything L) m f w (h w one) λ a v one' _. k a v one'

  quiet-Stays : {A : Type 0} (m : Service E A) → IsQuiet m → Stays m
  quiet-Stays m q w one = quiet_last P (Anything L) m w q one λ a v. tt

  attempt-Stays : {A : Type 0} (m : Service E A) (a : A) → Stays m → Stays (attempt m a)
  attempt-Stays m a h w one = attempt_holds P (Anything L) m a w (h w one) λ v _. tt

  branch-Stays :
      {A : Type 0} (b : Bool) (m n : Service E A) → Stays m → Stays n → Stays (branch b m n)
  branch-Stays b m n h k w one = branch_holds P (Anything L) b m n w (λ _. h w one) (λ _. k w one)

  module _ (user : ℕ)
      (new_row : (f : ℕ → Subscription) (i : ℕ) (d d' : E.Db)
        → ((j : ℕ) → (f j).id ≡ j)
        → (f i).status ≡ pending
        → (f i).user_id ≡ user
        → E.create_subscription f d ≡ some (i, d')
        → P d
        → P d') where
    create_sub-Stays :
        (dto : SubscriptionInputDto)
        → dto.status ≡ pending
        → dto.user_id ≡ user
        → Stays (create_sub E (SubscriptionEntity.create dto))
    unfolding create_sub SubscriptionEntity.create
    create_sub-Stays dto idle own w one =
        write_holds P (Anything L) (E.create_subscription (SubscriptionEntity.create dto)) w one
          λ i d e. (new_row (SubscriptionEntity.create dto) i w.db d (λ j. refl) idle own e one, tt)

    paypal_subscription_create-Stays :
        (u : UserInfo) (id : ℕ) (type : SubscriptionType)
        → u.user_id ≡ user
        → Stays (paypal_subscription_create E u id type)
    unfolding paypal_subscription_create generate_paypal_data
    paypal_subscription_create-Stays u id type own = attempt-Stays _ _ (
        >>=-Stays _ _ (quiet-Stays _ new_date-IsQuiet) λ now.
          >>=-Stays _ _ (create_sub-Stays (generate_paypal_data u id type now) refl own)
            λ _. quiet-Stays _ (pure-IsQuiet _))

    stripe_subscription_create-Stays :
        (u : UserInfo) (type : SubscriptionType)
        → u.user_id ≡ user
        → Stays (stripe_subscription_create E u type)
    unfolding stripe_subscription_create generate_stripe_data
    stripe_subscription_create-Stays u type own = attempt-Stays _ _ (
        >>=-Stays _ _ (quiet-Stays _ new_date-IsQuiet) λ now.
          >>=-Stays _ _ (create_sub-Stays (generate_stripe_data u type now) refl own)
            λ _. quiet-Stays _ (pure-IsQuiet _))

    token_or_login-Stays : (token : Option ℕ) → Stays (PayPal.token_or_login E token)
    unfolding PayPal.token_or_login PayPal.login
    token_or_login-Stays none = quiet-Stays _ (call-IsQuiet _)
    token_or_login-Stays (some t) = quiet-Stays _ (pure-IsQuiet t)

    paypal_payment-Stays :
        (p : PaymentData) (token start : Option ℕ)
        → p.user_info.user_id ≡ user
        → Stays (PayPal.create_auto_payment E p token start)
    unfolding PayPal.create_auto_payment PayPal.approved_link
    paypal_payment-Stays p token start own = attempt-Stays _ _ (
        >>=-Stays _ _ (token_or_login-Stays token) λ t.
          >>=-Stays _ _ (quiet-Stays _ (get_plans-IsQuiet E (some t))) λ plans.
            >>=-Stays _ _ (quiet-Stays _ (required-IsQuiet _)) λ plan.
              >>=-Stays _ _ (quiet-Stays _ (call-IsQuiet _)) λ created.
                >>=-Stays _ _
                  (paypal_subscription_create-Stays p.user_info created.id p.subscription_type own)
                  λ result.
                    branch-Stays _ _ _
                      (quiet-Stays _ (>>=-IsQuiet _ _ (required-IsQuiet _) λ l. pure-IsQuiet _))
                      (quiet-Stays _ (pure-IsQuiet _)))

    paypal_update-Stays :
        (p : PaymentData) → p.user_info.user_id ≡ user → Stays (PayPal.update_auto_payment E p)
    unfolding PayPal.update_auto_payment PayPal.login
    paypal_update-Stays p own =
        >>=-Stays _ _ (quiet-Stays _ (call-IsQuiet _)) λ t. paypal_payment-Stays p (some t) _ own

    customer_of-IsQuiet : (user : UserInfo) (l : List ℕ) → IsQuiet (Stripe.customer_of E user l)
    unfolding Stripe.customer_of
    customer_of-IsQuiet user [] = call-IsQuiet _
    customer_of-IsQuiet user (c ∷ l) = pure-IsQuiet c

    find_customer-IsQuiet : (user : UserInfo) → IsQuiet (Stripe.find_customer E user)
    unfolding Stripe.find_customer
    find_customer-IsQuiet user = >>=-IsQuiet _ _ (call-IsQuiet _) (customer_of-IsQuiet user)

    stripe_payment-Stays :
        (p : PaymentData) → p.user_info.user_id ≡ user → Stays (Stripe.create_auto_payment E p)
    unfolding Stripe.create_auto_payment
    stripe_payment-Stays p own = attempt-Stays _ _ (
        >>=-Stays _ _ (quiet-Stays _ (find_customer-IsQuiet p.user_info)) λ c.
          >>=-Stays _ _ (stripe_subscription_create-Stays p.user_info p.subscription_type own)
            λ result.
              branch-Stays _ _ _ (quiet-Stays _ (call-IsQuiet _)) (quiet-Stays _ (pure-IsQuiet _)))

    stripe_update-Stays :
        (p : PaymentData) → p.user_info.user_id ≡ user → Stays (Stripe.update_auto_payment E p)
    unfolding Stripe.update_auto_payment
    stripe_update-Stays p own = attempt-Stays _ _ (
        >>=-Stays _ _ (stripe_subscription_create-Stays p.user_info p.subscription_type own)
          λ result.
            branch-Stays _ _ _
              (quiet-Stays _ (
                >>=-IsQuiet _ _ new_date-IsQuiet
                  λ now. >>=-IsQuiet _ _ (find_customer-IsQuiet p.user_info) λ c. call-IsQuiet _))
              (quiet-Stays _ (pure-IsQuiet _)))

    create_by-Stays :
        (system : PaymentSystem) (p : PaymentData)
        → p.user_info.user_id ≡ user
        → Stays (Manager.create_auto_payment_by E system p)
    unfolding Manager.create_auto_payment_by
    create_by-Stays PaymentSystem.paypal p own = paypal_payment-Stays p none none own
    create_by-Stays PaymentSystem.stripe p own = stripe_payment-Stays p own
    create_by-Stays PaymentSystem.unknown p own = quiet-Stays _ (pure-IsQuiet _)

    update_by-Stays :
        (system : PaymentSystem) (p : PaymentData)
        → p.user_info.user_id ≡ user
        → Stays (Manager.update_current_sub_by E system p)
    unfolding Manager.update_current_sub_by
    update_by-Stays PaymentSystem.paypal p own = paypal_update-Stays p own
    update_by-Stays PaymentSystem.stripe p own = stripe_update-Stays p own
    update_by-Stays PaymentSystem.unknown p own = quiet-Stays _ (pure-IsQuiet _)

    url_answer-Stays : (url : Option String) → Stays (url_answer E url)
    unfolding url_answer
    url_answer-Stays none = quiet-Stays _ (pure-IsQuiet _)
    url_answer-Stays (some url) = quiet-Stays _ (pure-IsQuiet _)

    is_valid-Stays : (s : Option Subscription) → Stays (is_valid_active_subscription E s)
    unfolding is_valid_active_subscription
    is_valid-Stays none = quiet-Stays _ (pure-IsQuiet false)
    is_valid-Stays (some s) =
        branch-Stays _ _ _ (quiet-Stays _ (pure-IsQuiet true))
          (quiet-Stays _ (>>=-IsQuiet _ _ new_date-IsQuiet λ now. pure-IsQuiet _))

    current-user :
        (p : PaymentData) (s : Option Subscription)
        → p.user_info.user_id ≡ user
        → (with_current E p s).user_info.user_id ≡ user
    unfolding with_current
    current-user p none own = own
    current-user p (some s) own = own

    pub create_payment-Stays :
        (u : UserInfo) (type : SubscriptionType) (system : PaymentSystem)
        → u.user_id ≡ user
        → Stays (create_payment E u type system)
    unfolding create_payment get_active_subscription_by_user_id handle_subscription_update
        handle_new_subscription generate_payment_data Manager.create_auto_payment
        Manager.update_current_sub
    create_payment-Stays u type system own = attempt-Stays _ _ (
        >>=-Stays _ _ (quiet-Stays _ (query-IsQuiet _)) λ s.
          >>=-Stays _ _ (is_valid-Stays s) λ valid.
            branch-Stays _ _ _
              (>>=-Stays _ _ (update_by-Stays _ _ (current-user _ s own)) url_answer-Stays)
              (>>=-Stays _ _ (create_by-Stays _ _ own) url_answer-Stays))
