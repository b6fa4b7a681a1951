-- ===== src/Payments/Live/Replacing.antt =====
-- `handleActiveSubscription` where the services are up.
use somegram_backend.Prelude.{
  ℕ, ◌≡◌, refl, ap, ◌∙◌, sym, Bool, ◌&&◌, true, false, Option, none, some,
}
use somegram_backend.Effects.{continue, recover, attempt, ◌>>=◌, pure}
use somegram_backend.Payments.Types.{PaymentSystem, ManageAction, cancel, is_current}
use somegram_backend.Payments.SubscriptionEntity.{Subscription, cancel_subscription}
use somegram_backend.Payments.World.{Env, World, answer, call}
use somegram_backend.Payments.Repository.{is_current_of, get_active_subscription_by_user_id}
use somegram_backend.Payments.Adapters.PayPal
use somegram_backend.Payments.Adapters.Stripe
use somegram_backend.Payments.Adapters.Manager
use somegram_backend.Payments.Service.{replace_active, handle_active_subscription}
use somegram_backend.Payments.Database.{DbLaws}
use somegram_backend.Payments.Live.{
  AllUp, Cancels, IsUp, Answers, HasRow, Answers-then, pure-Answers, branch-Answers, call-Answers,
  query-Answers, new_date-Answers, update_sub-Answers,
}

and_left : (a b : Bool) → (a && b) ≡ true → a ≡ true
and_left true b e = refl
and_left false b e = e

module _ {E : Env} (L : DbLaws E) (up : AllUp L) where
  -- The database is the one before.
  abbrev pub Leaves : {A : Type 0} → E.Db → A → World E → Type 0
  Leaves d a v = v.db ≡ d

  pub login-Answers : (w : World E) → Answers (Leaves w.db) (PayPal.login E w)
  unfolding PayPal.login
  login-Answers w = call-Answers (Leaves w.db) E.fetch_token w up.token_up λ a r. refl

  manage-Answers :
      (action : ManageAction) (id : Option ℕ) (w : World E)
      → ((token : ℕ) → IsUp (E.post_manage token action id))
      → Answers (Leaves w.db) (PayPal.manage E action id w)
  unfolding PayPal.manage
  manage-Answers action id w accepts =
      Answers-then (Leaves w.db) (Leaves w.db) _ _ w (login-Answers w) λ t v e.
        Answers-then (Leaves w.db) (Leaves w.db) _ _ v
          (call-Answers (Leaves w.db) (E.post_manage t action id) v (accepts t) λ a r. e)
          λ a u e'. pure-Answers (Leaves w.db) true u e'

  -- What Stripe's library throws is caught.
  cancel_stripe-Answers :
      (id : Option ℕ) (w : World E) → Answers (Leaves w.db) (Stripe.cancel_subscription E id w)
  unfolding Stripe.cancel_subscription attempt ◌>>=◌ call pure
  cancel_stripe-Answers id w = on_answer (E.cancel_stripe id w.remote).0
    where
      v : World E
      v = record w { remote = (E.cancel_stripe id w.remote).1 }

      on_answer :
          (o : Option (Unit {0}))
          → Answers (Leaves w.db) (recover (continue (answer o v) λ a. pure true) false)
      on_answer none = (false, v, refl, refl)
      on_answer (some a) = (true, v, refl, refl)

  cancel-Answers :
      (system : PaymentSystem) (id : Option ℕ) (w : World E)
      → (system ≡ PaymentSystem.paypal → (token : ℕ) → IsUp (E.post_manage token cancel id))
      → Answers (Leaves w.db) (Manager.cancel_subscription E system id w)
  unfolding Manager.cancel_subscription PayPal.cancel_subscription
  cancel-Answers PaymentSystem.paypal id w accepts = manage-Answers cancel id w (accepts refl)
  cancel-Answers PaymentSystem.stripe id w accepts = cancel_stripe-Answers id w
  cancel-Answers PaymentSystem.unknown id w accepts = pure-Answers (Leaves w.db) false w refl

  -- The row with the id `k` is there.
  abbrev pub Has : {A : Type 0} → ℕ → A → World E → Type 0
  Has k a v = HasRow L k v.db

  replace_active-Answers :
      (s : Subscription) (user k : ℕ) (w : World E)
      → L.row w.db s.id ≡ some s
      → is_current s.status ≡ true
      → Cancels L w.db
      → HasRow L k w.db
      → Answers (Has k) (replace_active E (some s) k w)
  unfolding replace_active cancel_subscription
  replace_active-Answers s user k w here current cancels kept =
      branch-Answers (Has k) _ _ _ w (λ own. pure-Answers (Has k) none w kept)
        λ other.
          Answers-then (Leaves w.db) (Has k) _ _ w
            (cancel-Answers s.payment_system _ w (cancels s.id s here current))
            λ a v e.
              Answers-then (Leaves w.db) (Has k) _ _ v (new_date-Answers (Leaves w.db) v e)
                λ now x e'.
                  Answers-then (Has k) (Has k) _ _ x
                    (update_sub-Answers L up (cancel_subscription s now) k x (s, rw e' here)
                      (rw e' kept))
                    λ a u kept'. pure-Answers (Has k) _ u kept'

  pub handle_active-Answers :
      (user k : ℕ) (w : World E)
      → Cancels L w.db
      → HasRow L k w.db
      → Answers (Has k) (handle_active_subscription E user k w)
  unfolding handle_active_subscription replace_active get_active_subscription_by_user_id
  handle_active-Answers user k w cancels kept =
      let (o, e) = up.find_first_up (is_current_of user) w.db in
      Answers-then (λ a v. (a ≡ o) × (v.db ≡ w.db)) (Has k) _ _ w
        (query-Answers _ (E.find_first (is_current_of user)) w o e (refl, refl))
        (elim [
          | none ↦ λ v (same, d). pure-Answers (Has k) none v (rw d kept)
          | some s ↦ λ v (same, d).
              let (here, meets) =
                L.find_first_found (is_current_of user) w.db s (e ∙ ap some (sym same)) in
              replace_active-Answers s user k v (rw d here) (and_left _ _ meets) (rw d cancels)
                (rw d kept)
        ])
