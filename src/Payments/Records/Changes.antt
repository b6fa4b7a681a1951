-- ===== src/Payments/Records/Changes.antt =====
-- What the PayPal handlers for a suspended and a cancelled subscription have done when they answer
-- success.
use somegram_backend.Prelude.{ℕ, ◌≡◌, refl, true, false, ◌∷◌, none, some, arith, ◌⊎◌, inl, inr}
use somegram_backend.Effects.{◌>>=◌, ok, attempt}
use somegram_backend.Outcome.{succeed, fail}
use somegram_backend.Payments.Types.{suspended, canceled, send_subscription_info}
use somegram_backend.Payments.SubscriptionEntity.{
  Subscription, suspend_subscription, cancel_subscription,
}
use somegram_backend.Payments.World.{Env, World, Service}
use somegram_backend.Payments.Repository.{
  has_system_sub_id, get_subscription_by_payment_system_sub_id,
}
use somegram_backend.Payments.Service.{info}
use somegram_backend.Payments.Answers.{Answer, found}
use somegram_backend.Payments.Handlers.PayPal.{
  suspend_found, subscription_suspended_handle, cancel_found, subscription_cancel_handle,
}
use somegram_backend.Payments.Database.{DbLaws}
use somegram_backend.Payments.Database.Frames.{Holds, pure_holds, branch_holds}
use somegram_backend.Payments.Records.Lookups.{lookup_records}
use somegram_backend.Payments.Records.{Always, OnSuccess, emit_then, new_date_then}
use somegram_backend.Payments.Records.Writes.{update_records}

module _ {E : Env} (L : DbLaws E) where
  -- The subscription that PayPal knows by an id.
  abbrev pub IsKnown : ℕ → Subscription → E.Db → Type 0
  IsKnown id s d = (L.row d s.id ≡ some s) × (has_system_sub_id id s ≡ true)

  pub by_system_id_records :
      (next : Subscription → Service E Answer) (Q : Subscription → World E → Type 0) (id : ℕ)
      (w : World E)
      → ((s : Subscription) → L.row w.db s.id ≡ some s → Holds Always (OnSuccess (Q s)) (next s w))
      → let m = attempt (get_subscription_by_payment_system_sub_id E id >>= found E next) fail in
        (m w).0 ≡ ok (succeed none) → (s : Subscription) × IsKnown id s w.db × Q s (m w).1
  unfolding get_subscription_by_payment_system_sub_id
  by_system_id_records next Q id w h = lookup_records L (has_system_sub_id id) next Q w h

  -- The row of `s` is suspended and does not renew.
  abbrev pub IsSuspended : Subscription → World E → Type 0
  IsSuspended s v =
      (r : Subscription) × (L.row v.db s.id ≡ some r)
      × (r.status ≡ suspended)
      × (r.auto_renewal ≡ false)
      × (r.user_id ≡ s.user_id)

  suspend_found_records :
      (s : Subscription) (w : World E)
      → L.row w.db s.id ≡ some s
      → Holds Always (OnSuccess (IsSuspended s)) (suspend_found E s w)
  unfolding suspend_found suspend_subscription
  suspend_found_records s w here =
      let Q = OnSuccess (IsSuspended s) in
      branch_holds Always Q _ _ _ w
        (λ already. pure_holds Always Q _ w tt λ _. (s, here, ground arith, ground arith, refl))
        λ open_. new_date_then Always Q _ w (
          update_records L Q _ _ _
            λ d there _. pure_holds Always Q _ _ tt λ _. (_, there, refl, refl, refl))

  -- When the handler of a suspended PayPal subscription answers success, the subscription is in
  -- the table, and its row is suspended and does not renew, whatever its status was before.
  pub subscription_suspended_handle-IsSuspended :
      (id : ℕ) (w : World E)
      → (subscription_suspended_handle E id w).0 ≡ ok (succeed none)
      → (s : Subscription) × IsKnown id s w.db
        × IsSuspended s (subscription_suspended_handle E id w).1
  unfolding subscription_suspended_handle
  subscription_suspended_handle-IsSuspended id w e =
      by_system_id_records (suspend_found E) IsSuspended id w
        (λ s here. suspend_found_records s w here) e

  -- The subscription was cancelled already and nothing is changed or sent, or its row is cancelled
  -- now and the gateway is told.
  abbrev pub IsCancelled : World E → Subscription → World E → Type 0
  IsCancelled w s v =
      ((s.status ≡ canceled) × (v.db ≡ w.db) × (v.outbox ≡ w.outbox))
      ⊎ ((r : Subscription) × (L.row v.db s.id ≡ some r)
          × (r.status ≡ canceled)
          × (r.auto_renewal ≡ false)
          × (v.outbox ≡ send_subscription_info (info s) ∷ w.outbox))

  cancel_found_records :
      (s : Subscription) (w : World E)
      → Holds Always (OnSuccess (IsCancelled w s)) (cancel_found E s w)
  unfolding cancel_found cancel_subscription
  cancel_found_records s w =
      let Q = OnSuccess (IsCancelled w s) in
      branch_holds Always Q _ _ _ w
        (λ already. pure_holds Always Q _ w tt λ _. inl (ground arith, refl, refl))
        λ open_. new_date_then Always Q _ w (
          update_records L Q _ _ _ λ d there _.
            emit_then Always Q _ _ _
              (pure_holds Always Q _ _ tt λ _. inr (_, there, refl, refl, refl)))

  -- When the handler of a cancelled PayPal subscription answers success, the subscription is in
  -- the table; it was cancelled already and the table and the messages are unchanged, or its row is
  -- cancelled now, does not renew, and the gateway is told of its end.
  pub subscription_cancel_handle-IsCancelled :
      (id : ℕ) (w : World E)
      → (subscription_cancel_handle E id w).0 ≡ ok (succeed none)
      → (s : Subscription) × IsKnown id s w.db
        × IsCancelled w s (subscription_cancel_handle E id w).1
  unfolding subscription_cancel_handle
  subscription_cancel_handle-IsCancelled id w e =
      by_system_id_records (cancel_found E) (IsCancelled w) id w
        (λ s here. cancel_found_records s w) e
