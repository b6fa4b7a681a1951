-- ===== src/Payments/OneCurrent/Commands.antt =====
-- The commands of the gateway on tables with at most one current subscription for each user.
use somegram_backend.Prelude.{ℕ, String, ap, ◌∙◌, Bool, true, false, some, arith}
use somegram_backend.Effects.{◌>>=◌, attempt}
use somegram_backend.Payments.Types.{PaymentSystem}
use somegram_backend.Payments.SubscriptionEntity.{
  Subscription, suspend_subscription, activate_subscription, disable_auto_renewal as disabled,
  enable_auto_renewal as enabled,
}
use somegram_backend.Payments.World.{Env, World, Service}
use somegram_backend.Payments.Repository.{is_current_of, get_active_subscription_by_user_id}
use somegram_backend.Payments.Answers.{Answer, found}
use somegram_backend.Payments.Commands.{
  disabled_row, enabled_row, switch_row, disable_found, enable_found, disable_auto_renewal,
  enable_auto_renewal, rename_found, update_username,
}
use somegram_backend.Payments.Adapters.Quiet.{
  disable_auto_renewal-IsQuiet, enable_auto_renewal-IsQuiet,
}
use somegram_backend.Payments.Database.{DbLaws}
use somegram_backend.Payments.Database.Frames.{
  quiet_then, query_then, pure_holds, branch_holds, attempt_holds, holds_then, new_date-IsQuiet,
  Holds,
}
use somegram_backend.Payments.OneCurrent.{
  IsAtMostOne, HasOnly, current-HasOnly, Fits, update_sub_then,
}
use somegram_backend.Payments.OneCurrent.Steps.{Anything, Keeps, found_holds}

module _ {E : Env} (L : DbLaws E) where
  -- The commands begin with the current subscription of the user.
  current_keeps :
      (next : Subscription → Service E Answer) (user : ℕ) (fallback : Answer) (w : World E)
      → IsAtMostOne L w.db
      → ((s : Subscription)
          → HasOnly L s.user_id s.id w.db
          → Holds (IsAtMostOne L) (Anything L) (next s w))
      → Holds
          (IsAtMostOne L)
          (Anything L)
          (attempt (get_active_subscription_by_user_id E user >>= found E next) fallback w)
  unfolding get_active_subscription_by_user_id
  current_keeps next user fallback w one k =
      let Q = Anything L {A = Answer} in
      attempt_holds (IsAtMostOne L) Q _ _ w
        (query_then (IsAtMostOne L) Q _ _ w one λ o q. found_holds L next o w one λ s p.
          let (here, cur) = L.find_first_found (is_current_of user) w.db s (q ∙ ap some p) in
          k s (current-HasOnly L w.db s one here (ground arith)))
        λ v h. tt

  -- An action that computes a row which may be written, and leaves the database alone.
  abbrev IsRow : Subscription → Service E Subscription → Type 0
  IsRow s row =
      (w : World E)
      → IsAtMostOne L w.db
      → HasOnly L s.user_id s.id w.db
      → Holds (IsAtMostOne L) (λ r v. Fits L r v.db) (row w)

  disabled-IsRow : (system : PaymentSystem) (s : Subscription) → IsRow s (disabled_row E system s)
  unfolding disabled_row suspend_subscription disabled
  disabled-IsRow PaymentSystem.paypal s w one only =
      quiet_then (IsAtMostOne L) _ _ _ w new_date-IsQuiet one
        λ now v e one₁. pure_holds (IsAtMostOne L) _ _ v one₁ λ cur. rw e only
  disabled-IsRow PaymentSystem.stripe s w one only =
      quiet_then (IsAtMostOne L) _ _ _ w new_date-IsQuiet one
        λ now v e one₁. pure_holds (IsAtMostOne L) _ _ v one₁ λ cur. rw e only
  disabled-IsRow PaymentSystem.unknown s w one only =
      pure_holds (IsAtMostOne L) _ _ w one λ cur. only

  enabled-IsRow : (system : PaymentSystem) (s : Subscription) → IsRow s (enabled_row E system s)
  unfolding enabled_row activate_subscription enabled
  enabled-IsRow PaymentSystem.paypal s w one only =
      quiet_then (IsAtMostOne L) _ _ _ w new_date-IsQuiet one
        λ now v e one₁. pure_holds (IsAtMostOne L) _ _ v one₁ λ cur. rw e only
  enabled-IsRow PaymentSystem.stripe s w one only =
      quiet_then (IsAtMostOne L) _ _ _ w new_date-IsQuiet one
        λ now v e one₁. pure_holds (IsAtMostOne L) _ _ v one₁ λ cur. rw e only
  enabled-IsRow PaymentSystem.unknown s w one only =
      pure_holds (IsAtMostOne L) _ _ w one λ cur. only

  switch_row_holds :
      (s : Subscription) (row : Service E Subscription) (done : Bool) (w : World E)
      → IsRow s row
      → IsAtMostOne L w.db
      → HasOnly L s.user_id s.id w.db
      → Holds (IsAtMostOne L) (Anything L) (switch_row E row done w)
  unfolding switch_row
  switch_row_holds s row false w h one only = pure_holds (IsAtMostOne L) _ _ w one tt
  switch_row_holds s row true w h one only =
      let Q = Anything L {A = Answer} in
      holds_then (IsAtMostOne L) (λ r v. Fits L r v.db) Q _ _ w (h w one only)
        λ r v one₁ fit.
          update_sub_then L Q _ _ v one₁ fit
            λ d u one₂. pure_holds (IsAtMostOne L) Q _ (record v { db = d }) one₂ tt

  disable_found_holds :
      (s : Subscription) (w : World E)
      → IsAtMostOne L w.db
      → HasOnly L s.user_id s.id w.db
      → Holds (IsAtMostOne L) (Anything L) (disable_found E s w)
  unfolding disable_found
  disable_found_holds s w one only =
      let Q = Anything L {A = Answer} in
      branch_holds (IsAtMostOne L) Q _ _ _ w
        (λ renews.
          quiet_then (IsAtMostOne L) Q _ _ w (disable_auto_renewal-IsQuiet E s.payment_system _) one
            λ result v e one₁.
              switch_row_holds s _ result v (disabled-IsRow s.payment_system s) one₁ (rw e only))
        λ done. pure_holds (IsAtMostOne L) Q _ w one tt

  enable_found_holds :
      (s : Subscription) (w : World E)
      → IsAtMostOne L w.db
      → HasOnly L s.user_id s.id w.db
      → Holds (IsAtMostOne L) (Anything L) (enable_found E s w)
  unfolding enable_found
  enable_found_holds s w one only =
      let Q = Anything L {A = Answer} in
      branch_holds (IsAtMostOne L) Q _ _ _ w (λ done. pure_holds (IsAtMostOne L) Q _ w one tt)
        λ stopped.
          quiet_then (IsAtMostOne L) Q _ _ w (enable_auto_renewal-IsQuiet E s.payment_system _) one
            λ result v e one₁.
              switch_row_holds s _ result v (enabled-IsRow s.payment_system s) one₁ (rw e only)

  pub disable_auto_renewal-Keeps : (user : ℕ) → Keeps L (disable_auto_renewal E user)
  unfolding disable_auto_renewal
  disable_auto_renewal-Keeps user w one =
      current_keeps (disable_found E) user _ w one λ s only. disable_found_holds s w one only

  pub enable_auto_renewal-Keeps : (user : ℕ) → Keeps L (enable_auto_renewal E user)
  unfolding enable_auto_renewal
  enable_auto_renewal-Keeps user w one =
      current_keeps (enable_found E) user _ w one λ s only. enable_found_holds s w one only

  pub update_username-Keeps : (user : ℕ) (name : String) → Keeps L (update_username E user name)
  unfolding update_username rename_found
  update_username-Keeps user name w one =
      let Q = Anything L {A = Answer} in
      current_keeps (rename_found E name) user _ w one λ s only.
        update_sub_then L Q _ _ w one (λ cur. only)
          λ d u one₁. pure_holds (IsAtMostOne L) Q _ (record w { db = d }) one₁ tt
