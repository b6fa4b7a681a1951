-- ===== src/Payments/Records/Activation.antt =====
-- What the PayPal handler for an activated subscription has done when it answers success.
use somegram_backend.Prelude.{
  ℕ, ◌≡◌, refl, ◌∙◌, subst, true, false, Option, none, some, arith, ◌⊎◌, inl, inr, ◌==◌,
  if◌then◌else◌, eq→==,
}
use somegram_backend.Effects.{ok}
use somegram_backend.Outcome.{succeed}
use somegram_backend.Payments.Types.{active, pending, suspended, is_pending, is_suspended}
use somegram_backend.Payments.SubscriptionEntity.{
  Subscription, ActiveSubscriptionDate, activate_subscription,
}
use somegram_backend.Payments.World.{Env, World}
use somegram_backend.Payments.Repository.{update_sub}
use somegram_backend.Payments.Handlers.PayPal.{
  activate_with, handle_pending, handle_suspend, reactivate, subscription_active_handle,
}
use somegram_backend.Payments.Database.{DbLaws}
use somegram_backend.Payments.Database.Frames.{
  Holds, quiet_then, change_holds, pure_holds, branch_holds, holds_then, holds_weaken,
  new_date-IsQuiet,
}
use somegram_backend.Payments.OneCurrent.{IsAtMostOne, HasOnly, current-HasOnly}
use somegram_backend.Payments.OneCurrent.Replacing.{IsReplaced, handle_active_holds}
use somegram_backend.Payments.Records.{Always, OnSuccess}
use somegram_backend.Payments.Records.Changes.{IsKnown, by_system_id_records}
use somegram_backend.Payments.Records.Sessions.{update-HasOnly}

module _ {E : Env} (L : DbLaws E) where
  -- The row of `s` is active and renews, and it is the only current one of its user.
  abbrev pub IsOnlyActive : Subscription → World E → Type 0
  IsOnlyActive s v =
      (r : Subscription) × (L.row v.db s.id ≡ some r)
      × (r.status ≡ active)
      × (r.auto_renewal ≡ true)
      × (r.user_id ≡ s.user_id)
      × HasOnly L s.user_id s.id v.db

  -- A pending or suspended subscription is activated; at another the table is not changed.
  abbrev pub IsActivated : World E → Subscription → World E → Type 0
  IsActivated w s v =
      (((s.status ≡ pending) ⊎ (s.status ≡ suspended)) × IsOnlyActive s v)
      ⊎ ((is_pending s.status ≡ false) × (is_suspended s.status ≡ false) × (v.db ≡ w.db))

  -- What is written: the row of `s`, active and renewing.
  abbrev IsActiveRow : Subscription → Subscription → Type 0
  IsActiveRow s r =
      (r.id ≡ s.id) × (r.status ≡ active) × (r.auto_renewal ≡ true) × (r.user_id ≡ s.user_id)

  activated_holds :
      (s r : Subscription) (w : World E)
      → IsActiveRow s r
      → HasOnly L s.user_id s.id w.db
      → Holds Always (λ a v. IsOnlyActive s v) (update_sub E r w)
  unfolding update_sub
  activated_holds s r w (same, status, renews, user) only =
      change_holds Always (λ a v. IsOnlyActive s v) (E.update r.id (λ _. r)) w tt
        λ d u.
          let (old, there, rows) = L.update_row r.id (λ _. r) w.db d (λ z h. refl) u in
          let rows' : (j : ℕ) → L.row d j ≡ (if s.id == j then some r else L.row w.db j) =
            subst (λ i. (j : ℕ) → L.row d j ≡ (if i == j then some r else L.row w.db j)) same
              rows in
          (
            tt,
            (
              r,
              rows' s.id ∙ rw (eq→== s.id s.id refl) refl,
              status,
              renews,
              user,
              update-HasOnly L s.user_id s.id r w.db d rows' only,
            ),
          )

  activate_with-row :
      (s : Subscription) (dates : Option ActiveSubscriptionDate) (now : ℕ)
      → IsActiveRow s (activate_with s dates now)
  unfolding activate_with activate_subscription
  activate_with-row s none now = (refl, refl, refl, refl)
  activate_with-row s (some dates) now = (refl, refl, refl, refl)

  pending_holds :
      (s : Subscription) (w : World E)
      → IsAtMostOne L w.db
      → Holds Always (λ a v. IsOnlyActive s v) (handle_pending E s w)
  unfolding handle_pending
  pending_holds s w one =
      let Q : Unit {0} → World E → Type 0 = λ a v. IsOnlyActive s v in
      holds_then Always (λ a v. IsAtMostOne L v.db × IsReplaced L s.user_id s.id w.db a v) Q _ _ w
        (holds_weaken (IsAtMostOne L) Always (IsReplaced L s.user_id s.id w.db) _ (λ d h. tt)
          (handle_active_holds L s.user_id s.id w one))
        λ dates v _ (one₁, (only, same)). quiet_then Always Q _ _ v new_date-IsQuiet tt λ now x e _.
          activated_holds s (activate_with s dates now) x (activate_with-row s dates now)
            (rw e only)

  suspend_holds :
      (s : Subscription) (w : World E)
      → HasOnly L s.user_id s.id w.db
      → Holds Always (λ a v. IsOnlyActive s v) (handle_suspend E s w)
  unfolding handle_suspend activate_subscription
  suspend_holds s w only =
      quiet_then Always (λ a v. IsOnlyActive s v) _ _ w new_date-IsQuiet tt
        λ now x e _. activated_holds s _ x (refl, refl, refl, refl) (rw e only)

  reactivate_records :
      (s : Subscription) (w : World E)
      → IsAtMostOne L w.db
      → L.row w.db s.id ≡ some s
      → Holds Always (OnSuccess (IsActivated w s)) (reactivate E s w)
  unfolding reactivate
  reactivate_records s w one here =
      let Q = OnSuccess (IsActivated w s) in
      let R : Unit {0} → World E → Type 0 = λ a v. IsOnlyActive s v in
      branch_holds Always Q _ _ _ w
        (λ waits.
          holds_then Always R Q _ _ w (pending_holds s w one)
            λ a v _ done. pure_holds Always Q _ v tt λ _. inl (inl (ground arith), done))
        λ other.
          branch_holds Always Q _ _ _ w
            (λ stopped.
              holds_then Always R Q _ _ w
                (suspend_holds s w (current-HasOnly L w.db s one here (ground arith)))
                λ a v _ done. pure_holds Always Q _ v tt λ _. inl (inr (ground arith), done))
            λ neither. pure_holds Always Q _ w tt λ _. inr (other, neither, refl)

  -- In a table with at most one current subscription for each user, when the handler of an
  -- activated PayPal subscription answers success, the subscription is in the table; it was pending
  -- or suspended and is now active, renewing and the only current one of its user, or it was
  -- neither and the table is unchanged.
  pub subscription_active_handle-IsActivated :
      (id : ℕ) (w : World E)
      → IsAtMostOne L w.db
      → (subscription_active_handle E id w).0 ≡ ok (succeed none)
      → (s : Subscription) × IsKnown L id s w.db
        × IsActivated w s (subscription_active_handle E id w).1
  unfolding subscription_active_handle
  subscription_active_handle-IsActivated id w one e =
      by_system_id_records L (reactivate E) (IsActivated w) id w
        (λ s here. reactivate_records s w one here) e
