-- ===== src/Payments/Records/Switches.antt =====
-- What the commands that switch the automatic renewal have recorded when they answer success.
use somegram_backend.Prelude.{
  ℕ, ◌≡◌, refl, subst, Bool, true, false, none, some, arith, ◌⊎◌, inl, inr,
}
use somegram_backend.Effects.{◌>>=◌, ok, pure, attempt}
use somegram_backend.Outcome.{succeed, fail}
use somegram_backend.Payments.Types.{PaymentSystem, SubscriptionStatuses, active, suspended}
use somegram_backend.Payments.SubscriptionEntity.{
  Subscription, suspend_subscription, activate_subscription, disable_auto_renewal as disabled,
  enable_auto_renewal as enabled,
}
use somegram_backend.Payments.World.{Env, World, Service}
use somegram_backend.Payments.Repository.{is_current_of, get_active_subscription_by_user_id}
use somegram_backend.Payments.Answers.{Answer, found}
use somegram_backend.Payments.Adapters.Manager
use somegram_backend.Payments.Adapters.Quiet.{
  disable_auto_renewal-IsQuiet, enable_auto_renewal-IsQuiet,
}
use somegram_backend.Payments.Commands.{
  disabled_row, enabled_row, switch_row, disable_found, enable_found, disable_auto_renewal,
  enable_auto_renewal,
}
use somegram_backend.Payments.Database.{DbLaws}
use somegram_backend.Payments.Database.Frames.{
  IsQuiet, Holds, quiet_then, pure_holds, branch_holds, holds_then,
}
use somegram_backend.Payments.Records.Lookups.{lookup_records}
use somegram_backend.Payments.Records.{Always, OnSuccess, success_map, new_date_then}
use somegram_backend.Payments.Records.Writes.{update_records}

-- The status of a row after a switch: PayPal's subscriptions are suspended and activated with it.
abbrev pub status_after : Bool → PaymentSystem → SubscriptionStatuses → SubscriptionStatuses
status_after true PaymentSystem.paypal status = active
status_after false PaymentSystem.paypal status = suspended
status_after renews _ status = status

module _ {E : Env} (L : DbLaws E) where
  -- The renewal was as asked already and the table is unchanged, or the row has it now, with the
  -- same end and user.
  abbrev pub IsSwitched : Bool → World E → Subscription → World E → Type 0
  IsSwitched renews w s v =
      ((s.auto_renewal ≡ renews) × (v.db ≡ w.db))
      ⊎ ((r : Subscription) × (L.row v.db s.id ≡ some r)
          × (r.auto_renewal ≡ renews)
          × (r.status ≡ status_after renews s.payment_system s.status)
          × (r.end_date_of_subscription ≡ s.end_date_of_subscription)
          × (r.user_id ≡ s.user_id))

  -- The current subscription of a user.
  abbrev pub IsCurrentOf : ℕ → Subscription → World E → Type 0
  IsCurrentOf user s w = (L.row w.db s.id ≡ some s) × (is_current_of user s ≡ true)

  pub current_records :
      (next : Subscription → Service E Answer) (Q : Subscription → World E → Type 0) (user : ℕ)
      (w : World E)
      → ((s : Subscription) → Holds Always (OnSuccess (Q s)) (next s w))
      → let m = attempt (get_active_subscription_by_user_id E user >>= found E next) fail in
        (m w).0 ≡ ok (succeed none) → (s : Subscription) × IsCurrentOf user s w × Q s (m w).1
  unfolding get_active_subscription_by_user_id
  current_records next Q user w h = lookup_records L (is_current_of user) next Q w λ s here. h s

  -- What a switch writes: the row of `s` with the renewal as asked.
  abbrev IsRow : Bool → PaymentSystem → Subscription → Subscription → Type 0
  IsRow renews p s r =
      (r.id ≡ s.id)
      × (r.auto_renewal ≡ renews)
      × (r.status ≡ status_after renews p s.status)
      × (r.end_date_of_subscription ≡ s.end_date_of_subscription)
      × (r.user_id ≡ s.user_id)

  abbrev IsWritten : Bool → PaymentSystem → Subscription → World E → Type 0
  IsWritten renews p s v =
      (r : Subscription) × (L.row v.db s.id ≡ some r)
      × (r.auto_renewal ≡ renews)
      × (r.status ≡ status_after renews p s.status)
      × (r.end_date_of_subscription ≡ s.end_date_of_subscription)
      × (r.user_id ≡ s.user_id)

  switch_row_records :
      (renews : Bool) (p : PaymentSystem) (s : Subscription) (row : Service E Subscription)
      (done : Bool) (v : World E)
      → Holds Always (λ r u. IsRow renews p s r) (row v)
      → Holds Always (OnSuccess (IsWritten renews p s)) (switch_row E row done v)
  unfolding switch_row
  switch_row_records renews p s row false v h =
      pure_holds Always (OnSuccess (IsWritten renews p s)) fail v tt λ e. absurd (ground arith)
  switch_row_records renews p s row true v h =
      let Q = OnSuccess (IsWritten renews p s) in
      holds_then Always (λ r u. IsRow renews p s r) Q _ _ v h
        λ r u _ (same, auto, status, end, user). update_records L Q r _ u λ d there _.
          pure_holds Always Q _ _ tt
            λ _. (r, subst (λ i. L.row d i ≡ some r) same there, auto, status, end, user)

  -- No adapter serves another payment system, which ends in an internal error.
  unknown_switch :
      (renews : Bool) (s : Subscription) (row : Service E Subscription) (w : World E)
      → Holds Always
          (OnSuccess (IsWritten renews PaymentSystem.unknown s))
          ((pure false >>= switch_row E row) w)
  unfolding switch_row
  unknown_switch renews s row w =
      let Q = OnSuccess (IsWritten renews PaymentSystem.unknown s) in
      holds_then Always (λ b u. b ≡ false) Q _ _ w (pure_holds Always _ false w tt refl)
        λ b u _ e. refused b u e
    where
      refused :
          (b : Bool) (u : World E)
          → b ≡ false
          → Holds Always
              (OnSuccess (IsWritten renews PaymentSystem.unknown s))
              (switch_row E row b u)
      refused false u e =
          pure_holds Always (OnSuccess (IsWritten renews PaymentSystem.unknown s)) fail u tt
            λ e. absurd (ground arith)
      refused true u e = absurd (ground arith)

  -- A provider is asked, and the row is computed and written.
  switch_holds :
      (renews : Bool) (p : PaymentSystem) (s : Subscription) (m : Service E Bool)
      (row : Service E Subscription) (w : World E)
      → IsQuiet m
      → ((v : World E) → Holds Always (λ r u. IsRow renews p s r) (row v))
      → Holds Always (OnSuccess (IsWritten renews p s)) ((m >>= switch_row E row) w)
  switch_holds renews p s m row w quiet h =
      quiet_then Always (OnSuccess (IsWritten renews p s)) _ _ w quiet tt
        λ done v _ _. switch_row_records renews p s row done v (h v)

  disable_unknown :
      (s : Subscription) (w : World E)
      → Holds Always (OnSuccess (IsWritten false PaymentSystem.unknown s)) (
          (Manager.disable_auto_renewal E PaymentSystem.unknown s.payment_system_sub_id
              >>= switch_row E (disabled_row E PaymentSystem.unknown s))
            w)
  unfolding Manager.disable_auto_renewal
  disable_unknown s w = unknown_switch false s _ w

  disable_switch :
      (p : PaymentSystem) (s : Subscription) (w : World E)
      → Holds Always (OnSuccess (IsWritten false p s)) (
          (Manager.disable_auto_renewal E p s.payment_system_sub_id
              >>= switch_row E (disabled_row E p s))
            w)
  unfolding disabled_row suspend_subscription disabled
  disable_switch PaymentSystem.paypal s w =
      switch_holds false PaymentSystem.paypal s _ _ w
        (disable_auto_renewal-IsQuiet E PaymentSystem.paypal _)
        λ v.
          new_date_then Always (λ r u. IsRow false PaymentSystem.paypal s r) _ v
            (pure_holds Always _ _ _ tt (refl, refl, refl, refl, refl))
  disable_switch PaymentSystem.stripe s w =
      switch_holds false PaymentSystem.stripe s _ _ w
        (disable_auto_renewal-IsQuiet E PaymentSystem.stripe _)
        λ v.
          new_date_then Always (λ r u. IsRow false PaymentSystem.stripe s r) _ v
            (pure_holds Always _ _ _ tt (refl, refl, refl, refl, refl))
  disable_switch PaymentSystem.unknown s w = disable_unknown s w

  disable_found_records :
      (s : Subscription) (w : World E)
      → Holds Always (OnSuccess (IsSwitched false w s)) (disable_found E s w)
  unfolding disable_found
  disable_found_records s w =
      let Q = OnSuccess (IsSwitched false w s) in
      branch_holds Always Q _ _ _ w
        (λ on.
          success_map (IsWritten false s.payment_system s) (IsSwitched false w s) _ (λ u q. inr q)
            (disable_switch s.payment_system s w))
        λ off. pure_holds Always Q _ w tt λ _. inl (off, refl)

  -- When the command that disables the renewal answers success, the user has a current
  -- subscription; its renewal was off and the table is unchanged, or its row does not renew now,
  -- is suspended if it is PayPal's and else keeps its status, and keeps its end and its user.
  pub disable_auto_renewal-IsSwitched :
      (user : ℕ) (w : World E)
      → (disable_auto_renewal E user w).0 ≡ ok (succeed none)
      → (s : Subscription) × IsCurrentOf user s w
        × IsSwitched false w s (disable_auto_renewal E user w).1
  unfolding disable_auto_renewal
  disable_auto_renewal-IsSwitched user w e =
      current_records (disable_found E) (IsSwitched false w) user w (λ s. disable_found_records s w)
        e

  enable_unknown :
      (s : Subscription) (w : World E)
      → Holds Always (OnSuccess (IsWritten true PaymentSystem.unknown s)) (
          (Manager.enable_auto_renewal E PaymentSystem.unknown s.payment_system_sub_id
              >>= switch_row E (enabled_row E PaymentSystem.unknown s))
            w)
  unfolding Manager.enable_auto_renewal
  enable_unknown s w = unknown_switch true s _ w

  enable_switch :
      (p : PaymentSystem) (s : Subscription) (w : World E)
      → Holds Always (OnSuccess (IsWritten true p s)) (
          (Manager.enable_auto_renewal E p s.payment_system_sub_id
              >>= switch_row E (enabled_row E p s))
            w)
  unfolding enabled_row activate_subscription enabled
  enable_switch PaymentSystem.paypal s w =
      switch_holds true PaymentSystem.paypal s _ _ w
        (enable_auto_renewal-IsQuiet E PaymentSystem.paypal _)
        λ v.
          new_date_then Always (λ r u. IsRow true PaymentSystem.paypal s r) _ v
            (pure_holds Always _ _ _ tt (refl, refl, refl, refl, refl))
  enable_switch PaymentSystem.stripe s w =
      switch_holds true PaymentSystem.stripe s _ _ w
        (enable_auto_renewal-IsQuiet E PaymentSystem.stripe _)
        λ v.
          new_date_then Always (λ r u. IsRow true PaymentSystem.stripe s r) _ v
            (pure_holds Always _ _ _ tt (refl, refl, refl, refl, refl))
  enable_switch PaymentSystem.unknown s w = enable_unknown s w

  enable_found_records :
      (s : Subscription) (w : World E)
      → Holds Always (OnSuccess (IsSwitched true w s)) (enable_found E s w)
  unfolding enable_found
  enable_found_records s w =
      let Q = OnSuccess (IsSwitched true w s) in
      branch_holds Always Q _ _ _ w (λ on. pure_holds Always Q _ w tt λ _. inl (on, refl))
        λ off.
          success_map (IsWritten true s.payment_system s) (IsSwitched true w s) _ (λ u q. inr q)
            (enable_switch s.payment_system s w)

  -- When the command that enables the renewal answers success, the user has a current
  -- subscription; its renewal was on and the table is unchanged, or its row renews now, is active
  -- if it is PayPal's and else keeps its status, and keeps its end and its user.
  pub enable_auto_renewal-IsSwitched :
      (user : ℕ) (w : World E)
      → (enable_auto_renewal E user w).0 ≡ ok (succeed none)
      → (s : Subscription) × IsCurrentOf user s w
        × IsSwitched true w s (enable_auto_renewal E user w).1
  unfolding enable_auto_renewal
  enable_auto_renewal-IsSwitched user w e =
      current_records (enable_found E) (IsSwitched true w) user w (λ s. enable_found_records s w) e
