-- ===== src/Payments/Records/Atomic.antt =====
-- The methods that write one row, where they do not answer success.
use somegram_backend.Prelude.{
  ℕ, String, ◌≡◌, refl, ◌∙◌, Bool, true, false, Option, none, some, ◌⊎◌, inl, inr, arith,
}
use somegram_backend.Effects.{Result, ok, thrown, continue, recover, ◌>>=◌, pure, attempt, branch}
use somegram_backend.Outcome.{succeed, fail, missing}
use somegram_backend.Payments.Types.{PaymentSystem, Message}
use somegram_backend.Payments.SubscriptionEntity.{Subscription}
use somegram_backend.Payments.World.{Env, World, Service, changed, change, emit}
use somegram_backend.Payments.Answers.{Answer, found}
use somegram_backend.Payments.Repository.{
  update_sub, get_active_subscription_by_user_id, get_subscription_by_payment_system_sub_id,
}
use somegram_backend.Payments.Adapters.Quiet.{
  disable_auto_renewal-IsQuiet, enable_auto_renewal-IsQuiet,
}
use somegram_backend.Payments.Handlers.PayPal.{
  suspend_found, subscription_suspended_handle, cancel_found, subscription_cancel_handle,
}
use somegram_backend.Payments.Commands.{
  disabled_row, enabled_row, switch_row, disable_found, enable_found, disable_auto_renewal,
  enable_auto_renewal, rename_found, update_username,
}
use somegram_backend.Payments.Database.Frames.{
  IsQuiet, >>=-IsQuiet, query-IsQuiet, pure-IsQuiet, new_date-IsQuiet,
}

module _ {E : Env} where
  -- Success is answered, or the database is the one before.
  abbrev pub IsAtomic : Service E Answer → Type 0
  IsAtomic m = (w : World E) → ((m w).0 ≡ ok (succeed none)) ⊎ ((m w).1.db ≡ w.db)

  abbrev Settles : E.Db → Result Answer × World E → Type 0
  Settles d r = (r.0 ≡ ok (succeed none)) ⊎ (r.1.db ≡ d)

  continue-Settles :
      {A : Type 0} (r : Result A × World E) (f : A → Service E Answer) (d : E.Db)
      → r.1.db ≡ d
      → ((a : A) → IsAtomic (f a))
      → Settles d (continue r f)
  continue-Settles (ok a, v) f d e k = elim (k a v) [
    | inl done ↦ inl done
    | inr same ↦ inr (same ∙ e)
  ]
  continue-Settles (thrown, v) f d e k = inr e

  quiet-IsAtomic :
      {A : Type 0} (m : Service E A) (f : A → Service E Answer)
      → IsQuiet m
      → ((a : A) → IsAtomic (f a))
      → IsAtomic (m >>= f)
  unfolding ◌>>=◌
  quiet-IsAtomic m f quiet k w = continue-Settles (m w) f w.db (quiet w) k

  pure-IsAtomic : (a : Answer) → IsAtomic (pure a)
  unfolding pure
  pure-IsAtomic a w = inr refl

  branch-IsAtomic :
      (b : Bool) (m n : Service E Answer) → IsAtomic m → IsAtomic n → IsAtomic (branch b m n)
  unfolding branch
  branch-IsAtomic true m n h k = h
  branch-IsAtomic false m n h k = k

  recover-Settles :
      (r : Result Answer × World E) (d : E.Db) → Settles d r → Settles d (recover r fail)
  recover-Settles (ok a, v) d h = h
  recover-Settles (thrown, v) d (inl e) = absurd (ground arith)
  recover-Settles (thrown, v) d (inr e) = inr e

  attempt-IsAtomic : (m : Service E Answer) → IsAtomic m → IsAtomic (attempt m fail)
  unfolding attempt
  attempt-IsAtomic m h w = recover-Settles (m w) w.db (h w)

  found-IsAtomic :
      (next : Subscription → Service E Answer) (o : Option Subscription)
      → ((s : Subscription) → IsAtomic (next s))
      → IsAtomic (found E next o)
  unfolding found
  found-IsAtomic next none k = pure-IsAtomic missing
  found-IsAtomic next (some s) k = k s

  -- The row is written at last, and what follows cannot fail.
  written-IsAtomic :
      (s : Subscription) (f : Unit {0} → Service E Answer)
      → ((v : World E) → (f tt v).0 ≡ ok (succeed none))
      → IsAtomic (update_sub E s >>= f)
  unfolding ◌>>=◌ update_sub change
  written-IsAtomic s f h w = settled (E.update s.id (λ _. s) w.db)
    where
      settled : (o : Option E.Db) → Settles w.db (continue (changed o w) f)
      settled none = inr refl
      settled (some d) = inl (h (record w { db = d }))

  pure_succeeds : (v : World E) → (pure {A = Answer} (succeed none) v).0 ≡ ok (succeed none)
  unfolding pure
  pure_succeeds v = refl

  told_succeeds :
      (m : Message) (v : World E)
      → ((emit m >>= λ _. pure {A = Answer} (succeed none)) v).0 ≡ ok (succeed none)
  unfolding ◌>>=◌ pure emit
  told_succeeds m v = refl

  disabled_row-IsQuiet : (p : PaymentSystem) (s : Subscription) → IsQuiet (disabled_row E p s)
  unfolding disabled_row
  disabled_row-IsQuiet PaymentSystem.paypal s =
      >>=-IsQuiet _ _ new_date-IsQuiet λ now. pure-IsQuiet _
  disabled_row-IsQuiet PaymentSystem.stripe s =
      >>=-IsQuiet _ _ new_date-IsQuiet λ now. pure-IsQuiet _
  disabled_row-IsQuiet PaymentSystem.unknown s = pure-IsQuiet s

  enabled_row-IsQuiet : (p : PaymentSystem) (s : Subscription) → IsQuiet (enabled_row E p s)
  unfolding enabled_row
  enabled_row-IsQuiet PaymentSystem.paypal s =
      >>=-IsQuiet _ _ new_date-IsQuiet λ now. pure-IsQuiet _
  enabled_row-IsQuiet PaymentSystem.stripe s =
      >>=-IsQuiet _ _ new_date-IsQuiet λ now. pure-IsQuiet _
  enabled_row-IsQuiet PaymentSystem.unknown s = pure-IsQuiet s

  switch_row-IsAtomic :
      (row : Service E Subscription) (done : Bool) → IsQuiet row → IsAtomic (switch_row E row done)
  unfolding switch_row
  switch_row-IsAtomic row false quiet = pure-IsAtomic fail
  switch_row-IsAtomic row true quiet =
      quiet-IsAtomic row _ quiet λ s. written-IsAtomic s _ pure_succeeds

  disable_found-IsAtomic : (s : Subscription) → IsAtomic (disable_found E s)
  unfolding disable_found
  disable_found-IsAtomic s =
      branch-IsAtomic _ _ _
        (quiet-IsAtomic _ _ (disable_auto_renewal-IsQuiet E s.payment_system _)
          λ done. switch_row-IsAtomic _ done (disabled_row-IsQuiet s.payment_system s))
        (pure-IsAtomic _)

  enable_found-IsAtomic : (s : Subscription) → IsAtomic (enable_found E s)
  unfolding enable_found
  enable_found-IsAtomic s = branch-IsAtomic _ _ _ (pure-IsAtomic _) (
      quiet-IsAtomic _ _ (enable_auto_renewal-IsQuiet E s.payment_system _)
        λ done. switch_row-IsAtomic _ done (enabled_row-IsQuiet s.payment_system s))

  -- The two commands that switch the renewal, the one that changes a name, and the PayPal handlers
  -- of a suspended and of a cancelled subscription change the database only if they answer
  -- success, whatever fails on the way.
  pub single_writes-IsAtomic :
      (user id : ℕ) (name : String)
      → IsAtomic (disable_auto_renewal E user)
        × IsAtomic (enable_auto_renewal E user)
        × IsAtomic (update_username E user name)
        × IsAtomic (subscription_suspended_handle E id)
        × IsAtomic (subscription_cancel_handle E id)
  unfolding disable_auto_renewal enable_auto_renewal update_username rename_found
      subscription_suspended_handle suspend_found subscription_cancel_handle cancel_found
      get_active_subscription_by_user_id get_subscription_by_payment_system_sub_id
  single_writes-IsAtomic user id name = (
    command (disable_found E) disable_found-IsAtomic,
    command (enable_found E) enable_found-IsAtomic,
    command (rename_found E name) (λ s. written-IsAtomic _ _ pure_succeeds),
    handler (suspend_found E) (λ s.
        branch-IsAtomic _ _ _ (pure-IsAtomic _)
          (quiet-IsAtomic _ _ new_date-IsQuiet λ now. written-IsAtomic _ _ pure_succeeds)),
    handler (cancel_found E) (λ s.
        branch-IsAtomic _ _ _ (pure-IsAtomic _)
          (quiet-IsAtomic _ _ new_date-IsQuiet λ now. written-IsAtomic _ _ (told_succeeds _))),
  )
    where
      command :
          (next : Subscription → Service E Answer)
          → ((s : Subscription) → IsAtomic (next s))
          → IsAtomic (attempt (get_active_subscription_by_user_id E user >>= found E next) fail)
      command next k =
          attempt-IsAtomic _ (quiet-IsAtomic _ _ (query-IsQuiet _) λ o. found-IsAtomic next o k)

      handler :
          (next : Subscription → Service E Answer)
          → ((s : Subscription) → IsAtomic (next s))
          → IsAtomic
              (attempt (get_subscription_by_payment_system_sub_id E id >>= found E next) fail)
      handler next k =
          attempt-IsAtomic _ (quiet-IsAtomic _ _ (query-IsQuiet _) λ o. found-IsAtomic next o k)
