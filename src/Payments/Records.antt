-- ===== src/Payments/Records.antt =====
-- What a method has recorded when it answers success: how that is put together from its steps.
pub mod Period
pub mod Writes
pub mod Plans
pub mod Sales
pub mod Lookups
pub mod Renewal
pub mod Closing
pub mod Changes
pub mod Invoices
pub mod Sessions
pub mod Replies
pub mod Switches
pub mod Activation
pub mod Names
pub mod Late
pub mod Unknown
pub mod Atomic
use somegram_backend.Prelude.{
  ℕ, ◌+◌, ◌≡◌, refl, ap, ◌∙◌, arith, ◌∷◌, Option, none, some, ◌==◌, Bool,
}
use somegram_backend.Effects.{Result, ok, thrown, ◌>>=◌, attempt, pure}
use somegram_backend.Outcome.{succeed, fail, missing}
use somegram_backend.Payments.Types.{Message}
use somegram_backend.Payments.SubscriptionEntity.{
  Subscription, ActiveSubscriptionDate, cancel_subscription,
}
use somegram_backend.Payments.World.{Env, World, Service, emit, new_date}
use somegram_backend.Payments.Answers.{Answer, found}
use somegram_backend.Payments.Repository.{update_sub, get_active_subscription_by_user_id}
use somegram_backend.Payments.Service.{replace_active, handle_active_subscription}
use somegram_backend.Payments.Adapters.Quiet.{cancel_subscription-IsQuiet}
use somegram_backend.Payments.Database.{DbLaws}
use somegram_backend.Payments.Database.Frames.{
  Holds, quiet_then, query_then, change_then, pure_holds, branch_holds, attempt_holds,
  new_date-IsQuiet,
}

-- Nothing is said of the database where the method throws.
abbrev pub Always : {D : Type 0} → D → Type 0
Always d = Unit {0}

module _ {E : Env} where
  -- `Q` of the world, where the answer is a success.
  abbrev pub OnSuccess : (World E → Type 0) → Answer → World E → Type 0
  OnSuccess Q a v = a ≡ succeed none → Q v

  pub on_success :
      (P : E.Db → Type 0) (Q : World E → Type 0) (r : Result Answer × World E)
      → Holds P (OnSuccess Q) r
      → r.0 ≡ ok (succeed none)
      → Q r.1
  on_success P Q (ok a, v) h e = h.1 cc
  on_success P Q (thrown, v) h e = absurd cc

  pub success_map :
      (Q R : World E → Type 0) (r : Result Answer × World E)
      → ((v : World E) → Q v → R v)
      → Holds Always (OnSuccess Q) r
      → Holds Always (OnSuccess R) r
  success_map Q R (ok a, v) k h = (tt, λ e. k v (h.1 e))
  success_map Q R (thrown, v) k h = tt

  pub emit_then :
      {B : Type 0} (P : E.Db → Type 0) (Q : B → World E → Type 0) (m : Message)
      (f : Unit {0} → Service E B) (w : World E)
      → Holds P Q (f tt (record w { outbox = m ∷ w.outbox }))
      → Holds P Q ((emit m >>= f) w)
  unfolding ◌>>=◌ emit
  emit_then P Q m f w h = h

  -- The clock is read.
  pub new_date_then :
      {B : Type 0} (P : E.Db → Type 0) (Q : B → World E → Type 0) (f : ℕ → Service E B)
      (w : World E)
      → Holds P Q (f (E.clock w.reads) (record w { reads = w.reads + 1 }))
      → Holds P Q ((new_date >>= f) w)
  unfolding ◌>>=◌ new_date
  new_date_then P Q f w h = h

  module _ (Q : World E → Type 0) where
    pub attempt_success :
        (m : Service E Answer) (w : World E)
        → Holds Always (OnSuccess Q) (m w)
        → Holds Always (OnSuccess Q) (attempt m fail w)
    attempt_success m w h =
        attempt_holds Always (OnSuccess Q) m fail w h λ v _ e. absurd (ground arith)

    pub found_success :
        (next : Subscription → Service E Answer) (o : Option Subscription) (w : World E)
        → ((s : Subscription) → o ≡ some s → Holds Always (OnSuccess Q) (next s w))
        → Holds Always (OnSuccess Q) (found E next o w)
    unfolding found
    found_success next none w k =
        pure_holds Always (OnSuccess Q) missing w tt λ e. absurd (ground arith)
    found_success next (some s) w k = k s refl

module _ {E : Env} (L : DbLaws E) where
  -- The transactions are those of `before`.
  abbrev pub SamePayments : E.Db → E.Db → Type 0
  SamePayments before d = L.payments d ≡ L.payments before

  pub handle_active_payments :
      (user k : ℕ) (w : World E)
      → Holds Always (λ a v. SamePayments w.db v.db) (handle_active_subscription E user k w)
  unfolding replace_active update_sub handle_active_subscription get_active_subscription_by_user_id
  handle_active_payments user k w =
      query_then Always (λ a v. SamePayments w.db v.db) _ _ w tt
        (elim [ none ↦ λ e. pure_holds Always _ none w tt refl | some s ↦ λ e. replaced s ])
    where
      Q : Option ActiveSubscriptionDate → World E → Type 0
      Q a v = SamePayments w.db v.db

      replaced : (s : Subscription) → Holds Always Q (replace_active E (some s) k w)
      replaced s =
          branch_holds Always Q _ _ _ w (λ own. pure_holds Always Q _ w tt refl)
            λ other.
              quiet_then Always Q _ _ w (cancel_subscription-IsQuiet E s.payment_system _) tt
                λ a v e _. quiet_then Always Q _ _ v new_date-IsQuiet tt λ now x e' _.
                  change_then Always Q _ _ x tt λ d u.
                    pure_holds Always Q _ (record x { db = d }) tt
                      (L.update_payments _ _ x.db d u ∙ ap L.payments (e' ∙ e))
