-- ===== src/Payments/Records/Sessions.antt =====
-- What the Stripe handler for a completed checkout session has recorded when it answers success.
use somegram_backend.Prelude.{
  ℕ, ◌≡◌, refl, sym, ap, ◌∙◌, true, none, some, arith, ◌==◌, if◌then◌else◌, eq→==,
}
use mathlib.Core.Option.{some-injective}
use somegram_backend.Effects.{ok}
use somegram_backend.Outcome.{succeed}
use somegram_backend.Payments.Types.{active}
use somegram_backend.Payments.SubscriptionEntity.{Subscription}
use somegram_backend.Payments.World.{Env, World}
use somegram_backend.Payments.Repository.{has_id, merge_columns, update_subscription}
use somegram_backend.Payments.Handlers.Stripe.{
  CheckoutSession, complete_session, session_completed_handle,
}
use somegram_backend.Payments.Database.{DbLaws}
use somegram_backend.Payments.Database.Frames.{
  Holds, quiet_then, change_holds, pure_holds, holds_then, holds_weaken, new_date-IsQuiet,
}
use somegram_backend.Payments.OneCurrent.{IsAtMostOne, HasOnly}
use somegram_backend.Payments.OneCurrent.Replacing.{IsReplaced, handle_active_holds}
use somegram_backend.Payments.Records.{Always, OnSuccess}
use somegram_backend.Payments.Records.Invoices.{by_id_records}

module _ {E : Env} (L : DbLaws E) where
  -- The row of `s` is active with the ids of the session, its other columns are as they were, and
  -- it is the only current one of its user.
  pub record Completed (session : CheckoutSession) (s : Subscription) (v : World E) : Type 0 where
    row : Subscription
    there : L.row v.db s.id ≡ some row
    is_active : row.status ≡ active
    system_sub_id : row.payment_system_sub_id ≡ session.subscription
    customer : row.payment_system_customer_id ≡ session.customer
    same_user : row.user_id ≡ s.user_id
    same_renewal : row.auto_renewal ≡ s.auto_renewal
    same_end : row.end_date_of_subscription ≡ s.end_date_of_subscription
    only : HasOnly L s.user_id s.id v.db

  pub update-HasOnly :
      (user k : ℕ) (r : Subscription) (d d' : E.Db)
      → ((j : ℕ) → L.row d' j ≡ (if k == j then some r else L.row d j))
      → HasOnly L user k d
      → HasOnly L user k d'
  update-HasOnly user k r d d' rows only j t here cur same = ground (arith, rows j, only j t)

  abbrev completed : CheckoutSession → Subscription → ℕ → Subscription → Subscription
  completed session s now r = record r {
    updated_at = some now;
    payment_system_sub_id = session.subscription;
    status = active;
    auto_renewal = s.auto_renewal;
    payment_system_customer_id = session.customer;
  }

  -- The five columns are merged into the row of `s`.
  merged :
      (session : CheckoutSession) (s : Subscription) (x : World E) (d : E.Db) (now : ℕ)
      → L.row x.db s.id ≡ some s
      → HasOnly L s.user_id s.id x.db
      → E.update s.id (completed session s now) x.db ≡ some d
      → Completed session s (record x { db = d })
  merged session s x d now here only u =
      let (r, old, rows) = L.update_row s.id (completed session s now) x.db d (λ r h. h) u in
      let same : s ≡ r = some-injective s r (sym here ∙ old) in
      record {
        row = completed session s now r;
        there = rows s.id ∙ rw (eq→== s.id s.id refl) refl;
        is_active = refl;
        system_sub_id = refl;
        customer = refl;
        same_user = sym (ap (λ z. z.user_id) same);
        same_renewal = refl;
        same_end = sym (ap (λ z. z.end_date_of_subscription) same);
        only = update-HasOnly s.user_id s.id (completed session s now r) x.db d rows only;
      }

  complete_session_records :
      (session : CheckoutSession) (s : Subscription) (w : World E)
      → IsAtMostOne L w.db
      → L.row w.db s.id ≡ some s
      → Holds Always (OnSuccess (Completed session s)) (complete_session E session s w)
  unfolding complete_session update_subscription merge_columns
  complete_session_records session s w one here =
      let Q = OnSuccess (Completed session s) in
      holds_then Always (λ a v. IsAtMostOne L v.db × IsReplaced L s.user_id s.id w.db a v) Q _ _ w
        (holds_weaken (IsAtMostOne L) Always (IsReplaced L s.user_id s.id w.db) _ (λ d h. tt)
          (handle_active_holds L s.user_id s.id w one))
        λ a v _ (one₁, (only, same)).
          holds_then Always (λ a u. Completed session s u) Q _ _ v
            (quiet_then Always (λ a u. Completed session s u) _ _ v new_date-IsQuiet tt
              λ now x e _.
                change_holds Always (λ a u. Completed session s u)
                  (E.update s.id (completed session s now)) x tt
                  λ d u. (tt, merged session s x d now (rw e (same ∙ here)) (rw e only) u))
            λ a u _ done. pure_holds Always Q _ u tt λ _. done

  -- In a table with at most one current subscription for each user, when the handler of a
  -- completed checkout session answers success, the subscription of its reference is in the
  -- table; its row is active with the ids of the session, has the same user, renewal and end, and
  -- no other row of the user is current.
  pub session_completed_handle-Completed :
      (session : CheckoutSession) (w : World E)
      → IsAtMostOne L w.db
      → (session_completed_handle E session w).0 ≡ ok (succeed none)
      → (s : Subscription) × (L.row w.db s.id ≡ some s)
        × (has_id session.client_reference_id s ≡ true)
        × Completed session s (session_completed_handle E session w).1
  unfolding session_completed_handle
  session_completed_handle-Completed session w one e =
      by_id_records L (complete_session E session) (Completed session) session.client_reference_id w
        (λ s here. complete_session_records session s w one here) e
