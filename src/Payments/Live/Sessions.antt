-- ===== src/Payments/Live/Sessions.antt =====
-- The handler of a completed checkout session where the services are up.
use somegram_backend.Prelude.{
  ℕ, ◌≡◌, refl, ap, ◌∙◌, subst, sym, Bool, true, Option, none, some, eq→==, arith,
}
use somegram_backend.Effects.{ok}
use somegram_backend.Outcome.{succeed, fail}
use somegram_backend.Payments.SubscriptionEntity.{Subscription}
use somegram_backend.Payments.World.{Env, World, Service}
use somegram_backend.Payments.Repository.{has_id, get_subscription_by_id, update_subscription}
use somegram_backend.Payments.Answers.{Answer, found}
use somegram_backend.Payments.Handlers.Stripe.{
  CheckoutSession, complete_session, session_completed_handle,
}
use somegram_backend.Payments.Database.{DbLaws}
use somegram_backend.Payments.Live.{
  AllUp, Cancels, Answers, Answers-then, pure-Answers, attempt-Answers, query-Answers,
  new_date-Answers, change-Answers,
}
use somegram_backend.Payments.Live.Replacing.{Has, handle_active-Answers}

module _ {E : Env} (L : DbLaws E) (up : AllUp L) where
  -- The answer is a success.
  abbrev pub Succeeds : Answer → World E → Type 0
  Succeeds a v = a ≡ succeed none

  -- A query by a condition that a row of the table meets finds a row.
  pub found-Answers :
      (p : Subscription → Bool) (next : Subscription → Service E Answer) (w : World E)
      (r : Subscription) (i : ℕ)
      → L.row w.db i ≡ some r
      → p r ≡ true
      → (o : Option Subscription) → E.find_first p w.db ≡ some o
      → ((s : Subscription) → L.row w.db s.id ≡ some s → p s ≡ true → Answers Succeeds (next s w))
      → Answers Succeeds (found E next o w)
  unfolding found
  found-Answers p next w r i here holds none e k =
      let fails = L.find_first_missing p w.db e i r here in absurd (ground arith)
  found-Answers p next w r i here holds (some s) e k =
      let (there, has) = L.find_first_found p w.db s e in k s there has

  complete_session-Answers :
      (session : CheckoutSession) (s : Subscription) (w : World E)
      → L.row w.db s.id ≡ some s
      → Cancels L w.db
      → Answers Succeeds (complete_session E session s w)
  unfolding complete_session update_subscription
  complete_session-Answers session s w here cancels =
      Answers-then (Has L up s.id) Succeeds _ _ w
        (handle_active-Answers L up s.user_id s.id w cancels (s, here))
        λ a v (r, kept).
          Answers-then (λ a u. Unit {0}) Succeeds _ _ v
            (Answers-then (λ a u. u.db ≡ v.db) (λ a u. Unit {0}) _ _ v
              (new_date-Answers (λ a u. u.db ≡ v.db) v refl)
              λ now u e.
                let (d, written) = up.update_up s.id _ u.db r (rw e kept) in
                change-Answers (λ a u. Unit {0}) _ u d written tt)
            λ a u _. pure-Answers Succeeds _ u refl

  -- The database is up, PayPal gives tokens, and it cancels the current subscriptions of the table
  -- that were made there. Then the handler of a completed checkout session answers success if the
  -- subscription of its reference is in the table, whether or not Stripe answers.
  pub session_completed_handle-Succeeds :
      (session : CheckoutSession) (w : World E) (s : Subscription)
      → L.row w.db session.client_reference_id ≡ some s
      → Cancels L w.db
      → (session_completed_handle E session w).0 ≡ ok (succeed none)
  unfolding session_completed_handle get_subscription_by_id
  session_completed_handle-Succeeds session w s here cancels =
      let id = session.client_reference_id in
      let (o, e) = up.find_first_up (has_id id) w.db in
      let (a, v, ended, success) = attempt-Answers Succeeds _ fail w (
        Answers-then (λ a v. (a ≡ o) × (v ≡ w)) Succeeds _ _ w
          (query-Answers (λ a v. (a ≡ o) × (v ≡ w)) (E.find_first (has_id id)) w o e (refl, refl))
          λ a v (same, unchanged).
            subst (λ u. Answers Succeeds (found E (complete_session E session) a u)) (sym unchanged)
              (found-Answers (has_id id) (complete_session E session) w s id here
                (eq→== s.id id (L.row_id w.db id s here)) a (e ∙ ap some (sym same))
                λ r there own. complete_session-Answers session r w there cancels)) in
      ap (λ x. x.0) ended ∙ ap ok success
