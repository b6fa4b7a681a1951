-- ===== src/Payments/OneCurrent/Replacing.antt =====
-- `handleActiveSubscription` on tables with at most one current subscription for each user.
use somegram_backend.Prelude.{
  ℕ, ◌≡◌, refl, ap, subst, ◌∙◌, true, false, Option, none, some, arith, ◌==◌, ==→eq,
}
use somegram_backend.Payments.Types.{is_current}
use somegram_backend.Payments.SubscriptionEntity.{
  Subscription, ActiveSubscriptionDate, cancel_subscription,
}
use somegram_backend.Payments.World.{Env, World}
use somegram_backend.Payments.Repository.{is_current_of, get_active_subscription_by_user_id}
use somegram_backend.Payments.Service.{handle_active_subscription, replace_active}
use somegram_backend.Payments.Adapters.Quiet.{cancel_subscription-IsQuiet}
use somegram_backend.Payments.Database.{DbLaws}
use somegram_backend.Payments.Database.Frames.{
  Holds, query_then, quiet_then, new_date-IsQuiet, pure_holds, branch_holds,
}
use somegram_backend.Payments.OneCurrent.{
  IsAtMostOne, HasOnly, current-HasOnly, Fits, idle-Fits, update_sub_then,
}

module _ {E : Env} (L : DbLaws E) where
  -- Where the query finds nothing, the user has no current row at all.
  missing-HasOnly :
      (user k : ℕ) (d : E.Db) → E.find_first (is_current_of user) d ≡ some none → HasOnly L user k d
  missing-HasOnly user k d e j t here cur same =
      let absent = L.find_first_missing (is_current_of user) d e j t here in
      absurd (ground (arith, absent))

  -- Cancelling the only current row leaves none.
  cancelled-HasOnly :
      (s : Subscription) (user k now : ℕ) (d d' : E.Db)
      → E.update s.id (λ _. cancel_subscription s now) d ≡ some d'
      → HasOnly L user s.id d
      → HasOnly L user k d'
  unfolding cancel_subscription
  cancelled-HasOnly s user k now d d' e only j t here cur same =
      let c = cancel_subscription s now in
      let (r, there, rows) = L.update_row s.id (λ _. c) d d' (λ r h. refl) e in
      absurd (ground (arith, rows j, only j t))

  pub cancelled-Fits :
      (s : Subscription) (now : ℕ) (d : E.Db) → Fits L (cancel_subscription s now) d
  unfolding cancel_subscription
  cancelled-Fits s now d = idle-Fits L (cancel_subscription s now) d refl

  -- Only the processed subscription can be current afterwards, and its row is as it was.
  abbrev pub IsReplaced : ℕ → ℕ → E.Db → Option ActiveSubscriptionDate → World E → Type 0
  IsReplaced user k before a w = HasOnly L user k w.db × (L.row w.db k ≡ L.row before k)

  -- Cancelling one row leaves the others.
  row_kept :
      (s : Subscription) (k now : ℕ) (d d' : E.Db)
      → E.update s.id (λ _. cancel_subscription s now) d ≡ some d'
      → (s.id == k) ≡ false
      → L.row d' k ≡ L.row d k
  unfolding cancel_subscription
  row_kept s k now d d' e other =
      let (r, there, rows) =
        L.update_row s.id (λ _. cancel_subscription s now) d d' (λ r h. refl) e in
      rows k ∙ rw other

  replace_active_holds :
      (s : Subscription) (user k : ℕ) (w : World E)
      → IsAtMostOne L w.db
      → L.row w.db s.id ≡ some s
      → is_current_of user s ≡ true
      → Holds (IsAtMostOne L) (IsReplaced user k w.db) (replace_active E (some s) k w)
  unfolding replace_active cancel_subscription
  replace_active_holds s user k w one here cur =
      let P = IsAtMostOne L in
      let Q = IsReplaced user k w.db in
      let facts : (is_current s.status ≡ true) × (s.user_id ≡ user) = ground arith in
      let only : HasOnly L user s.id w.db =
        subst (λ u. HasOnly L u s.id w.db) facts.1 (current-HasOnly L w.db s one here facts.0) in
      branch_holds P Q (s.id == k) _ _ w
        (λ own.
          pure_holds P Q _ w one (subst (λ i. HasOnly L user i w.db) (==→eq s.id k own) only, refl))
        λ other.
          quiet_then P Q _ _ w (cancel_subscription-IsQuiet E s.payment_system _) one λ a v e one'.
            quiet_then P Q _ _ v new_date-IsQuiet one' λ now x e' one''.
              update_sub_then L Q (cancel_subscription s now) _ x one'' (cancelled-Fits s now x.db)
                λ d u one‴.
                  pure_holds P Q _ (record x { db = d }) one‴
                    (
                      cancelled-HasOnly s user k now x.db d u (rw (e', e) only),
                      row_kept s k now x.db d u other ∙ ap (λ z. L.row z k) (e' ∙ e),
                    )

  -- In a table with at most one current subscription for each user, however
  -- `handleActiveSubscription` ends the table still has at most one; when it answers, the user has
  -- no current subscription but possibly the processed one, whose row is as it was.
  pub handle_active_holds :
      (user k : ℕ) (w : World E)
      → IsAtMostOne L w.db
      → Holds (IsAtMostOne L) (IsReplaced user k w.db) (handle_active_subscription E user k w)
  unfolding handle_active_subscription replace_active get_active_subscription_by_user_id
  handle_active_holds user k w one =
      query_then (IsAtMostOne L) (IsReplaced user k w.db) (E.find_first (is_current_of user)) _ w
        one
        (elim [
          | none ↦ λ e.
              pure_holds (IsAtMostOne L) (IsReplaced user k w.db) _ w one
                (missing-HasOnly user k w.db e, refl)
          | some s ↦ λ e.
              let (here, cur) = L.find_first_found (is_current_of user) w.db s e in
              replace_active_holds s user k w one here cur
        ])
