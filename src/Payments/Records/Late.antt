-- ===== src/Payments/Records/Late.antt =====
-- A late event: PayPal reports the suspension of a subscription whose user has another one.
use somegram_backend.Prelude.{
  ◌≡◌, ◌≢◌, refl, sym, ap, ◌∙◌, some, none, arith, eq→==, ne→==, true, false, Bool-cases, inl, inr,
}
use somegram_backend.Effects.{ok}
use somegram_backend.Outcome.{succeed}
use somegram_backend.Payments.Types.{suspended, is_current}
use somegram_backend.Payments.SubscriptionEntity.{Subscription, suspend_subscription}
use somegram_backend.Payments.World.{Env, World}
use somegram_backend.Payments.Repository.{update_sub}
use somegram_backend.Payments.Handlers.PayPal.{suspend_found}
use somegram_backend.Payments.Database.{DbLaws}
use somegram_backend.Payments.Database.Frames.{Holds, change_then, pure_holds, branch_holds}
use somegram_backend.Payments.OneCurrent.{IsAtMostOne}
use somegram_backend.Payments.Records.{Always, OnSuccess, on_success, new_date_then}

module _ {E : Env} (L : DbLaws E) where
  -- The row of `s` is suspended, and the row of `t` is as it was.
  abbrev IsBeside : Subscription → Subscription → World E → Type 0
  IsBeside s t v =
      ((r : Subscription) × (L.row v.db s.id ≡ some r)
        × (r.status ≡ suspended)
        × (r.user_id ≡ s.user_id))
      × (L.row v.db t.id ≡ some t)

  suspend_found-IsBeside :
      (s t : Subscription) (w : World E)
      → L.row w.db s.id ≡ some s
      → L.row w.db t.id ≡ some t
      → s.id ≢ t.id
      → Holds Always (OnSuccess (IsBeside s t)) (suspend_found E s w)
  unfolding suspend_found suspend_subscription update_sub
  suspend_found-IsBeside s t w here other apart =
      let Q = OnSuccess (IsBeside s t) in
      branch_holds Always Q _ _ _ w
        (λ already. pure_holds Always Q _ w tt λ _. ((s, here, ground arith, refl), other))
        λ open_. new_date_then Always Q _ w (
          change_then Always Q (E.update s.id _) _ _ tt λ d u.
            let (r, old, rows) = L.update_row s.id _ w.db d (λ r h. refl) u in
            pure_holds Always Q _ _ tt λ _. (
              (
                suspend_subscription s (E.clock w.reads),
                rows s.id ∙ rw (eq→== s.id s.id refl) refl,
                refl,
                refl,
              ),
              rows t.id ∙ rw (ne→== s.id t.id apart) other,
            ))

  -- Each user has at most one current subscription, and `t` is that of its user. When the handler
  -- of a suspended PayPal subscription has found another row of the user and answers success, that
  -- row was not current, and now it is, and so is `t`: the user has two current subscriptions.
  pub suspend_found-breaks :
      (s t : Subscription) (w : World E)
      → IsAtMostOne L w.db
      → L.row w.db s.id ≡ some s
      → L.row w.db t.id ≡ some t
      → s.id ≢ t.id
      → is_current t.status ≡ true
      → t.user_id ≡ s.user_id
      → (suspend_found E s w).0 ≡ ok (succeed none)
      → (is_current s.status ≡ false)
        × ((r : Subscription) × (L.row (suspend_found E s w).1.db s.id ≡ some r)
            × (is_current r.status ≡ true)
            × (r.user_id ≡ t.user_id))
        × (L.row (suspend_found E s w).1.db t.id ≡ some t)
  suspend_found-breaks s t w one here other apart cur own e =
      let ((r, there, stopped, user), kept) =
        on_success Always (IsBeside s t) _ (suspend_found-IsBeside s t w here other apart) e in
      (
        elim (Bool-cases (is_current s.status)) [
          | inr past ↦ past
          | inl now ↦ absurd (apart (one s.id t.id s t here other now cur (sym own)))
        ],
        (r, there, ap is_current stopped, user ∙ sym own),
        kept,
      )
