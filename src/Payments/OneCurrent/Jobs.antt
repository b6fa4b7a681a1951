-- ===== src/Payments/OneCurrent/Jobs.antt =====
-- The midnight job that cancels ended subscriptions, and the rows that are current before and after.
use somegram_backend.Prelude.{
  ℕ, ◌≡◌, refl, sym, ap, subst, ◌∙◌, true, List, [], ◌∷◌, Option, none, some, arith, inl, inr, All,
  Option-cases,
}
use mathlib.Core.Option.{some-injective}
use somegram_backend.Effects.{◌>>=◌, pure}
use somegram_backend.Payments.Types.{PaymentSystem, is_current, SubscriptionInfo}
use somegram_backend.Payments.SubscriptionEntity.{Subscription, cancel_subscription}
use somegram_backend.Payments.World.{Env, World, new_date}
use somegram_backend.Payments.Repository.{
  is_current_before, or_null, update_rows, update_many_sub, get_active_subscriptions_by_date,
}
use somegram_backend.Payments.Service.{
  Sweep, drop_sub, drop_paypal, sweep_one, sweep, cancel_suspended, send_infos, disable_all,
  disable_subscription,
}
use somegram_backend.Payments.Adapters.Quiet.{cancel_many_subscriptions-IsQuiet}
use somegram_backend.Payments.Database.{DbLaws}
use somegram_backend.Payments.Database.Frames.{
  IsQuiet, >>=-IsQuiet, pure-IsQuiet, quiet_then, query_then, change_then, pure_holds, branch_holds,
  attempt_holds, holds_then, holds_weaken, quiet_last, new_date-IsQuiet, emit-IsQuiet, Holds,
}
use somegram_backend.Payments.OneCurrent.{IsAtMostOne, chosen, update-IsWritten}
use somegram_backend.Payments.OneCurrent.Steps.{Anything}

module _ {E : Env} (L : DbLaws E) where
  -- Every current row of `d` is the row of `before` with its id.
  abbrev pub IsNarrowed : E.Db → E.Db → Type 0
  IsNarrowed before d =
      (i : ℕ) (t : Subscription)
      → L.row d i ≡ some t
      → is_current t.status ≡ true
      → L.row before i ≡ some t

  -- A row to be written is no longer current, or it is the one that was read.
  abbrev pub IsOld : E.Db → Subscription → Type 0
  IsOld before s = is_current s.status ≡ true → L.row before s.id ≡ some s

  pub narrowed-IsAtMostOne :
      (before d : E.Db) → IsAtMostOne L before → IsNarrowed before d → IsAtMostOne L d
  narrowed-IsAtMostOne before d one narrow i j s t hs ht cs ct same =
      one i j s t (narrow i s hs cs) (narrow j t ht ct) cs ct same

  update-IsNarrowed :
      (before : E.Db) (s : Subscription) (d d' : E.Db)
      → E.update s.id (λ _. s) d ≡ some d'
      → IsOld before s
      → IsNarrowed before d
      → IsNarrowed before d'
  update-IsNarrowed before s d d' e old narrow i t h cur =
      elim (chosen L (L.row d i) (sym (update-IsWritten L s d d' e i) ∙ h)) [
        | inl (here, same) ↦
            subst (λ j. L.row before j ≡ some t) here (old (rw same cur) ∙ ap some same)
        | inr there ↦ narrow i t there cur
      ]

  update_rows-IsNarrowed :
      (before : E.Db) (l : List Subscription) (d d' : E.Db)
      → update_rows E l d ≡ some d'
      → All (IsOld before) l
      → IsNarrowed before d
      → IsNarrowed before d'
  unfolding update_rows
  update_rows-IsNarrowed before [] d d' e old narrow =
      subst (λ z. IsNarrowed before z) (some-injective d d' e) narrow
  update_rows-IsNarrowed before (s ∷ l) d d' e (old, olds) narrow =
      elim (Option-cases (E.update s.id (λ _. s) d)) [
        | inl failed ↦ absurd (ground arith)
        | inr (d₁, u) ↦
            update_rows-IsNarrowed before l d₁ d' (ground arith) olds
              (update-IsNarrowed before s d d₁ u old narrow)
      ]

  -- What the loop has gathered holds only rows that may be written.
  abbrev Gathers : E.Db → Sweep → World E → Type 0
  Gathers before r v = All (IsOld before) r.subscriptions

  abbrev Extends : E.Db → (Sweep → Sweep) → World E → Type 0
  Extends before f v =
      (r : Sweep) → All (IsOld before) r.subscriptions → All (IsOld before) (f r).subscriptions

  canceled-IsOld :
      (before : E.Db) (s : Subscription) (now : ℕ) → IsOld before (cancel_subscription s now)
  unfolding cancel_subscription
  canceled-IsOld before s now cur = cc

  drop_holds :
      (before : E.Db) (s : Subscription) (f : ℕ → Sweep → Sweep) (w : World E)
      → w.db ≡ before
      → ((now : ℕ) (r : Sweep)
          → (f now r).subscriptions ≡ cancel_subscription s now ∷ r.subscriptions)
      → Holds (λ d. d ≡ before) (Extends before) ((new_date >>= λ now. pure (f now)) w)
  drop_holds before s f w e h =
      quiet_then (λ d. d ≡ before) (Extends before) _ _ w new_date-IsQuiet e
        λ now v _ e'.
          pure_holds (λ d. d ≡ before) (Extends before) (f now) v e'
            λ r olds. rw (h now r) (canceled-IsOld before s now, olds)

  sweep_one_holds :
      (before : E.Db) (date : ℕ) (s : Subscription) (system : PaymentSystem) (w : World E)
      → w.db ≡ before
      → L.row before s.id ≡ some s
      → Holds (λ d. d ≡ before) (Extends before) (sweep_one E date s system w)
  unfolding sweep_one
  sweep_one_holds before date s PaymentSystem.paypal w e here =
      branch_holds (λ d. d ≡ before) (Extends before) _ _ _ w
        (λ due. drop_holds before s (drop_paypal s) w e λ now r. ground arith)
        λ early. pure_holds (λ d. d ≡ before) (Extends before) _ w e λ r olds. (λ cur. here, olds)
  sweep_one_holds before date s PaymentSystem.stripe w e here =
      drop_holds before s (drop_sub s) w e λ now r. refl
  sweep_one_holds before date s PaymentSystem.unknown w e here =
      drop_holds before s (drop_sub s) w e λ now r. refl

  sweep_holds :
      (before : E.Db) (date : ℕ) (l : List Subscription) (w : World E)
      → w.db ≡ before
      → All (λ s. (L.row before s.id ≡ some s) × (is_current_before date s ≡ true)) l
      → Holds (λ d. d ≡ before) (Gathers before) (sweep E date l w)
  unfolding sweep
  sweep_holds before date [] w e found_rows = pure_holds (λ d. d ≡ before) (Gathers before) _ w e tt
  sweep_holds before date (s ∷ l) w e ((here, due), found_rows) =
      holds_then (λ d. d ≡ before) (Extends before) (Gathers before) _ _ w
        (sweep_one_holds before date s s.payment_system w e here)
        λ f w₁ e₁ extends.
          holds_then (λ d. d ≡ before) (Gathers before) (Gathers before) _ _ w₁
            (sweep_holds before date l w₁ e₁ found_rows)
            λ r w₂ e₂ olds. pure_holds (λ d. d ≡ before) (Gathers before) _ w₂ e₂ (extends r olds)

  cancel_suspended-IsQuiet : (ids : List (Option ℕ)) → IsQuiet (cancel_suspended E ids)
  unfolding cancel_suspended
  cancel_suspended-IsQuiet [] = pure-IsQuiet tt
  cancel_suspended-IsQuiet (id ∷ ids) =
      >>=-IsQuiet _ _ (cancel_many_subscriptions-IsQuiet E PaymentSystem.paypal (id ∷ ids))
        λ _. pure-IsQuiet tt

  send_infos-IsQuiet : (l : List SubscriptionInfo) → IsQuiet (send_infos E l)
  unfolding send_infos
  send_infos-IsQuiet [] = pure-IsQuiet tt
  send_infos-IsQuiet (i ∷ l) = emit-IsQuiet _

  same-IsNarrowed : (before d : E.Db) → d ≡ before → IsNarrowed before d
  same-IsNarrowed before d e i t there cur = rw (← e) there

  disable_all_holds :
      (before : E.Db) (date : ℕ) (l : Option (List Subscription)) (w : World E)
      → w.db ≡ before
      → ((rows : List Subscription)
          → l ≡ some rows
          → All (λ s. (L.row before s.id ≡ some s) × (is_current_before date s ≡ true)) rows)
      → Holds (IsNarrowed before) (Anything L) (disable_all E date l w)
  unfolding disable_all update_many_sub
  disable_all_holds before date none w e h =
      pure_holds (IsNarrowed before) (Anything L) _ w (same-IsNarrowed before w.db e) tt
  disable_all_holds before date (some l) w e h =
      let P = IsNarrowed before in
      let Q = Anything L {A = Unit {0}} in
      holds_then P (λ r v. (v.db ≡ before) × Gathers before r v) Q _ _ w
        (holds_weaken (λ d. d ≡ before) P (Gathers before) _ (same-IsNarrowed before)
          (sweep_holds before date l w e (h l refl)))
        λ r w₁ narrow₁ (same, olds).
          quiet_then P Q _ _ w₁ (cancel_suspended-IsQuiet r.suspended_ids) narrow₁
            λ _ w₂ e₂ narrow₂. change_then P Q (update_rows E r.subscriptions) _ w₂ narrow₂ λ d u.
              let narrow₃ = update_rows-IsNarrowed before r.subscriptions w₂.db d u olds narrow₂ in
              quiet_last P Q (send_infos E r.gateway_data) (record w₂ { db = d })
                (send_infos-IsQuiet r.gateway_data) narrow₃ λ a v. tt

  -- The rows that the query answers are in the table, and current.
  abbrev IsListed : E.Db → ℕ → Option (List Subscription) → World E → Type 0
  IsListed d date l v =
      (v.db ≡ d)
      × ((rows : List Subscription)
          → l ≡ some rows
          → All (λ s. (L.row d s.id ≡ some s) × (is_current_before date s ≡ true)) rows)

  or_null-eq : {A : Type 0} (l rows : List A) → or_null l ≡ some rows → l ≡ rows
  or_null-eq [] rows e = cc
  or_null-eq (x ∷ xs) rows e = some-injective (x ∷ xs) rows e

  active_by_date_holds :
      (P : E.Db → Type 0) (date : ℕ) (w : World E)
      → P w.db
      → Holds P (IsListed w.db date) (get_active_subscriptions_by_date E date w)
  unfolding get_active_subscriptions_by_date
  active_by_date_holds P date w h =
      query_then P (IsListed w.db date) (E.find_many (is_current_before date)) _ w h λ l e.
        pure_holds P (IsListed w.db date) (or_null l) w h (
          refl,
          λ rows same.
              subst (All _) (or_null-eq l rows same)
                (L.find_many_found (is_current_before date) w.db l e),
        )

  -- However the midnight job that ends subscriptions ends, a row that is current afterwards was in
  -- the table before, unchanged.
  pub disable_subscription_narrows :
      (w : World E) → Holds (IsNarrowed w.db) (Anything L) (disable_subscription E w)
  unfolding disable_subscription
  disable_subscription_narrows w =
      let P = IsNarrowed w.db in
      let Q = Anything L {A = Unit {0}} in
      attempt_holds P Q _ _ w
        (quiet_then P Q _ _ w new_date-IsQuiet (same-IsNarrowed w.db w.db refl)
          λ date w₁ e₁ narrow₁.
            holds_then P (IsListed w₁.db date) Q _ _ w₁ (active_by_date_holds P date w₁ narrow₁)
              λ l w₂ narrow₂ (same, listed).
                disable_all_holds w.db date l w₂ (same ∙ e₁) (rw (← e₁) listed))
        λ v h. tt
