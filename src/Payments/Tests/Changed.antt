-- ===== src/Payments/Tests/Changed.antt =====
-- An activation, a change of name and a late suspension that answer success.
use somegram_backend.Prelude.{
  ◌≡◌, refl, sym, ap, ◌∙◌, ℕ, zero, suc, ◌<◌, some, ltb, Bool, true, false, [], none, arith, ◌==◌,
  if◌then◌else◌,
}
use mathlib.Core.Bool.{false≢true}
use somegram_backend.Effects.{ok, ◌>>=◌, pure, attempt, branch}
use somegram_backend.Outcome.{succeed}
use somegram_backend.Payments.Types.{PaymentSystem, active, pending, canceled, is_current}
use somegram_backend.Payments.SubscriptionEntity.{Subscription}
use somegram_backend.Payments.SubscriptionEntity
use somegram_backend.Payments.World.{World, query, change, new_date}
use somegram_backend.Payments.Repository
use somegram_backend.Payments.Answers.{found}
use somegram_backend.Payments.Service
use somegram_backend.Payments.Handlers.PayPal.{
  handle_pending, activate_with, reactivate, subscription_active_handle, suspend_found,
  subscription_cancelled, handle_event,
}
use somegram_backend.Payments.Commands.{rename_found, update_username}
use somegram_backend.Payments.Database.Table.{env, row_of, stored, search, update_cell}
use somegram_backend.Payments.Database.Table.Laws.{laws, laws-row-eq, laws-row-lt}
use somegram_backend.Payments.Records.Changes.{IsKnown}
use somegram_backend.Payments.Records.Activation.{
  IsActivated, subscription_active_handle-IsActivated,
}
use somegram_backend.Payments.OneCurrent.{IsAtMostOne}
use somegram_backend.Payments.Records.Unknown.{Refused, handle_event-Refused}
use somegram_backend.Payments.Repository.{has_system_sub_id}
use somegram_backend.Payments.Records.Late.{suspend_found-breaks}
use somegram_backend.Payments.Records.Switches.{IsCurrentOf}
use somegram_backend.Payments.Records.Names.{IsRenamed, update_username-IsRenamed}
use somegram_backend.Payments.Tests.{subscription, world_of, single-IsAtMostOne}

abbrev paypal_pending : World env
paypal_pending = world_of (subscription PaymentSystem.paypal pending true)

activation_succeeds : (subscription_active_handle env 90 paypal_pending).0 ≡ ok (succeed none)
unfolding ◌>>=◌ pure attempt branch query change new_date found search update_cell
    Repository.get_subscription_by_payment_system_sub_id
    Repository.get_active_subscription_by_user_id Repository.update_sub
    Service.handle_active_subscription Service.replace_active
    SubscriptionEntity.activate_subscription handle_pending activate_with reactivate
    subscription_active_handle
activation_succeeds = refl

subscription_active_handle-IsActivated_example :
    (s : Subscription) × IsKnown laws 90 s paypal_pending.db
    × IsActivated laws paypal_pending s (subscription_active_handle env 90 paypal_pending).1
subscription_active_handle-IsActivated_example =
    subscription_active_handle-IsActivated laws 90 paypal_pending
      (single-IsAtMostOne paypal_pending.db (omega arith)) activation_succeeds

abbrev stripe_active : World env
stripe_active = world_of (subscription PaymentSystem.stripe active true)

renaming_succeeds : (update_username env 3 "other" stripe_active).0 ≡ ok (succeed none)
unfolding ◌>>=◌ pure attempt query change found search update_cell
    Repository.get_active_subscription_by_user_id Repository.update_sub rename_found update_username
renaming_succeeds = refl

update_username-IsRenamed_example :
    (s : Subscription) × IsCurrentOf laws 3 s stripe_active
    × IsRenamed laws "other" stripe_active s (update_username env 3 "other" stripe_active).1
update_username-IsRenamed_example =
    update_username-IsRenamed laws 3 "other" stripe_active renaming_succeeds

-- A cancelled subscription and the active one that has replaced it.
abbrev replaced : Subscription
replaced = subscription PaymentSystem.paypal canceled false

abbrev replacing : Subscription
replacing = record (subscription PaymentSystem.stripe active true) { id = 1 }

abbrev two_rows : World env
two_rows = record (world_of replaced) {
  db = record { size = 2; cell = λ i. if i == 0 then replaced else replacing; payments = [] };
}

late_succeeds : (suspend_found env replaced two_rows).0 ≡ ok (succeed none)
unfolding ◌>>=◌ pure branch change new_date update_cell Repository.update_sub
    SubscriptionEntity.suspend_subscription suspend_found
late_succeeds = refl

-- The row that is current is the second one.
is_second :
    (i : ℕ) (s : Subscription)
    → i < 2
    → row_of two_rows.db i ≡ some s
    → is_current s.status ≡ true
    → i ≡ 1
unfolding row_of
is_second zero s below e cur = absurd (
    false≢true
      (ap is_current (status_eq (subscription PaymentSystem.paypal canceled false) s e) ∙ cur))
  where
    status_eq : (r s : Subscription) → some r ≡ some s → r.status ≡ s.status
    status_eq r s e = ground arith
is_second (suc zero) s below e cur = refl
is_second (suc (suc k)) s below e cur = absurd (omega (arith, below))

two_rows-IsAtMostOne : IsAtMostOne laws two_rows.db
two_rows-IsAtMostOne i j s t hi hj ci cj same =
    let (below, here) = laws-row-lt two_rows.db i s hi in
    let (below', here') = laws-row-lt two_rows.db j t hj in
    is_second i s below here ci ∙ sym (is_second j t below' here' cj)

suspend_found-breaks_example :
    (is_current canceled ≡ false)
    × ((r : Subscription) × (laws.row (suspend_found env replaced two_rows).1.db 0 ≡ some r)
        × (is_current r.status ≡ true)
        × (r.user_id ≡ 3))
    × (laws.row (suspend_found env replaced two_rows).1.db 1 ≡ some replacing)
unfolding row_of
suspend_found-breaks_example =
    suspend_found-breaks laws replaced replacing two_rows two_rows-IsAtMostOne
      (laws-row-eq two_rows.db 0) (laws-row-eq two_rows.db 1) (λ e. omega (arith, e)) refl refl
      late_succeeds

-- PayPal reports the end of an agreement that is in no row.
unknown_agreement :
    (i : ℕ) (s : Subscription)
    → laws.row paypal_pending.db i ≡ some s
    → has_system_sub_id 7 s ≡ false
unfolding row_of
unknown_agreement i s here = on_row (ltb i 1) (laws-row-lt paypal_pending.db i s here).1
  where
    on_row :
        (b : Bool)
        → (if b then some (stored paypal_pending.db i) else none) ≡ some s
        → has_system_sub_id 7 s ≡ false
    on_row true e = sym (of_row (stored paypal_pending.db i) s e)
      where
        of_row :
            (r s : Subscription) → some r ≡ some s → has_system_sub_id 7 r ≡ has_system_sub_id 7 s
        of_row r s e = ap (λ o. elim o [ none ↦ false | some r ↦ has_system_sub_id 7 r ]) e
    on_row false e = absurd (ground arith)

handle_event-Refused_example :
    Refused
      (some (subscription_cancelled 7))
      paypal_pending
      (handle_event env (some (subscription_cancelled 7)) paypal_pending)
handle_event-Refused_example =
    handle_event-Refused laws (some (subscription_cancelled 7)) paypal_pending unknown_agreement
