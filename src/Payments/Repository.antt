-- ===== src/Payments/Repository.antt =====
-- payments/infrastructure/payments.repository.ts: the queries and writes of the payments service.
use somegram_backend.Prelude.{ℕ, Bool, false, ◌&&◌, List, [], ◌∷◌, Option, none, some, ◌==◌, ltb}
use somegram_backend.Effects.{◌>>=◌, pure}
use somegram_backend.Payments.Types.{is_current}
use somegram_backend.Payments.SubscriptionEntity.{Subscription}
use somegram_backend.Payments.TransactionEntity.{PaymentTransaction}
use somegram_backend.Payments.World.{Env, Service, query, write, change, new_date}

-- The conditions of the `where` clauses; `null` equals no id and lies before no date.
abbrev pub holds_id : ℕ → Option ℕ → Bool
holds_id k none = false
holds_id k (some j) = j == k

abbrev pub ends_before : ℕ → Option ℕ → Bool
ends_before date none = false
ends_before date (some t) = ltb t date

abbrev pub has_id : ℕ → Subscription → Bool
has_id k s = s.id == k

abbrev pub has_system_sub_id : ℕ → Subscription → Bool
has_system_sub_id k s = holds_id k s.payment_system_sub_id

abbrev pub is_current_of : ℕ → Subscription → Bool
is_current_of user s = is_current s.status && (s.user_id == user)

abbrev pub is_current_before : ℕ → Subscription → Bool
is_current_before date s = is_current s.status && ends_before date s.end_date_of_subscription

abbrev pub is_current_row : Subscription → Bool
is_current_row s = is_current s.status

-- `rows && rows.length > 0 ? rows : null`
abbrev pub or_null : {A : Type 0} → List A → Option (List A)
or_null [] = none
or_null (x ∷ xs) = some (x ∷ xs)

-- Only five columns are written.
unfoldable pub merge_columns : Subscription → ℕ → Subscription → Subscription
merge_columns s now row = record row {
  updated_at = some now;
  payment_system_sub_id = s.payment_system_sub_id;
  status = s.status;
  auto_renewal = s.auto_renewal;
  payment_system_customer_id = s.payment_system_customer_id;
}

module _ (E : Env) where
  unfoldable pub save_transaction : PaymentTransaction → Service E ℕ
  save_transaction t = write (E.create_transaction t)

  unfoldable pub create_sub : (ℕ → Subscription) → Service E ℕ
  create_sub row = write (E.create_subscription row)

  -- The whole row is written, as it was read and changed.
  unfoldable pub update_sub : Subscription → Service E (Unit {0})
  update_sub s = change (E.update s.id (λ _. s))

  -- The rows are written in one transaction: all of them or none.
  unfoldable pub update_rows : List Subscription → E.Db → Option E.Db
  update_rows [] d = some d
  update_rows (s ∷ l) d = elim (E.update s.id (λ _. s) d) [
    | none ↦ none
    | some d' ↦ update_rows l d'
  ]

  unfoldable pub update_many_sub : List Subscription → Service E (Unit {0})
  update_many_sub l = change (update_rows l)

  unfoldable pub get_subscription_by_payment_system_sub_id : ℕ → Service E (Option Subscription)
  get_subscription_by_payment_system_sub_id k = query (E.find_first (has_system_sub_id k))

  unfoldable pub get_subscription_by_id : ℕ → Service E (Option Subscription)
  get_subscription_by_id k = query (E.find_first (has_id k))

  unfoldable pub get_active_subscriptions_by_date : ℕ → Service E (Option (List Subscription))
  get_active_subscriptions_by_date date = do
    l ← query (E.find_many (is_current_before date))
    pure (or_null l)

  unfoldable pub get_active_subscription_by_user_id : ℕ → Service E (Option Subscription)
  get_active_subscription_by_user_id user = query (E.find_first (is_current_of user))

  unfoldable pub get_active_subscriptions : Service E (Option (List Subscription))
  get_active_subscriptions = do l ← query (E.find_many is_current_row); pure (or_null l)

  unfoldable pub update_subscription : Subscription → Service E (Unit {0})
  update_subscription s = do now ← new_date; change (E.update s.id (merge_columns s now))
