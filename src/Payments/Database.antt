-- ===== src/Payments/Database.antt =====
-- What the payments service relies on in the database: the rows by their primary key, the recorded
-- transactions, and how each call of `Env` reads and changes them.
pub mod Frames
pub mod Table
use somegram_backend.Prelude.{
  ℕ, ◌≡◌, Bool, true, false, List, ◌∷◌, Option, none, some, ◌==◌, if◌then◌else◌, All,
}
use somegram_backend.Payments.SubscriptionEntity.{Subscription}
use somegram_backend.Payments.TransactionEntity.{PaymentTransaction}
use somegram_backend.Payments.World.{Env}

pub record DbLaws (E : Env) : Type 0 where
  -- the row with a given id, and the transactions, the newest first
  pub row : E.Db → ℕ → Option Subscription
  pub payments : E.Db → List PaymentTransaction
  pub row_id : (d : E.Db) (i : ℕ) (s : Subscription) → row d i ≡ some s → s.id ≡ i
  -- `findFirst` answers a row that meets the condition, or `null` if there is none.
  pub find_first_found :
      (p : Subscription → Bool) (d : E.Db) (s : Subscription)
      → E.find_first p d ≡ some (some s)
      → (row d s.id ≡ some s) × (p s ≡ true)
  pub find_first_missing :
      (p : Subscription → Bool) (d : E.Db)
      → E.find_first p d ≡ some none
      → (i : ℕ) (s : Subscription) → row d i ≡ some s
      → p s ≡ false
  -- `findMany` answers rows that meet the condition.
  pub find_many_found :
      (p : Subscription → Bool) (d : E.Db) (l : List Subscription)
      → E.find_many p d ≡ some l
      → All (λ s. (row d s.id ≡ some s) × (p s ≡ true)) l
  -- An update that keeps the id changes the one row with that id, which is there.
  pub update_row :
      (i : ℕ) (f : Subscription → Subscription) (d d' : E.Db)
      → ((r : Subscription) → r.id ≡ i → (f r).id ≡ i)
      → E.update i f d ≡ some d'
      → (r : Subscription) × (row d i ≡ some r)
        × ((j : ℕ) → row d' j ≡ (if i == j then some (f r) else row d j))
  pub update_payments :
      (i : ℕ) (f : Subscription → Subscription) (d d' : E.Db)
      → E.update i f d ≡ some d'
      → payments d' ≡ payments d
  -- A new row has an id that no row had.
  pub create_row :
      (f : ℕ → Subscription) (i : ℕ) (d d' : E.Db)
      → ((j : ℕ) → (f j).id ≡ j)
      → E.create_subscription f d ≡ some (i, d')
      → (row d i ≡ none) × ((j : ℕ) → row d' j ≡ (if i == j then some (f i) else row d j))
  pub create_payments :
      (f : ℕ → Subscription) (i : ℕ) (d d' : E.Db)
      → E.create_subscription f d ≡ some (i, d')
      → payments d' ≡ payments d
  pub transaction_row :
      (t : PaymentTransaction) (i : ℕ) (d d' : E.Db)
      → E.create_transaction t d ≡ some (i, d')
      → (j : ℕ) → row d' j ≡ row d j
  pub transaction_payments :
      (t : PaymentTransaction) (i : ℕ) (d d' : E.Db)
      → E.create_transaction t d ≡ some (i, d')
      → payments d' ≡ t ∷ payments d
