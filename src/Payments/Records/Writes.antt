-- ===== src/Payments/Records/Writes.antt =====
-- A method writes a row or a transaction, and goes on.
use somegram_backend.Prelude.{ℕ, ◌≡◌, refl, ◌∙◌, ◌∷◌, some, eq→==}
use somegram_backend.Effects.{◌>>=◌}
use somegram_backend.Payments.SubscriptionEntity.{Subscription}
use somegram_backend.Payments.TransactionEntity.{PaymentTransaction}
use somegram_backend.Payments.World.{Env, World, Service}
use somegram_backend.Payments.Repository.{update_sub, save_transaction}
use somegram_backend.Payments.Database.{DbLaws}
use somegram_backend.Payments.Database.Frames.{Holds, change_then, write_then}
use somegram_backend.Payments.Records.{Always, SamePayments}

module _ {E : Env} (L : DbLaws E) where
  -- A row is written: it is there, and the transactions are the same.
  pub update_records :
      {B : Type 0} (Q : B → World E → Type 0) (s : Subscription) (f : Unit {0} → Service E B)
      (w : World E)
      → ((d : E.Db)
          → L.row d s.id ≡ some s
          → SamePayments L w.db d
          → Holds Always Q (f tt (record w { db = d })))
      → Holds Always Q ((update_sub E s >>= f) w)
  unfolding update_sub
  update_records Q s f w k = change_then Always Q (E.update s.id (λ _. s)) f w tt λ d u.
      let (r, old, rows) = L.update_row s.id (λ _. s) w.db d (λ r h. refl) u in
      k d (rows s.id ∙ rw (eq→== s.id s.id refl) refl) (L.update_payments _ _ w.db d u)

  pub save_records :
      {B : Type 0} (Q : B → World E → Type 0) (t : PaymentTransaction) (f : ℕ → Service E B)
      (w : World E)
      → ((i : ℕ) (d : E.Db)
          → ((j : ℕ) → L.row d j ≡ L.row w.db j)
          → L.payments d ≡ t ∷ L.payments w.db
          → Holds Always Q (f i (record w { db = d })))
      → Holds Always Q ((save_transaction E t >>= f) w)
  unfolding save_transaction
  save_records Q t f w k =
      write_then Always Q (E.create_transaction t) f w tt
        λ i d u. k i d (L.transaction_row t i w.db d u) (L.transaction_payments t i w.db d u)
