-- ===== src/Payments/Records/Names.antt =====
-- What the command that changes a user's name has recorded when it answers success.
use somegram_backend.Prelude.{ℕ, String, ◌≡◌, refl, none, some}
use somegram_backend.Effects.{ok}
use somegram_backend.Outcome.{succeed}
use somegram_backend.Payments.SubscriptionEntity.{Subscription}
use somegram_backend.Payments.World.{Env, World}
use somegram_backend.Payments.Commands.{rename_found, update_username}
use somegram_backend.Payments.Database.{DbLaws}
use somegram_backend.Payments.Database.Frames.{Holds, pure_holds}
use somegram_backend.Payments.Records.{Always, OnSuccess, SamePayments}
use somegram_backend.Payments.Records.Writes.{update_records}
use somegram_backend.Payments.Records.Switches.{IsCurrentOf, current_records}

module _ {E : Env} (L : DbLaws E) where
  -- The row of `s` has the name, and is else as it was; the transactions and messages are the same.
  abbrev pub IsRenamed : String → World E → Subscription → World E → Type 0
  IsRenamed name w s v =
      (L.row v.db s.id ≡ some (record s { username = name }))
      × SamePayments L w.db v.db
      × (v.outbox ≡ w.outbox)

  rename_found_records :
      (name : String) (s : Subscription) (w : World E)
      → Holds Always (OnSuccess (IsRenamed name w s)) (rename_found E name s w)
  unfolding rename_found
  rename_found_records name s w =
      update_records L (OnSuccess (IsRenamed name w s)) _ _ w λ d there same.
        pure_holds Always (OnSuccess (IsRenamed name w s)) _ _ tt λ _. (there, same, refl)

  -- When the command that changes a user's name answers success, the user has a current
  -- subscription, whose row has the new name and is else as it was; no transaction is recorded and
  -- no message sent.
  pub update_username-IsRenamed :
      (user : ℕ) (name : String) (w : World E)
      → (update_username E user name w).0 ≡ ok (succeed none)
      → (s : Subscription) × IsCurrentOf L user s w
        × IsRenamed name w s (update_username E user name w).1
  unfolding update_username
  update_username-IsRenamed user name w e =
      current_records L (rename_found E name) (IsRenamed name w) user w
        (λ s. rename_found_records name s w) e
