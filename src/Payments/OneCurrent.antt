-- ===== src/Payments/OneCurrent.antt =====
-- The current subscriptions of a user, those whose status is `active` or `suspended`: tables with at
-- most one for each user, and the rows that may be written to them.
pub mod Replacing
pub mod Steps
pub mod PayPalPayments
pub mod PayPalEvents
pub mod StripeEvents
pub mod Commands
pub mod Creation
pub mod Jobs
pub mod Runs
use somegram_backend.Prelude.{
  ℕ, ◌≡◌, refl, sym, ap, subst, ◌∙◌, Bool, true, false, Option, none, some, arith, ◌⊎◌, inl, inr,
  ◌==◌, if◌then◌else◌, Bool-cases, ==→eq,
}
use somegram_backend.Effects.{Action, ◌>>=◌}
use somegram_backend.Payments.Types.{is_current}
use somegram_backend.Payments.SubscriptionEntity.{Subscription}
use somegram_backend.Payments.World.{Env, World, Service}
use somegram_backend.Payments.Repository.{update_sub}
use somegram_backend.Payments.Database.{DbLaws}
use somegram_backend.Payments.Database.Frames.{Holds, change_then, change_holds}

module _ {E : Env} (L : DbLaws E) where
  -- Two current rows of one user are one row.
  abbrev pub IsAtMostOne : E.Db → Type 0
  IsAtMostOne d =
      (i j : ℕ) (s t : Subscription)
      → L.row d i ≡ some s
      → L.row d j ≡ some t
      → is_current s.status ≡ true
      → is_current t.status ≡ true
      → s.user_id ≡ t.user_id
      → i ≡ j

  -- No row but the one with the id `k` is current and of the user.
  abbrev pub HasOnly : ℕ → ℕ → E.Db → Type 0
  HasOnly user k d =
      (j : ℕ) (t : Subscription)
      → L.row d j ≡ some t
      → is_current t.status ≡ true
      → t.user_id ≡ user
      → j ≡ k

  -- A row may be written if it is not current, or no other row of its user is.
  abbrev pub Fits : Subscription → E.Db → Type 0
  Fits s d = is_current s.status ≡ true → HasOnly s.user_id s.id d

  -- In a table with at most one current row for each user, a current row is the only one.
  pub current-HasOnly :
      (d : E.Db) (s : Subscription)
      → IsAtMostOne d
      → L.row d s.id ≡ some s
      → is_current s.status ≡ true
      → HasOnly s.user_id s.id d
  current-HasOnly d s one here cur j t there cur' same = one j s.id t s there here cur' cur same

  pub chosen :
      {s t : Subscription} {j : ℕ} (old : Option Subscription)
      → (if s.id == j then some s else old) ≡ some t
      → ((s.id ≡ j) × (s ≡ t)) ⊎ (old ≡ some t)
  chosen old e = ground arith

  -- The table `d'` is `d` with the row `s`.
  abbrev pub IsWritten : Subscription → E.Db → E.Db → Type 0
  IsWritten s d d' = (j : ℕ) → L.row d' j ≡ (if s.id == j then some s else L.row d j)

  pub update-IsWritten :
      (s : Subscription) (d d' : E.Db) → E.update s.id (λ _. s) d ≡ some d' → IsWritten s d d'
  update-IsWritten s d d' e =
      let (r, there, rows) = L.update_row s.id (λ _. s) d d' (λ r h. refl) e in rows

  -- Writing a row that fits keeps the property.
  pub written-IsAtMostOne :
      (s : Subscription) (d d' : E.Db)
      → IsWritten s d d'
      → IsAtMostOne d
      → Fits s d
      → IsAtMostOne d'
  written-IsAtMostOne s d d' rows one fit i j a b ha hb ca cb same =
      elim (chosen (L.row d i) (sym (rows i) ∙ ha)) [
        | inl (hi, pa) ↦ elim (chosen (L.row d j) (sym (rows j) ∙ hb)) [
          | inl (hj, pb) ↦ sym hi ∙ hj
          | inr ob ↦
              sym hi ∙ sym (fit (rw pa ca) j b ob cb (sym same ∙ sym (ap (λ x. x.user_id) pa)))
        ]
        | inr oa ↦ elim (chosen (L.row d j) (sym (rows j) ∙ hb)) [
          | inl (hj, pb) ↦ fit (rw pb cb) i a oa ca (same ∙ sym (ap (λ x. x.user_id) pb)) ∙ hj
          | inr ob ↦ one i j a b oa ob ca cb same
        ]
      ]

  pub idle-Fits : (s : Subscription) (d : E.Db) → is_current s.status ≡ false → Fits s d
  idle-Fits s d e cur = absurd (ground arith)

  module _ {B : Type 0} (Q : B → World E → Type 0) where
    -- A row is written by the repository, and the method goes on.
    pub update_sub_then :
        (s : Subscription) (f : Unit {0} → Service E B) (w : World E)
        → IsAtMostOne w.db
        → Fits s w.db
        → ((d : E.Db)
            → E.update s.id (λ _. s) w.db ≡ some d
            → IsAtMostOne d
            → Holds IsAtMostOne Q (f tt (record w { db = d })))
        → Holds IsAtMostOne Q ((update_sub E s >>= f) w)
    unfolding update_sub
    update_sub_then s f w one fit k =
        change_then IsAtMostOne Q (E.update s.id (λ _. s)) f w one
          λ d e. k d e (written-IsAtMostOne s w.db d (update-IsWritten s w.db d e) one fit)

  module _ (Q' : Unit {0} → World E → Type 0) where
    -- A row is written, and the method ends.
    pub update_sub_holds :
        (s : Subscription) (w : World E)
        → IsAtMostOne w.db
        → Fits s w.db
        → ((a : Unit {0}) (v : World E) → Q' a v)
        → Holds IsAtMostOne Q' (update_sub E s w)
    unfolding update_sub
    update_sub_holds s w one fit k =
        change_holds IsAtMostOne Q' (E.update s.id (λ _. s)) w one λ d e. (
          written-IsAtMostOne s w.db d (update-IsWritten s w.db d e) one fit,
          k tt (record w { db = d }),
        )
