-- ===== src/Payments/Live.antt =====
-- A service whose database answers, as far as the columns allow, and how it is put together that a
-- method answers.
pub mod Replacing
pub mod Sessions
pub mod Sales
use somegram_backend.Prelude.{
  ℕ, ◌+◌, ◌*◌, ◌≡◌, refl, sym, ap, subst, ◌∙◌, Bool, true, false, List, ◌∷◌, Option, none, some,
  arith, find, ◌==◌, if◌then◌else◌, Bool-cases, inl, inr,
}
use somegram_backend.Effects.{Result, ok, thrown, continue, recover, ◌>>=◌, pure, attempt, branch}
use somegram_backend.Payments.Types.{Message, PaymentSystem, cancel, is_current}
use somegram_backend.Payments.SubscriptionEntity.{Subscription}
use somegram_backend.Payments.TransactionEntity.{PaymentTransaction}
use somegram_backend.Payments.World.{
  Env, World, Service, answer, changed, written, query, call, change, write, emit, new_date,
  required,
}
use somegram_backend.Payments.Repository.{update_sub, save_transaction}
use somegram_backend.Payments.Database.{DbLaws}

-- An amount, which is counted in hundredths, without a fraction.
abbrev pub IsWhole : ℕ → Type 0
IsWhole price = (n : ℕ) × (price ≡ n * 100)

-- A call that never rejects.
abbrev pub IsUp : {R A : Type 0} → (R → Option A × R) → Type 0
IsUp {R} {A} f = (r : R) → (a : A) × (r' : R) × (f r ≡ (some a, r'))

module _ {E : Env} where
  -- The action answers, and `Q` holds of the answer and the world.
  abbrev pub Answers : {A : Type 0} → (A → World E → Type 0) → Result A × World E → Type 0
  Answers {A} Q r = (a : A) × (v : World E) × (r ≡ (ok a, v)) × Q a v

  module _ {A B : Type 0} (R : A → World E → Type 0) (Q : B → World E → Type 0) where
    pub Answers-then :
        (m : Service E A) (f : A → Service E B) (w : World E)
        → Answers R (m w)
        → ((a : A) (v : World E) → R a v → Answers Q (f a v))
        → Answers Q ((m >>= f) w)
    unfolding ◌>>=◌
    Answers-then m f w (a, v, e, h) k =
        let (b, u, e', q) = k a v h in (b, u, ap (λ r. continue r f) e ∙ e', q)

  module _ {A : Type 0} (Q : A → World E → Type 0) where
    pub pure-Answers : (a : A) (w : World E) → Q a w → Answers Q (pure a w)
    unfolding pure
    pure-Answers a w q = (a, w, refl, q)

    pub attempt-Answers :
        (m : Service E A) (a : A) (w : World E) → Answers Q (m w) → Answers Q (attempt m a w)
    unfolding attempt
    attempt-Answers m a w (b, v, e, q) = (b, v, ap (λ r. recover r a) e, q)

    pub branch-Answers :
        (b : Bool) (m n : Service E A) (w : World E)
        → (b ≡ true → Answers Q (m w))
        → (b ≡ false → Answers Q (n w))
        → Answers Q (branch b m n w)
    unfolding branch
    branch-Answers true m n w h k = h refl
    branch-Answers false m n w h k = k refl

    pub called :
        (f : E.Remote → Option A × E.Remote) (w : World E) (a : A) (r : E.Remote)
        → f w.remote ≡ (some a, r)
        → Q a (record w { remote = r })
        → Answers Q (call f w)
    unfolding call
    called f w a r e q =
        (a, record w { remote = r }, ap (λ x. answer x.0 (record w { remote = x.1 })) e, q)

    pub call-Answers :
        (f : E.Remote → Option A × E.Remote) (w : World E)
        → IsUp f
        → ((a : A) (r : E.Remote) → Q a (record w { remote = r }))
        → Answers Q (call f w)
    call-Answers f w up k = let (a, r, e) = up w.remote in called f w a r e (k a r)

    pub query-Answers :
        (f : E.Db → Option A) (w : World E) (a : A)
        → f w.db ≡ some a
        → Q a w
        → Answers Q (query f w)
    unfolding query
    query-Answers f w a e q = (a, w, ap (λ o. answer o w) e, q)

    pub required-Answers :
        (o : Option A) (w : World E) (a : A) → o ≡ some a → Q a w → Answers Q (required o w)
    unfolding required
    required-Answers o w a e q = (a, w, ap (λ o. answer o w) e, q)

    pub write-Answers :
        (f : E.Db → Option (A × E.Db)) (w : World E) (a : A) (d : E.Db)
        → f w.db ≡ some (a, d)
        → Q a (record w { db = d })
        → Answers Q (write f w)
    unfolding write
    write-Answers f w a d e q = (a, record w { db = d }, ap (λ o. written o w) e, q)

  module _ (Q : ℕ → World E → Type 0) where
    pub new_date-Answers :
        (w : World E)
        → Q (E.clock w.reads) (record w { reads = w.reads + 1 })
        → Answers Q (new_date w)
    unfolding new_date
    new_date-Answers w q = (E.clock w.reads, record w { reads = w.reads + 1 }, refl, q)

  module _ (Q : Unit {0} → World E → Type 0) where
    pub emit-Answers :
        (m : Message) (w : World E)
        → Q tt (record w { outbox = m ∷ w.outbox })
        → Answers Q (emit m w)
    unfolding emit
    emit-Answers m w q = (tt, record w { outbox = m ∷ w.outbox }, refl, q)

    pub change-Answers :
        (f : E.Db → Option E.Db) (w : World E) (d : E.Db)
        → f w.db ≡ some d
        → Q tt (record w { db = d })
        → Answers Q (change f w)
    unfolding change
    change-Answers f w d e q = (tt, record w { db = d }, ap (λ o. changed o w) e, q)

module _ {E : Env} (L : DbLaws E) where
  -- A row with the id is in the table.
  abbrev pub HasRow : ℕ → E.Db → Type 0
  HasRow i d = (r : Subscription) × (L.row d i ≡ some r)

  -- The database answers every query, an update of a row that is there, and a new transaction of a
  -- row that is there with a whole price, as the columns demand; PayPal gives a token.
  pub record AllUp : Type 0 where
    pub find_first_up :
        (p : Subscription → Bool) (d : E.Db)
        → (o : Option Subscription) × (E.find_first p d ≡ some o)
    pub update_up :
        (i : ℕ) (f : Subscription → Subscription) (d : E.Db) (r : Subscription)
        → L.row d i ≡ some r
        → (d' : E.Db) × (E.update i f d ≡ some d')
    pub transaction_up :
        (t : PaymentTransaction) (d : E.Db)
        → HasRow t.sub_id d
        → IsWhole t.price
        → (i : ℕ) × (d' : E.Db) × (E.create_transaction t d ≡ some (i, d'))
    pub token_up : IsUp E.fetch_token

  -- PayPal cancels the current subscriptions of the table that were made there, when it is asked to.
  abbrev pub Cancels : E.Db → Type 0
  Cancels d =
      (i : ℕ) (s : Subscription)
      → L.row d i ≡ some s
      → is_current s.status ≡ true
      → s.payment_system ≡ PaymentSystem.paypal
      → (token : ℕ) → IsUp (E.post_manage token cancel s.payment_system_sub_id)

  -- An update loses no row.
  pub update-HasRow :
      (i k : ℕ) (f : Subscription → Subscription) (d d' : E.Db)
      → ((r : Subscription) → r.id ≡ i → (f r).id ≡ i)
      → E.update i f d ≡ some d'
      → HasRow k d
      → HasRow k d'
  update-HasRow i k f d d' ids u (s, there) =
      let (r, old, rows) = L.update_row i f d d' ids u in
      elim (Bool-cases (i == k)) [
        | inl same ↦ (f r, rows k ∙ rw same refl)
        | inr other ↦ (s, rows k ∙ rw other there)
      ]

  pub update_sub-Answers :
      (up : AllUp) (s : Subscription) (k : ℕ) (w : World E)
      → HasRow s.id w.db
      → HasRow k w.db
      → Answers (λ a v. HasRow k v.db) (update_sub E s w)
  unfolding update_sub
  update_sub-Answers up s k w (r, there) kept =
      let (d, u) = up.update_up s.id (λ _. s) w.db r there in
      change-Answers _ _ w d u (update-HasRow s.id k (λ _. s) w.db d (λ r h. refl) u kept)
