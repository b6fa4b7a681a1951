-- ===== src/Payments/World.antt =====
-- What the payments service stands on and does not implement, as a parameter: the database behind
-- Prisma, the APIs of PayPal and Stripe, and the clock. A call that rejects is `none`.
use somegram_backend.Prelude.{ℕ, ◌+◌, String, Bool, List, ◌∷◌, Option, none, some}
use somegram_backend.Effects.{Result, ok, thrown, Action}
use somegram_backend.Payments.Types.{
  Message, PayPalPlan, SubscriptionCreated, ManageAction, CreateSubscriptionData,
  SessionCreateParams,
}
use somegram_backend.Payments.SubscriptionEntity.{Subscription}
use somegram_backend.Payments.TransactionEntity.{PaymentTransaction}

pub record Env : Type 1 where
  -- the database
  pub Db : Type 0
  pub find_first : (Subscription → Bool) → Db → Option (Option Subscription)
  pub find_many : (Subscription → Bool) → Db → Option (List Subscription)
  pub update : ℕ → (Subscription → Subscription) → Db → Option Db
  pub create_subscription : (ℕ → Subscription) → Db → Option (ℕ × Db)
  pub create_transaction : PaymentTransaction → Db → Option (ℕ × Db)
  -- the providers, with their own state
  pub Remote : Type 0
  pub fetch_token : Remote → Option ℕ × Remote
  pub get_plans : ℕ → Remote → Option (List PayPalPlan) × Remote
  pub get_details : ℕ → Option ℕ → Remote → Option (Option ℕ) × Remote
  pub post_subscription : ℕ → CreateSubscriptionData → Remote → Option SubscriptionCreated × Remote
  pub post_manage : ℕ → ManageAction → Option ℕ → Remote → Option (Unit {0}) × Remote
  pub list_customers : String → Remote → Option (List ℕ) × Remote
  pub create_customer : String → String → ℕ → Remote → Option ℕ × Remote
  pub create_session : SessionCreateParams → Remote → Option (Option String) × Remote
  pub set_cancel_at_period_end : Option ℕ → Bool → Remote → Option (Unit {0}) × Remote
  pub cancel_stripe : Option ℕ → Remote → Option (Unit {0}) × Remote
  -- the reading of the clock at its n-th use
  pub clock : ℕ → ℕ

-- The state on which the methods act; the outbox has the newest message first.
pub record World (E : Env) : Type 0 where
  pub db : E.Db
  pub remote : E.Remote
  pub outbox : List Message
  pub reads : ℕ

module _ (E : Env) where
  abbrev pub Service : Type 0 → Type 0
  Service A = Action (World E) A

module _ {E : Env} where
  abbrev pub answer : {A : Type 0} → Option A → World E → Result A × World E
  answer none w = (thrown, w)
  answer (some a) w = (ok a, w)

  abbrev pub written : {A : Type 0} → Option (A × E.Db) → World E → Result A × World E
  written none w = (thrown, w)
  written (some (a, d)) w = (ok a, record w { db = d })

  abbrev pub changed : Option E.Db → World E → Result (Unit {0}) × World E
  changed none w = (thrown, w)
  changed (some d) w = (ok tt, record w { db = d })

  unfoldable pub query : {A : Type 0} → (E.Db → Option A) → Service E A
  query f w = answer (f w.db) w

  unfoldable pub write : {A : Type 0} → (E.Db → Option (A × E.Db)) → Service E A
  write f w = written (f w.db) w

  unfoldable pub change : (E.Db → Option E.Db) → Service E (Unit {0})
  change f w = changed (f w.db) w

  unfoldable pub call : {A : Type 0} → (E.Remote → Option A × E.Remote) → Service E A
  call f w = let (a, r) = f w.remote in answer a (record w { remote = r })

  unfoldable pub emit : Message → Service E (Unit {0})
  emit m w = (ok tt, record w { outbox = m ∷ w.outbox })

  unfoldable pub new_date : Service E ℕ
  new_date w = (ok (E.clock w.reads), record w { reads = w.reads + 1 })

  -- A value without which the method runs into a `TypeError`.
  unfoldable pub required : {A : Type 0} → Option A → Service E A
  required a w = answer a w
