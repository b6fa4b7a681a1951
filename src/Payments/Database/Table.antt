-- ===== src/Payments/Database/Table.antt =====
-- A database as a table in memory, and providers that answer at once: an instance of `Env` on which
-- the methods can be run.
pub mod Search
pub mod Updates
pub mod Laws
use somegram_backend.Prelude.{
  ℕ, zero, suc, ◌+◌, ◌<◌, ◌≤◌, ◌≡◌, refl, sym, ap, subst, ◌∙◌, Bool, true, false, List, [], ◌∷◌,
  Option, none, some, arith, ◌==◌, ltb, if◌then◌else◌, inl, inr, All, length, Bool-cases, ltb→lt,
  lt→ltb, ==→eq, eq→==, ◌⊎◌,
}
use mathlib.Core.Option.{some-injective}
use somegram_backend.Payments.Types.{monthly, approve}
use somegram_backend.Payments.SubscriptionEntity.{Subscription}
use somegram_backend.Payments.TransactionEntity.{PaymentTransaction}
use somegram_backend.Payments.World.{Env}
use somegram_backend.Payments.Database.{DbLaws}

-- The rows with the ids below `size`, and the transactions.
pub record Table : Type 0 where
  pub size : ℕ
  pub cell : ℕ → Subscription
  pub payments : List PaymentTransaction

abbrev pub stored : Table → ℕ → Subscription
stored d i = record (d.cell i) { id = i }

unfoldable pub row_of : Table → ℕ → Option Subscription
row_of d i = if ltb i d.size then some (stored d i) else none

abbrev pub or_if : (Subscription → Bool) → Subscription → Option Subscription → Option Subscription
or_if p s (some r) = some r
or_if p s none = if p s then some s else none

-- The first row with an id below `k` that meets a condition.
unfoldable pub search : (Subscription → Bool) → Table → ℕ → Option Subscription
search p d zero = none
search p d (suc k) = or_if p (stored d k) (search p d k)

unfoldable pub collect : (Subscription → Bool) → Table → ℕ → List Subscription
collect p d zero = []
collect p d (suc k) = let rest = collect p d k in if p (stored d k) then stored d k ∷ rest else rest

abbrev pub put : ℕ → Subscription → Table → Table
put i s d = record d { cell = λ j. if i == j then s else d.cell j }

unfoldable pub update_cell : ℕ → (Subscription → Subscription) → Table → Option Table
update_cell i f d = if ltb i d.size then some (put i (f (stored d i)) d) else none

unfoldable pub add_row : (ℕ → Subscription) → Table → Option (ℕ × Table)
add_row f d = some (d.size, record (put d.size (f d.size) d) { size = d.size + 1 })

unfoldable pub add_payment : PaymentTransaction → Table → Option (ℕ × Table)
add_payment t d = some (length d.payments, record d { payments = t ∷ d.payments })

-- An answer, after which one more call has been made.
abbrev answered : {A : Type 0} → ℕ → A → Option A × ℕ
answered calls a = (some a, calls + 1)

-- The providers sell one plan, a month, and answer every call; their state counts the calls.
abbrev pub env : Env
env = record {
  Db = Table;
  find_first = λ p d. some (search p d d.size);
  find_many = λ p d. some (collect p d d.size);
  update = update_cell;
  create_subscription = add_row;
  create_transaction = add_payment;
  Remote = ℕ;
  fetch_token = λ r. answered r 7;
  get_plans = λ t r.
      answered r
        (record { id = 1; product_id = "monthly_p"; name = monthly; is_active = true } ∷ []);
  get_details = λ t id r. answered r (some 1);
  post_subscription = λ t body r. answered r (record { id = 90; links = (approve, "url") ∷ [] });
  post_manage = λ t action id r. answered r tt;
  list_customers = λ email r. answered r [];
  create_customer = λ name email user r. answered r 55;
  create_session = λ params r. answered r (some "url");
  set_cancel_at_period_end = λ id b r. answered r tt;
  cancel_stripe = λ id r. answered r tt;
  clock = λ n. 1_700_000_000_000 + n;
}
