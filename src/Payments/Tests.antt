-- ===== src/Payments/Tests.antt =====
-- Worlds on which the methods are run: a table with one subscription.
pub mod Recorded
pub mod Warnings
pub mod Changed
pub mod Failing
pub mod Runs
pub mod Up
use somegram_backend.Prelude.{
  ℕ, ◌≡◌, sym, ◌∙◌, ◌≤◌, ◌<◌, Bool, true, false, [], Option, none, some, arith,
}
use somegram_backend.Payments.Types.{
  PaymentSystem, monthly, SubscriptionStatuses, active, pending, suspended, UserInfo,
}
use somegram_backend.Payments.SubscriptionEntity.{Subscription}
use somegram_backend.Payments.World.{World}
use somegram_backend.Payments.Database.Table.{Table, env}
use somegram_backend.Payments.Database.Table.Laws.{laws, laws-row-lt}
use somegram_backend.Payments.OneCurrent.{IsAtMostOne}

abbrev pub user_three : UserInfo
user_three = record { user_id = 3; email = "mail"; user_name = "name" }

abbrev pub subscription : PaymentSystem → SubscriptionStatuses → Bool → Subscription
subscription system status renews = record {
  id = 0;
  user_id = 3;
  username = "name";
  created_at = 1_699_000_000_000;
  updated_at = none;
  date_of_payment = some 1_699_100_000_000;
  end_date_of_subscription = some 1_701_778_400_000;
  payment_system_sub_id = some 90;
  payment_system_customer_id = none;
  payment_system = system;
  status = status;
  auto_renewal = renews;
  subscription_type = monthly;
}

abbrev pub world_of : Subscription → World env
world_of s = record {
  db = record { size = 1; cell = λ i. s; payments = [] };
  remote = 0;
  outbox = [];
  reads = 0;
}

-- One row is at most one for each user.
pub single-IsAtMostOne : (d : Table) → d.size ≤ 1 → IsAtMostOne laws d
single-IsAtMostOne d h i j s t hi hj ci cj same =
    let below = (laws-row-lt d i s hi).0 in
    let below' = (laws-row-lt d j t hj).0 in omega (arith, h, below, below')
