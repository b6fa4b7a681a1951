-- ===== src/Payments/SubscriptionEntity.antt =====
-- payments/domain/subscription.entity.ts. The static methods change the object that they are
-- given; here they return the changed record. The reading of `new Date()` is the argument `now`.
use somegram_backend.Prelude.{ℕ, String, Bool, true, false, Option, none, some}
use somegram_backend.Payments.Types.{
  PaymentSystem, SubscriptionType, SubscriptionStatuses, active, canceled, suspended,
}

pub record Subscription : Type 0 where
  pub id : ℕ
  pub user_id : ℕ
  pub username : String
  pub created_at : ℕ
  pub updated_at : Option ℕ
  pub date_of_payment : Option ℕ
  pub end_date_of_subscription : Option ℕ
  pub payment_system_sub_id : Option ℕ
  pub payment_system_customer_id : Option ℕ
  pub payment_system : PaymentSystem
  pub status : SubscriptionStatuses
  pub auto_renewal : Bool
  pub subscription_type : SubscriptionType

pub record SubscriptionInputDto : Type 0 where
  pub user_id : ℕ
  pub username : String
  pub created_at : ℕ
  pub payment_system : PaymentSystem
  pub status : SubscriptionStatuses
  pub auto_renewal : Bool
  pub subscription_type : SubscriptionType
  pub payment_system_sub_id : Option ℕ

pub record SubscriptionUpdateDto : Type 0 where
  pub updated_at : ℕ
  pub payment_system_customer_id : ℕ
  pub status : SubscriptionStatuses
  pub end_date_of_subscription : Option ℕ
  pub date_of_payment : Option ℕ
  pub auto_renewal : Option Bool

pub record ActiveSubscriptionDate : Type 0 where
  pub date_of_payment : Option ℕ
  pub date_end_subscription : Option ℕ

-- `if (value) field = value`
abbrev pub assign_if : Option ℕ → Option ℕ → Option ℕ
assign_if none old = old
assign_if (some date) old = some date

-- The default of a destructured field.
abbrev or_default : Option Bool → Bool → Bool
or_default none b = b
or_default (some a) b = a

-- The id is the one that the database gives to the row, and what the input leaves out is `null`.
unfoldable pub create : SubscriptionInputDto → ℕ → Subscription
create dto id = record {
  id = id;
  user_id = dto.user_id;
  username = dto.username;
  created_at = dto.created_at;
  updated_at = none;
  date_of_payment = none;
  end_date_of_subscription = none;
  payment_system_sub_id = dto.payment_system_sub_id;
  payment_system_customer_id = none;
  payment_system = dto.payment_system;
  status = dto.status;
  auto_renewal = dto.auto_renewal;
  subscription_type = dto.subscription_type;
}

unfoldable pub update : Subscription → SubscriptionUpdateDto → Subscription
update s dto = record s {
  updated_at = some dto.updated_at;
  end_date_of_subscription = assign_if dto.end_date_of_subscription s.end_date_of_subscription;
  date_of_payment = assign_if dto.date_of_payment s.date_of_payment;
  payment_system_customer_id = some dto.payment_system_customer_id;
  status = dto.status;
  auto_renewal = or_default dto.auto_renewal true;
}

unfoldable pub activate_subscription : Subscription → Option ℕ → Option ℕ → ℕ → Subscription
activate_subscription s payment_date end_subscription_date now = record s {
  updated_at = some now;
  status = active;
  auto_renewal = true;
  date_of_payment = assign_if payment_date s.date_of_payment;
  end_date_of_subscription = assign_if end_subscription_date s.end_date_of_subscription;
}

unfoldable pub suspend_subscription : Subscription → ℕ → Subscription
suspend_subscription s now = record s {
  updated_at = some now;
  status = suspended;
  auto_renewal = false;
}

unfoldable pub disable_auto_renewal : Subscription → ℕ → Subscription
disable_auto_renewal s now = record s { updated_at = some now; auto_renewal = false }

unfoldable pub enable_auto_renewal : Subscription → ℕ → Subscription
enable_auto_renewal s now = record s { updated_at = some now; auto_renewal = true }

unfoldable pub cancel_subscription : Subscription → ℕ → Subscription
cancel_subscription s now = record s {
  updated_at = some now;
  status = canceled;
  auto_renewal = false;
}
