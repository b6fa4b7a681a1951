-- ===== src/Payments/TransactionEntity.antt =====
-- payments/domain/transaction.entity.ts. The subscription type is optional because a lookup in
-- `SUBSCRIPTION_TYPE` may find nothing.
use somegram_backend.Prelude.{ℕ, Option}
use somegram_backend.Payments.Types.{PaymentSystem, SubscriptionType, TransactionStatuses}

pub record TransactionInputDto : Type 0 where
  pub price : ℕ
  pub system : PaymentSystem
  pub status : TransactionStatuses
  pub sub_id : ℕ
  pub date_of_payment : Option ℕ
  pub end_date_of_subscription : Option ℕ
  pub subscription_type : Option SubscriptionType

pub record PaymentTransaction : Type 0 where
  pub subscription_type : Option SubscriptionType
  pub price : ℕ
  pub payment_system : PaymentSystem
  pub status : TransactionStatuses
  pub date_of_payment : Option ℕ
  pub end_date_of_subscription : Option ℕ
  pub sub_id : ℕ

unfoldable pub create : TransactionInputDto → PaymentTransaction
create dto = record {
  price = dto.price;
  payment_system = dto.system;
  subscription_type = dto.subscription_type;
  status = dto.status;
  sub_id = dto.sub_id;
  date_of_payment = dto.date_of_payment;
  end_date_of_subscription = dto.end_date_of_subscription;
}
