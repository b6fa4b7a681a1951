-- ===== src/Payments/Types.antt =====
-- libs/common/enums/payments.ts, common/enum/*.ts, application/types/payment-data.type.ts and the
-- parts of the providers' types that the code reads. Ids, which are only compared, are numbers,
-- dates are time values of `Calendar`, and a value that may be `null` or `undefined` is an
-- `Option`. An amount of money is counted in hundredths, so that a division by 100 stays exact.
use somegram_backend.Prelude.{ℕ, String, Bool, true, false, List, Option}

-- The columns are strings. `unknown` stands for any other text than the two.
pub data PaymentSystem : Type 0 where
  stripe paypal unknown : PaymentSystem

-- `other_plan` stands for the name of a plan that is none of the three.
pub data SubscriptionType : Type 0 where
  monthly day weekly other_plan : SubscriptionType

pub data SubscriptionStatuses : Type 0 where
  active canceled suspended pending : SubscriptionStatuses

pub data TransactionStatuses : Type 0 where
  payment_succeeded payment_failed : TransactionStatuses

pub record UserInfo : Type 0 where
  pub user_id : ℕ
  pub email : String
  pub user_name : String

-- `PaymentData`, less the texts that are the same in every payment.
pub record PaymentData : Type 0 where
  pub price : Option ℕ
  pub payment_count : ℕ
  pub payment_system : PaymentSystem
  pub subscription_type : SubscriptionType
  pub user_info : UserInfo
  pub customer_id : Option ℕ
  pub sub_id : Option ℕ
  pub current_sub_date_end : Option ℕ

pub record SubscriptionInfo : Type 0 where
  pub user_id : ℕ
  pub end_date_of_subscription : Option ℕ

-- The texts of the notifications. The last one shows the day, the month and the year of a date.
pub data Text : Type 0 where
  expires_after_7_days payment_after_1_day expires_after_1_day : Text
  activated_until : ℕ → ℕ → ℕ → Text

pub record CreateNotificationInputDto : Type 0 where
  pub user_id : ℕ
  pub message : Text

-- What `GatewayServiceClientAdapter` emits to the gateway.
pub data Message : Type 0 where
  send_subscription_info : SubscriptionInfo → Message
  send_subscriptions_info : List SubscriptionInfo → Message
  create_notifications : List CreateNotificationInputDto → Message
  create_notification_with_delay : CreateNotificationInputDto → Message

pub record PayPalPlan : Type 0 where
  pub id : ℕ
  pub product_id : String
  pub name : SubscriptionType
  pub is_active : Bool

pub data PayPalLinksRel : Type 0 where
  approve edit self : PayPalLinksRel

-- A created PayPal subscription: its id and links.
pub record SubscriptionCreated : Type 0 where
  pub id : ℕ
  pub links : List (PayPalLinksRel × String)

-- `subscriptions/<id>/suspend`, `…/activate` and `…/cancel`
pub data ManageAction : Type 0 where
  suspend activate cancel : ManageAction

-- The body of a new PayPal subscription, less the constant texts.
pub record CreateSubscriptionData : Type 0 where
  pub plan_id : ℕ
  pub custom_id : ℕ
  pub user_name : String
  pub email : String
  pub start_time : Option ℕ

pub data Interval : Type 0 where
  day_interval week_interval month_interval year_interval : Interval

-- The parameters of a Stripe checkout session, less the constant texts.
pub record SessionCreateParams : Type 0 where
  pub interval : Option Interval
  pub interval_count : ℕ
  pub unit_amount : Option ℕ
  pub quantity : ℕ
  pub user_id : ℕ
  pub sub_id : Option ℕ
  pub client_reference_id : Option ℕ
  pub customer : ℕ
  pub trial_period_days : Option ℕ

abbrev pub is_canceled : SubscriptionStatuses → Bool
is_canceled canceled = true
is_canceled _ = false

abbrev pub is_suspended : SubscriptionStatuses → Bool
is_suspended suspended = true
is_suspended _ = false

abbrev pub is_pending : SubscriptionStatuses → Bool
is_pending pending = true
is_pending _ = false

-- The `OR` of the repository's queries for active subscriptions.
abbrev pub is_current : SubscriptionStatuses → Bool
is_current active = true
is_current suspended = true
is_current _ = false
