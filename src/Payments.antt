-- ===== src/Payments.antt =====
-- apps/payments: subscriptions that are paid through Stripe or PayPal, the webhooks of both, the
-- commands of the gateway and the two jobs that run at midnight.
pub mod Types
pub mod SubscriptionEntity
pub mod TransactionEntity
pub mod World
pub mod Repository
pub mod Answers
pub mod Database
pub mod Adapters
pub mod Service
pub mod Handlers
pub mod Commands
pub mod Creation
pub mod Records
pub mod Jobs
pub mod Live
pub mod OneCurrent
pub mod Tests
