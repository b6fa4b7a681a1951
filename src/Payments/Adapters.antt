-- ===== src/Payments/Adapters.antt =====
-- common/adapters: the clients of PayPal and Stripe, less their log lines.
pub mod PayPal
pub mod Stripe
pub mod Commands
pub mod Manager
pub mod Quiet
