-- ===== src/Payments/Handlers.antt =====
-- The webhook handlers of both providers, and the adapters that choose a handler by the type of an
-- event (common/adapters/paypal-event.adapter.ts, stripe-event.adaper.ts).
pub mod PayPal
pub mod Stripe
