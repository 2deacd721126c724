-- ===== src/Billing.antt =====
-- What a Stripe webhook does to an account's subscription: inbox/services/billing.py.
pub mod Subscriptions
pub mod Events
pub mod Replay
pub mod Standing
pub mod Ordering
mod Tests
