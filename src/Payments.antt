-- ===== src/Payments.antt =====
-- packages/core-payments: the orders, the webhook that confirms a payment, and what it writes.
pub mod Store
pub mod Signature
pub mod Webhook
pub mod Orders
pub mod Retention
pub mod Route
mod Tests
