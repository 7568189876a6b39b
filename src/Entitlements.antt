-- ===== src/Entitlements.antt =====
-- packages/core-entitlements: who may open what, and how a download is authorised.
pub mod Funnel
pub mod Repository
pub mod Rights
pub mod Access
pub mod Grant
pub mod Delivery
pub mod Reissue
mod Tests
