-- ===== src/MetaEvents.antt =====
-- The delivery of purchase events to Meta: apps/worker/src/metaEvents.
pub mod Backoff
pub mod Repository
pub mod Worker
mod Tests
