-- ===== src/Acquisition.antt =====
-- packages/core-acquisition/src: the lifecycle of an opportunity.
pub mod Stages
pub mod Lifecycle
pub mod Cadence
pub mod FollowUp
pub mod NextAction
mod Tests
