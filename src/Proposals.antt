-- ===== src/Proposals.antt =====
-- packages/core-proposal/src: the records of schema.ts and versions.ts.
pub mod Schema
pub mod Versions
pub mod Record
pub mod History
pub mod Gate
mod Tests
