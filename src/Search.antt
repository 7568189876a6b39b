-- ===== src/Search.antt =====
-- packages/core-search/src: the life of a search, its statements and its service.
pub mod Repository
pub mod Service
mod Tests
