-- ===== src/Query.antt =====
-- internal/query: reading blocks, merging their events, answering a query.
pub mod BlockReader
pub mod Merger
pub mod Engine
mod Tests
