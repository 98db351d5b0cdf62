-- ===== src/Meta.antt =====
-- internal/meta: what BBDB keeps in the storage engine.
pub mod Keys
pub mod Engine
pub mod Blocks
pub mod Migrations
pub mod Wal
pub mod Expiry
pub mod Idx
pub mod Batches
pub mod Recovery
pub mod Typed
mod Tests
