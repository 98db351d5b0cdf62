-- ===== src/Block.antt =====
-- internal/block: events, memtables, bloom filters, the block file format and sealing.
pub mod Crc
pub mod Header
pub mod Footer
pub mod Columns
pub mod Stored
pub mod Event
pub mod Routing
pub mod Memtable
pub mod Bloom
pub mod Body
pub mod Sealer
mod Tests
