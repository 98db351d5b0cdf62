-- ===== src/Ingestion.antt =====
-- internal/ingestion: the events on their way into the log and the memtable of a shard.
pub mod RingBuf
pub mod Json
pub mod Writer
mod Tests
