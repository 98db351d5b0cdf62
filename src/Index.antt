-- ===== src/Index.antt =====
-- internal/index: the sparse index by the hour of a block, and the cache of bloom filters.
pub mod Sparse
pub mod BloomCache
mod Tests
