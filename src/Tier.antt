-- ===== src/Tier.antt =====
-- internal/tier: where block files are kept.
pub mod Local
mod Tests
