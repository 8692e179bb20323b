-- ===== src/Distribute.antt =====
-- internal/distribute: the distance between identifiers and the replication of blocks.
pub mod Distance
pub mod Service
pub mod Sync
