-- ===== src/Names.antt =====
-- internal/names: names that stand for an identifier or an address.
pub mod Memory
pub mod FileSystem
pub mod Upstream
