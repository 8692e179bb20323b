-- ===== src/Storage.antt =====
-- internal/storage: the stores of content-addressed blocks.
pub mod Interface
pub mod Memory
pub mod Joined
pub mod Caching
pub mod Mocks
