-- ===== src/Content.antt =====
-- internal/content: files as lists of blocks.
pub mod Link
pub mod Int64
pub mod BuzHash
pub mod Writer
pub mod BlockReader
pub mod Reader
pub mod RoundTrip
