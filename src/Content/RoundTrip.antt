-- ===== src/Content/RoundTrip.antt =====
-- What is written is read back.
pub mod Padding
pub mod Promises
pub mod Block
pub mod Encryption
pub mod Stored
pub mod Chunked
pub mod Files
pub mod Lists
pub mod WholeFile
pub mod LostKey
pub mod Watched
