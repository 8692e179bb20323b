-- ===== src/Slots.antt =====
-- internal/slots: mutable slots that name a content address, in memory and behind a journal.
pub mod Memory
pub mod FileSystem
