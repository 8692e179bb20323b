-- ===== src/Examples.antt =====
-- Tests, and the theorems at concrete inputs.
mod Digest
mod FinderExamples
mod JournalExamples
mod SlotsExamples
mod StorageExamples
mod NamesExamples
mod DistributeExamples
mod ContentExamples
mod FileExamples
mod ReaderExamples
mod CachingExamples
