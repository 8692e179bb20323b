-- ===== src/Lib.antt =====
-- invariant: a content-addressed store made of small services.
--
-- The program is a set of services. Blocks are kept under their hash; finders tell which service
-- holds a block, or which finder to ask; slots give a changing address a fixed identifier; the
-- journalled services keep their map in the store of internal/journal.
--
-- Which file models which part:
--   Shared           what the parts share: Go's tests, lists, maps, bytes, hexadecimal text, sorting
--                    and the batches that the List operations send
--   Journal          internal/journal/journal.go. `new_store`, `put`, `remove`, `get` and `do_snapshot`
--                    are NewStore, Put, Delete, Get and doSnapshot; a directory is a snapshot and
--                    the journals. Journal.Crash has the steps of the writers and of the snapshot
--                    goroutine, Journal.Replay the meaning of a list of lines, Journal.Faults the
--                    writes that fail half way and the lines that are too long
--   Slots.Memory     internal/slots/slots.go and inmemory_slots.go
--   Slots.FileSystem internal/slots/fs_slots.go, on top of Journal
--   Finder.Node      the identifiers of internal/finder/kademlia.go and their distance
--   Finder.Table     its routing table
--   Finder.Memory    internal/finder/finder.go
--   Distribute.Distance  internal/distribute/distribute.go
--   Distribute.Service, Distribute.Sync  internal/distribute/inmemory.go: the registry, and a pass of
--                    Sync; `replicate_block` is its loop over the services, Sync.Destination the upload
--                    to the destination
--   Storage          internal/storage: Interface is storage.go with the laws of a store that keeps its
--                    blocks, Memory inmemory_storage.go, Joined joined_storage.go, Mocks
--                    hashing_storage.go and dryrun_storage.go, Caching caching_storage.go with doEvict in
--                    Caching.Evict
--   Names            internal/names: Memory is names.go and inmemory_names.go, FileSystem fs_names.go on
--                    top of Journal, Upstream upstream.go
--   Content.BuzHash  internal/content/buzhash.go and buzhash_splitter.go: the rolling hash and where it
--                    cuts a file
--   Content.Link     the links of internal/content/types.go, and the libraries that Write and Read use
--   Content.Writer   internal/content/writer.go: `write_block` is writeBlock, Writer.File has Write and
--                    writeBlockList
--   Content.Int64    Go's int64 as words, for the positions of the reader
--   Content.BlockReader  blockListReader of internal/content/reader.go, with its cache and prefetches
--   Content.Reader   the rest of internal/content/reader.go: Read, the transforms and the hash checker
--   Content.RoundTrip  Write and Read together
--   Examples         tests and instances of the theorems at concrete inputs
--
-- Bytes are natural numbers below 256 and text is a list of them. Go maps are association lists; where
-- the source ranges over a map the order is that of the list. Each operation is one step with no other
-- call in between, also where the source gives its lock up on the way: a pass of Sync, doEvict, Get and
-- Store of the caching store, Update of the journalled slots, and a Read with the prefetch that it waits
-- for. Only doSnapshot is cut into steps, with writes in between. Signatures, JSON, the
-- length of an encoded line and the hash are parameters; so are the answers of discovery and of
-- remote services, as functions on a state of the world. Loops are structural recursion
-- but for these: the rounds of doEvict, of which one more than the addresses in its list is enough; the
-- loop of a Read of blockListReader, whose fuel is one more than the number of its
-- blocks; io.ReadAll, whose rounds are a parameter, one more than the bytes being enough; the depth of
-- links within links in Read, where 2 is enough for what Write makes at one level of lists; and the
-- recursion of writeBlockList, where 1 is enough if the list fits a block.
--
-- Not modelled: HTTP servers and clients, command lines, the kernel interfaces, and the contents of
-- files beyond the parts above.
mod Shared
pub mod Finder
pub mod Distribute
pub mod Journal
pub mod Slots
pub mod Storage
pub mod Names
pub mod Content
mod Examples
