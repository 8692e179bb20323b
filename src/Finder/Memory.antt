-- ===== src/Finder/Memory.antt =====
-- MemoryFinder of internal/finder/finder.go: which storage services hold a block, and the finders to
-- ask otherwise.
pub mod Answers
use invariant_go.Shared.{
  ℕ, String, Bool, true, false, ◌&&◌, Option, none, some, List, [], ◌∷◌, map, length, ltb,
  if◌then◌else◌, Text, eq_text, GoMap, lookup, insert, set_add, sort_by, bytes_compare, is_lt,
}
use invariant_go.Finder.Node.{NodeId, bucket_size, parse_node_id, node_string}
use invariant_go.Finder.Table.{RoutingTable, new_routing_table, add, find_closest, snapshot}

pub record FindResponse : Type 0 where
  pub id : Text
  pub protocol : String

pub record MemoryFinder : Type 0 where
  pub id : NodeId
  pub id_str : Text
  pub routing_table : RoutingTable
  pub known_blocks : GoMap Text (List Text)

-- `none` is the error of an invalid identifier.
unfoldable pub new_memory_finder : Text → Option MemoryFinder
new_memory_finder id_str = elim (parse_node_id id_str) [
  | none ↦ none
  | some node_id ↦ some (record {
    id = node_id;
    id_str = id_str;
    routing_table = new_routing_table node_id;
    known_blocks = [];
  })
]

-- The order of Go's strings, for sort.Strings.
unfoldable pub string_less : Text → Text → Bool
string_less a b = is_lt (bytes_compare a b)

abbrev pub storage_response : Text → FindResponse
storage_response s = record { id = s; protocol = "storage-v1" }

unfoldable pub finder_response : NodeId → FindResponse
finder_response n = record { id = node_string n; protocol = "finder-v1" }

-- The second half of `Find`: the finders closest to the address.
unfoldable pub find_finders : MemoryFinder → Text → Option (List FindResponse)
find_finders f address = elim (parse_node_id address) [
  | none ↦ none
  | some target ↦ some (map finder_response (find_closest f.routing_table target bucket_size))
]

unfoldable pub find : MemoryFinder → Text → Option (List FindResponse)
find f address = elim (lookup address f.known_blocks) [
  | none ↦ find_finders f address
  | some storages ↦
      if ltb 0 (length storages)
      then some (map storage_response (sort_by string_less storages))
      else find_finders f address
]

-- A missing set is made before the first write.
abbrev pub holders : Option (List Text) → List Text
holders none = []
holders (some storages) = storages

unfoldable pub notify : MemoryFinder → Text → List Text → MemoryFinder
notify f storage_id [] = f
notify f storage_id (addr ∷ addresses) =
    notify
      (record f {
        known_blocks =
            insert addr (set_add storage_id (holders (lookup addr f.known_blocks))) f.known_blocks;
      })
      storage_id addresses

unfoldable pub peer : MemoryFinder → Text → Option MemoryFinder
peer f finder_id = elim (parse_node_id finder_id) [
  | none ↦ none
  | some node_id ↦ some (record f { routing_table = add f.routing_table node_id })
]

-- SnapshotBlocks
unfoldable pub snapshot_blocks : MemoryFinder → GoMap Text (List Text)
snapshot_blocks f = map (λ (addr, storages). (addr, sort_by string_less storages)) f.known_blocks
