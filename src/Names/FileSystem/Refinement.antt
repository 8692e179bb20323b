-- ===== src/Names/FileSystem/Refinement.antt =====
-- The journalled names behave as those in memory.
use invariant_go.Shared.{ℕ, ◌≡◌, Option, none, some, List, Text, eq_text, arith}
use invariant_go.Journal.{write_ok, PutResult, refused, logged, done, log_entry}
use invariant_go.Names.Memory
use invariant_go.Names.Memory.{InMemoryNames, NameEntry, NamesError, check_delete}
use invariant_go.Names.FileSystem
use invariant_go.Names.FileSystem.{FileSystemNames}

-- What a client sees.
abbrev pub view : FileSystemNames → InMemoryNames
view s = record { id = s.id; store = s.store.store }

-- Put of the names in memory has no error.
abbrev pub result_of : PutResult NamesError → Option NamesError
result_of (refused e) = some e
result_of (logged o) = none

pub file_system-refines_memory :
    (s : FileSystemNames) (journal : ℕ) (name value : Text) (tokens : List Text)
    → s.store.journal ≡ some journal
    → (let (r, s') = FileSystem.put s write_ok name value tokens in
        (r ≡ logged done) × (view s' ≡ Memory.put (view s) name value tokens))
      × (let (r, s') = FileSystem.remove s write_ok name value in
          (result_of r, view s') ≡ Memory.remove (view s) name value)
      × (FileSystem.get s name ≡ Memory.get (view s) name)
      × (FileSystem.lookup_names s value ≡ Memory.lookup_names (view s) value)
unfolding FileSystem.put FileSystem.remove FileSystem.get Memory.put Memory.remove Memory.get
    log_entry Memory.lookup_names FileSystem.lookup_names
file_system-refines_memory s journal name value tokens h =
    ((ground arith, ground arith), ground arith, ground arith, ground arith)
