-- ===== src/Examples/NamesExamples.antt =====
-- The theorems on names at concrete names.
use invariant_go.Shared.{
  ◌≡◌, refl, ◌||◌, none, some, List, [], ◌∷◌, Text, eq_text, lookup, contains, list_eq,
}
use invariant_go.Journal.{absent, write_ok, logged, done}
use invariant_go.Names.Memory
use invariant_go.Names.Memory.{
  InMemoryNames, NameEntry, Answer, answer, failure, new_in_memory_names,
}
use invariant_go.Names.Memory.Lookup.{
  Call, puts, deletes, run, has_value, lookup_names-run, Deleted, remove-Deleted,
}
use invariant_go.Names.FileSystem
use invariant_go.Names.FileSystem.{FileSystemNames}
use invariant_go.Names.FileSystem.Refinement.{view, result_of, file_system-refines_memory}
use invariant_go.Names.Upstream
use invariant_go.Names.Upstream.{UpstreamNames, in_memory_ops, combined}
use invariant_go.Names.Upstream.Cache.{get-get, contains-lookup_names}

abbrev home : Text
home = 1 ∷ []

abbrev target : Text
target = 5 ∷ []

abbrev calls : List Call
calls = puts home target [] ∷ puts (2 ∷ []) target [] ∷ deletes (2 ∷ []) [] ∷ []

lookup_names-run_example :
    contains home (Memory.lookup_names (run (new_in_memory_names []) calls) target)
    ≡ has_value target (lookup home (run (new_in_memory_names []) calls).store)
lookup_names-run_example = lookup_names-run [] calls target home

abbrev entry : NameEntry
entry = record { value = target; tokens = [] }

abbrev names : InMemoryNames
names = record { id = []; store = (home, entry) ∷ [] }

remove-Deleted_example :
    Deleted names home target (lookup home names.store) (Memory.remove names home target)
remove-Deleted_example = remove-Deleted names home target

abbrev stored : FileSystemNames
stored = record {
  id = [];
  store = record { store = names.store; journal = some 3 };
  disk = record { snapshot = absent; journals = (3, record { lines = []; tail = none }) ∷ [] };
}

file_system-refines_memory_example :
    (let (r, s') = FileSystem.put stored write_ok home target [] in
      (r ≡ logged done) × (view s' ≡ Memory.put (view stored) home target []))
    × (let (r, s') = FileSystem.remove stored write_ok home target in
        (result_of r, view s') ≡ Memory.remove (view stored) home target)
    × (FileSystem.get stored home ≡ Memory.get (view stored) home)
    × (FileSystem.lookup_names stored target ≡ Memory.lookup_names (view stored) target)
file_system-refines_memory_example = file_system-refines_memory stored 3 home target [] refl

abbrev below : UpstreamNames InMemoryNames InMemoryNames
below = record { local = new_in_memory_names []; parent = some names }

fetched : (Upstream.get in_memory_ops in_memory_ops below home).0 ≡ answer entry
unfolding Upstream.get Memory.get Memory.put new_in_memory_names lookup list_eq
fetched = refl

get-get_example :
    (Upstream.get in_memory_ops in_memory_ops
      (record {
        local = (Upstream.get in_memory_ops in_memory_ops below home).1.local;
        parent = none;
      })
      home).0
    ≡ answer entry
get-get_example = get-get in_memory_ops below home entry none fetched

contains-lookup_names_example :
    (found : List Text) × (Upstream.lookup_names in_memory_ops in_memory_ops below target
      ≡ combined found)
    × ((name : Text)
        → contains name found ≡ (
            contains name (Memory.lookup_names below.local target)
            || contains name (Memory.lookup_names names target)))
contains-lookup_names_example =
    contains-lookup_names in_memory_ops in_memory_ops below names target
      (Memory.lookup_names below.local target) (Memory.lookup_names names target) refl refl refl
