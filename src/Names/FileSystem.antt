-- ===== src/Names/FileSystem.antt =====
-- internal/names/fs_names.go: the names kept in a journalled store. The outcome of each write of the
-- journal is an argument.
pub mod Refinement
use invariant_go.Shared.{Option, none, some, List, Text, eq_text, GoMap, lookup}
use invariant_go.Journal
use invariant_go.Journal.{Store, Disk, WriteResult, PutResult}
use invariant_go.Names.Memory.{
  NameEntry, NamesError, not_found, Answer, answer, failure, check_delete, names_with,
}

pub record FileSystemNames : Type 0 where
  pub id : Text
  pub store : Store Text NameEntry
  pub disk : Disk Text NameEntry

unfoldable pub get : FileSystemNames → Text → Answer NameEntry
unfolding Journal.get
get s name = elim (Journal.get name s.store) [ none ↦ failure not_found | some e ↦ answer e ]

-- Put passes no check.
unfoldable pub put :
    FileSystemNames
    → WriteResult Text NameEntry
    → Text
    → Text
    → List Text
    → PutResult NamesError × FileSystemNames
unfolding Journal.put
put s result name value tokens =
    let (r, st, d) =
      Journal.put name (record { value = value; tokens = tokens }) (λ store. none) result s.store
        s.disk in
    (r, record s { store = st; disk = d })

unfoldable pub remove :
    FileSystemNames
    → WriteResult Text NameEntry
    → Text
    → Text
    → PutResult NamesError × FileSystemNames
unfolding Journal.remove check_delete
remove s result name expected =
    let (r, st, d) =
      Journal.remove name (λ store. check_delete expected (lookup name store)) result s.store
        s.disk in
    (r, record s { store = st; disk = d })

unfoldable pub lookup_names : FileSystemNames → Text → List Text
unfolding names_with
lookup_names s id = names_with id s.store.store

unfoldable pub close : FileSystemNames → FileSystemNames
unfolding Journal.close
close s = record s { store = Journal.close s.store }
