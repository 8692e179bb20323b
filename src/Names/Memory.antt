-- ===== src/Names/Memory.antt =====
-- internal/names/names.go and inmemory_names.go.
pub mod Lookup
use invariant_go.Shared.{
  ◌≡◌, Bool, true, false, ◌&&◌, not, Option, none, some, List, [], ◌∷◌, if◌then◌else◌, ◌==◌, Text,
  eq_text, GoMap, lookup, insert, delete,
}

pub record NameEntry : Type 0 where
  pub value : Text
  pub tokens : List Text

-- `other_error` is any error but the two that the package names.
pub data NamesError : Type 0 where
  not_found precondition_failed other_error : NamesError

pub data Answer {ℓ} (A : Type ℓ) : Type ℓ where
  answer : A → Answer A
  failure : NamesError → Answer A

pub record InMemoryNames : Type 0 where
  pub id : Text
  pub store : GoMap Text NameEntry

-- `id` is the hexadecimal text of 32 random bytes.
unfoldable pub new_in_memory_names : Text → InMemoryNames
new_in_memory_names id = record { id = id; store = [] }

unfoldable pub get : InMemoryNames → Text → Answer NameEntry
get s name = elim (lookup name s.store) [ none ↦ failure not_found | some e ↦ answer e ]

unfoldable pub put : InMemoryNames → Text → Text → List Text → InMemoryNames
put s name value tokens = record s {
  store = insert name (record { value = value; tokens = tokens }) s.store;
}

-- The error of a Delete, by the entry that it finds; no expected value means any.
unfoldable pub check_delete : Text → Option NameEntry → Option NamesError
check_delete expected none = some not_found
check_delete expected (some e) =
    if not (expected == []) && not (e.value == expected) then some precondition_failed else none

unfoldable pub remove : InMemoryNames → Text → Text → Option NamesError × InMemoryNames
unfolding check_delete
remove s name expected = elim (check_delete expected (lookup name s.store)) [
  | some error ↦ (some error, s)
  | none ↦ (none, record s { store = delete name s.store })
]

unfoldable pub names_with : Text → GoMap Text NameEntry → List Text
names_with id [] = []
names_with id ((name, e) ∷ store) =
    let rest = names_with id store in if e.value == id then name ∷ rest else rest

unfoldable pub lookup_names : InMemoryNames → Text → List Text
unfolding names_with
lookup_names s id = names_with id s.store
