-- ===== src/Examples/StorageExamples.antt =====
-- The theorems on the stores of blocks at concrete blocks.
use invariant_go.Shared.{
  join_chunks, IsBatch, leb, map, All, ℕ, ◌≡◌, refl, Bool, true, false, ◌||◌, ◌&&◌, not, Option,
  none, some, List, [], ◌∷◌, if◌then◌else◌, ◌==◌, Text, eq_text, lookup, insert, list_eq,
  encode_to_string, list_eq, nat_eq, ltb,
}
use invariant_go.Storage.Interface.{Reader, Keeps}
use invariant_go.Storage.Memory.{
  InMemoryStorage, new_in_memory_storage, in_memory_ops, address_of, get, remove, store, store_at,
  notify_subscribers,
}
use invariant_go.Storage.Memory.Content.{
  Call, stores, stores_at, removes, run, step, in_memory-Keeps, get-run_new,
}
use invariant_go.Storage.Joined.{joined_ops, joined-Keeps}
use invariant_go.Storage.Mocks.{DryRunStorage, dry_run_ops, dry_run-agrees}

-- In place of the hash.
abbrev digest : List ℕ → List ℕ
digest b = b

abbrev ok_reader : Reader
ok_reader = record { content = 1 ∷ 2 ∷ []; fails = false }

abbrev empty_store : InMemoryStorage
empty_store = new_in_memory_storage []

abbrev calls : List Call
calls = stores ok_reader ∷ stores_at (9 ∷ []) ok_reader ∷ removes (9 ∷ []) ∷ []

in_memory-Keeps_example : Keeps (address_of digest) (in_memory_ops digest)
in_memory-Keeps_example = in_memory-Keeps digest

joined-Keeps_example :
    Keeps (address_of digest) (joined_ops (in_memory_ops digest) (in_memory_ops digest))
joined-Keeps_example =
    joined-Keeps (in_memory_ops digest) (in_memory_ops digest) (address_of digest)
      in_memory-Keeps_one in_memory-Keeps_one
  where
    in_memory-Keeps_one : Keeps (address_of digest) (in_memory_ops digest)
    in_memory-Keeps_one = in_memory-Keeps digest

stored : get (run digest empty_store calls) (address_of digest (1 ∷ 2 ∷ [])) ≡ some (1 ∷ 2 ∷ [])
unfolding get run step store store_at remove notify_subscribers lookup insert list_eq
    encode_to_string new_in_memory_storage invariant_go.Shared.hex_digit
stored = refl

get-run_new_example : address_of digest (1 ∷ 2 ∷ []) ≡ address_of digest (1 ∷ 2 ∷ [])
get-run_new_example =
    get-run_new digest [] calls (address_of digest (1 ∷ 2 ∷ [])) (1 ∷ 2 ∷ []) stored

abbrev removed : Text
removed = 9 ∷ []

abbrev other : Text
other = 8 ∷ []

abbrev fresh : DryRunStorage
fresh = record { seen = [] }

dry_run-agrees_example :
    (((dry_run_ops digest).store fresh ok_reader).0
      ≡ ((in_memory_ops digest).store empty_store ok_reader).0)
    × ((dry_run_ops digest).has ((dry_run_ops digest).store fresh ok_reader).1 (7 ∷ []) ≡ (
        (dry_run_ops digest).has fresh (7 ∷ [])
        || not ok_reader.fails && encode_to_string (digest ok_reader.content) == (7 ∷ [])))
dry_run-agrees_example =
    dry_run-agrees digest (in_memory_ops digest) (in_memory-Keeps digest) empty_store fresh
      ok_reader (7 ∷ [])
