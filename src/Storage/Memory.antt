-- ===== src/Storage/Memory.antt =====
-- internal/storage/inmemory_storage.go. `sha256` stands for the hash of the standard library.
pub mod Content
use invariant_go.Shared.{
  ℕ, Bool, true, false, Option, none, some, List, [], ◌∷◌, ◌++◌, map, if◌then◌else◌, ◌==◌, Text,
  eq_text, encode_to_string, GoMap, lookup, insert, delete, is_some, Channel, send, send_chunks,
  chunk_size_or_default,
}
use invariant_go.Storage.Interface.{
  Block, Reader, StoreAtResult, accepted, rejected, errored, StorageOps, block_size,
}

pub record InMemoryStorage : Type 0 where
  pub id : Text
  pub store : GoMap Text Block
  pub subscribers : List Channel

-- `id` is the hexadecimal text of 32 random bytes.
unfoldable pub new_in_memory_storage : Text → InMemoryStorage
new_in_memory_storage id = record { id = id; store = []; subscribers = [] }

unfoldable pub has : InMemoryStorage → Text → Bool
has s address = is_some (lookup address s.store)

unfoldable pub get : InMemoryStorage → Text → Option Block
get s address = lookup address s.store

unfoldable pub size : InMemoryStorage → Text → Option ℕ
size s address = block_size (lookup address s.store)

unfoldable pub list_blocks : InMemoryStorage → ℕ → List (List Text)
list_blocks s chunk_size =
    send_chunks (chunk_size_or_default chunk_size) [] (map (λ (a, b). a) s.store)

unfoldable pub subscribe : InMemoryStorage → InMemoryStorage
subscribe s = record s { subscribers = s.subscribers ++ [] ∷ [] }

unfoldable pub notify_subscribers : InMemoryStorage → Text → InMemoryStorage
unfolding send
notify_subscribers s address = record s { subscribers = map (send address) s.subscribers }

unfoldable pub remove : InMemoryStorage → Text → Bool × InMemoryStorage
remove s address = elim (lookup address s.store) [
  | none ↦ (false, s)
  | some b ↦ (true, record s { store = delete address s.store })
]

module _ (sha256 : List ℕ → List ℕ) where
  abbrev pub address_of : Block → Text
  address_of b = encode_to_string (sha256 b)

  unfoldable pub store : InMemoryStorage → Reader → Option Text × InMemoryStorage
  unfolding notify_subscribers
  store s r =
      let address = address_of r.content in
      if r.fails then (none, s) else (
        some address,
        notify_subscribers (record s { store = insert address r.content s.store }) address,
      )

  unfoldable pub store_at : InMemoryStorage → Text → Reader → StoreAtResult × InMemoryStorage
  unfolding notify_subscribers
  store_at s address r =
      if r.fails
      then (errored, s)
      else if address == address_of r.content
      then (
        accepted,
        notify_subscribers (record s { store = insert address r.content s.store }) address,
      )
      else (rejected, s)

  abbrev pub in_memory_ops : StorageOps InMemoryStorage
  in_memory_ops = record { has = has; get = get; store = store; store_at = store_at; size = size }
