-- ===== src/Storage/Memory/Content.antt =====
-- The store in memory keeps its blocks, each under the address of its content.
use invariant_go.Shared.{
  join_chunks, IsBatch, join-send_chunks, send_chunks-IsBatch, chunk_size_or_default, leb, map, ℕ,
  ◌≡◌, refl, subst, Bool, true, false, not, ◌⊎◌, none, some, Option-cases, Bool-cases, inl, inr,
  List, [], ◌∷◌, if◌then◌else◌, ◌==◌, Text, eq_text, GoMap, lookup, insert, lookup-insert,
  lookup-delete, arith, All, insert-All, delete-All, lookup-All,
}
use invariant_go.Storage.Interface.{Block, Reader, Keeps}
use invariant_go.Storage.Memory.{
  list_blocks, InMemoryStorage, new_in_memory_storage, has, get, size, remove, address_of, store,
  store_at, in_memory_ops, notify_subscribers,
}

-- What clients ask a store for.
pub data Call : Type 0 where
  stores : Reader → Call
  stores_at : Text → Reader → Call
  removes : Text → Call

-- The batches of List put together are the addresses of the store in the order of the map; no batch is
-- empty or longer than the size asked for, or than 10000 if the size is 0.
pub list_blocks-IsBatch :
    (s : InMemoryStorage) (n : ℕ)
    → (join_chunks (list_blocks s n) ≡ map (λ (a, b). a) s.store)
      × All (IsBatch (if leb n 0 then 10000 else n)) (list_blocks s n)
unfolding list_blocks
list_blocks-IsBatch s n = (
  join-send_chunks (chunk_size_or_default n) [] (map (λ (a, b). a) s.store),
  send_chunks-IsBatch (chunk_size_or_default n) [] (map (λ (a, b). a) s.store) (ground arith),
)

-- Remove takes the block away from its address, reports whether there was one, and leaves every other
-- block.
pub get-remove :
    (s : InMemoryStorage) (a b : Text)
    → ((remove s a).0 ≡ has s a) × (get (remove s a).1 b ≡ (if a == b then none else get s b))
unfolding remove has get
get-remove s a b = elim (Option-cases (lookup a s.store)) [
  | inl e ↦ (ground arith, rw (e, remove) (missing e))
  | inr (d, e) ↦ (ground arith, rw (e, remove) (lookup-delete a b s.store))
]
  where
    missing :
        lookup a s.store ≡ none → lookup b s.store ≡ (if a == b then none else lookup b s.store)
    missing e = ground (arith, eq_text.beq_iff a b)

module _ (sha256 : List ℕ → List ℕ) where
  -- The store in memory keeps what it is given. Has and Size agree with Get. Store returns the address of
  -- the block, unless the reader fails. StoreAt returns an error if the reader fails, and otherwise
  -- whether the address is that of the block. Get returns from then on what was accepted under its
  -- address, and under every other address, or if nothing was accepted, what it returned before.
  pub in_memory-Keeps : Keeps (address_of sha256) (in_memory_ops sha256)
  unfolding has get size store store_at notify_subscribers
  in_memory-Keeps = record {
    has_get = λ s a. refl;
    size_get = λ s a. refl;
    store_result = λ s r. ground arith;
    get_store =
        λ s r a. ground (arith, lookup-insert (address_of sha256 r.content) a r.content s.store);
    store_at_result = λ s r a. ground arith;
    get_store_at = λ s r a b. ground (arith, lookup-insert a b r.content s.store);
  }

  -- Every block stands under the address of its content.
  abbrev pub Addressed : Text × Block → Type 0
  Addressed (a, b) = a ≡ address_of sha256 b

  unfoldable pub step : InMemoryStorage → Call → InMemoryStorage
  step s (stores r) = (store sha256 s r).1
  step s (stores_at a r) = (store_at sha256 s a r).1
  step s (removes a) = (remove s a).1

  unfoldable pub run : InMemoryStorage → List Call → InMemoryStorage
  unfolding step
  run s [] = s
  run s (c ∷ cs) = run (step s c) cs

  choice-Addressed :
      (c : Bool) (m n : GoMap Text Block)
      → (c ≡ false) ⊎ All Addressed m
      → All Addressed n
      → All Addressed (if c then m else n)
  choice-Addressed true m n (inl e) k = absurd (ground arith)
  choice-Addressed true m n (inr h) k = h
  choice-Addressed false m n h k = k

  insert-Addressed :
      (a : Text) (b : Block) (m : GoMap Text Block)
      → All Addressed m
      → ((a == address_of sha256 b) ≡ false) ⊎ All Addressed (insert a b m)
  insert-Addressed a b m h = elim (Bool-cases (a == address_of sha256 b)) [
    | inl same ↦ inr (insert-All Addressed a b m ((eq_text.beq_iff _ _).0 same) h)
    | inr other ↦ inl other
  ]

  step-Addressed :
      (s : InMemoryStorage) (c : Call) → All Addressed s.store → All Addressed (step s c).store
  unfolding step store store_at remove notify_subscribers
  step-Addressed s (stores r) h = subst (All Addressed) (ground arith) (
      choice-Addressed (not r.fails) (insert (address_of sha256 r.content) r.content s.store)
        s.store (inr (insert-All Addressed (address_of sha256 r.content) r.content s.store refl h))
        h)
  step-Addressed s (stores_at a r) h = subst (All Addressed) (ground arith) (
      choice-Addressed (not r.fails) _ s.store
        (inr (
          choice-Addressed (a == address_of sha256 r.content) (insert a r.content s.store) s.store
            (insert-Addressed a r.content s.store h) h))
        h)
  step-Addressed s (removes a) h = elim (Option-cases (lookup a s.store)) [
    | inl e ↦ subst (All Addressed) (ground arith) h
    | inr (b, e) ↦ subst (All Addressed) (ground arith) (delete-All Addressed a s.store h)
  ]

  run-Addressed :
      (s : InMemoryStorage) (cs : List Call)
      → All Addressed s.store
      → All Addressed (run s cs).store
  unfolding run
  run-Addressed s [] h = h
  run-Addressed s (c ∷ cs) h = run-Addressed (step s c) cs (step-Addressed s c h)

  -- Whatever is asked of a new store, and even if blocks are offered under other addresses, each block
  -- that Get returns has the address that was asked for.
  pub get-run_new :
      (id : Text) (cs : List Call) (a : Text) (b : Block)
      → get (run (new_in_memory_storage id) cs) a ≡ some b
      → a ≡ address_of sha256 b
  unfolding get new_in_memory_storage
  get-run_new id cs a b h =
      lookup-All Addressed a b (run (new_in_memory_storage id) cs).store
        (run-Addressed (new_in_memory_storage id) cs tt) h
