-- ===== src/Content/BlockReader.antt =====
-- internal/content/reader.go: `blockListReader`, the reader of a list of blocks, with its cache and
-- the prefetches that it waits for. A prefetch ends when a Read waits for it; one that ends between
-- two Reads leaves a reader with another cache and other prefetches. Close is not modelled.
pub mod Position
pub mod Loading
pub mod Reading
pub mod Termination
pub mod Skipped
use invariant_go.Shared.{
  ℕ, zero, suc, ◌+◌, ◌-◌, Bool, true, false, Option, none, some, List, [], ◌∷◌, ◌++◌, length, take,
  drop, get_elem?, ltb, leb, nat_eq, if◌then◌else◌, GoMap, lookup, insert, delete, eq_nat, contains,
}
use invariant_go.Content.Int64.{add64, sub64, less64, is_negative}
use invariant_go.Content.Link.{
  ContentLink, Ending, at_eof, with_error, with_panic, too_deep, Stream,
}
use invariant_go.Content.BuzHash.{BlockListItem}

-- `current_pos` is an int64, as a word. `in_flight` has the indices that other goroutines are fetching.
pub record BlockReader : Type 0 where
  pub blocks : List (BlockListItem ContentLink)
  pub cache : GoMap ℕ (List ℕ)
  pub in_flight : List ℕ
  pub cache_keys : List ℕ
  pub current_pos : ℕ

-- The indices that prefetching starts with, all of them taken up.
unfoldable pub indices_from : ℕ → ℕ → List ℕ
indices_from idx zero = []
indices_from idx (suc n) = idx ∷ indices_from (suc idx) n

abbrev pub max_prefetch : ℕ → ℕ
max_prefetch n = if ltb n 16 then n else 16

unfoldable pub new_block_reader : List (BlockListItem ContentLink) → BlockReader
unfolding indices_from
new_block_reader blocks = record {
  blocks = blocks;
  cache = [];
  in_flight = indices_from 0 (max_prefetch (length blocks));
  cache_keys = [];
  current_pos = 0;
}

-- The keys without the first one equal to `idx`, if there is one.
unfoldable pub without_key : ℕ → List ℕ → Option (List ℕ)
without_key idx [] = none
without_key idx (k ∷ ks) =
    let rest = without_key idx ks in
    if nat_eq k idx then some ks else elim rest [ none ↦ none | some r ↦ some (k ∷ r) ]

unfoldable pub update_lru : ℕ → List ℕ → List ℕ
unfolding without_key
update_lru idx ks = elim (without_key idx ks) [ some rest ↦ rest | none ↦ ks ++ idx ∷ [] ]

-- Nothing keeps the offset from being negative.
unfoldable pub seek : ℕ → BlockReader → BlockReader
seek offset r = record r { current_pos = offset }

abbrev pub max_cached : ℕ
max_cached = 64

-- The oldest key goes if the list of keys is full.
unfoldable pub make_room : BlockReader → BlockReader
make_room r = elim (leb max_cached (length r.cache_keys)) [
  | false ↦ r
  | true ↦ elim r.cache_keys [
    | [] ↦ r
    | oldest ∷ ks ↦ record r { cache_keys = ks; cache = delete oldest r.cache }
  ]
]

-- The block that the position is in, with the offset of its first byte.
unfoldable pub find_block : List (BlockListItem ContentLink) → ℕ → ℕ → ℕ → Option (ℕ × ℕ × ℕ)
unfolding add64 less64
find_block [] idx offset pos = none
find_block (b ∷ blocks) idx offset pos =
    let rest = find_block blocks (suc idx) (add64 offset b.size) pos in
    if less64 pos (add64 offset b.size) then some (idx, offset, b.size) else rest

-- What one Read returns: bytes, or the end.
pub data ReadStep : Type 0 where
  got : List ℕ → ReadStep
  ended : Ending → ReadStep

abbrev pub active_data : Option (List ℕ) → List ℕ
active_data none = []
active_data (some b) = b

-- `load link` is what Read and ReadAll make of a link. The result is how the call ends, at_eof for nil.
module _ (load : ContentLink → Stream) where
  abbrev pub keep_block : ℕ → List ℕ → BlockReader → BlockReader
  keep_block idx b r =
      let r' = make_room r in
      record r' { cache = insert idx b r'.cache; cache_keys = update_lru idx r'.cache_keys }

  -- The part of loadBlock behind the lookups.
  unfoldable pub fetch_block : ℕ → BlockReader → Option Ending × BlockReader
  unfolding update_lru make_room
  fetch_block idx r = elim (get_elem? r.blocks idx) [
    | none ↦ (some at_eof, r)
    | some item ↦
        let s = load item.link in
        elim s.ending [
          | at_eof ↦ (none, keep_block idx s.content r)
          | with_error ↦ (some with_error, r)
          | with_panic ↦ (some with_panic, r)
          | too_deep ↦ (some too_deep, r)
        ]
  ]

  -- Waiting for the goroutine that fetches the block: its error is lost, its panic ends the program.
  abbrev pub waited : Option Ending → Option Ending
  waited none = none
  waited (some at_eof) = none
  waited (some with_error) = none
  waited (some with_panic) = some with_panic
  waited (some too_deep) = some too_deep

  abbrev pub settled : ℕ → BlockReader → BlockReader
  settled idx r = record r {
    cache_keys = update_lru idx r.cache_keys;
    in_flight = elim (without_key idx r.in_flight) [ none ↦ r.in_flight | some rest ↦ rest ];
  }

  unfoldable pub load_block : ℕ → BlockReader → Option Ending × BlockReader
  unfolding update_lru fetch_block without_key
  load_block idx r = elim (lookup idx r.cache) [
    | some b ↦ (none, record r { cache_keys = update_lru idx r.cache_keys })
    | none ↦
        let (failed, r') = fetch_block idx r in
        if contains idx r.in_flight then (waited failed, settled idx r') else (failed, r')
  ]

  -- Read into a buffer of `n` bytes. The fuel is for the rounds of the loop, each of which that goes on
  -- leaves a block behind.
  unfoldable pub read_loop : ℕ → ℕ → BlockReader → ReadStep × BlockReader
  unfolding find_block load_block add64 sub64 less64 is_negative
  read_loop zero n r = (ended too_deep, r)
  read_loop (suc fuel) n r = elim (find_block r.blocks 0 0 r.current_pos) [
    | none ↦ (ended at_eof, r)
    | some (idx, offset, size) ↦
        let (failed, r') = load_block idx r in
        elim failed [
          | some ending ↦ (ended ending, r')
          | none ↦
              let b = active_data (lookup idx r'.cache) in
              let intra = sub64 r.current_pos offset in
              if less64 intra (length b)
              then (if is_negative intra then (ended with_panic, r') else (
                got (take n (drop intra b)),
                record r' { current_pos = add64 r.current_pos (length (take n (drop intra b))) },
              ))
              else read_loop fuel n (record r' { current_pos = add64 offset size })
        ]
  ]

  unfoldable pub read : ℕ → BlockReader → ReadStep × BlockReader
  unfolding read_loop
  read zero r = (got [], r)
  read (suc n) r = read_loop (suc (length r.blocks)) (suc n) r

  -- io.ReadAll with a buffer of `n` bytes for each Read, up to `rounds` of them.
  unfoldable pub read_all : ℕ → ℕ → BlockReader → Stream
  unfolding read
  read_all zero n r = record { content = []; ending = too_deep }
  read_all (suc rounds) n r =
      let (step, r') = read n r in
      elim step [
        | ended ending ↦ record { content = []; ending = ending }
        | got b ↦ let rest = read_all rounds n r' in record rest { content = b ++ rest.content }
      ]
