-- ===== src/Examples/ReaderExamples.antt =====
-- The theorems on the reader of a list of blocks, at lists of two blocks.
use invariant_go.Shared.{
  contains, lookup, ℕ, suc, ◌≡◌, refl, true, false, none, some, List, [], ◌∷◌, drop, All, eq_text,
  arith, eq_nat,
}
use invariant_go.Content.Link.{ContentLink, Stream, whole, too_deep, with_error}
use invariant_go.Content.BuzHash.{BlockListItem}
use invariant_go.Content.Writer.{make_link}
use invariant_go.Content.Int64.{add64, sub64, less64, is_negative}
use invariant_go.Content.BlockReader.Skipped.{read-failed_prefetch}
use invariant_go.Content.BlockReader.{
  find_block, read_loop, settled, BlockReader, new_block_reader, read, read_all, ended,
}
use invariant_go.Content.BlockReader.Position.{items_of, content_of}
use invariant_go.Content.BlockReader.Reading.{Loads, read_all-content_of}
use invariant_go.Content.BlockReader.Termination.{read-finite}

-- The links of two blocks, by their addresses.
abbrev load_byte : ContentLink → Stream
load_byte link = whole link.address

abbrev filled : List (BlockListItem ContentLink × List ℕ)
filled =
    (record { link = make_link (1 ∷ []) [] []; size = 1 }, 1 ∷ [])
    ∷ (record { link = make_link (2 ∷ 3 ∷ []) [] []; size = 2 }, 2 ∷ 3 ∷ [])
    ∷ []

abbrev at_one : BlockReader
at_one = record {
  blocks = items_of filled;
  cache = (1, 2 ∷ 3 ∷ []) ∷ [];
  in_flight = 0 ∷ 1 ∷ [];
  cache_keys = [];
  current_pos = 1;
}

at_one-Loads : All (Loads load_byte) filled
unfolding Loads make_link
at_one-Loads = (refl, (refl, tt))

read_all-content_of_example :
    read_all load_byte 3 (suc 0) at_one ≡ whole (drop 1 (content_of filled))
read_all-content_of_example =
    read_all-content_of load_byte filled 0 3 at_one (refl, (refl, tt)) at_one-Loads (omega arith)
      (omega arith) (refl, ((record { link = make_link (2 ∷ 3 ∷ []) [] []; size = 2 }, refl), tt))
      (omega arith)

load_byte-finite : (l : ContentLink) → (load_byte l).ending ≡ too_deep → ⊥
load_byte-finite l h = cc

read-finite_example : (read load_byte 5 (new_block_reader (items_of filled))).0 ≡ ended too_deep → ⊥
read-finite_example = read-finite load_byte load_byte-finite 5 (new_block_reader (items_of filled))

-- Every link fails.
abbrev load_fails : ContentLink → Stream
load_fails link = record { content = []; ending = with_error }

abbrev waiting : BlockReader
waiting = record at_one { cache = [] }

waiting_found : find_block waiting.blocks 0 0 1 ≡ some (1, 1, 2)
unfolding find_block add64 less64
waiting_found = refl

waiting_inside : is_negative (sub64 1 1) ≡ false
unfolding is_negative sub64
waiting_inside = refl

waiting_in_flight : contains 1 waiting.in_flight ≡ true
unfolding contains
waiting_in_flight = refl

waiting_miss : lookup 1 waiting.cache ≡ none
unfolding lookup
waiting_miss = refl

read-failed_prefetch_example :
    read load_fails 5 waiting
    ≡ read_loop load_fails 2 5 (record (settled load_fails 1 waiting) { current_pos = add64 1 2 })
read-failed_prefetch_example =
    read-failed_prefetch load_fails 4 waiting 1 1 2
      (record { link = make_link (2 ∷ 3 ∷ []) [] []; size = 2 }) waiting_found waiting_inside
      waiting_miss waiting_in_flight refl refl
