-- ===== src/Content/RoundTrip/Promises.antt =====
-- What is promised of the stores, of the blocks in them and of the files.
use invariant_go.Shared.{
  ℕ, suc, ◌≤◌, ◌<◌, ◌≡◌, true, false, Option, some, List, ◌⊎◌, length, take, leb, Text,
}
use invariant_go.Storage.Interface.{StorageOps, Reader}
use invariant_go.Content.Link.{ContentLink, Codec, whole}
use invariant_go.Content.BuzHash.{BlockListItem, max_block_size}
use invariant_go.Content.BlockReader.Position.{Filled}
use invariant_go.Content.Writer.{
  WriterOptions, World, Splitter, select_splitter, is_deterministic, write_block,
}
use invariant_go.Content.Writer.File.{Written, written, shared_key}
use invariant_go.Content.Reader.{opened, read_link}

abbrev pub as_reader : List ℕ → Reader
as_reader out = record { content = out; fails = false }

module _ {S : Type 0} (ops : StorageOps S) where
  unfoldable pub Extends : S → S → Type 0
  Extends s s' = (a : Text) (out : List ℕ) → ops.get s a ≡ some out → ops.get s' a ≡ some out

-- `Clean` says of a store that no write has put a block in the place of a different one, which two
-- blocks with the same address would do. A write which ends clean starts clean, and what it finds under
-- the address of its block is that block.
unfoldable pub IsClean : {S : Type 0} → (List ℕ → Text) → StorageOps S → (S → Type 0) → Type 0
IsClean {S = S} address_of ops Clean =
    (s : S) (out : List ℕ)
    → Clean (ops.store s (as_reader out)).1
    → Clean s × ((x : List ℕ) → ops.get s (address_of out) ≡ some x → x ≡ out)

module _ {S : Type 0} (ops : StorageOps S) (Clean : S → Type 0) where
  unfoldable pub Grows : S → S → Type 0
  Grows s s' = Clean s' → Clean s × Extends ops s s'

-- A list of more than one block fits a block, its JSON is read back, and its key is not left out of
-- its link.
unfoldable pub FitsOne : Codec → WriterOptions → List (BlockListItem ContentLink) → Type 0
FitsOne c opts items =
    (length items ≤ 1)
    ⊎ ((leb (length (c.marshal items)) max_block_size ≡ true)
        × (c.unmarshal (c.marshal items) ≡ some items)
        × ((opts.encrypt_algorithm ≡ "") ⊎ (is_deterministic opts.key_policy ≡ false)))

module _ (c : Codec) {S : Type 0} (ops : StorageOps S) where
  -- The block of an item can be read through the item's link.
  unfoldable pub ReadsIn : S → Filled → Type 0
  ReadsIn st (i, d) =
      (slot : Option (Text → Option Text)) (rounds buffer depth : ℕ)
      → read_link c (ops.get st) slot rounds buffer (suc depth) i.link ≡ opened (whole d)

  module _ {R : Type 0} where
    -- The link of the block that is written leads to its bytes.
    unfoldable pub Readable : List ℕ → Option ContentLink × World S R → Type 0
    Readable b q =
        (link : ContentLink) × (q.0 ≡ some link)
        × ((slot : Option (Text → Option Text)) (rounds buffer depth : ℕ)
            → read_link c (ops.get q.1.store) slot rounds buffer (suc depth) link
              ≡ opened (whole b))

    -- The link of the file that is written leads to its bytes.
    unfoldable pub FileReads : List ℕ → Written ContentLink × World S R → Type 0
    FileReads bytes q =
        (link : ContentLink) × (q.0 ≡ written link)
        × ((slot : Option (Text → Option Text)) (rounds n depth : ℕ)
            → length bytes < rounds
            → read_link c (ops.get q.1.store) slot rounds (suc n) (suc (suc depth)) link
              ≡ opened (whole bytes))

module _ (c : Codec) {R : Type 0} (rand : R → ℕ → Option (List ℕ) × R) {S : Type 0}
    (ops : StorageOps S) where
  -- The list of the blocks that a splitter writes fits a block.
  unfoldable pub ListFits : WriterOptions → Splitter (World S R) → List ℕ → World S R → Type 0
  ListFits opts splitter bytes w =
      (shared : Option (List ℕ)) (items : List (BlockListItem ContentLink))
      → (splitter.cut (write_block c rand ops opts shared) bytes false w).0 ≡ some items
      → FitsOne c opts items

  -- The state of the world after the key of a file is chosen.
  unfoldable pub with_rng : WriterOptions → World S R → World S R
  with_rng opts w = record w { rng = (shared_key c rand ops opts w.rng).1 }

-- The splitter that is selected for a file.
unfoldable pub chosen : {W : Type 0} → List (Splitter W) → WriterOptions → List ℕ → Splitter W
chosen splitters opts bytes =
    select_splitter (take 1024 bytes) opts.filename opts.content_type splitters
