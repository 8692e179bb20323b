-- ===== src/Content/BuzHash.antt =====
-- internal/content/buzhash.go and buzhash_splitter.go: a file is cut where a hash of its last bytes
-- ends in 20 zero bits.
pub mod Chunks
pub mod Boundaries
use Prim.Native.Nat.{bit_and, bit_or, bit_xor}
use invariant_go.Shared.{
  ℕ, zero, suc, ◌+◌, ◌-◌, ◌*◌, ◌/◌, ◌%◌, ◌^◌, Bool, true, false, ◌&&◌, ◌||◌, Option, none, some,
  List, [], ◌∷◌, ◌++◌, length, set, get_elem?, replicate, ltb, leb, nat_eq, if◌then◌else◌,
}

-- uint32(i) * 0x5bd1e995
abbrev pub table : ℕ → ℕ
table i = i * 1540483477 % 2 ^ 32

pub record BuzHash : Type 0 where
  pub hash : ℕ
  pub window : List ℕ
  pub pos : ℕ

unfoldable pub new_buz_hash : ℕ → BuzHash
new_buz_hash window_size = record { hash = 0; window = replicate window_size 0; pos = 0 }

-- x<<1 | x>>31 on 32 bits
abbrev pub rotate : ℕ → ℕ
rotate x = bit_or (x * 2 % 2 ^ 32) (x / 2 ^ 31)

-- The position is in the window; a byte outside of it reads as 0.
abbrev pub byte_at : Option ℕ → ℕ
byte_at none = 0
byte_at (some c) = c

unfoldable pub write_b : BuzHash → ℕ → BuzHash
write_b b c =
    let old_num = byte_at (get_elem? b.window b.pos) in
    record {
      hash = bit_xor (bit_xor (rotate b.hash) (table c)) (rotate (table old_num));
      window = set b.window b.pos c;
      pos = (b.pos + 1) % length b.window;
    }

abbrev pub mask : ℕ
mask = 2 ^ 20 - 1

abbrev pub target_block_size : ℕ
target_block_size = 1048576

abbrev pub max_block_size : ℕ
max_block_size = 2097152

-- The test after a byte, for the hash and the size of the current chunk.
unfoldable pub is_cut : ℕ → ℕ → Bool
is_cut h size =
    nat_eq (bit_and h mask) 0 && leb (target_block_size / 2) size || nat_eq size max_block_size

-- A BlockListItem, on a type of links.
pub record BlockListItem (L : Type 0) : Type 0 where
  pub link : L
  pub size : ℕ

-- How the loop over the bytes ends: with an error of `writeChunk`, or with the current chunk.
pub data Scanned (L : Type 0) : Type 0 where
  write_failed : Scanned L
  scanned : List ℕ → List (BlockListItem L) → Scanned L

-- `write_chunk` is the callback, on a state W.
module _ {L W : Type 0} (write_chunk : W → List ℕ → Option L × W) where
  -- The loop over the bytes that are read, whatever the sizes of the reads.
  unfoldable pub scan_bytes : List ℕ → BuzHash → List ℕ → List (BlockListItem L) → W → Scanned L × W
  unfolding write_b is_cut
  scan_bytes [] bh chunk blocks w = (scanned chunk blocks, w)
  scan_bytes (b ∷ bytes) bh chunk blocks w =
      let bh' = write_b bh b in
      let chunk' = chunk ++ b ∷ [] in
      elim (is_cut bh'.hash (length chunk')) [
        | false ↦ scan_bytes bytes bh' chunk' blocks w
        | true ↦
            let (link, w') = write_chunk w chunk' in
            elim link [
              | none ↦ (write_failed, w')
              | some l ↦
                  scan_bytes bytes (new_buz_hash 64) []
                    (blocks ++ record { link = l; size = length chunk' } ∷ []) w'
            ]
      ]

  abbrev pub write_last : List ℕ → List (BlockListItem L) → W → Option (List (BlockListItem L)) × W
  write_last chunk blocks w =
      let (link, w') = write_chunk w chunk in
      elim link [
        | none ↦ (none, w')
        | some l ↦ (some (blocks ++ record { link = l; size = length chunk } ∷ []), w')
      ]

  -- Split of a reader with these bytes, after which reading fails or not; `none` is an error.
  unfoldable pub split : List ℕ → Bool → W → Option (List (BlockListItem L)) × W
  unfolding scan_bytes new_buz_hash
  split bytes fails w =
      let (r, w') = scan_bytes bytes (new_buz_hash 64) [] [] w in
      elim r [
        | write_failed ↦ (none, w')
        | scanned chunk blocks ↦
            if fails
            then (none, w')
            else if ltb 0 (length chunk) || nat_eq (length blocks) 0
            then write_last chunk blocks w'
            else (some blocks, w')
      ]
