-- ===== src/Content/BlockReader/Position.antt =====
-- Where a position lies in the concatenation of the blocks.
use invariant_go.Shared.{
  ℕ, zero, suc, ◌+◌, ◌-◌, ◌≤◌, ◌<◌, ◌≡◌, refl, ◌∙◌, ap, true, false, Bool-cases, none, some, List,
  [], ◌∷◌, ◌++◌, length, length-append, drop-length_append, drop-add, drop-append, drop, get_elem?,
  ltb, All, join_chunks, arith, inl, inr,
}
use invariant_go.Content.Int64.{int64_limit, less64, add64, less64-ltb, add64_small}
use invariant_go.Content.Link.{ContentLink}
use invariant_go.Content.BuzHash.{BlockListItem}
use invariant_go.Content.BlockReader.{find_block}

-- An item of a list with the bytes of its block.
abbrev pub Filled : Type 0
Filled = BlockListItem ContentLink × List ℕ

abbrev pub items_of : List Filled → List (BlockListItem ContentLink)
items_of [] = []
items_of ((i, d) ∷ fs) = i ∷ items_of fs

abbrev pub blocks_of : List Filled → List (List ℕ)
blocks_of [] = []
blocks_of ((i, d) ∷ fs) = d ∷ blocks_of fs

abbrev pub content_of : List Filled → List ℕ
content_of fs = join_chunks (blocks_of fs)

-- The size of an item is that of its block.
abbrev pub Sized : Filled → Type 0
Sized (i, d) = i.size ≡ length d

pub get_elem?-items_of :
    (fs : List Filled) (j : ℕ) (i : BlockListItem ContentLink) (d : List ℕ)
    → get_elem? fs j ≡ some (i, d)
    → get_elem? (items_of fs) j ≡ some i
get_elem?-items_of [] j i d h = absurd (ground arith)
get_elem?-items_of ((i', d') ∷ fs) zero i d h = ground arith
get_elem?-items_of ((i', d') ∷ fs) (suc j) i d h = get_elem?-items_of fs j i d h

pub record Found (fs : List Filled) (idx offset pos : ℕ) : Type 0 where
  pub j : ℕ
  pub item : BlockListItem ContentLink
  pub block : List ℕ
  pub start : ℕ
  pub rest : List ℕ
  pub found : find_block (items_of fs) idx offset pos ≡ some (idx + j, start, item.size)
  pub at : get_elem? fs j ≡ some (item, block)
  pub low : start ≤ pos
  pub high : pos < start + length block
  pub within : start + length block ≤ offset + length (content_of fs)
  pub cut : drop (pos - offset) (content_of fs) ≡ drop (pos - start) block ++ rest

find-here :
    (i : BlockListItem ContentLink) (is : List (BlockListItem ContentLink)) (idx offset pos : ℕ)
    → less64 pos (add64 offset i.size) ≡ true
    → find_block (i ∷ is) idx offset pos ≡ some (idx, offset, i.size)
unfolding find_block
find-here i is idx offset pos h = rw (h, find_block) refl

find-later :
    (i : BlockListItem ContentLink) (is : List (BlockListItem ContentLink)) (idx offset pos : ℕ)
    → less64 pos (add64 offset i.size) ≡ false
    → find_block (i ∷ is) idx offset pos ≡ find_block is (suc idx) (add64 offset i.size) pos
unfolding find_block
find-later i is idx offset pos h = rw (h, find_block) refl

-- Below 2^63 nothing wraps.
less64-add64 :
    (pos offset size : ℕ)
    → pos < int64_limit
    → offset + size < int64_limit
    → less64 pos (add64 offset size) ≡ ltb pos (offset + size)
less64-add64 pos offset size hp h =
    ap (less64 pos) (add64_small offset size (omega arith)) ∙ less64-ltb pos (offset + size) hp h

here-Found :
    (i : BlockListItem ContentLink) (d : List ℕ) (fs : List Filled) (idx offset pos : ℕ)
    → i.size ≡ length d
    → offset + i.size < int64_limit
    → offset ≤ pos
    → pos < offset + length d
    → Found ((i, d) ∷ fs) idx offset pos
here-Found i d fs idx offset pos sized bound low high = record {
  j = 0;
  item = i;
  block = d;
  start = offset;
  rest = content_of fs;
  found =
      find-here i (items_of fs) idx offset pos
        (less64-add64 pos offset i.size (omega arith) bound ∙ ground arith)
      ∙ ap (λ (k : ℕ). some (k, offset, i.size)) (omega arith);
  at = refl;
  low = low;
  high = high;
  within = omega (arith, length-append d (content_of fs));
  cut = drop-append (pos - offset) d (content_of fs) (omega arith);
}

later-Found :
    (i : BlockListItem ContentLink) (d : List ℕ) (fs : List Filled) (idx offset pos : ℕ)
    → i.size ≡ length d
    → offset + i.size < int64_limit
    → pos < int64_limit
    → offset + length d ≤ pos
    → Found fs (suc idx) (offset + i.size) pos
    → Found ((i, d) ∷ fs) idx offset pos
later-Found i d fs idx offset pos sized bound small later f = record {
  j = suc f.j;
  item = f.item;
  block = f.block;
  start = f.start;
  rest = f.rest;
  found =
      find-later i (items_of fs) idx offset pos
        (less64-add64 pos offset i.size small bound ∙ ground arith)
      ∙ ap (λ k. find_block (items_of fs) (suc idx) k pos) (add64_small offset i.size (omega arith))
      ∙ f.found
      ∙ ap (λ (k : ℕ). some (k, f.start, f.item.size)) (omega arith);
  at = f.at;
  low = f.low;
  high = f.high;
  within = omega (arith, length-append d (content_of fs), f.within, sized);
  cut =
      ap (λ k. drop k (d ++ content_of fs)) (omega arith)
      ∙ drop-add (length d) (pos - (offset + length d)) (d ++ content_of fs)
      ∙ rw (drop-length_append d (content_of fs))
          (ap (λ k. drop k (content_of fs)) (omega arith) ∙ f.cut);
}

-- A position inside the concatenation lies in one of the blocks.
pub find_position :
    (fs : List Filled) (idx offset pos : ℕ)
    → All Sized fs
    → offset + length (content_of fs) < int64_limit
    → offset ≤ pos
    → pos < offset + length (content_of fs)
    → Found fs idx offset pos
find_position [] idx offset pos h bound low high = absurd (omega arith)
find_position ((i, d) ∷ fs) idx offset pos (sized, h) bound low high =
    elim (Bool-cases (ltb pos (offset + length d))) [
      | inl here ↦
          here-Found i d fs idx offset pos sized
            (omega (arith, length-append d (content_of fs), sized)) low (ground arith)
      | inr later ↦
          later-Found i d fs idx offset pos sized
            (omega (arith, length-append d (content_of fs), sized)) (omega arith) (ground arith)
            (find_position fs (suc idx) (offset + i.size) pos h
              (omega (arith, length-append d (content_of fs), sized)) (ground arith)
              (omega (arith, length-append d (content_of fs), sized)))
    ]

-- A position behind the concatenation lies in none.
pub find_end :
    (fs : List Filled) (idx offset pos : ℕ)
    → All Sized fs
    → pos < int64_limit
    → offset + length (content_of fs) ≤ pos
    → find_block (items_of fs) idx offset pos ≡ none
unfolding find_block
find_end [] idx offset pos h small behind = refl
find_end ((i, d) ∷ fs) idx offset pos (sized, h) small behind =
    find-later i (items_of fs) idx offset pos
      (less64-add64 pos offset i.size small low ∙ ground (arith, reach))
    ∙ ap (λ k. find_block (items_of fs) (suc idx) k pos)
        (add64_small offset i.size (omega (arith, low)))
    ∙ find_end fs (suc idx) (offset + i.size) pos h small
        (omega (arith, length-append d (content_of fs), sized))
  where
    reach : offset + i.size ≤ pos
    reach = omega (arith, length-append d (content_of fs), sized)

    low : offset + i.size < int64_limit
    low = omega (arith, reach, small)
