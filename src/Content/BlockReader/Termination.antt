-- ===== src/Content/BlockReader/Termination.antt =====
-- The loop of the block list reader ends, whatever the sizes in the list say of the blocks, also where
-- the sums of the sizes wrap around.
use invariant_go.Shared.{
  Option, ℕ, zero, suc, ◌+◌, ◌≤◌, ◌<◌, ◌≡◌, refl, sym, ◌∙◌, ap, Bool, true, false, Bool-cases, none,
  some, Option-cases, List, [], ◌∷◌, length, get_elem?, arith, inl, inr, lookup, eq_nat,
}
use invariant_go.Content.Int64.{less64, add64, sub64, is_negative, less64_later, less64_irrefl}
use invariant_go.Content.Link.{
  ContentLink, Stream, Ending, at_eof, with_error, with_panic, too_deep,
}
use invariant_go.Content.BuzHash.{BlockListItem}
use invariant_go.Content.BlockReader.{
  BlockReader, make_room, fetch_block, waited, load_block, find_block, ReadStep, ended, active_data,
  read_loop, read,
}

-- The block that is found is not before `idx`, and is one of the list.
Bounded : List (BlockListItem ContentLink) → ℕ → ℕ × ℕ × ℕ → Type 0
Bounded blocks idx (j, start, size) = (idx ≤ j) × (j < idx + length blocks)

find_block-Bounded :
    (blocks : List (BlockListItem ContentLink)) (idx offset pos : ℕ) (q : ℕ × ℕ × ℕ)
    → find_block blocks idx offset pos ≡ some q
    → Bounded blocks idx q
unfolding find_block Bounded
find_block-Bounded [] idx offset pos q h = absurd (ground arith)
find_block-Bounded (b ∷ blocks) idx offset pos q h =
    elim (Bool-cases (less64 pos (add64 offset b.size))) [
      | inl here ↦ ground arith
      | inr later ↦
          go (find_block-Bounded blocks (suc idx) (add64 offset b.size) pos q (ground arith))
    ]
  where
    go : Bounded blocks (suc idx) q → Bounded (b ∷ blocks) idx q
    go (low, high) = (omega arith, omega arith)

-- The position is before the end of the block that is found.
find_block-hit :
    (blocks : List (BlockListItem ContentLink)) (idx offset pos j start size : ℕ)
    → find_block blocks idx offset pos ≡ some (j, start, size)
    → less64 pos (add64 start size) ≡ true
unfolding find_block
find_block-hit [] idx offset pos j start size h = absurd (ground arith)
find_block-hit (b ∷ blocks) idx offset pos j start size h =
    elim (Bool-cases (less64 pos (add64 offset b.size))) [
      | inl here ↦ ground arith
      | inr later ↦
          find_block-hit blocks (suc idx) (add64 offset b.size) pos j start size (ground arith)
    ]

find_block-pass :
    (b : BlockListItem ContentLink) (blocks : List (BlockListItem ContentLink)) (idx offset pos : ℕ)
    → less64 pos (add64 offset b.size) ≡ false
    → find_block (b ∷ blocks) idx offset pos ≡ find_block blocks (suc idx) (add64 offset b.size) pos
unfolding find_block
find_block-pass b blocks idx offset pos h = rw (h, find_block) refl

-- Behind a block that is found, only later ones are.
find_block-later :
    (blocks : List (BlockListItem ContentLink)) (idx offset pos j start size : ℕ) (q : ℕ × ℕ × ℕ)
    → find_block blocks idx offset pos ≡ some (j, start, size)
    → find_block blocks idx offset (add64 start size) ≡ some q
    → j < q.0
unfolding find_block Bounded
find_block-later [] idx offset pos j start size q h k = absurd (ground arith)
find_block-later (b ∷ blocks) idx offset pos j start size q h k =
    elim (Bool-cases (less64 pos (add64 offset b.size))) [
      | inl here ↦ first (ground arith) (ground arith) (ground arith)
      | inr later ↦
          find_block-later blocks (suc idx) (add64 offset b.size) pos j start size q (passed later)
            (after later (passed later))
    ]
  where
    first : j ≡ idx → start ≡ offset → size ≡ b.size → j < q.0
    first e e' e'' = behind (
        find_block-Bounded blocks (suc idx) (add64 offset b.size) (add64 start size) q (
          sym (
            find_block-pass b blocks idx offset (add64 start size)
              (rw e' (rw e'' (less64_irrefl (add64 offset b.size)))))
          ∙ k))
      where
        behind : Bounded blocks (suc idx) q → j < q.0
        behind (low, high) = omega arith

    passed :
        less64 pos (add64 offset b.size) ≡ false
        → find_block blocks (suc idx) (add64 offset b.size) pos ≡ some (j, start, size)
    passed later = sym (find_block-pass b blocks idx offset pos later) ∙ h

    after :
        less64 pos (add64 offset b.size) ≡ false
        → find_block blocks (suc idx) (add64 offset b.size) pos ≡ some (j, start, size)
        → find_block blocks (suc idx) (add64 offset b.size) (add64 start size) ≡ some q
    after later found =
        sym (
          find_block-pass b blocks idx offset (add64 start size) (
            less64_later pos (add64 start size) (add64 offset b.size)
              (find_block-hit blocks (suc idx) (add64 offset b.size) pos j start size found) later))
        ∙ k

make_room-blocks : (r : BlockReader) → (make_room r).blocks ≡ r.blocks
unfolding make_room
make_room-blocks r = ground arith

fetch_block-blocks :
    (load : ContentLink → Stream) (idx : ℕ) (r : BlockReader)
    → (fetch_block load idx r).1.blocks ≡ r.blocks
unfolding fetch_block
fetch_block-blocks load idx r = ground (arith, make_room-blocks r)

load_block-blocks :
    (load : ContentLink → Stream) (idx : ℕ) (r : BlockReader)
    → (load_block load idx r).1.blocks ≡ r.blocks
unfolding load_block
load_block-blocks load idx r = ground (arith, fetch_block-blocks load idx r)

module _ (load : ContentLink → Stream) where
  -- The position is before the end of the data.
  unfoldable pub inside_block : ℕ × ℕ × ℕ → BlockReader → Bool
  inside_block q r =
      less64 (sub64 r.current_pos q.1)
        (length (active_data (lookup q.0 (load_block load q.0 r).1.cache)))

  pub loop-skip :
      (fuel n : ℕ) (r : BlockReader) (q : ℕ × ℕ × ℕ)
      → find_block r.blocks 0 0 r.current_pos ≡ some q
      → (load_block load q.0 r).0 ≡ none
      → inside_block q r ≡ false
      → read_loop load (suc fuel) n r
        ≡ read_loop load fuel n (record (load_block load q.0 r).1 { current_pos = add64 q.1 q.2 })
  unfolding read_loop inside_block
  loop-skip fuel n r q e fine skip =
      rw (e, read_loop) (rw (fine, read_loop) (rw (skip, read_loop) refl))

module _ (load : ContentLink → Stream)
    (finite : (l : ContentLink) → (load l).ending ≡ too_deep → ⊥) where
  fetch_block-finite : (idx : ℕ) (r : BlockReader) → (fetch_block load idx r).0 ≡ some too_deep → ⊥
  unfolding fetch_block
  fetch_block-finite idx r h = elim (Option-cases (get_elem? r.blocks idx)) [
    | inl e ↦ ground arith
    | inr (i, e) ↦ ground (arith, finite i.link)
  ]

  waited-finite : (e : Option Ending) → (e ≡ some too_deep → ⊥) → waited load e ≡ some too_deep → ⊥
  waited-finite none h k = ground arith
  waited-finite (some at_eof) h k = ground arith
  waited-finite (some with_error) h k = ground arith
  waited-finite (some with_panic) h k = ground arith
  waited-finite (some too_deep) h k = h refl

  load_block-finite : (idx : ℕ) (r : BlockReader) → (load_block load idx r).0 ≡ some too_deep → ⊥
  unfolding load_block
  load_block-finite idx r h = ground (
    arith,
    fetch_block-finite idx r,
    waited-finite (fetch_block load idx r).0 (fetch_block-finite idx r),
  )

  loop-none :
      (fuel n : ℕ) (r : BlockReader)
      → find_block r.blocks 0 0 r.current_pos ≡ none
      → (read_loop load (suc fuel) n r).0 ≡ ended at_eof
  unfolding read_loop
  loop-none fuel n r e = rw (e, read_loop) refl

  loop-failed :
      (fuel n : ℕ) (r : BlockReader) (q : ℕ × ℕ × ℕ) (ending : Ending)
      → find_block r.blocks 0 0 r.current_pos ≡ some q
      → (load_block load q.0 r).0 ≡ some ending
      → (read_loop load (suc fuel) n r).0 ≡ ended ending
  unfolding read_loop
  loop-failed fuel n r q ending e failed = rw (e, read_loop) (rw (failed, read_loop) refl)

  loop-inside :
      (fuel n : ℕ) (r : BlockReader) (q : ℕ × ℕ × ℕ)
      → find_block r.blocks 0 0 r.current_pos ≡ some q
      → (load_block load q.0 r).0 ≡ none
      → inside_block load q r ≡ true
      → (read_loop load (suc fuel) n r).0 ≡ ended too_deep
      → ⊥
  unfolding read_loop inside_block
  loop-inside fuel n r q e fine inside = elim (Bool-cases (is_negative (sub64 r.current_pos q.1))) [
    | inl negative ↦
        rw (e, read_loop)
          (rw (fine, read_loop) (rw (inside, read_loop) (rw (negative, read_loop) (λ h. cc))))
    | inr positive ↦
        rw (e, read_loop)
          (rw (fine, read_loop) (rw (inside, read_loop) (rw (positive, read_loop) (λ h. cc))))
  ]

  -- The blocks before `k` are behind the reader.
  read_loop-finite :
      (fuel n : ℕ) (r : BlockReader) (k : ℕ)
      → ((q : ℕ × ℕ × ℕ) → find_block r.blocks 0 0 r.current_pos ≡ some q → k ≤ q.0)
      → k ≤ length r.blocks
      → length r.blocks < fuel + k
      → (read_loop load fuel n r).0 ≡ ended too_deep
      → ⊥
  unfolding Bounded
  read_loop-finite zero n r k behind low enough h = absurd (omega arith)
  read_loop-finite (suc fuel) n r k behind low enough h =
      elim (Option-cases (find_block r.blocks 0 0 r.current_pos)) [
        | inl e ↦ ground (arith, loop-none fuel n r e)
        | inr (q, e) ↦ elim (Option-cases (load_block load q.0 r).0) [
          | inr (ending, failed) ↦
              ground (arith, loop-failed fuel n r q ending e failed, load_block-finite q.0 r)
          | inl fine ↦ elim (Bool-cases (inside_block load q r)) [
            | inl inside ↦ loop-inside fuel n r q e fine inside h
            | inr skip ↦
                read_loop-finite fuel n
                  (record (load_block load q.0 r).1 { current_pos = add64 q.1 q.2 }) (suc q.0)
                  (λ q' e'. later q q' e (
                    ap (λ (l : List (BlockListItem ContentLink)). find_block l 0 0 (add64 q.1 q.2))
                      (sym (load_block-blocks load q.0 r))
                    ∙ e'))
                  (bound q e) (more q e)
                  (ap (λ (p : ReadStep × BlockReader). p.0)
                      (sym (loop-skip load fuel n r q e fine skip))
                    ∙ h)
          ]
        ]
      ]
    where
      later :
          (q q' : ℕ × ℕ × ℕ)
          → find_block r.blocks 0 0 r.current_pos ≡ some q
          → find_block r.blocks 0 0 (add64 q.1 q.2) ≡ some q'
          → q.0 < q'.0
      later q q' e e' = find_block-later r.blocks 0 0 r.current_pos q.0 q.1 q.2 q' e e'

      bounds :
          (q : ℕ × ℕ × ℕ) → find_block r.blocks 0 0 r.current_pos ≡ some q → q.0 < length r.blocks
      bounds q e = omega (arith, (find_block-Bounded r.blocks 0 0 r.current_pos q e).1)

      bound :
          (q : ℕ × ℕ × ℕ)
          → find_block r.blocks 0 0 r.current_pos ≡ some q
          → suc q.0 ≤ length (load_block load q.0 r).1.blocks
      bound q e = rw (load_block-blocks load q.0 r) (bounds q e)

      more :
          (q : ℕ × ℕ × ℕ)
          → find_block r.blocks 0 0 r.current_pos ≡ some q
          → length (load_block load q.0 r).1.blocks < fuel + suc q.0
      more q e = rw (load_block-blocks load q.0 r) (omega (arith, behind q e, enough))

  -- The loop of Read ends, whatever the position and the sizes of the items, also where their sums wrap
  -- around as int64, and whichever blocks other goroutines are fetching, if reading each of the links
  -- ends.
  pub read-finite : (n : ℕ) (r : BlockReader) → (read load n r).0 ≡ ended too_deep → ⊥
  unfolding read
  read-finite zero r h = cc
  read-finite (suc n) r h =
      read_loop-finite (suc (length r.blocks)) (suc n) r 0 (λ q e. omega arith) (omega arith)
        (omega arith) h
