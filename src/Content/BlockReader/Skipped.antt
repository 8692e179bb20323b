-- ===== src/Content/BlockReader/Skipped.antt =====
-- What a Read makes of a prefetch that fails.
use invariant_go.Shared.{
  ℕ, suc, ◌≡◌, refl, ◌∙◌, ap, true, false, Option, none, some, length, get_elem?, lookup, contains,
  eq_nat, arith,
}
use invariant_go.Content.Int64.{less64, add64, sub64, is_negative, less64-ltb}
use invariant_go.Content.Link.{ContentLink, Stream, Ending, with_error}
use invariant_go.Content.BuzHash.{BlockListItem}
use invariant_go.Content.BlockReader.{
  BlockReader, find_block, active_data, fetch_block, waited, settled, load_block, read_loop, read,
}
use invariant_go.Content.BlockReader.Loading.{load_block-waits}
use invariant_go.Content.BlockReader.Termination.{inside_block, loop-skip}

not_before : (a : ℕ) → is_negative a ≡ false → less64 a 0 ≡ false
unfolding is_negative
not_before a h = less64-ltb a 0 (ground arith) (omega arith) ∙ ground arith

module _ (load : ContentLink → Stream) where
  fetch_block-fails :
      (idx : ℕ) (i : BlockListItem ContentLink) (r : BlockReader)
      → get_elem? r.blocks idx ≡ some i
      → (load i.link).ending ≡ with_error
      → fetch_block load idx r ≡ (some with_error, r)
  unfolding fetch_block
  fetch_block-fails idx i r at fails = rw (at, fetch_block) (rw (fails, fetch_block) refl)

  load_block-fails :
      (idx : ℕ) (i : BlockListItem ContentLink) (r : BlockReader)
      → lookup idx r.cache ≡ none
      → contains idx r.in_flight ≡ true
      → get_elem? r.blocks idx ≡ some i
      → (load i.link).ending ≡ with_error
      → load_block load idx r ≡ (none, settled load idx r)
  load_block-fails idx i r miss waits at fails =
      load_block-waits load idx r miss waits
      ∙ ap (λ (q : Option Ending × BlockReader). (waited load q.0, settled load idx q.1))
          (fetch_block-fails idx i r at fails)

  -- A Read whose position lies in a block that another goroutine is fetching does not return the error
  -- with which that goroutine fails: it goes on behind the block, as if the block had been read.
  pub read-failed_prefetch :
      (n : ℕ) (r : BlockReader) (idx offset size : ℕ) (i : BlockListItem ContentLink)
      → find_block r.blocks 0 0 r.current_pos ≡ some (idx, offset, size)
      → is_negative (sub64 r.current_pos offset) ≡ false
      → lookup idx r.cache ≡ none
      → contains idx r.in_flight ≡ true
      → get_elem? r.blocks idx ≡ some i
      → (load i.link).ending ≡ with_error
      → read load (suc n) r
        ≡ read_loop load
            (length r.blocks)
            (suc n)
            (record (settled load idx r) { current_pos = add64 offset size })
  unfolding read inside_block
  read-failed_prefetch n r idx offset size i found inside miss waits at fails =
      loop-skip load (length r.blocks) (suc n) r (idx, offset, size) found
        (ap (λ (q : Option Ending × BlockReader). q.0) loaded)
        (ap
            (λ (q : Option Ending × BlockReader).
              less64 (sub64 r.current_pos offset) (length (active_data (lookup idx q.1.cache))))
            loaded
          ∙ rw miss (not_before (sub64 r.current_pos offset) inside))
      ∙ ap
          (λ (q : Option Ending × BlockReader).
            read_loop load (length r.blocks) (suc n)
              (record q.1 { current_pos = add64 offset size }))
          loaded
    where
      loaded : load_block load idx r ≡ (none, settled load idx r)
      loaded = load_block-fails idx i r miss waits at fails
