-- ===== src/Content/BlockReader/Reading.antt =====
-- Whichever of its blocks the cache holds, the reader of a list reads their concatenation.
use invariant_go.Shared.{
  ℕ, zero, suc, ◌+◌, ◌-◌, ◌≤◌, ◌<◌, ◌≡◌, refl, sym, ◌∙◌, ap, subst, true, false, Bool-cases, none,
  some, some-injective, List, [], ◌∷◌, ◌++◌, length, length-take, length-drop, drop-length_append,
  drop-add, take-drop, drop_nil, take, drop, get_elem?, ltb, All, arith, inl, inr, lookup, eq_nat,
}
use mathlib.Core.List.{append_assoc}
use invariant_go.Content.Int64.{
  int64_limit, less64, add64, sub64, is_negative, less64-ltb, add64_small, sub64_small,
  is_negative_small,
}
use invariant_go.Content.Link.{ContentLink, Stream, whole, at_eof}
use invariant_go.Content.BuzHash.{BlockListItem}
use invariant_go.Content.BlockReader.{
  BlockReader, load_block, find_block, ReadStep, got, ended, read_loop, read, read_all,
}
use invariant_go.Content.BlockReader.Position.{
  Filled, content_of, Sized, Found, find_position, find_end,
}
use invariant_go.Content.BlockReader.Loading.{IsReading, Kept, Loaded, load_block-Loaded}

get_elem?-All :
    {A : Type 0} (P : A → Type 0) (xs : List A) (n : ℕ) (x : A)
    → get_elem? xs n ≡ some x
    → All P xs
    → P x
get_elem?-All P [] n x e h = absurd (ground arith)
get_elem?-All P (y ∷ xs) zero x e (p, h) = subst P (some-injective y x e) p
get_elem?-All P (y ∷ xs) (suc n) x e (p, h) = get_elem?-All P xs n x e h

module _ (load : ContentLink → Stream) where
  -- One Read inside the concatenation.
  Reads : List Filled → ℕ → BlockReader → ReadStep × BlockReader → Type 0
  Reads fs n r q =
      (b : List ℕ) × (q.0 ≡ got b)
      × IsReading fs q.1
      × (q.1.current_pos ≡ r.current_pos + length b)
      × (0 < length b)
      × (r.current_pos + length b ≤ length (content_of fs))
      × (drop r.current_pos (content_of fs)
          ≡ b ++ drop (length b) (drop r.current_pos (content_of fs)))

  taken : ℕ → ℕ → ℕ → List ℕ → List ℕ
  taken n pos start d = take n (drop (pos - start) d)

  read_loop-found :
      (fuel n : ℕ) (r : BlockReader) (j start size : ℕ) (d : List ℕ)
      → find_block r.blocks 0 0 r.current_pos ≡ some (j, start, size)
      → (load_block load j r).0 ≡ none
      → lookup j (load_block load j r).1.cache ≡ some d
      → start ≤ r.current_pos
      → r.current_pos < start + length d
      → start + length d < int64_limit
      → read_loop load (suc fuel) n r ≡ (
        got (taken n r.current_pos start d),
        record (load_block load j r).1 {
          current_pos = r.current_pos + length (taken n r.current_pos start d);
        },
      )
  unfolding read_loop taken
  read_loop-found fuel n r j start size d hf hl hc low high bound =
      rw (hf, read_loop)
        (rw (hl, read_loop)
          (rw (hc, read_loop)
            (rw (intra, read_loop)
              (rw (inside, read_loop) (rw (positive, read_loop) (rw moved refl))))))
    where
      intra : sub64 r.current_pos start ≡ r.current_pos - start
      intra = sub64_small r.current_pos start low (omega arith)

      inside : less64 (r.current_pos - start) (length d) ≡ true
      inside =
          less64-ltb (r.current_pos - start) (length d) (omega arith) (omega arith) ∙ ground arith

      positive : is_negative (r.current_pos - start) ≡ false
      positive = is_negative_small (r.current_pos - start) (omega arith)

      moved :
          add64 r.current_pos (length (taken n r.current_pos start d))
          ≡ r.current_pos + length (taken n r.current_pos start d)
      moved = add64_small r.current_pos (length (taken n r.current_pos start d)) (
          omega (
            arith,
            length-take n (drop (r.current_pos - start) d),
            length-drop (r.current_pos - start) d,
          ))

  -- A prefix of the front is a prefix of the whole.
  front : (n : ℕ) (u rest x : List ℕ) → x ≡ u ++ rest → x ≡ take n u ++ drop (length (take n u)) x
  front n u rest x e = sym (
      ap (λ y. take n u ++ drop (length (take n u)) y) split_x
      ∙ ap (λ y. take n u ++ y) (drop-length_append (take n u) (drop n u ++ rest))
      ∙ sym split_x)
    where
      split_x : x ≡ take n u ++ (drop n u ++ rest)
      split_x =
          e ∙ ap (λ y. y ++ rest) (sym (take-drop n u)) ∙ append_assoc (take n u) (drop n u) rest

  unfoldable pub Loads : Filled → Type 0
  Loads (i, d) = load i.link ≡ whole d

  read-Found :
      (fs : List Filled) (n : ℕ) (r : BlockReader) (f : Found fs 0 0 r.current_pos)
      → f.start + length f.block < int64_limit
      → All Loads fs
      → IsReading fs r
      → Reads fs (suc n) r (read load (suc n) r)
  unfolding Reads read Loaded Kept taken Loads
  read-Found fs n r f bound loads (items, cached) =
      subst (Reads fs (suc n) r) (sym found_eq)
        (taken (suc n) r.current_pos f.start f.block, refl, kept.0, refl, positive, fits, cut)
    where
      step : Loaded load fs f.j f.block r (load_block load f.j r)
      step =
          load_block-Loaded load fs f.j f.item f.block r f.at
            (get_elem?-All Loads fs f.j (f.item, f.block) f.at loads) (items, cached)

      kept : Kept fs r (load_block load f.j r).1
      kept = step.1

      found_eq : read_loop load (suc (length r.blocks)) (suc n) r ≡ (
        got (taken (suc n) r.current_pos f.start f.block),
        record (load_block load f.j r).1 {
          current_pos = r.current_pos + length (taken (suc n) r.current_pos f.start f.block);
        },
      )
      found_eq =
          read_loop-found (length r.blocks) (suc n) r f.j f.start f.item.size f.block
            (ap (λ (l : List (BlockListItem ContentLink)). find_block l 0 0 r.current_pos) items
              ∙ f.found
              ∙ ap (λ (k : ℕ). some (k, f.start, f.item.size)) (omega arith))
            step.0 step.2 f.low f.high bound

      positive : 0 < length (take (suc n) (drop (r.current_pos - f.start) f.block))
      positive = omega (
        arith,
        length-take (suc n) (drop (r.current_pos - f.start) f.block),
        length-drop (r.current_pos - f.start) f.block,
        f.high,
        f.low,
      )

      fits :
          r.current_pos + length (take (suc n) (drop (r.current_pos - f.start) f.block))
          ≤ length (content_of fs)
      fits = omega (
        arith,
        length-take (suc n) (drop (r.current_pos - f.start) f.block),
        length-drop (r.current_pos - f.start) f.block,
        f.high,
        f.low,
        f.within,
      )

      cut :
          drop r.current_pos (content_of fs)
          ≡ taken (suc n) r.current_pos f.start f.block
            ++ drop
                (length (taken (suc n) r.current_pos f.start f.block))
                (drop r.current_pos (content_of fs))
      cut =
          front (suc n) (drop (r.current_pos - f.start) f.block) f.rest
            (drop r.current_pos (content_of fs))
            (ap (λ k. drop k (content_of fs)) (omega arith) ∙ f.cut)

  read-Reads :
      (fs : List Filled) (n : ℕ) (r : BlockReader)
      → All Sized fs
      → length (content_of fs) < int64_limit
      → All Loads fs
      → IsReading fs r
      → r.current_pos < length (content_of fs)
      → Reads fs (suc n) r (read load (suc n) r)
  read-Reads fs n r sized bound loads reading inside =
      go (find_position fs 0 0 r.current_pos sized (omega arith) (omega arith) (omega arith))
    where
      go : Found fs 0 0 r.current_pos → Reads fs (suc n) r (read load (suc n) r)
      go f = read-Found fs n r f (omega (arith, f.within)) loads reading

  read_end :
      (fs : List Filled) (n : ℕ) (r : BlockReader)
      → All Sized fs
      → IsReading fs r
      → r.current_pos < int64_limit
      → length (content_of fs) ≤ r.current_pos
      → read load (suc n) r ≡ (ended at_eof, r)
  unfolding read read_loop
  read_end fs n r sized (items, cached) small behind =
      rw
        (
          ap (λ (l : List (BlockListItem ContentLink)). find_block l 0 0 r.current_pos) items
              ∙ find_end fs 0 0 r.current_pos sized small (omega arith),
          read_loop,
        )
        refl

  read_all-next :
      (rounds n : ℕ) (r : BlockReader) (b rest : List ℕ)
      → (read load (suc n) r).0 ≡ got b
      → read_all load rounds (suc n) (read load (suc n) r).1 ≡ whole rest
      → read_all load (suc rounds) (suc n) r ≡ whole (b ++ rest)
  unfolding read_all
  read_all-next rounds n r b rest h hr =
      rw (h, read_all) (ap (λ (s : Stream). record s { content = b ++ s.content }) hr)

  read_all-last :
      (rounds n : ℕ) (r : BlockReader)
      → read load (suc n) r ≡ (ended at_eof, r)
      → read_all load (suc rounds) (suc n) r ≡ whole []
  unfolding read_all
  read_all-last rounds n r h = rw (h, read_all) refl

  drop_all : (n : ℕ) (xs : List ℕ) → length xs ≤ n → drop n xs ≡ []
  drop_all n [] h = drop_nil n
  drop_all zero (x ∷ xs) h = absurd (omega arith)
  drop_all (suc n) (x ∷ xs) h = drop_all n xs (omega arith)

  -- A reader of a list of blocks that can all be read, whose sizes are right and sum to less than 2^63,
  -- reads the concatenation of the blocks from its position on, a position below 2^63, to the end:
  -- whichever of the blocks its cache holds, each entry being the right block, and whichever of them
  -- other goroutines are fetching.
  pub read_all-content_of :
      (fs : List Filled) (n rounds : ℕ) (r : BlockReader)
      → All Sized fs
      → All Loads fs
      → length (content_of fs) < int64_limit
      → r.current_pos < int64_limit
      → IsReading fs r
      → length (content_of fs) - r.current_pos < rounds
      → read_all load rounds (suc n) r ≡ whole (drop r.current_pos (content_of fs))
  unfolding Reads
  read_all-content_of fs n zero r sized loads bound small reading enough = absurd (omega arith)
  read_all-content_of fs n (suc rounds) r sized loads bound small reading enough =
      elim (Bool-cases (ltb r.current_pos (length (content_of fs)))) [
        | inr behind ↦
            read_all-last rounds n r (read_end fs n r sized reading small (ground arith))
            ∙ sym (ap whole (drop_all r.current_pos (content_of fs) (ground arith)))
        | inl inside ↦
            go (ground arith) (read-Reads fs n r sized bound loads reading (ground arith))
              (λ r' small' reading' e.
                read_all-content_of fs n rounds r' sized loads bound small' reading' e)
      ]
    where
      go :
          r.current_pos < length (content_of fs)
          → Reads fs (suc n) r (read load (suc n) r)
          → ((r' : BlockReader)
              → r'.current_pos < int64_limit
              → IsReading fs r'
              → length (content_of fs) - r'.current_pos < rounds
              → read_all load rounds (suc n) r' ≡ whole (drop r'.current_pos (content_of fs)))
          → read_all load (suc rounds) (suc n) r ≡ whole (drop r.current_pos (content_of fs))
      go inside (b, step, reading', pos, positive, fits, cut) again =
          read_all-next rounds n r b (drop (length b) (drop r.current_pos (content_of fs))) step (
            again (read load (suc n) r).1 (omega (arith, pos, fits, bound)) reading'
              (omega (arith, pos, enough, positive))
            ∙ ap whole (
                ap (λ k. drop k (content_of fs)) pos
                ∙ drop-add r.current_pos (length b) (content_of fs)))
          ∙ ap whole (sym cut)
