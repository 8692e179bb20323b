-- ===== src/Content/BuzHash/Chunks.antt =====
-- Which chunks the splitter writes.
use invariant_go.Shared.{
  ℕ, ◌+◌, ◌≤◌, ◌<◌, ◌≡◌, refl, sym, ◌∙◌, ap, inl, inr, Bool, true, false, ◌||◌, Bool-cases, Option,
  none, some, Option-cases, List, [], ◌∷◌, ◌++◌, length, length-append, ltb, nat_eq, if◌then◌else◌,
  All, join_chunks, arith,
}
use mathlib.Core.List.{append_assoc, append-nil}
use invariant_go.Content.BuzHash.{
  BuzHash, new_buz_hash, write_b, is_cut, BlockListItem, Scanned, write_failed, scanned, scan_bytes,
  write_last, split,
}

-- The chunks that are cut off, and the bytes that are left at the end.
unfoldable pub cut_bytes : List ℕ → BuzHash → List ℕ → List (List ℕ) × List ℕ
cut_bytes [] bh chunk = ([], chunk)
cut_bytes (b ∷ bytes) bh chunk =
    let bh' = write_b bh b in
    let chunk' = chunk ++ b ∷ [] in
    elim (is_cut bh'.hash (length chunk')) [
      | false ↦ cut_bytes bytes bh' chunk'
      | true ↦ let (cs, last) = cut_bytes bytes (new_buz_hash 64) [] in (chunk' ∷ cs, last)
    ]

-- The chunks of a file: the last one is written if it has a byte or there is no other.
abbrev pub with_last : List (List ℕ) → List ℕ → List (List ℕ)
with_last cs last = if ltb 0 (length last) || nat_eq (length cs) 0 then cs ++ last ∷ [] else cs

unfoldable pub chunks : List ℕ → List (List ℕ)
unfolding cut_bytes
chunks bytes = let (cs, last) = cut_bytes bytes (new_buz_hash 64) [] in with_last cs last

pub join-cut_bytes :
    (bytes : List ℕ) (bh : BuzHash) (chunk : List ℕ)
    → join_chunks (cut_bytes bytes bh chunk).0 ++ (cut_bytes bytes bh chunk).1 ≡ chunk ++ bytes
unfolding cut_bytes
join-cut_bytes [] bh chunk = sym (append-nil chunk)
join-cut_bytes (b ∷ bytes) bh chunk =
    elim (Bool-cases (is_cut (write_b bh b).hash (length (chunk ++ b ∷ [])))) [
      | inl cut ↦
          rw (cut, cut_bytes)
            (append_assoc (chunk ++ b ∷ []) _ _
              ∙ ap (◌++◌ (chunk ++ b ∷ [])) (join-cut_bytes bytes (new_buz_hash 64) [])
              ∙ append_assoc chunk (b ∷ []) bytes)
      | inr more ↦
          rw (more, cut_bytes)
            (join-cut_bytes bytes (write_b bh b) (chunk ++ b ∷ [])
              ∙ append_assoc chunk (b ∷ []) bytes)
    ]

-- Where a chunk is cut.
abbrev pub CutSize : List ℕ → Type 0
CutSize c = (524288 ≤ length c) × (length c ≤ 2097152)

at_least : (size h : ℕ) → is_cut h size ≡ true → 524288 ≤ size
unfolding is_cut
at_least size h cut = ground arith

not_max : (size h : ℕ) → size ≤ 2097152 → is_cut h size ≡ false → size < 2097152
unfolding is_cut
not_max size h le more = ground arith

pub cut_bytes-CutSize :
    (bytes : List ℕ) (bh : BuzHash) (chunk : List ℕ)
    → length chunk < 2097152
    → All CutSize (cut_bytes bytes bh chunk).0 × (length (cut_bytes bytes bh chunk).1 < 2097152)
unfolding cut_bytes is_cut
cut_bytes-CutSize [] bh chunk h = (tt, h)
cut_bytes-CutSize (b ∷ bytes) bh chunk h =
    elim (Bool-cases (is_cut (write_b bh b).hash (length (chunk ++ b ∷ [])))) [
      | inl cut ↦
          rw (cut, cut_bytes)
            (
              (
                (
                  at_least (length (chunk ++ b ∷ [])) (write_b bh b).hash cut,
                  omega (arith, length-append chunk (b ∷ [])),
                ),
                (cut_bytes-CutSize bytes (new_buz_hash 64) [] (omega arith)).0,
              ),
              (cut_bytes-CutSize bytes (new_buz_hash 64) [] (omega arith)).1,
            )
      | inr more ↦
          rw (more, cut_bytes)
            (cut_bytes-CutSize bytes (write_b bh b) (chunk ++ b ∷ []) (
              not_max (length (chunk ++ b ∷ [])) (write_b bh b).hash
                (omega (arith, length-append chunk (b ∷ []))) more))
    ]

nothing_left : (last : List ℕ) → ltb 0 (length last) ≡ false → last ≡ []
nothing_left [] h = refl
nothing_left (x ∷ last) h = absurd (ground arith)

-- The chunks of a file put together are the file.
pub join-chunks : (bytes : List ℕ) → join_chunks (chunks bytes) ≡ bytes
unfolding chunks
join-chunks bytes =
    with_all (cut_bytes bytes (new_buz_hash 64) []).0 (cut_bytes bytes (new_buz_hash 64) []).1
    ∙ join-cut_bytes bytes (new_buz_hash 64) []
  where
    joined :
        (cs : List (List ℕ)) (last : List ℕ)
        → join_chunks (cs ++ last ∷ []) ≡ join_chunks cs ++ last
    joined [] last = append-nil last
    joined (c ∷ cs) last = ap (◌++◌ c) (joined cs last) ∙ sym (append_assoc c (join_chunks cs) last)

    with_all :
        (cs : List (List ℕ)) (last : List ℕ)
        → join_chunks (with_last cs last) ≡ join_chunks cs ++ last
    with_all cs last = elim (Bool-cases (ltb 0 (length last) || nat_eq (length cs) 0)) [
      | inl y ↦ rw y (joined cs last)
      | inr n ↦ rw n (sym (rw (nothing_left last (ground arith)) (append-nil (join_chunks cs))))
    ]

-- What the splitter does with the chunks: it writes one after another, up to the first error.
module _ {L W : Type 0} (write_chunk : W → List ℕ → Option L × W) where
  unfoldable pub write_all :
      List (List ℕ) → List (BlockListItem L) → W → Option (List (BlockListItem L)) × W
  write_all [] blocks w = (some blocks, w)
  write_all (c ∷ cs) blocks w =
      let (link, w') = write_chunk w c in
      elim link [
        | none ↦ (none, w')
        | some l ↦ write_all cs (blocks ++ record { link = l; size = length c } ∷ []) w'
      ]

  -- The chunks that are left to write when `n` are written already.
  abbrev rest_with : ℕ → List (List ℕ) → List ℕ → List (List ℕ)
  rest_with n cs last =
      if ltb 0 (length last) || nat_eq (n + length cs) 0 then cs ++ last ∷ [] else cs

  rest_with-cons :
      (n : ℕ) (c : List ℕ) (cs : List (List ℕ)) (last : List ℕ)
      → rest_with n (c ∷ cs) last ≡ c ∷ rest_with (n + 1) cs last
  rest_with-cons n c cs last = elim (Bool-cases (ltb 0 (length last))) [
    | inl y ↦ ground arith
    | inr n ↦ ground arith
  ]

  -- The end of `split`, for the way the loop over the bytes ended.
  unfoldable finish : Scanned L × W → Option (List (BlockListItem L)) × W
  finish (write_failed, w) = (none, w)
  finish (scanned chunk blocks, w) =
      if ltb 0 (length chunk) || nat_eq (length blocks) 0
      then write_last write_chunk chunk blocks w
      else (some blocks, w)

  finish-scan_bytes :
      (bytes : List ℕ) (bh : BuzHash) (chunk : List ℕ) (blocks : List (BlockListItem L)) (w : W)
      → finish (scan_bytes write_chunk bytes bh chunk blocks w)
        ≡ write_all
            (rest_with (length blocks) (cut_bytes bytes bh chunk).0 (cut_bytes bytes bh chunk).1)
            blocks
            w
  unfolding scan_bytes cut_bytes finish write_all
  finish-scan_bytes [] bh chunk blocks w =
      last (ltb 0 (length chunk) || nat_eq (length blocks) 0)
      ∙ ap (λ c. write_all (if c then chunk ∷ [] else []) blocks w) (ground arith)
    where
      last :
          (c : Bool)
          → (if c then write_last write_chunk chunk blocks w else (some blocks, w))
            ≡ write_all (if c then chunk ∷ [] else []) blocks w
      last true = refl
      last false = refl
  finish-scan_bytes (b ∷ bytes) bh chunk blocks w =
      elim (Bool-cases (is_cut (write_b bh b).hash (length (chunk ++ b ∷ [])))) [
        | inr more ↦
            rw (more, scan_bytes)
              (rw (more, cut_bytes)
                (finish-scan_bytes bytes (write_b bh b) (chunk ++ b ∷ []) blocks w))
        | inl cut ↦ elim (Option-cases (write_chunk w (chunk ++ b ∷ [])).0) [
          | inl failed ↦
              rw (cut, scan_bytes)
                (rw (cut, cut_bytes)
                  (rw (rest_with-cons (length blocks) _ _ _) (rw (failed, write_all) refl)))
          | inr (l, written) ↦
              rw (cut, scan_bytes)
                (rw (cut, cut_bytes)
                  (rw (rest_with-cons (length blocks) _ _ _) (
                    rw (written, write_all)
                      (finish-scan_bytes bytes (new_buz_hash 64) []
                          (blocks ++ record { link = l; size = length (chunk ++ b ∷ []) } ∷ []) _
                        ∙ ap
                            (λ n.
                              write_all
                                (rest_with n (cut_bytes bytes (new_buz_hash 64) []).0
                                  (cut_bytes bytes (new_buz_hash 64) []).1)
                                (blocks
                                  ++ record { link = l; size = length (chunk ++ b ∷ []) } ∷ [])
                                (write_chunk w (chunk ++ b ∷ [])).1)
                            (length-append blocks
                              (record { link = l; size = length (chunk ++ b ∷ []) } ∷ []))))))
        ]
      ]

  split-finish :
      (bytes : List ℕ) (w : W)
      → split write_chunk bytes false w
        ≡ finish (scan_bytes write_chunk bytes (new_buz_hash 64) [] [] w)
  unfolding split finish
  split-finish bytes w = ended (scan_bytes write_chunk bytes (new_buz_hash 64) [] [] w)
    where
      ended :
          (r : Scanned L × W)
          → ◌≡◌ {A = Option (List (BlockListItem L)) × W}
              (elim r.0 [
                | write_failed ↦ (none, r.1)
                | scanned chunk blocks ↦
                    if ltb 0 (length chunk) || nat_eq (length blocks) 0
                    then write_last write_chunk chunk blocks r.1
                    else (some blocks, r.1)
              ])
              (finish r)
      ended (write_failed, v) = refl
      ended (scanned chunk blocks, v) = refl

  -- Of a file that is read without an error, Split writes the chunks one after another, up to the first
  -- error, and lists their links with their sizes.
  pub split-chunks :
      (bytes : List ℕ) (w : W) → split write_chunk bytes false w ≡ write_all (chunks bytes) [] w
  unfolding chunks
  split-chunks bytes w =
      split-finish bytes w
      ∙ finish-scan_bytes bytes (new_buz_hash 64) [] [] w
      ∙ ap
          (λ n.
            write_all
              (if ltb 0 (length (cut_bytes bytes (new_buz_hash 64) []).1) || nat_eq n 0
                then (cut_bytes bytes (new_buz_hash 64) []).0
                  ++ (cut_bytes bytes (new_buz_hash 64) []).1 ∷ []
                else (cut_bytes bytes (new_buz_hash 64) []).0)
              [] w)
          (omega arith)
