-- ===== src/Content/BuzHash/Boundaries.antt =====
-- Where the chunks end, and that a file which is continued behind a chunk keeps its chunks.
use invariant_go.Shared.{
  ℕ, ◌<◌, ◌≡◌, ◌≢◌, refl, sym, ◌∙◌, ap, ap₂, ◌⊎◌, inl, inr, Bool, true, false, ◌||◌, Bool-cases,
  List, [], ◌∷◌, ◌++◌, length, length-append, ltb, nat_eq, if◌then◌else◌, All, join_chunks, arith,
}
use mathlib.Core.List.{append_assoc}
use invariant_go.Content.BuzHash.{BuzHash, new_buz_hash, write_b, is_cut}
use invariant_go.Content.BuzHash.Chunks.{
  cut_bytes, with_last, chunks, CutSize, join-cut_bytes, cut_bytes-CutSize,
}

-- Every chunk has between 512 KiB and 2 MiB, but for the rest behind the last cut: if it is a chunk, it is
-- the last one and has less than 2 MiB.
pub chunks-CutSize :
    (bytes : List ℕ)
    → (cs : List (List ℕ)) × (last : List ℕ) × All CutSize cs
      × (length last < 2097152)
      × ((chunks bytes ≡ cs) ⊎ (chunks bytes ≡ cs ++ last ∷ []))
unfolding chunks
chunks-CutSize bytes = (
  (cut_bytes bytes (new_buz_hash 64) []).0,
  (cut_bytes bytes (new_buz_hash 64) []).1,
  (cut_bytes-CutSize bytes (new_buz_hash 64) [] (omega arith)).0,
  (cut_bytes-CutSize bytes (new_buz_hash 64) [] (omega arith)).1,
  either
      (ltb 0 (length (cut_bytes bytes (new_buz_hash 64) []).1)
        || nat_eq (length (cut_bytes bytes (new_buz_hash 64) []).0) 0)
      _ _,
)
  where
    either :
        (c : Bool) (cs : List (List ℕ)) (last : List ℕ)
        → ((if c then cs ++ last ∷ [] else cs) ≡ cs)
          ⊎ ((if c then cs ++ last ∷ [] else cs) ≡ cs ++ last ∷ [])
    either true cs last = inr refl
    either false cs last = inl refl

snoc-nonempty : (xs : List ℕ) (x : ℕ) → xs ++ x ∷ [] ≢ []
snoc-nonempty xs x e = ground (arith, ap (λ (l : List ℕ). length l) e, length-append xs (x ∷ []))

cut_bytes-append :
    (a rest : List ℕ) (bh : BuzHash) (chunk : List ℕ)
    → (chunk ≢ []) ⊎ (bh ≡ new_buz_hash 64)
    → (cut_bytes a bh chunk).1 ≡ []
    → cut_bytes (a ++ rest) bh chunk ≡ (
      (cut_bytes a bh chunk).0 ++ (cut_bytes rest (new_buz_hash 64) []).0,
      (cut_bytes rest (new_buz_hash 64) []).1,
    )
unfolding cut_bytes
cut_bytes-append [] rest bh chunk (inl some_bytes) h = absurd (some_bytes h)
cut_bytes-append [] rest bh chunk (inr start) h = ap₂ (cut_bytes rest) start h
cut_bytes-append (b ∷ a) rest bh chunk start h =
    elim (Bool-cases (is_cut (write_b bh b).hash (length (chunk ++ b ∷ [])))) [
      | inl cut ↦
          rw (cut, cut_bytes)
            (ap (λ (p : List (List ℕ) × List ℕ). ((chunk ++ b ∷ []) ∷ p.0, p.1))
              (cut_bytes-append a rest (new_buz_hash 64) [] (inr refl) (rw (cut, cut_bytes) at h)))
      | inr more ↦
          rw (more, cut_bytes)
            (cut_bytes-append a rest (write_b bh b) (chunk ++ b ∷ []) (inl (snoc-nonempty chunk b))
              (rw (more, cut_bytes) at h))
    ]

with_last-nil : (c : List ℕ) (cs : List (List ℕ)) → with_last (c ∷ cs) [] ≡ c ∷ cs
with_last-nil c cs = ground arith

with_last-some :
    (cs : List (List ℕ)) (x : ℕ) (last : List ℕ) → with_last cs (x ∷ last) ≡ cs ++ (x ∷ last) ∷ []
with_last-some cs x last = ground arith

with_last-append :
    (cs ds : List (List ℕ)) (last : List ℕ)
    → cs ≢ []
    → (ds ≢ []) ⊎ (last ≢ [])
    → with_last (cs ++ ds) last ≡ with_last cs [] ++ with_last ds last
with_last-append [] ds last some_cs rest = absurd (some_cs refl)
with_last-append (c ∷ cs) ds (x ∷ last) some_cs rest =
    with_last-some ((c ∷ cs) ++ ds) x last
    ∙ append_assoc (c ∷ cs) ds ((x ∷ last) ∷ [])
    ∙ sym (ap₂ (λ (l m : List (List ℕ)). l ++ m) (with_last-nil c cs) (with_last-some ds x last))
with_last-append (c ∷ cs) (d ∷ ds) [] some_cs rest =
    with_last-nil c (cs ++ d ∷ ds)
    ∙ sym (ap₂ (λ (l m : List (List ℕ)). l ++ m) (with_last-nil c cs) (with_last-nil d ds))
with_last-append (c ∷ cs) [] [] some_cs (inl some_ds) = absurd (some_ds refl)
with_last-append (c ∷ cs) [] [] some_cs (inr some_last) = absurd (some_last refl)

-- A file that goes on behind the end of a chunk: its chunks are those of the two parts.
pub chunks-append :
    (a rest : List ℕ)
    → a ≢ []
    → rest ≢ []
    → (cut_bytes a (new_buz_hash 64) []).1 ≡ []
    → chunks (a ++ rest) ≡ chunks a ++ chunks rest
unfolding chunks
chunks-append a rest some_a some_rest ends =
    ap (λ (p : List (List ℕ) × List ℕ). with_last p.0 p.1)
      (cut_bytes-append a rest (new_buz_hash 64) [] (inr refl) ends)
    ∙ with_last-append (cut_bytes a (new_buz_hash 64) []).0 _ _ first
        (second _ _ (join-cut_bytes rest (new_buz_hash 64) []))
    ∙ ap
        (λ (l : List ℕ).
          with_last (cut_bytes a (new_buz_hash 64) []).0 l
          ++ with_last (cut_bytes rest (new_buz_hash 64) []).0
              (cut_bytes rest (new_buz_hash 64) []).1)
        (sym ends)
  where
    first : (cut_bytes a (new_buz_hash 64) []).0 ≢ []
    first e = some_a (
        sym (join-cut_bytes a (new_buz_hash 64) [])
        ∙ ap₂ (λ (cs : List (List ℕ)) (l : List ℕ). join_chunks cs ++ l) e ends)

    second :
        (cs : List (List ℕ)) (last : List ℕ)
        → join_chunks cs ++ last ≡ rest
        → (cs ≢ []) ⊎ (last ≢ [])
    second [] last e = inr (λ q. some_rest (sym e ∙ q))
    second (c ∷ cs) last e = inl (λ q. ground (arith, ap (λ (l : List (List ℕ)). length l) q))
