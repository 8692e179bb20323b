-- ===== src/Examples/ContentExamples.antt =====
-- The theorems on the splitter at a small file.
use invariant_go.Shared.{
  ℕ, suc, ◌≡◌, ◌<◌, ◌⊎◌, false, Option, some, List, [], ◌∷◌, ◌++◌, length, All,
}
use invariant_go.Content.BuzHash.{split}
use invariant_go.Content.BuzHash.Chunks.{chunks, CutSize, write_all, split-chunks}
use invariant_go.Content.BuzHash.Boundaries.{chunks-CutSize}

abbrev file : List ℕ
file = 1 ∷ 2 ∷ 3 ∷ []

-- A store that counts the chunks, with the number of a chunk as its link.
abbrev write_chunk : ℕ → List ℕ → Option ℕ × ℕ
write_chunk w chunk = (some w, suc w)

chunks-CutSize_example :
    (cs : List (List ℕ)) × (last : List ℕ) × All CutSize cs
    × (length last < 2097152)
    × ((chunks file ≡ cs) ⊎ (chunks file ≡ cs ++ last ∷ []))
chunks-CutSize_example = chunks-CutSize file

split-chunks_example : split write_chunk file false 0 ≡ write_all write_chunk (chunks file) [] 0
split-chunks_example = split-chunks write_chunk file 0
