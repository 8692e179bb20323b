-- ===== src/Shared/Chunks.antt =====
-- The loop by which the services' List methods send their keys in batches.
use Prim.Native.Nat.{ℕ, ◌≤◌, ◌<◌}
use mathlib.Core.Path.{◌≡◌, refl}
use mathlib.Core.Logic.{inl, inr}
use mathlib.Core.List.{List, [], ◌∷◌, ◌++◌, append_assoc}
use native.Mathlib.Omega.{arith}
use invariant_go.Shared.Tests.{ltb, leb, if◌then◌else◌, Bool-cases}
use invariant_go.Shared.Lists.{length, length-append, All}

module _ {ℓ} {A : Type ℓ} where
  -- `chunk` is what was collected since the last batch.
  unfoldable pub send_chunks : ℕ → List A → List A → List (List A)
  send_chunks size chunk [] = if ltb 0 (length chunk) then chunk ∷ [] else []
  send_chunks size chunk (x ∷ xs) =
      let filled = chunk ++ x ∷ [] in
      let sent = filled ∷ send_chunks size [] xs in
      let collected = send_chunks size filled xs in
      if leb size (length filled) then sent else collected

  abbrev pub join_chunks : List (List A) → List A
  join_chunks [] = []
  join_chunks (c ∷ cs) = c ++ join_chunks cs

  pub join-send_chunks :
      (size : ℕ) (chunk xs : List A) → join_chunks (send_chunks size chunk xs) ≡ chunk ++ xs
  unfolding send_chunks
  join-send_chunks size [] [] = refl
  join-send_chunks size (c ∷ chunk) [] = ground arith
  join-send_chunks size chunk (x ∷ xs) = elim (Bool-cases (leb size (length (chunk ++ x ∷ [])))) [
    | inl full ↦ rw full (rw (join-send_chunks size [] xs) (append_assoc chunk (x ∷ []) xs))
    | inr more ↦
        rw more (rw (join-send_chunks size (chunk ++ x ∷ []) xs) (append_assoc chunk (x ∷ []) xs))
  ]

  -- A batch is not empty and no longer than `size`.
  abbrev pub IsBatch : ℕ → List A → Type 0
  IsBatch size c = (0 < length c) × (length c ≤ size)

  pub send_chunks-IsBatch :
      (size : ℕ) (chunk xs : List A)
      → length chunk < size
      → All (IsBatch size) (send_chunks size chunk xs)
  unfolding send_chunks
  send_chunks-IsBatch size [] [] h = tt
  send_chunks-IsBatch size (c ∷ chunk) [] h = ground arith
  send_chunks-IsBatch size chunk (x ∷ xs) h =
      elim (Bool-cases (leb size (length (chunk ++ x ∷ [])))) [
        | inl full ↦ rw full (
          (
            omega (arith, length-append chunk (x ∷ [])),
            omega (arith, length-append chunk (x ∷ [])),
          ),
          send_chunks-IsBatch size [] xs (omega arith),
        )
        | inr more ↦ rw more (send_chunks-IsBatch size (chunk ++ x ∷ []) xs (ground arith))
      ]

-- A batch size that is not positive means 10000.
abbrev pub chunk_size_or_default : ℕ → ℕ
chunk_size_or_default size = if leb size 0 then 10000 else size
