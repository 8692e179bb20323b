-- ===== src/Examples/Digest.antt =====
-- A hash of 32 bytes for the examples.
use invariant_go.Shared.{ℕ, zero, suc, ◌%◌, ◌≡◌, refl, ap, List, [], ◌∷◌, length, AreBytes, arith}

-- The hash of a block: its first bytes, filled up with zeros.
unfoldable pub digest : ℕ → List ℕ → List ℕ
digest zero b = []
digest (suc n) [] = 0 ∷ digest n []
digest (suc n) (x ∷ b) = x % 256 ∷ digest n b

pub length-digest : (n : ℕ) (b : List ℕ) → length (digest n b) ≡ n
unfolding digest
length-digest zero b = refl
length-digest (suc n) [] = ap suc (length-digest n [])
length-digest (suc n) (x ∷ b) = ap suc (length-digest n b)

pub digest-AreBytes : (n : ℕ) (b : List ℕ) → AreBytes (digest n b)
unfolding digest
digest-AreBytes zero b = tt
digest-AreBytes (suc n) [] = (omega arith, digest-AreBytes n [])
digest-AreBytes (suc n) (x ∷ b) = (omega arith, digest-AreBytes n b)
