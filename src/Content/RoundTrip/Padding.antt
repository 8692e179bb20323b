-- ===== src/Content/RoundTrip/Padding.antt =====
-- The padding of a block before encryption, and its removal.
use invariant_go.Shared.{
  ℕ, zero, suc, ◌-◌, ◌%◌, ◌≤◌, ◌<◌, ◌≡◌, refl, ◌∙◌, true, some, List, [], ◌∷◌, ◌++◌, length,
  length-append, length-replicate, drop-length_append, take-length_append, replicate, arith,
}
use invariant_go.Content.Writer.{pad}
use invariant_go.Content.Reader.{unpad, all_equal, last_byte}

last_byte-append : (b c : List ℕ) → 0 < length c → last_byte (b ++ c) ≡ last_byte c
last_byte-append [] c h = refl
last_byte-append (x ∷ []) [] h = absurd (omega arith)
last_byte-append (x ∷ []) (y ∷ c) h = refl
last_byte-append (x ∷ x' ∷ b) c h = last_byte-append (x' ∷ b) c h

last_byte-replicate : (k n : ℕ) → last_byte (replicate (suc k) n) ≡ n
last_byte-replicate zero n = refl
last_byte-replicate (suc k) n = last_byte-replicate k n

all_equal-replicate : (k n : ℕ) → all_equal n (replicate k n) ≡ true
unfolding all_equal
all_equal-replicate zero n = refl
all_equal-replicate (suc k) n = ground (arith, all_equal-replicate k n)

-- The bytes of a padding of `n` of them.
unpad-append : (b : List ℕ) (n : ℕ) → 0 < n → n ≤ 16 → unpad (b ++ replicate n n) ≡ some b
unfolding unpad
unpad-append b n pos small = rw last_is (
    rw start_is (
      rw (drop-length_append b (replicate n n))
        (rw (take-length_append b (replicate n n)) (ground (arith, all_equal-replicate n n)))))
  where
    last_is : last_byte (b ++ replicate n n) ≡ n
    last_is =
        last_byte-append b (replicate n n) (omega (arith, length-replicate n n)) ∙ single n pos
      where
        single : (k : ℕ) → 0 < k → last_byte (replicate k k) ≡ k
        single zero h = absurd (omega arith)
        single (suc k) h = last_byte-replicate k (suc k)

    start_is : length (b ++ replicate n n) - n ≡ length b
    start_is = omega (arith, length-append b (replicate n n), length-replicate n n)

-- The padding is removed again, whatever the block.
pub unpad-pad : (b : List ℕ) → unpad (pad b) ≡ some b
unfolding pad
unpad-pad b = unpad-append b (16 - length b % 16) (omega arith) (omega arith)

-- A padded block is not empty and has a multiple of 16 bytes.
pub length-pad : (b : List ℕ) → (0 < length (pad b)) × (length (pad b) % 16 ≡ 0)
unfolding pad
length-pad b = (
  omega (
    arith,
    length-append b (replicate (16 - length b % 16) (16 - length b % 16)),
    length-replicate (16 - length b % 16) (16 - length b % 16),
  ),
  omega (
    arith,
    length-append b (replicate (16 - length b % 16) (16 - length b % 16)),
    length-replicate (16 - length b % 16) (16 - length b % 16),
  ),
)
