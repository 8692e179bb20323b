-- ===== src/Distribute/Distance/Prefix.antt =====
-- The common prefix of identifiers against their distance.
use Prim.Native.Nat.{Ordering}
use invariant_go.Shared.{
  ℕ, ◌+◌, ◌*◌, ◌<◌, ◌≤◌, ◌≡◌, ◌≢◌, refl, List, [], ◌∷◌, length, ltb, leading_zeros, AreBytes,
  IsByte, all_below, on_pairs, arith, ◌||◌, true, not,
}
use invariant_go.Distribute.Distance.{compare_each, prefix_from}

zeros_lt_table :
    all_below 256
      (λ x. all_below 256 (λ y. not (ltb (leading_zeros x) (leading_zeros y)) || ltb y x))
    ≡ true
unfolding all_below leading_zeros
zeros_lt_table = refl

pub lt_of_leading_zeros :
    (x y : ℕ) → IsByte x → IsByte y → leading_zeros x < leading_zeros y → y < x
lt_of_leading_zeros x y hx hy h = ground (
  arith,
  on_pairs (λ x y. not (ltb (leading_zeros x) (leading_zeros y)) || ltb y x) zeros_lt_table x y hx
      hy,
)

pub leading_zeros_range : (x : ℕ) → x ≢ 0 → leading_zeros x < 8
unfolding leading_zeros
leading_zeros_range x h = ground arith

pub prefix_from-le :
    (i t : ℕ) (d : List ℕ)
    → t ≡ i + length d
    → (i * 8 ≤ prefix_from t i d) × (prefix_from t i d ≤ t * 8)
unfolding prefix_from
prefix_from-le i t [] e = omega arith
prefix_from-le i t (b ∷ d) e = ground (arith, leading_zeros_range b, prefix_from-le (i + 1) t d)

-- The longer prefix belongs to the smaller distance.
pub prefix_from-lt :
    (i t : ℕ) (d1 d2 : List ℕ)
    → AreBytes d1
    → AreBytes d2
    → length d1 ≡ length d2
    → t ≡ i + length d1
    → prefix_from t i d1 < prefix_from t i d2
    → compare_each d2 d1 ≡ Ordering.lt
unfolding prefix_from compare_each
prefix_from-lt i t [] [] h1 h2 e te p = absurd (omega arith)
prefix_from-lt i t [] (y ∷ d2) h1 h2 e te p = absurd (omega arith)
prefix_from-lt i t (x ∷ d1) [] h1 h2 e te p = absurd (omega arith)
prefix_from-lt i t (x ∷ d1) (y ∷ d2) (hx, h1) (hy, h2) e te p = ground (
  arith,
  leading_zeros_range x,
  leading_zeros_range y,
  lt_of_leading_zeros x y hx hy,
  prefix_from-lt (i + 1) t d1 d2 h1 h2,
  prefix_from-le (i + 1) t d1,
  prefix_from-le (i + 1) t d2,
)
