-- ===== src/Distribute/Distance.antt =====
-- internal/distribute/distribute.go: Distance, CmpDistance and PrefixLen on byte slices.
pub mod Prefix
use Prim.Native.Nat.{bit_xor, Ordering}
use invariant_go.Shared.{
  ℕ, ◌+◌, ◌*◌, ◌≡◌, refl, Option, none, some, List, [], ◌∷◌, length, nat_eq, ltb, if◌then◌else◌,
  leading_zeros,
}

unfoldable pub xor_each : List ℕ → List ℕ → List ℕ
xor_each [] b = []
xor_each (x ∷ a) [] = []
xor_each (x ∷ a) (y ∷ b) = bit_xor x y ∷ xor_each a b

-- nil, for slices of different lengths, is the empty slice.
unfoldable pub distance : List ℕ → List ℕ → List ℕ
unfolding xor_each
distance a b = if nat_eq (length a) (length b) then xor_each a b else []

unfoldable pub compare_each : List ℕ → List ℕ → Ordering
compare_each [] d2 = Ordering.eq
compare_each (x ∷ d1) [] = Ordering.eq
compare_each (x ∷ d1) (y ∷ d2) =
    let rest = compare_each d1 d2 in
    if ltb x y then Ordering.lt else if ltb y x then Ordering.gt else rest

unfoldable pub cmp_distance : List ℕ → List ℕ → Ordering
unfolding compare_each
cmp_distance d1 d2 = if nat_eq (length d1) (length d2) then compare_each d1 d2 else Ordering.eq

-- The loop from byte `i` of a distance of `total` bytes.
unfoldable pub prefix_from : ℕ → ℕ → List ℕ → ℕ
prefix_from total i [] = total * 8
prefix_from total i (b ∷ d) =
    let rest = prefix_from total (i + 1) d in if nat_eq b 0 then rest else i * 8 + leading_zeros b

unfoldable pub prefix_len : List ℕ → ℕ
unfolding prefix_from leading_zeros
prefix_len d = prefix_from (length d) 0 d
