-- ===== src/Shared/Bytes.antt =====
-- Bytes: `^` and the leading zeros of a byte, with the laws that hold for every byte by evaluation.
use Prim.Native.Nat.{ℕ, zero, suc, ◌<◌, bit_xor}
use mathlib.Core.Path.{◌≡◌, refl, ◌∙◌, sym, ap}
use mathlib.Core.Bool.{Bool, true, ◌&&◌}
use mathlib.Core.List.{List}
use native.Mathlib.Omega.{arith}
use invariant_go.Shared.Tests.{ltb, nat_eq, nat_eq_iff, if◌then◌else◌, ltb→lt}
use invariant_go.Shared.Lists.{All}

abbrev pub IsByte : ℕ → Type 0
IsByte b = b < 256

abbrev pub AreBytes : List ℕ → Type 0
AreBytes = All IsByte

unfoldable pub all_below : ℕ → (ℕ → Bool) → Bool
all_below zero p = true
all_below (suc k) p = all_below k p && p k

holds_below : (p : ℕ → Bool) (x bound : ℕ) → x < bound → all_below bound p ≡ true → p x ≡ true
unfolding all_below
holds_below p x zero lt h = absurd (omega arith)
holds_below p x (suc k) lt h = ground (arith, holds_below p x k)

pub on_bytes : (p : ℕ → Bool) → all_below 256 p ≡ true → (x : ℕ) → x < 256 → p x ≡ true
on_bytes p h x lt = holds_below p x 256 lt h

-- Both arguments range over the bytes.
pub on_pairs :
    (p : ℕ → ℕ → Bool)
    → all_below 256 (λ x. all_below 256 (p x)) ≡ true
    → (x y : ℕ) → x < 256
    → y < 256
    → p x y ≡ true
on_pairs p h x y hx hy =
    holds_below (p x) y 256 hy (holds_below (λ x. all_below 256 (p x)) x 256 hx h)

-- bits.LeadingZeros8: the number of zero bits before the first one, from the bit of weight 2^(k-1).
unfoldable pub leading_zeros : ℕ → ℕ
leading_zeros b =
    if ltb 127 b
    then 0
    else if ltb 63 b
    then 1
    else if ltb 31 b
    then 2
    else if ltb 15 b
    then 3
    else if ltb 7 b
    then 4
    else if ltb 3 b
    then 5
    else if ltb 1 b
    then 6
    else if ltb 0 b
    then 7
    else 8

xor_cancel_table :
    all_below 256 (λ x. all_below 256 (λ y. nat_eq (bit_xor (bit_xor x y) y) x)) ≡ true
unfolding all_below
xor_cancel_table = refl

pub xor_cancel : (x y : ℕ) → IsByte x → IsByte y → bit_xor (bit_xor x y) y ≡ x
xor_cancel x y hx hy = (nat_eq_iff _ _).0 (on_pairs _ xor_cancel_table x y hx hy)

xor_comm_table : all_below 256 (λ x. all_below 256 (λ y. nat_eq (bit_xor x y) (bit_xor y x))) ≡ true
unfolding all_below
xor_comm_table = refl

pub xor_comm : (x y : ℕ) → IsByte x → IsByte y → bit_xor x y ≡ bit_xor y x
xor_comm x y hx hy = (nat_eq_iff _ _).0 (on_pairs _ xor_comm_table x y hx hy)

xor_range_table : all_below 256 (λ x. all_below 256 (λ y. ltb (bit_xor x y) 256)) ≡ true
unfolding all_below
xor_range_table = refl

pub xor-IsByte : (x y : ℕ) → IsByte x → IsByte y → IsByte (bit_xor x y)
xor-IsByte x y hx hy =
    ltb→lt _ _ (on_pairs (λ x y. ltb (bit_xor x y) 256) xor_range_table x y hx hy)

xor_self_table : all_below 256 (λ x. nat_eq (bit_xor x x) 0) ≡ true
unfolding all_below
xor_self_table = refl

pub xor_self : (x : ℕ) → IsByte x → bit_xor x x ≡ 0
xor_self x hx = (nat_eq_iff _ _).0 (on_bytes (λ x. nat_eq (bit_xor x x) 0) xor_self_table x hx)

zero_xor_table : all_below 256 (λ x. nat_eq (bit_xor 0 x) x) ≡ true
unfolding all_below
zero_xor_table = refl

zero_xor : (x : ℕ) → IsByte x → bit_xor 0 x ≡ x
zero_xor x hx = (nat_eq_iff _ _).0 (on_bytes (λ x. nat_eq (bit_xor 0 x) x) zero_xor_table x hx)

-- Only equal bytes are at distance zero.
pub eq_of_xor_zero : (x y : ℕ) → IsByte x → IsByte y → bit_xor x y ≡ 0 → x ≡ y
eq_of_xor_zero x y hx hy h = sym (xor_cancel x y hx hy) ∙ ap (λ z. bit_xor z y) h ∙ zero_xor y hy

-- A byte at a given distance from `z` is determined.
pub xor_injective : (x y z : ℕ) → IsByte x → IsByte y → IsByte z → bit_xor x z ≡ bit_xor y z → x ≡ y
xor_injective x y z hx hy hz h =
    sym (xor_cancel x z hx hz) ∙ ap (λ w. bit_xor w z) h ∙ xor_cancel y z hy hz
