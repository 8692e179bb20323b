-- ===== src/Content/Int64.antt =====
-- Go's int64 as words: numbers below 2^64, of which those from 2^63 on stand for negative ones.
use invariant_go.Shared.{ℕ, ◌+◌, ◌-◌, ◌%◌, ◌≤◌, ◌<◌, ◌≡◌, Bool, true, false, ltb, leb, arith}

-- 2^63 and 2^64
abbrev pub int64_limit : ℕ
int64_limit = 9223372036854775808

abbrev word_limit : ℕ
word_limit = 18446744073709551616

unfoldable pub less64 : ℕ → ℕ → Bool
less64 a b = ltb ((a + int64_limit) % word_limit) ((b + int64_limit) % word_limit)

unfoldable pub add64 : ℕ → ℕ → ℕ
add64 a b = (a + b) % word_limit

unfoldable pub sub64 : ℕ → ℕ → ℕ
sub64 a b = (a + (word_limit - b % word_limit)) % word_limit

unfoldable pub is_negative : ℕ → Bool
is_negative a = leb int64_limit a

pub less64-ltb : (a b : ℕ) → a < int64_limit → b < int64_limit → less64 a b ≡ ltb a b
unfolding less64
less64-ltb a b ha hb = ap2 (shift a ha) (shift b hb)
  where
    shift : (n : ℕ) → n < int64_limit → (n + int64_limit) % word_limit ≡ n + int64_limit
    shift n h = omega arith

    ap2 :
        (a + int64_limit) % word_limit ≡ a + int64_limit
        → (b + int64_limit) % word_limit ≡ b + int64_limit
        → ltb ((a + int64_limit) % word_limit) ((b + int64_limit) % word_limit) ≡ ltb a b
    ap2 p q = rw (p) (rw (q) (ground arith))

pub add64_small : (a b : ℕ) → a + b < word_limit → add64 a b ≡ a + b
unfolding add64
add64_small a b h = omega arith

pub sub64_small : (a b : ℕ) → b ≤ a → a < word_limit → sub64 a b ≡ a - b
unfolding sub64
sub64_small a b h k = omega arith

pub is_negative_small : (a : ℕ) → a < int64_limit → is_negative a ≡ false
unfolding is_negative
is_negative_small a h = ground arith

-- What is not above a position is not above a larger one.
pub less64_later : (p e f : ℕ) → less64 p e ≡ true → less64 p f ≡ false → less64 e f ≡ false
unfolding less64
less64_later p e f h k =
    go ((p + int64_limit) % word_limit) ((e + int64_limit) % word_limit)
      ((f + int64_limit) % word_limit) h k
  where
    go : (x y z : ℕ) → ltb x y ≡ true → ltb x z ≡ false → ltb y z ≡ false
    go x y z h k = ground arith

pub less64_irrefl : (a : ℕ) → less64 a a ≡ false
unfolding less64
less64_irrefl a = ground arith
