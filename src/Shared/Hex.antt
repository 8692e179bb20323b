-- ===== src/Shared/Hex.antt =====
-- Go's strings where the program walks them (a list of bytes), their order, and `encoding/hex`.
use Prim.Native.Nat.{ℕ, ◌+◌, ◌-◌, ◌*◌, ◌/◌, ◌%◌, ◌<◌, compare, Ordering}
use mathlib.Core.Path.{◌≡◌, refl, subst}
use mathlib.Core.Logic.{◌↔◌, ◌⊎◌, inl, inr}
use mathlib.Core.Bool.{Bool, true, false, ◌&&◌}
use mathlib.Core.Option.{Option, none, some, some-injective}
use mathlib.Core.List.{List, [], ◌∷◌}
use native.Mathlib.Omega.{arith}
use invariant_go.Shared.Tests.{Eq, eq_nat, ◌==◌, ltb, leb, if◌then◌else◌}
use invariant_go.Shared.Bytes.{AreBytes}

abbrev pub Text : Type 0
Text = List ℕ

module _ {ℓ} {A : Type ℓ} ⦃e : Eq A⦄ where
  unfoldable pub list_eq : List A → List A → Bool
  list_eq [] [] = true
  list_eq [] (y ∷ ys) = false
  list_eq (x ∷ xs) [] = false
  list_eq (x ∷ xs) (y ∷ ys) = x == y && list_eq xs ys

  pub list_eq_iff : (xs ys : List A) → (list_eq xs ys ≡ true) ↔ (xs ≡ ys)
  unfolding list_eq
  list_eq_iff [] [] = (λ _. refl, λ _. refl)
  list_eq_iff [] (y ∷ ys) = (λ h. cc, λ h. cc)
  list_eq_iff (x ∷ xs) [] = (λ h. cc, λ h. cc)
  list_eq_iff (x ∷ xs) (y ∷ ys) = ground (arith, e.beq_iff x y, list_eq_iff xs ys)

instance abbrev pub eq_text : Eq (List ℕ)
eq_text = record { beq = list_eq; beq_iff = list_eq_iff }

-- bytes.Compare, and the order of Go's strings.
unfoldable pub bytes_compare : List ℕ → List ℕ → Ordering
bytes_compare [] [] = Ordering.eq
bytes_compare [] (b ∷ bs) = Ordering.lt
bytes_compare (a ∷ as') [] = Ordering.gt
bytes_compare (a ∷ as') (b ∷ bs) = elim (compare a b) [
  | Ordering.lt ↦ Ordering.lt
  | Ordering.gt ↦ Ordering.gt
  | Ordering.eq ↦ bytes_compare as' bs
]

abbrev pub is_lt : Ordering → Bool
is_lt Ordering.lt = true
is_lt _ = false

pub bytes_compare-eq : (a b : List ℕ) → bytes_compare a b ≡ Ordering.eq → a ≡ b
unfolding bytes_compare
bytes_compare-eq [] [] h = refl
bytes_compare-eq [] (y ∷ b) h = cc
bytes_compare-eq (x ∷ a) [] h = cc
bytes_compare-eq (x ∷ a) (y ∷ b) h = ground (arith, bytes_compare-eq a b)

pub bytes_compare_self : (a : List ℕ) → bytes_compare a a ≡ Ordering.eq
unfolding bytes_compare
bytes_compare_self [] = refl
bytes_compare_self (x ∷ a) = ground (arith, bytes_compare_self a)

-- At most one of two texts is below the other.
pub bytes_compare_asym :
    (a b : List ℕ) → is_lt (bytes_compare a b) ≡ true → is_lt (bytes_compare b a) ≡ false
unfolding bytes_compare
bytes_compare_asym [] [] h = cc
bytes_compare_asym [] (y ∷ b) h = refl
bytes_compare_asym (x ∷ a) [] h = cc
bytes_compare_asym (x ∷ a) (y ∷ b) h = ground (arith, bytes_compare_asym a b)

pub bytes_compare_total :
    (a b : List ℕ)
    → (a ≡ b) ⊎ (is_lt (bytes_compare a b) ≡ true) ⊎ (is_lt (bytes_compare b a) ≡ true)
unfolding bytes_compare
bytes_compare_total [] [] = inl refl
bytes_compare_total [] (y ∷ b) = inr (inl refl)
bytes_compare_total (x ∷ a) [] = inr (inr refl)
bytes_compare_total (x ∷ a) (y ∷ b) = ground (arith, bytes_compare_total a b)

-- `b ≤ a` and `c ≤ b`, written with `<` alone, compose.
pub bytes_compare_trans :
    (a b c : List ℕ)
    → is_lt (bytes_compare b a) ≡ false
    → is_lt (bytes_compare c b) ≡ false
    → is_lt (bytes_compare c a) ≡ false
unfolding bytes_compare
bytes_compare_trans [] [] [] h k = refl
bytes_compare_trans [] [] (z ∷ c) h k = refl
bytes_compare_trans [] (y ∷ b) [] h k = cc
bytes_compare_trans [] (y ∷ b) (z ∷ c) h k = refl
bytes_compare_trans (x ∷ a) [] c h k = cc
bytes_compare_trans (x ∷ a) (y ∷ b) [] h k = cc
bytes_compare_trans (x ∷ a) (y ∷ b) (z ∷ c) h k = ground (arith, bytes_compare_trans a b c)

unfoldable pub hex_digit : ℕ → ℕ
hex_digit n = if ltb n 10 then b'0' + n else b'a' + (n - 10)

unfoldable pub hex_value : ℕ → Option ℕ
hex_value c =
    if leb b'0' c && leb c b'9'
    then some (c - b'0')
    else if leb b'a' c && leb c b'f'
    then some (c - b'a' + 10)
    else if leb b'A' c && leb c b'F'
    then some (c - b'A' + 10)
    else none

-- hex.EncodeToString
unfoldable pub encode_to_string : List ℕ → Text
encode_to_string [] = []
encode_to_string (b ∷ bs) = hex_digit (b / 16) ∷ hex_digit (b % 16) ∷ encode_to_string bs

abbrev pub pair_digits : Option ℕ → Option ℕ → Option (List ℕ) → Option (List ℕ)
pair_digits (some h) (some l) (some rest) = some ((h * 16 + l) ∷ rest)
pair_digits _ _ _ = none

-- hex.DecodeString: an odd length and any other character are errors.
unfoldable pub decode_string : Text → Option (List ℕ)
unfolding hex_value
decode_string [] = some []
decode_string (h ∷ []) = none
decode_string (h ∷ l ∷ rest) = pair_digits (hex_value h) (hex_value l) (decode_string rest)

pub hex_value-hex_digit : (n : ℕ) → n < 16 → hex_value (hex_digit n) ≡ some n
unfolding hex_value hex_digit
hex_value-hex_digit n h = ground arith

-- Decoding what was encoded gives the bytes back.
pub decode-encode : (bs : List ℕ) → AreBytes bs → decode_string (encode_to_string bs) ≡ some bs
unfolding decode_string encode_to_string
decode-encode [] h = refl
decode-encode (b ∷ bs) (hb, hbs) =
    rw
      (
        hex_value-hex_digit (b / 16) (omega arith),
        hex_value-hex_digit (b % 16) (omega arith),
        decode-encode bs hbs,
      )
      (ground (arith, same b))
  where
    same : (b : ℕ) → b / 16 * 16 + b % 16 ≡ b
    same b = omega arith

hex_value-lt : (c v : ℕ) → hex_value c ≡ some v → v < 16
unfolding hex_value
hex_value-lt c v h = ground arith

pair_digits-AreBytes :
    (c d : Option ℕ) (r : Option (List ℕ)) (bs : List ℕ)
    → ((v : ℕ) → c ≡ some v → v < 16)
    → ((v : ℕ) → d ≡ some v → v < 16)
    → ((rest : List ℕ) → r ≡ some rest → AreBytes rest)
    → pair_digits c d r ≡ some bs
    → AreBytes bs
pair_digits-AreBytes none d r bs hc hd ih h = cc
pair_digits-AreBytes (some a) none r bs hc hd ih h = cc
pair_digits-AreBytes (some a) (some b) none bs hc hd ih h = cc
pair_digits-AreBytes (some a) (some b) (some rest) bs hc hd ih h =
    subst AreBytes (some-injective _ _ h) (omega (arith, hc a refl, hd b refl), ih rest refl)

pub decode_string-AreBytes : (s : Text) (bs : List ℕ) → decode_string s ≡ some bs → AreBytes bs
unfolding decode_string
decode_string-AreBytes [] [] h = tt
decode_string-AreBytes [] (b ∷ bs) h = cc
decode_string-AreBytes (c ∷ []) bs h = cc
decode_string-AreBytes (c ∷ d ∷ s) bs h =
    pair_digits-AreBytes (hex_value c) (hex_value d) (decode_string s) bs (hex_value-lt c)
      (hex_value-lt d) (decode_string-AreBytes s) h
