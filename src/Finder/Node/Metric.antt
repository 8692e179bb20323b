-- ===== src/Finder/Node/Metric.antt =====
-- The XOR of node identifiers as a distance, and the length of the common prefix.
use Prim.Native.Nat.{bit_xor}
use invariant_go.Shared.{
  ℕ, zero, suc, ◌+◌, ◌≤◌, ◌≡◌, refl, ap, ap₂, ◌≢◌, ◌⊎◌, inl, inr, Bool, true, ◌&&◌, not, Option,
  Option-cases, subst, some-injective, bytes_compare_total, none, some, List, [], ◌∷◌, ◌++◌, length,
  take, replicate, AreBytes, IsByte, Text, nat_eq, decode_string, arith, decode-encode, xor_comm,
  xor_injective, xor-IsByte, leading_zeros, all_below, on_bytes, length-append,
  decode_string-AreBytes,
}
use invariant_go.Distribute.Distance.{prefix_from, xor_each}
use invariant_go.Finder.Node.{
  NodeId, IsNodeId, parse_node_id, node_string, xor, less, first_set_bit, prefix_len_from,
}

take_exact : (n : ℕ) (xs ys : List ℕ) → length xs ≡ n → take n (xs ++ ys) ≡ xs
take_exact zero [] ys h = refl
take_exact zero (x ∷ xs) ys h = absurd (omega arith)
take_exact (suc n) [] ys h = absurd (omega arith)
take_exact (suc n) (x ∷ xs) ys h = ap (◌∷◌ x) (take_exact n xs ys (omega arith))

-- The text of an identifier of 32 bytes parses back to it.
pub parse_node_id-node_string : (n : NodeId) → IsNodeId n → parse_node_id (node_string n) ≡ some n
unfolding parse_node_id node_string
parse_node_id-node_string n (len, bytes) =
    rw (decode-encode n bytes, parse_node_id) (ap some (take_exact 32 n (replicate 32 0) len))

AreBytes-append : (xs ys : List ℕ) → AreBytes xs → AreBytes ys → AreBytes (xs ++ ys)
AreBytes-append [] ys hx hy = hy
AreBytes-append (x ∷ xs) ys (h, hx) hy = (h, AreBytes-append xs ys hx hy)

take-IsNodeId :
    (k : ℕ) (xs : List ℕ)
    → AreBytes xs
    → k ≤ length xs
    → (length (take k xs) ≡ k) × AreBytes (take k xs)
take-IsNodeId zero xs h le = (refl, tt)
take-IsNodeId (suc k) [] h le = absurd (omega arith)
take-IsNodeId (suc k) (x ∷ xs) (hx, h) le =
    let r = take-IsNodeId k xs h (omega arith) in (ap suc r.0, (hx, r.1))

-- Whatever hexadecimal text is parsed, the result is an identifier.
pub parse_node_id-IsNodeId : (s : Text) (n : NodeId) → parse_node_id s ≡ some n → IsNodeId n
unfolding parse_node_id
parse_node_id-IsNodeId s n h = elim (Option-cases (decode_string s)) [
  | inl e ↦ absurd (no_result (rw (e, parse_node_id) at h))
  | inr (b, e) ↦ result b (decode_string-AreBytes s b e) (rw (e, parse_node_id) at h)
]
  where
    no_result : (none ≡ some n) → ⊥
    no_result e = cc

    result : (b : List ℕ) → AreBytes b → some (take 32 (b ++ replicate 32 0)) ≡ some n → IsNodeId n
    result b hb e = subst IsNodeId (some-injective _ _ e) (
        take-IsNodeId 32 (b ++ replicate 32 0) (AreBytes-append b (replicate 32 0) hb (omega arith))
          (omega (arith, length-append b (replicate 32 0))))

xor-IsNodeId_from :
    (n m : NodeId)
    → AreBytes n
    → AreBytes m
    → length n ≡ length m
    → (length (xor n m) ≡ length n) × AreBytes (xor n m)
unfolding xor
xor-IsNodeId_from [] m hn hm e = (refl, tt)
xor-IsNodeId_from (a ∷ n) [] hn hm e = absurd (omega arith)
xor-IsNodeId_from (a ∷ n) (b ∷ m) (ha, hn) (hb, hm) e =
    let r = xor-IsNodeId_from n m hn hm (omega arith) in (ap suc r.0, (xor-IsByte a b ha hb, r.1))

xor_comm_from : (n m : NodeId) → AreBytes n → AreBytes m → xor n m ≡ xor m n
unfolding xor
xor_comm_from [] [] hn hm = refl
xor_comm_from [] (b ∷ m) hn hm = refl
xor_comm_from (a ∷ n) [] hn hm = refl
xor_comm_from (a ∷ n) (b ∷ m) (ha, hn) (hb, hm) =
    ap₂ ◌∷◌ (xor_comm a b ha hb) (xor_comm_from n m hn hm)

pub xor_injective_from :
    (n m t : NodeId)
    → AreBytes n
    → AreBytes m
    → AreBytes t
    → length n ≡ length t
    → length m ≡ length t
    → xor n t ≡ xor m t
    → n ≡ m
unfolding xor
xor_injective_from [] [] t hn hm ht p q e = refl
xor_injective_from [] (b ∷ m) t hn hm ht p q e = absurd (omega arith)
xor_injective_from (a ∷ n) [] t hn hm ht p q e = absurd (omega arith)
xor_injective_from (a ∷ n) (b ∷ m) [] hn hm ht p q e = absurd (omega arith)
xor_injective_from (a ∷ n) (b ∷ m) (c ∷ t) (ha, hn) (hb, hm) (hc, ht) p q e =
    ground (arith, xor_injective a b c ha hb hc, xor_injective_from n m t hn hm ht)

-- For a fixed target two identifiers are equally close only if they are the same.
pub less_total :
    (n m t : NodeId)
    → IsNodeId n
    → IsNodeId m
    → IsNodeId t
    → (n ≡ m) ⊎ (less n m t ≡ true) ⊎ (less m n t ≡ true)
unfolding less
less_total n m t (ln, hn) (lm, hm) (lt, ht) = elim (bytes_compare_total (xor n t) (xor m t)) [
  | inl e ↦ inl (xor_injective_from n m t hn hm ht (omega arith) (omega arith) e)
  | inr o ↦ inr o
]

abbrev bit_agrees : ℕ → Option ℕ → Bool
bit_agrees x none = nat_eq x 0
bit_agrees x (some j) = nat_eq j (leading_zeros x) && not (nat_eq x 0)

first_set_bit_table : all_below 256 (λ x. bit_agrees x (first_set_bit 8 x)) ≡ true
unfolding all_below first_set_bit leading_zeros
first_set_bit_table = refl

-- The scan over the bits of a byte finds the first one that is set.
first_set_bit_agrees : (x : ℕ) → IsByte x → bit_agrees x (first_set_bit 8 x) ≡ true
first_set_bit_agrees x h = on_bytes (λ x. bit_agrees x (first_set_bit 8 x)) first_set_bit_table x h

first_set_bit_lem : (x : ℕ) → IsByte x → x ≢ 0 → first_set_bit 8 x ≡ some (leading_zeros x)
first_set_bit_lem x h nz = go (first_set_bit 8 x) refl (first_set_bit_agrees x h)
  where
    go : (o : Option ℕ) → first_set_bit 8 x ≡ o → bit_agrees x o ≡ true → o ≡ some (leading_zeros x)
    go none e t = absurd (nz (ground arith))
    go (some j) e t = ground arith

pub prefix_len_from-prefix_from :
    (i t : ℕ) (n m : NodeId)
    → AreBytes n
    → AreBytes m
    → length n ≡ length m
    → t ≡ 32
    → prefix_len_from i n m ≡ prefix_from t i (xor_each n m)
unfolding prefix_len_from prefix_from xor_each
prefix_len_from-prefix_from i t [] [] hn hm e te = omega arith
prefix_len_from-prefix_from i t [] (b ∷ m) hn hm e te = absurd (omega arith)
prefix_len_from-prefix_from i t (a ∷ n) [] hn hm e te = absurd (omega arith)
prefix_len_from-prefix_from i t (a ∷ n) (b ∷ m) (ha, hn) (hb, hm) e te = ground (
  arith,
  first_set_bit_lem (bit_xor a b) (xor-IsByte a b ha hb),
  prefix_len_from-prefix_from (i + 1) t n m hn hm,
)
