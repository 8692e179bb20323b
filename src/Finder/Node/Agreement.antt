-- ===== src/Finder/Node/Agreement.antt =====
-- The two packages that measure distances agree, and buckets order nodes by their distance.
use Prim.Native.Nat.{bit_xor}
use invariant_go.Shared.{
  ℕ, ◌+◌, ◌*◌, ◌≤◌, ◌<◌, ◌≡◌, refl, sym, ap, ap₂, ◌∙◌, ◌↔◌, true, List, [], ◌∷◌, length, AreBytes,
  bytes_compare, is_lt, arith, xor_self, eq_of_xor_zero, xor-IsByte,
}
use invariant_go.Distribute.Distance
use invariant_go.Distribute.Distance.{distance, cmp_distance, xor_each, compare_each, prefix_from}
use invariant_go.Distribute.Distance.Prefix.{prefix_from-lt, prefix_from-le, leading_zeros_range}
use invariant_go.Finder.Node.{NodeId, IsNodeId, xor, less, prefix_len}
use invariant_go.Finder.Node.Metric.{prefix_len_from-prefix_from}

xor-eq-xor_each : (n m : NodeId) → xor n m ≡ xor_each n m
unfolding xor xor_each
xor-eq-xor_each [] m = refl
xor-eq-xor_each (a ∷ n) [] = refl
xor-eq-xor_each (a ∷ n) (b ∷ m) = ap (◌∷◌ (bit_xor a b)) (xor-eq-xor_each n m)

length-xor_each : (n m : NodeId) → length n ≡ length m → length (xor_each n m) ≡ length n
unfolding xor_each
length-xor_each [] m e = refl
length-xor_each (a ∷ n) [] e = absurd (omega arith)
length-xor_each (a ∷ n) (b ∷ m) e = omega (arith, length-xor_each n m)

xor_each-AreBytes : (n m : NodeId) → AreBytes n → AreBytes m → AreBytes (xor_each n m)
unfolding xor_each
xor_each-AreBytes [] m hn hm = tt
xor_each-AreBytes (a ∷ n) [] hn hm = tt
xor_each-AreBytes (a ∷ n) (b ∷ m) (ha, hn) (hb, hm) =
    (xor-IsByte a b ha hb, xor_each-AreBytes n m hn hm)

compare_each-eq-bytes_compare :
    (d1 d2 : List ℕ) → length d1 ≡ length d2 → compare_each d1 d2 ≡ bytes_compare d1 d2
unfolding compare_each bytes_compare
compare_each-eq-bytes_compare [] [] e = refl
compare_each-eq-bytes_compare [] (y ∷ d2) e = absurd (omega arith)
compare_each-eq-bytes_compare (x ∷ d1) [] e = absurd (omega arith)
compare_each-eq-bytes_compare (x ∷ d1) (y ∷ d2) e =
    ground (arith, compare_each-eq-bytes_compare d1 d2)

distance_lem : (n m : NodeId) → length n ≡ length m → distance n m ≡ xor_each n m
unfolding distance
distance_lem n m e = ground arith

cmp_distance_lem :
    (d1 d2 : List ℕ) → length d1 ≡ length d2 → cmp_distance d1 d2 ≡ bytes_compare d1 d2
unfolding cmp_distance
cmp_distance_lem d1 d2 e = ground (arith, compare_each-eq-bytes_compare d1 d2)

less_lem :
    (n m t : NodeId)
    → IsNodeId n
    → IsNodeId m
    → IsNodeId t
    → less n m t ≡ is_lt (compare_each (xor_each n t) (xor_each m t))
unfolding less
less_lem n m t (ln, hn) (lm, hm) (lt, ht) =
    rw (xor-eq-xor_each n t, xor-eq-xor_each m t)
      (ap is_lt (
        sym (
          compare_each-eq-bytes_compare (xor_each n t) (xor_each m t)
            (omega (arith, length-xor_each n t, length-xor_each m t)))))

prefix_len_lem :
    (n m : NodeId) → IsNodeId n → IsNodeId m → prefix_len n m ≡ prefix_from 32 0 (xor_each n m)
unfolding prefix_len
prefix_len_lem n m (ln, hn) (lm, hm) = prefix_len_from-prefix_from 0 32 n m hn hm (omega arith) refl

-- For identifiers of 32 bytes, `less` of the finder is `CmpDistance` of the distribute service
-- below zero, and the finder's `PrefixLen` is that of the distribute service at the distance.
pub finder_agrees_with_distribute :
    (n m t : NodeId)
    → IsNodeId n
    → IsNodeId m
    → IsNodeId t
    → (less n m t ≡ is_lt (cmp_distance (distance n t) (distance m t)))
      × (prefix_len n t ≡ Distance.prefix_len (distance n t))
unfolding Distance.prefix_len
finder_agrees_with_distribute n m t hn hm ht = (
  less_lem n m t hn hm ht
      ∙ ap is_lt (
          compare_each-eq-bytes_compare (xor_each n t) (xor_each m t) same
          ∙ sym (cmp_distance_lem (xor_each n t) (xor_each m t) same)
          ∙ ap₂ cmp_distance (sym (distance_lem n t (hn.0 ∙ sym ht.0)))
              (sym (distance_lem m t (hm.0 ∙ sym ht.0)))),
  rw (distance_lem n t (hn.0 ∙ sym ht.0), length-xor_each n t (hn.0 ∙ sym ht.0), hn.0)
      (prefix_len_lem n t hn ht),
)
  where
    same : length (xor_each n t) ≡ length (xor_each m t)
    same = omega (arith, length-xor_each n t, length-xor_each m t, hn.0, hm.0, ht.0)

-- For identifiers of 32 bytes, a node that shares a longer prefix with the target is strictly closer
-- to it.
pub less_of_prefix_len :
    (n m t : NodeId)
    → IsNodeId n
    → IsNodeId m
    → IsNodeId t
    → prefix_len n t < prefix_len m t
    → less m n t ≡ true
less_of_prefix_len n m t hn hm ht h = rw (less_lem m n t hm hn ht) (
    ap is_lt (
      prefix_from-lt 0 32 (xor_each n t) (xor_each m t) (xor_each-AreBytes n t hn.1 ht.1)
        (xor_each-AreBytes m t hm.1 ht.1)
        (omega (arith, length-xor_each n t, length-xor_each m t, hn.0, hm.0, ht.0))
        (omega (arith, length-xor_each n t, hn.0, ht.0))
        (omega (arith, prefix_len_lem n t hn ht, prefix_len_lem m t hm ht))))

prefix_from_full :
    (i t : ℕ) (n m : NodeId)
    → AreBytes n
    → AreBytes m
    → length n ≡ length m
    → t ≡ i + length n
    → prefix_from t i (xor_each n m) ≡ t * 8
    → n ≡ m
unfolding prefix_from xor_each
prefix_from_full i t [] [] hn hm e te p = refl
prefix_from_full i t [] (b ∷ m) hn hm e te p = absurd (omega arith)
prefix_from_full i t (a ∷ n) [] hn hm e te p = absurd (omega arith)
prefix_from_full i t (a ∷ n) (b ∷ m) (ha, hn) (hb, hm) e te p = ground (
  arith,
  leading_zeros_range (bit_xor a b),
  eq_of_xor_zero a b ha hb,
  prefix_from_full (i + 1) t n m hn hm,
)

prefix_from_self : (i t : ℕ) (n : NodeId) → AreBytes n → prefix_from t i (xor_each n n) ≡ t * 8
unfolding prefix_from xor_each
prefix_from_self i t [] hn = refl
prefix_from_self i t (a ∷ n) (ha, hn) =
    ground (arith, xor_self a ha, prefix_from_self (i + 1) t n hn)

-- The prefix of two identifiers of 32 bytes has at most 256 bits, and 256 exactly if they are equal.
pub prefix_len_range :
    (n m : NodeId)
    → IsNodeId n
    → IsNodeId m
    → (prefix_len n m ≤ 256) × ((prefix_len n m ≡ 256) ↔ (n ≡ m))
prefix_len_range n m hn hm = (
  omega (
    arith,
    prefix_len_lem n m hn hm,
    prefix_from-le 0 32 (xor_each n m),
    length-xor_each n m,
    hn.0,
    hm.0,
  ),
  (
    (λ e.
        prefix_from_full 0 32 n m hn.1 hm.1 (hn.0 ∙ sym hm.0) (omega (arith, hn.0))
          (sym (prefix_len_lem n m hn hm) ∙ e)),
    (λ e. ap (prefix_len n) (sym e) ∙ prefix_len_lem n n hn hn ∙ prefix_from_self 0 32 n hn.1),
  ),
)
