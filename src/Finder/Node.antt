-- ===== src/Finder/Node.antt =====
-- Node identifiers of internal/finder/kademlia.go: 32 bytes, compared by the XOR of their bits.
pub mod Metric
pub mod Agreement
use Prim.Native.Nat.{bit_and, bit_xor, Ordering}
use invariant_go.Shared.{
  ℕ, zero, suc, ◌+◌, ◌-◌, ◌*◌, ◌^◌, ◌≡◌, Bool, Option, none, some, List, [], ◌∷◌, ◌++◌, length,
  take, replicate, AreBytes, Text, nat_eq, if◌then◌else◌, decode_string, encode_to_string,
  bytes_compare, is_lt, list_eq, eq_nat,
}

-- BucketSize and IDLength
abbrev pub bucket_size : ℕ
bucket_size = 20

abbrev pub id_length : ℕ
id_length = 32

-- [IDLength]byte
abbrev pub NodeId : Type 0
NodeId = List ℕ

abbrev pub IsNodeId : NodeId → Type 0
IsNodeId n = (length n ≡ id_length) × AreBytes n

-- `copy(id[:], b)` fills the array from the left: what is missing is zero, the rest is dropped.
abbrev copy_id : List ℕ → NodeId
copy_id b = take id_length (b ++ replicate id_length 0)

unfoldable pub parse_node_id : Text → Option NodeId
parse_node_id id_hex = elim (decode_string id_hex) [ none ↦ none | some b ↦ some (copy_id b) ]

-- NodeID.String
unfoldable pub node_string : NodeId → Text
node_string n = encode_to_string n

unfoldable pub equals : NodeId → NodeId → Bool
equals n other = list_eq n other

unfoldable pub xor : NodeId → NodeId → NodeId
xor [] other = []
xor (a ∷ n) [] = []
xor (a ∷ n) (b ∷ other) = bit_xor a b ∷ xor n other

unfoldable pub less : NodeId → NodeId → NodeId → Bool
unfolding xor
less n other target = is_lt (bytes_compare (xor n target) (xor other target))

-- The inner loop of PrefixLen, with k rounds left: `j` is 8 - k, and `7 - j` is k - 1.
unfoldable pub first_set_bit : ℕ → ℕ → Option ℕ
first_set_bit zero b = none
first_set_bit (suc k) b =
    let rest = first_set_bit k b in if nat_eq (bit_and b (2 ^ k)) 0 then rest else some (7 - k)

-- The outer loop, from byte `i` on.
unfoldable pub prefix_len_from : ℕ → NodeId → NodeId → ℕ
unfolding first_set_bit
prefix_len_from i [] other = id_length * 8
prefix_len_from i (a ∷ n) [] = id_length * 8
prefix_len_from i (a ∷ n) (b ∷ other) =
    let rest = prefix_len_from (i + 1) n other in
    let x = bit_xor a b in
    if nat_eq x 0 then rest else elim (first_set_bit 8 x) [ none ↦ rest | some j ↦ i * 8 + j ]

unfoldable pub prefix_len : NodeId → NodeId → ℕ
unfolding prefix_len_from
prefix_len n other = prefix_len_from 0 n other
