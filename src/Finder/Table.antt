-- ===== src/Finder/Table.antt =====
-- The routing table of internal/finder/kademlia.go: 256 buckets of at most 20 nodes.
pub mod Buckets
pub mod Invariant
pub mod Closest
use invariant_go.Shared.{
  ℕ, zero, suc, ◌*◌, ◌≡◌, ◌≤◌, Bool, true, false, Option, none, some, List, [], ◌∷◌, ◌++◌, length,
  take, drop, set, get_elem?, replicate, contains, sort_by, All, ltb, nat_eq, if◌then◌else◌,
  eq_text,
}
use invariant_go.Finder.Node.{NodeId, IsNodeId, bucket_size, id_length, equals, less, prefix_len}

pub record RoutingTable : Type 0 where
  pub self : NodeId
  pub buckets : List (List NodeId)

unfoldable pub new_routing_table : NodeId → RoutingTable
new_routing_table self = record { self = self; buckets = replicate (id_length * 8) [] }

-- The bucket without its first entry equal to `node`, if it has one: bucket[:i] and bucket[i+1:].
unfoldable pub without_first : NodeId → List NodeId → Option (List NodeId)
unfolding equals
without_first node [] = none
without_first node (n ∷ bucket) =
    let rest = without_first node bucket in
    if equals n node then some bucket else elim rest [ none ↦ none | some r ↦ some (n ∷ r) ]

-- The bucket after `Add`: a known node moves to the tail; a full bucket loses its head.
unfoldable pub add_to_bucket : NodeId → List NodeId → List NodeId
unfolding without_first
add_to_bucket node bucket = elim (without_first node bucket) [
  | some others ↦ others ++ node ∷ []
  | none ↦
      if ltb (length bucket) bucket_size then bucket ++ node ∷ [] else drop 1 bucket ++ node ∷ []
]

-- The bucket index is in range, so no bucket is missing.
unfoldable pub add : RoutingTable → NodeId → RoutingTable
unfolding equals
add rt node =
    let idx = prefix_len rt.self node in
    if equals node rt.self
    then rt
    else if nat_eq idx (id_length * 8)
    then rt
    else elim (get_elem? rt.buckets idx) [
      | none ↦ rt
      | some bucket ↦ record rt { buckets = set rt.buckets idx (add_to_bucket node bucket) }
    ]

all_nodes : List (List NodeId) → List NodeId
all_nodes [] = []
all_nodes (bucket ∷ buckets) = bucket ++ all_nodes buckets

-- Snapshot
unfoldable pub snapshot : RoutingTable → List NodeId
unfolding all_nodes
snapshot rt = all_nodes rt.buckets

unfoldable pub find_closest : RoutingTable → NodeId → ℕ → List NodeId
find_closest rt target count =
    let sorted = sort_by (λ n m. less n m target) (snapshot rt) in
    if ltb count (length sorted) then take count sorted else sorted

-- No node stands twice in a bucket.
abbrev pub Distinct : List NodeId → Type 0
Distinct [] = Unit
Distinct (n ∷ ns) = (contains n ns ≡ false) × Distinct ns

pub record BucketOk (self : NodeId) (i : ℕ) (bucket : List NodeId) : Type 0 where
  pub bounded : length bucket ≤ bucket_size
  pub placed : All (λ n. IsNodeId n × (prefix_len self n ≡ i)) bucket
  pub distinct : Distinct bucket

pub record WellFormed (rt : RoutingTable) : Type 0 where
  pub self_id : IsNodeId rt.self
  pub count : length rt.buckets ≡ 256
  pub buckets_ok :
      (i : ℕ) (b : List NodeId) → get_elem? rt.buckets i ≡ some b → BucketOk rt.self i b
