-- ===== src/Finder/Table/Invariant.antt =====
-- The routing table stays well formed, and a node that was added is in it.
use invariant_go.Shared.{
  ℕ, zero, suc, ◌≡◌, ◌≤◌, ◌<◌, ◌≢◌, refl, sym, ◌∙◌, subst, ◌⊎◌, inl, inr, true, false, some,
  Option-cases, Bool-cases, List, [], ◌∷◌, ◌++◌, length, get_elem?, set, get_elem?-set,
  get_elem?_lt, length-set, length-replicate, get_elem?-replicate, contains, contains-append, ltb,
  drop, eq_text, eq_nat, list_eq, list_eq_iff, arith, beq_self,
}
use invariant_go.Finder.Node.{NodeId, IsNodeId, equals, prefix_len}
use invariant_go.Finder.Node.Agreement.{prefix_len_range}
use invariant_go.Finder.Table.{
  RoutingTable, new_routing_table, without_first, add_to_bucket, add, all_nodes, snapshot, BucketOk,
  WellFormed,
}
use invariant_go.Finder.Table.Buckets.{add_to_bucket-BucketOk}

-- A new table is well formed.
pub new_routing_table-WellFormed :
    (self : NodeId) → IsNodeId self → WellFormed (new_routing_table self)
unfolding new_routing_table
new_routing_table-WellFormed self h = record {
  self_id = h;
  count = length-replicate {A = List NodeId} 256 [];
  buckets_ok = λ i b e.
      subst (BucketOk self i) (sym (get_elem?-replicate {A = List NodeId} 256 i [] b e))
        (record { bounded = omega arith; placed = tt; distinct = tt });
}

-- The two outcomes of `add`: the table's own node is ignored, any other enters its bucket.
abbrev Added : RoutingTable → NodeId → RoutingTable → Type 0
Added rt node rt' =
    ((node ≡ rt.self) × (rt' ≡ rt))
    ⊎ ((bucket : List NodeId) × (node ≢ rt.self)
        × (get_elem? rt.buckets (prefix_len rt.self node) ≡ some bucket)
        × (rt' ≡ record rt {
          buckets = set rt.buckets (prefix_len rt.self node) (add_to_bucket node bucket);
        }))

pub add-Added :
    (rt : RoutingTable) (node : NodeId)
    → WellFormed rt
    → IsNodeId node
    → Added rt node (add rt node)
unfolding add equals
add-Added rt node wf hn = elim (Bool-cases (list_eq node rt.self)) [
  | inl e ↦ inl ((list_eq_iff node rt.self).0 e, ground arith)
  | inr e ↦
      let r = prefix_len_range rt.self node wf.self_id hn in
      let ne : node ≢ rt.self = λ p. other e ((list_eq_iff node rt.self).1 p) in
      let lt : prefix_len rt.self node < 256 = less_of r.0 (λ q. ne (sym (r.1.0 q))) in
      let (bucket, found) =
        get_elem?_lt rt.buckets (prefix_len rt.self node) (omega (arith, lt, wf.count)) in
      inr (bucket, ne, found, ground arith)
]
  where
    other : list_eq node rt.self ≡ false → list_eq node rt.self ≡ true → ⊥
    other p q = cc

    less_of : {n : ℕ} → n ≤ 256 → n ≢ 256 → n < 256
    less_of p q = omega arith

-- Adding a node of 32 bytes keeps a table well formed: every bucket holds at most 20 distinct nodes, each of
-- which shares exactly the bucket's number of bits with the table's own identifier.
pub add-WellFormed :
    (rt : RoutingTable) (node : NodeId) → WellFormed rt → IsNodeId node → WellFormed (add rt node)
add-WellFormed rt node wf hn = elim (add-Added rt node wf hn) [
  | inl (e, same) ↦ subst WellFormed (sym same) wf
  | inr (bucket, ne, found, changed) ↦ subst WellFormed (sym changed) (record {
    self_id = wf.self_id;
    count = length-set rt.buckets (prefix_len rt.self node) (add_to_bucket node bucket) ∙ wf.count;
    buckets_ok = λ i b h.
        elim (get_elem?-set rt.buckets (prefix_len rt.self node) i (add_to_bucket node bucket) b
          h) [
            | inl (ei, eb) ↦ subst (BucketOk rt.self i) (sym eb) (
                add_to_bucket-BucketOk rt.self i node bucket
                  (wf.buckets_ok i bucket
                    (subst (λ j. get_elem? rt.buckets j ≡ some bucket) ei found))
                  hn ei)
            | inr old ↦ wf.buckets_ok i b old
          ];
  })
]

contains-all_nodes :
    (bs : List (List NodeId)) (i : ℕ) (b : List NodeId) (m : NodeId)
    → get_elem? bs i ≡ some b
    → contains m b ≡ true
    → contains m (all_nodes bs) ≡ true
unfolding all_nodes
contains-all_nodes [] i b m h c = cc
contains-all_nodes (x ∷ bs) zero b m h c = ground (arith, contains-append m x (all_nodes bs))
contains-all_nodes (x ∷ bs) (suc i) b m h c =
    ground (arith, contains-append m x (all_nodes bs), contains-all_nodes bs i b m h c)

get_elem?-set_self :
    (bs : List (List NodeId)) (i : ℕ) (b v : List NodeId)
    → get_elem? bs i ≡ some b
    → get_elem? (set bs i v) i ≡ some v
get_elem?-set_self [] i b v h = cc
get_elem?-set_self (x ∷ bs) zero b v h = refl
get_elem?-set_self (x ∷ bs) (suc i) b v h = get_elem?-set_self bs i b v h

contains-snoc : (node : NodeId) (xs : List NodeId) → contains node (xs ++ node ∷ []) ≡ true
unfolding contains
contains-snoc node xs = ground (arith, contains-append node xs (node ∷ []), beq_self node)

contains-add_to_bucket :
    (node : NodeId) (b : List NodeId) → contains node (add_to_bucket node b) ≡ true
unfolding add_to_bucket
contains-add_to_bucket node b = elim (Option-cases (without_first node b)) [
  | inl e ↦
      rw (e, add_to_bucket)
        (elim (Bool-cases (ltb (length b) 20)) [
          | inl lt ↦ rw lt (contains-snoc node b)
          | inr ge ↦ rw ge (contains-snoc node (drop 1 b))
        ])
  | inr (o, e) ↦ rw (e, add_to_bucket) (contains-snoc node o)
]

-- In a well-formed table every node but the table's own is in the snapshot once it was added.
pub snapshot-add_self :
    (rt : RoutingTable) (node : NodeId)
    → WellFormed rt
    → IsNodeId node
    → node ≢ rt.self
    → contains node (snapshot (add rt node)) ≡ true
unfolding snapshot
snapshot-add_self rt node wf hn ne = elim (add-Added rt node wf hn) [
  | inl (e, same) ↦ absurd (ne e)
  | inr (bucket, _, found, changed) ↦ rw changed (
      contains-all_nodes _ (prefix_len rt.self node) (add_to_bucket node bucket) node
        (get_elem?-set_self rt.buckets (prefix_len rt.self node) bucket (add_to_bucket node bucket)
          found)
        (contains-add_to_bucket node bucket))
]
