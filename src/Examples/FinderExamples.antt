-- ===== src/Examples/FinderExamples.antt =====
-- A finder with three known nodes.
use invariant_go.Shared.{
  ℕ, ◌≡◌, ◌≢◌, refl, ◌<◌, ◌⊎◌, true, false, some, [], ◌∷◌, map, replicate, Text, eq_text, eq_nat,
  contains, set_add, sort_by, lookup, if◌then◌else◌, is_lt, list_eq, bytes_compare, list_eq_iff,
  arith,
}
use invariant_go.Distribute.Distance
use invariant_go.Distribute.Distance.{distance, cmp_distance}
use invariant_go.Finder.Node.{NodeId, IsNodeId, parse_node_id, node_string, less, prefix_len}
use invariant_go.Finder.Node.Metric.{parse_node_id-node_string}
use invariant_go.Finder.Node.Agreement.{finder_agrees_with_distribute, less_of_prefix_len}
use invariant_go.Finder.Table.{
  RoutingTable, new_routing_table, add, add_to_bucket, snapshot, find_closest, WellFormed,
}
use invariant_go.Finder.Table.Invariant.{
  new_routing_table-WellFormed, add-WellFormed, snapshot-add_self,
}
use invariant_go.Finder.Table.Closest.{IsClosest, find_closest-IsClosest}
use invariant_go.Finder.Memory.{
  MemoryFinder, find, notify, peer, holders, storage_response, string_less,
}
use invariant_go.Finder.Memory.Answers.{find-notify, peer-WellFormed}

abbrev node : ℕ → NodeId
node b = b ∷ replicate 31 0

node_a-IsNodeId : IsNodeId (node 1)
node_a-IsNodeId = omega arith

node_b-IsNodeId : IsNodeId (node 128)
node_b-IsNodeId = omega arith

self-IsNodeId : IsNodeId (node 0)
self-IsNodeId = omega arith

abbrev empty_table : RoutingTable
empty_table = new_routing_table (node 0)

parse_node_id-node_string_example : parse_node_id (node_string (node 128)) ≡ some (node 128)
parse_node_id-node_string_example = parse_node_id-node_string (node 128) node_b-IsNodeId

finder_agrees_with_distribute_example :
    (less (node 1) (node 128) (node 0)
      ≡ is_lt (cmp_distance (distance (node 1) (node 0)) (distance (node 128) (node 0))))
    × (prefix_len (node 1) (node 0) ≡ Distance.prefix_len (distance (node 1) (node 0)))
finder_agrees_with_distribute_example =
    finder_agrees_with_distribute (node 1) (node 128) (node 0) node_a-IsNodeId node_b-IsNodeId
      self-IsNodeId

shorter_prefix : prefix_len (node 128) (node 0) < prefix_len (node 1) (node 0)
unfolding prefix_len
shorter_prefix = omega arith

less_of_prefix_len_example : less (node 1) (node 128) (node 0) ≡ true
less_of_prefix_len_example =
    less_of_prefix_len (node 128) (node 1) (node 0) node_b-IsNodeId node_a-IsNodeId self-IsNodeId
      shorter_prefix

empty_table-WellFormed : WellFormed empty_table
empty_table-WellFormed = new_routing_table-WellFormed (node 0) self-IsNodeId

add-WellFormed_example : WellFormed (add empty_table (node 1))
add-WellFormed_example = add-WellFormed empty_table (node 1) empty_table-WellFormed node_a-IsNodeId

node_a_not_self : node 1 ≢ node 0
unfolding list_eq
node_a_not_self p = different ((list_eq_iff (node 1) (node 0)).1 p)
  where
    different : false ≡ true → ⊥
    different q = cc

snapshot-add_self_example : contains (node 1) (snapshot (add empty_table (node 1))) ≡ true
unfolding new_routing_table
snapshot-add_self_example =
    snapshot-add_self empty_table (node 1) empty_table-WellFormed node_a-IsNodeId node_a_not_self

abbrev two_nodes : RoutingTable
two_nodes = add (add empty_table (node 128)) (node 1)

find_closest-IsClosest_example : IsClosest two_nodes (node 0) 1 (find_closest two_nodes (node 0) 1)
find_closest-IsClosest_example = find_closest-IsClosest two_nodes (node 0) 1

abbrev finder : MemoryFinder
finder = record {
  id = node 0;
  id_str = node_string (node 0);
  routing_table = two_nodes;
  known_blocks = [];
}

abbrev block_x : Text
block_x = b'a' ∷ b'b' ∷ []

abbrev store_s : Text
store_s = b's' ∷ []

find-notify_example : find (notify finder store_s (block_x ∷ [])) block_x ≡ (
    if contains block_x (block_x ∷ [])
    then some (
        map storage_response
          (sort_by string_less (set_add store_s (holders (lookup block_x finder.known_blocks)))))
    else find finder block_x)
find-notify_example = find-notify finder store_s (block_x ∷ []) block_x

abbrev peer_id : Text
peer_id = node_string (node 1)

abbrev fresh_finder : MemoryFinder
fresh_finder = record finder { routing_table = empty_table }

peer_parsed : parse_node_id peer_id ≡ some (node 1)
peer_parsed = parse_node_id-node_string (node 1) node_a-IsNodeId

peer_added :
    peer fresh_finder peer_id
    ≡ some (record fresh_finder { routing_table = add empty_table (node 1) })
unfolding peer
peer_added = rw (peer_parsed, peer)

peer-WellFormed_example :
    WellFormed (add empty_table (node 1))
    × ((node 1 ≡ empty_table.self)
        ⊎ (contains (node 1) (snapshot (add empty_table (node 1))) ≡ true))
peer-WellFormed_example =
    peer-WellFormed fresh_finder (record fresh_finder { routing_table = add empty_table (node 1) })
      peer_id (node 1) (unfold new_routing_table in empty_table-WellFormed) peer_parsed peer_added

-- The nearer of two nodes is returned.
closest_is_near : find_closest two_nodes (node 0) 1 ≡ node 1 ∷ []
unfolding find_closest snapshot add new_routing_table less sort_by prefix_len list_eq add_to_bucket
    bytes_compare
closest_is_near = refl
