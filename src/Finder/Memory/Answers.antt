-- ===== src/Finder/Memory/Answers.antt =====
-- What `find` answers after `notify` and after `peer`.
use invariant_go.Shared.{
  ◌≡◌, refl, sym, ◌∙◌, true, false, some, some-injective, Bool-cases, ◌⊎◌, inl, inr, List, [], ◌∷◌,
  map, length, ltb, if◌then◌else◌, Text, eq_text, eq_nat, ◌==◌, lookup, insert, lookup-insert,
  contains, set_add, set_add_idem, sort_by, arith, subst,
}
use invariant_go.Finder.Node.{NodeId, IsNodeId, parse_node_id}
use invariant_go.Finder.Node.Metric.{parse_node_id-IsNodeId}
use invariant_go.Finder.Table.{add, snapshot, WellFormed}
use invariant_go.Finder.Table.Invariant.{add-WellFormed, snapshot-add_self}
use invariant_go.Finder.Memory.{
  MemoryFinder, storage_response, find_finders, find, holders, notify, peer, string_less,
}

known-notify :
    (f : MemoryFinder) (sid : Text) (addrs : List Text) (a : Text)
    → lookup a (notify f sid addrs).known_blocks ≡ (
        if contains a addrs
        then some (set_add sid (holders (lookup a f.known_blocks)))
        else lookup a f.known_blocks)
unfolding notify contains
known-notify f sid [] a = refl
known-notify f sid (x ∷ addrs) a =
    known-notify
      (record f {
        known_blocks = insert x (set_add sid (holders (lookup x f.known_blocks))) f.known_blocks;
      })
      sid addrs a
    ∙ ground (
      arith,
      eq_text.beq_iff x a,
      set_add_idem sid (holders (lookup a f.known_blocks)),
      lookup-insert x a (set_add sid (holders (lookup x f.known_blocks))) f.known_blocks,
    )

table-notify :
    (f : MemoryFinder) (sid : Text) (addrs : List Text)
    → (notify f sid addrs).routing_table ≡ f.routing_table
unfolding notify
table-notify f sid [] = refl
table-notify f sid (x ∷ addrs) =
    table-notify
      (record f {
        known_blocks = insert x (set_add sid (holders (lookup x f.known_blocks))) f.known_blocks;
      })
      sid addrs

set_add-nonempty : (sid : Text) (s : List Text) → ltb 0 (length (set_add sid s)) ≡ true
unfolding set_add contains
set_add-nonempty sid [] = refl
set_add-nonempty sid (x ∷ s) = ground arith

-- After a storage service has announced some blocks, a search for one of them answers with exactly
-- the services known before and the new one, in the order of their identifiers; a search for any
-- other address answers as before.
pub find-notify :
    (f : MemoryFinder) (sid : Text) (addrs : List Text) (a : Text)
    → find (notify f sid addrs) a ≡ (
        if contains a addrs
        then some (
            map storage_response
              (sort_by string_less (set_add sid (holders (lookup a f.known_blocks)))))
        else find f a)
unfolding find find_finders
find-notify f sid addrs a = ground (
  arith,
  known-notify f sid addrs a,
  table-notify f sid addrs,
  set_add-nonempty sid (holders (lookup a f.known_blocks)),
)

-- An accepted peer keeps a well-formed routing table well formed and, unless it is the finder itself, is in the
-- table afterwards.
pub peer-WellFormed :
    (f f' : MemoryFinder) (finder_id : Text) (n : NodeId)
    → WellFormed f.routing_table
    → parse_node_id finder_id ≡ some n
    → peer f finder_id ≡ some f'
    → WellFormed f'.routing_table
      × ((n ≡ f.routing_table.self) ⊎ (contains n (snapshot f'.routing_table) ≡ true))
unfolding peer
peer-WellFormed f f' finder_id n wf e h =
    subst
      (λ (g : MemoryFinder).
        WellFormed g.routing_table
        × ((n ≡ f.routing_table.self) ⊎ (contains n (snapshot g.routing_table) ≡ true)))
      (some-injective _ _ added) (add-WellFormed f.routing_table n wf id_ok, here_or_self)
  where
    added : some (record f { routing_table = add f.routing_table n }) ≡ some f'
    added = sym (rw (e, peer) refl) ∙ h

    id_ok : IsNodeId n
    id_ok = parse_node_id-IsNodeId finder_id n e

    differs : n ≡ f.routing_table.self → (n == f.routing_table.self) ≡ false → ⊥
    differs q other = ground (arith, eq_text.beq_iff n f.routing_table.self)

    here_or_self :
        (n ≡ f.routing_table.self) ⊎ (contains n (snapshot (add f.routing_table n)) ≡ true)
    here_or_self = elim (Bool-cases (n == f.routing_table.self)) [
      | inl same ↦ inl ((eq_text.beq_iff n f.routing_table.self).0 same)
      | inr other ↦ inr (snapshot-add_self f.routing_table n wf id_ok (λ q. differs q other))
    ]
