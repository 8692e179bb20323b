-- ===== src/Storage/Caching/Evict.antt =====
-- internal/storage/caching_storage.go: doEvict. It gives its lock up while it sends a block away; calls
-- that come in between are not modelled.
pub mod Steps
use invariant_go.Shared.{
  ℕ, zero, suc, ◌+◌, Bool, true, false, ◌&&◌, ◌||◌, not, Option, none, some, List, [], ◌∷◌,
  if◌then◌else◌, ◌==◌, eq_text, Text, contains,
}
use invariant_go.Storage.Interface.{
  Block, Reader, StoreAtResult, accepted, rejected, errored, StorageOps,
}
use invariant_go.Storage.Caching.{
  Controlled, CachingStorage, without, last_used, size_or, plain_reader, known_there, is_small,
}

-- How a round of doEvict ends: another round, or the end of the call.
pub data Round : Type 0 where
  again stop : Round

module _ {L D O : Type 0} (lo : Controlled L) (dest : StorageOps D) (over : Controlled O) where
  -- The address that is to be evicted.
  unfoldable pub candidate : CachingStorage L D O → Option Text
  unfolding is_small last_used
  candidate s = if is_small s then none else last_used s.lru

  -- StoreAt of a block at the destination. What is returned besides the error is ignored.
  abbrev pub send_block : Text → Block → D → CachingStorage L D O → Bool × CachingStorage L D O
  send_block a b d s =
      let (r, d') = dest.store_at d a (plain_reader b) in
      let s' = record s { destination = some d' } in
      elim r [
        | errored ↦ (false, s')
        | accepted ↦ (true, known_there a s')
        | rejected ↦ (true, known_there a s')
      ]

  -- evictedToDest
  unfoldable pub to_destination : Text → CachingStorage L D O → Bool × CachingStorage L D O
  unfolding contains
  to_destination a s = elim s.destination [
    | none ↦ (false, s)
    | some d ↦
        if contains a s.dest_has || dest.has d a
        then (true, s)
        else elim (lo.ops.get s.local a) [ none ↦ (false, s) | some b ↦ send_block a b d s ]
  ]

  unfoldable pub to_overflow : Text → O → CachingStorage L D O → Round × CachingStorage L D O
  to_overflow a o s = if over.ops.has o a then (again, s) else elim (lo.ops.get s.local a) [
    | none ↦ (again, s)
    | some b ↦
        let (r, o') = over.ops.store_at o a (plain_reader b) in
        let s' = record s { overflow = some o' } in
        elim r [ errored ↦ (stop, s') | accepted ↦ (again, s') | rejected ↦ (again, s') ]
  ]

  -- The overflow, for a block that did not get to the destination.
  unfoldable pub to_next : Text → Bool × CachingStorage L D O → Round × CachingStorage L D O
  unfolding to_overflow
  to_next a (true, s) = (again, s)
  to_next a (false, s) = elim s.overflow [
    | some o ↦ to_overflow a o s
    | none ↦ elim s.destination [ none ↦ (again, s) | some d ↦ (stop, s) ]
  ]

  -- The part of a round before the lock is taken again.
  unfoldable pub send_away : Text → CachingStorage L D O → Round × CachingStorage L D O
  unfolding to_destination to_next
  send_away a s = to_next a (to_destination a s)

  abbrev pub is_last : Text → List Text → Bool
  is_last a xs = elim (last_used xs) [ none ↦ false | some x ↦ x == a ]

  abbrev pub forget : Text → CachingStorage L D O → CachingStorage L D O
  forget a s = record s {
    lru = without a s.lru;
    removed = s.removed + size_or 0 (lo.ops.size s.local a);
  }

  -- The rest of it.
  unfoldable pub remove_local : Text → CachingStorage L D O → Round × CachingStorage L D O
  unfolding is_small last_used without
  remove_local a s =
      if is_small s
      then (stop, s)
      else if is_last a s.lru
      then (let (ok, l) = lo.remove s.local a in
          (if ok then again else stop, record (forget a s) { local = l }))
      else (again, s)

  unfoldable pub evict_round : CachingStorage L D O → Round × CachingStorage L D O
  unfolding candidate send_away remove_local
  evict_round s = elim (candidate s) [
    | none ↦ (stop, s)
    | some a ↦
        let (r, s') = send_away a s in elim r [ stop ↦ (stop, s') | again ↦ remove_local a s' ]
  ]

  -- The fuel is the number of rounds.
  unfoldable pub do_evict : ℕ → CachingStorage L D O → CachingStorage L D O
  unfolding evict_round
  do_evict zero s = s
  do_evict (suc fuel) s =
      let (r, s') = evict_round s in elim r [ stop ↦ s' | again ↦ do_evict fuel s' ]
