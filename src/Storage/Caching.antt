-- ===== src/Storage/Caching.antt =====
-- internal/storage/caching_storage.go: a local store that keeps the blocks used last, in front of a
-- destination and of an overflow store.
pub mod Evict
pub mod Places
pub mod Kept
pub mod Termination
use invariant_go.Shared.{
  ℕ, ◌+◌, Bool, true, false, ◌&&◌, ◌||◌, not, Option, none, some, List, [], ◌∷◌, ◌++◌, length, ltb,
  leb, if◌then◌else◌, ◌==◌, eq_text, Text, is_some, contains,
}
use invariant_go.Storage.Interface.{
  Block, Reader, StoreAtResult, accepted, rejected, errored, StorageOps,
}

-- ControlledStorage. `remove` tells whether it has succeeded, `list` gives the batches put together.
pub record Controlled (S : Type 0) : Type 0 where
  pub ops : StorageOps S
  pub remove : S → Text → Bool × S
  pub list : S → List Text

-- currentSize is `added` less `removed`, which may be negative. `lru` is lruList with the keys of
-- lruMap, the address used last in front.
pub record CachingStorage (L D O : Type 0) : Type 0 where
  pub local : L
  pub destination : Option D
  pub overflow : Option O
  pub max_size : ℕ
  pub desired_size : ℕ
  pub delegate_on_max : Bool
  pub lru : List Text
  pub added : ℕ
  pub removed : ℕ
  pub dest_has : List Text

unfoldable pub without : Text → List Text → List Text
without a [] = []
without a (x ∷ xs) = let rest = without a xs in if x == a then rest else x ∷ rest

unfoldable pub last_used : List Text → Option Text
last_used [] = none
last_used (x ∷ xs) = elim (last_used xs) [ none ↦ some x | some y ↦ some y ]

abbrev pub size_or : ℕ → Option ℕ → ℕ
size_or n none = n
size_or n (some m) = m

abbrev pub plain_reader : Block → Reader
plain_reader b = record { content = b; fails = false }

module _ {L D O : Type 0} where
  -- MoveToFront of an address that is in the list.
  unfoldable pub mark_used : Text → CachingStorage L D O → CachingStorage L D O
  unfolding contains without
  mark_used a s = if contains a s.lru then record s { lru = a ∷ without a s.lru } else s

  unfoldable pub add_used : Text → ℕ → CachingStorage L D O → CachingStorage L D O
  unfolding contains without
  add_used a n s =
      if contains a s.lru
      then record s { lru = a ∷ without a s.lru }
      else record s { lru = a ∷ s.lru; added = s.added + n }

  abbrev pub known_there : Text → CachingStorage L D O → CachingStorage L D O
  known_there a s = record s { dest_has = a ∷ s.dest_has }

  -- currentSize >= maxSize, currentSize+n > maxSize and currentSize <= desiredSize
  unfoldable pub is_full : CachingStorage L D O → Bool
  is_full s = leb (s.max_size + s.removed) s.added

  unfoldable pub exceeds : ℕ → CachingStorage L D O → Bool
  exceeds n s = ltb (s.max_size + s.removed) (s.added + n)

  unfoldable pub is_small : CachingStorage L D O → Bool
  is_small s = leb s.added (s.desired_size + s.removed)

  -- What is read through the trackingReader; its check fails as soon as too much was read.
  unfoldable pub tracked : Reader → CachingStorage L D O → Reader
  unfolding exceeds
  tracked r s = record r {
    fails = r.fails || exceeds (length r.content) s && not s.delegate_on_max;
  }

  module _ (lo : Controlled L) (dest : StorageOps D) (over : Controlled O) where
    -- The loop of init over the blocks of the local store, the last one last used.
    unfoldable pub load_blocks : List Text → CachingStorage L D O → CachingStorage L D O
    unfolding contains
    load_blocks [] s = s
    load_blocks (a ∷ addresses) s = elim (lo.ops.size s.local a) [
      | none ↦ load_blocks addresses s
      | some n ↦
          load_blocks addresses (
            if contains a s.lru then s else record s { lru = s.lru ++ a ∷ []; added = s.added + n })
    ]

    unfoldable pub new_caching_storage : L → Option D → ℕ → ℕ → Bool → CachingStorage L D O
    unfolding load_blocks
    new_caching_storage l d max desired delegate = load_blocks (lo.list l) (record {
      local = l;
      destination = d;
      overflow = none;
      max_size = max;
      desired_size = desired;
      delegate_on_max = delegate;
      lru = [];
      added = 0;
      removed = 0;
      dest_has = [];
    })

    abbrev pub in_overflow : Text → CachingStorage L D O → Bool
    in_overflow a s = elim s.overflow [ none ↦ false | some o ↦ over.ops.has o a ]

    unfoldable pub has : CachingStorage L D O → Text → Bool × CachingStorage L D O
    unfolding mark_used
    has s a =
        if lo.ops.has s.local a
        then (true, mark_used a s)
        else if in_overflow a s
        then (true, s)
        else elim s.destination [
          | none ↦ (false, s)
          | some d ↦ if dest.has d a then (true, known_there a s) else (false, s)
        ]

    -- The goroutine of fetchAndPromote, for a reader that is read to its end.
    unfoldable pub promote : Text → Block → CachingStorage L D O → CachingStorage L D O
    unfolding add_used
    promote a b s =
        let (r, l) = lo.ops.store_at s.local a (plain_reader b) in
        let s' = record s { local = l } in
        elim r [
          | rejected ↦ s'
          | errored ↦ s'
          | accepted ↦ elim (lo.ops.size l a) [ none ↦ s' | some n ↦ add_used a n s' ]
        ]

    -- Whether a block of this size is promoted.
    abbrev pub has_room : Option ℕ → CachingStorage L D O → Bool
    has_room none s = false
    has_room (some n) s = leb n s.max_size

    abbrev pub fetch_destination : CachingStorage L D O → Text → Option Block × CachingStorage L D O
    fetch_destination s a = elim s.destination [
      | none ↦ (none, s)
      | some d ↦ elim (dest.get d a) [
        | none ↦ (none, s)
        | some b ↦ (
          some b,
          if has_room (dest.size d a) s then promote a b (known_there a s) else known_there a s,
        )
      ]
    ]

    -- Get, whose reader is read to its end.
    unfoldable pub get : CachingStorage L D O → Text → Option Block × CachingStorage L D O
    unfolding mark_used promote
    get s a = elim (lo.ops.get s.local a) [
      | some b ↦ (some b, mark_used a s)
      | none ↦ elim s.overflow [
        | none ↦ fetch_destination s a
        | some o ↦ elim (over.ops.get o a) [
          | some b ↦ (some b, if has_room (over.ops.size o a) s then promote a b s else s)
          | none ↦ fetch_destination s a
        ]
      ]
    ]

    abbrev pub size_there : CachingStorage L D O → Text → Option ℕ × CachingStorage L D O
    size_there s a = elim s.destination [
      | none ↦ (none, s)
      | some d ↦ elim (dest.size d a) [ none ↦ (none, s) | some n ↦ (some n, known_there a s) ]
    ]

    unfoldable pub size : CachingStorage L D O → Text → Option ℕ × CachingStorage L D O
    unfolding mark_used
    size s a = elim (lo.ops.size s.local a) [
      | some n ↦ (some n, mark_used a s)
      | none ↦ elim s.overflow [
        | none ↦ size_there s a
        | some o ↦ elim (over.ops.size o a) [ some n ↦ (some n, s) | none ↦ size_there s a ]
      ]
    ]

    abbrev pub delegate_store : CachingStorage L D O → Reader → Option Text × CachingStorage L D O
    delegate_store s r = elim s.destination [
      | none ↦ (none, s)
      | some d ↦
          let (x, d') = dest.store d r in
          let s' = record s { destination = some d' } in
          elim x [ none ↦ (none, s') | some a ↦ (some a, known_there a s') ]
    ]

    -- `none` is an error.
    unfoldable pub store : CachingStorage L D O → Reader → Option Text × CachingStorage L D O
    unfolding is_full tracked add_used
    store s r =
        if is_full s
        then (if s.delegate_on_max then delegate_store s r else (none, s))
        else (let (x, l) = lo.ops.store s.local (tracked r s) in
            let s' = record s { local = l } in
            elim x [
              | none ↦ (none, s')
              | some a ↦ (some a, add_used a (size_or (length r.content) (lo.ops.size l a)) s')
            ])

    abbrev pub delegate_store_at :
        CachingStorage L D O → Text → Reader → StoreAtResult × CachingStorage L D O
    delegate_store_at s a r = elim s.destination [
      | none ↦ (errored, s)
      | some d ↦
          let (x, d') = dest.store_at d a r in
          let s' = record s { destination = some d' } in
          elim x [
            | accepted ↦ (accepted, known_there a s')
            | rejected ↦ (rejected, s')
            | errored ↦ (errored, s')
          ]
    ]

    unfoldable pub store_at :
        CachingStorage L D O → Text → Reader → StoreAtResult × CachingStorage L D O
    unfolding mark_used is_full tracked add_used
    store_at s a r =
        if lo.ops.has s.local a
        then (accepted, mark_used a s)
        else if is_full s
        then (if s.delegate_on_max then delegate_store_at s a r else (errored, s))
        else (let (x, l) = lo.ops.store_at s.local a (tracked r s) in
            let s' = record s { local = l } in
            elim x [
              | errored ↦ (errored, s')
              | rejected ↦ (rejected, s')
              | accepted ↦ (accepted, add_used a (size_or (length r.content) (lo.ops.size l a)) s')
            ])
