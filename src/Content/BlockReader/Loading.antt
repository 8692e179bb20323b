-- ===== src/Content/BlockReader/Loading.antt =====
-- What loading a block leaves in the cache.
use invariant_go.Shared.{
  ℕ, ◌≡◌, refl, sym, ◌∙◌, ap, subst, true, false, Bool-cases, Option, none, some, Option-cases,
  List, [], ◌∷◌, length, get_elem?, leb, All, arith, inl, inr, lookup, delete, lookup-insert,
  insert-All, delete-All, lookup-All, eq_nat, beq_self, contains,
}
use invariant_go.Content.Link.{ContentLink, Stream, whole, Ending}
use invariant_go.Content.BuzHash.{BlockListItem}
use invariant_go.Content.BlockReader.{
  BlockReader, update_lru, make_room, max_cached, keep_block, fetch_block, waited, settled,
  load_block,
}
use invariant_go.Content.BlockReader.Position.{Filled, items_of, get_elem?-items_of}

abbrev pub Cached : List Filled → ℕ × List ℕ → Type 0
Cached fs (idx, b) = (i : BlockListItem ContentLink) × (get_elem? fs idx ≡ some (i, b))

-- A reader of these items, whose cache holds blocks of theirs.
abbrev pub IsReading : List Filled → BlockReader → Type 0
IsReading fs r = (r.blocks ≡ items_of fs) × All (Cached fs) r.cache

make_room-free : (r : BlockReader) → leb max_cached (length r.cache_keys) ≡ false → make_room r ≡ r
unfolding make_room
make_room-free r free = rw (free, make_room) refl

make_room-empty :
    (r : BlockReader)
    → leb max_cached (length r.cache_keys) ≡ true
    → r.cache_keys ≡ []
    → make_room r ≡ r
unfolding make_room
make_room-empty r full e = ground arith

make_room-full :
    (r : BlockReader) (oldest : ℕ) (ks : List ℕ)
    → leb max_cached (length r.cache_keys) ≡ true
    → r.cache_keys ≡ oldest ∷ ks
    → make_room r ≡ record r { cache_keys = ks; cache = delete oldest r.cache }
unfolding make_room
make_room-full r oldest ks full e = ground arith

-- Room is made at the expense of a block in the cache at most.
unfoldable pub Kept : List Filled → BlockReader → BlockReader → Type 0
Kept fs r r' = IsReading fs r' × (r'.current_pos ≡ r.current_pos)

make_room-Kept : (fs : List Filled) (r : BlockReader) → IsReading fs r → Kept fs r (make_room r)
unfolding Kept
make_room-Kept fs r (items, cached) = elim (Bool-cases (leb max_cached (length r.cache_keys))) [
  | inr free ↦ subst (Kept fs r) (sym (make_room-free r free)) ((items, cached), refl)
  | inl full ↦ go r.cache_keys refl full
]
  where
    go :
        (ks : List ℕ)
        → r.cache_keys ≡ ks
        → leb max_cached (length r.cache_keys) ≡ true
        → Kept fs r (make_room r)
    go [] e full = subst (Kept fs r) (sym (make_room-empty r full e)) ((items, cached), refl)
    go (oldest ∷ ks) e full =
        subst (Kept fs r) (sym (make_room-full r oldest ks full e))
          ((items, delete-All (Cached fs) oldest r.cache cached), refl)

module _ (load : ContentLink → Stream) where
  load_block-hit :
      (idx : ℕ) (b : List ℕ) (r : BlockReader)
      → lookup idx r.cache ≡ some b
      → load_block load idx r ≡ (none, record r { cache_keys = update_lru idx r.cache_keys })
  unfolding load_block
  load_block-hit idx b r hit = ground arith

  fetch_whole :
      (idx : ℕ) (i : BlockListItem ContentLink) (d : List ℕ) (r : BlockReader)
      → get_elem? r.blocks idx ≡ some i
      → load i.link ≡ whole d
      → fetch_block load idx r ≡ (none, keep_block load idx d r)
  unfolding fetch_block
  fetch_whole idx i d r at loads =
      rw (at, fetch_block)
        (rw (loads, fetch_block)
          (ap (λ (t : Stream). (none, keep_block load idx t.content r)) loads))

  load_block-alone :
      (idx : ℕ) (r : BlockReader)
      → lookup idx r.cache ≡ none
      → contains idx r.in_flight ≡ false
      → load_block load idx r ≡ fetch_block load idx r
  unfolding load_block
  load_block-alone idx r miss alone = rw (miss, load_block) (rw (alone, load_block) refl)

  pub load_block-waits :
      (idx : ℕ) (r : BlockReader)
      → lookup idx r.cache ≡ none
      → contains idx r.in_flight ≡ true
      → load_block load idx r
        ≡ (waited load (fetch_block load idx r).0, settled load idx (fetch_block load idx r).1)
  unfolding load_block
  load_block-waits idx r miss waits = rw (miss, load_block) (rw (waits, load_block) refl)

  -- What a call of load_block leaves for the index of a block.
  unfoldable pub Loaded :
      List Filled → ℕ → List ℕ → BlockReader → Option Ending × BlockReader → Type 0
  Loaded fs idx d r q = (q.0 ≡ none) × Kept fs r q.1 × (lookup idx q.1.cache ≡ some d)

  fetch_block-Loaded :
      (fs : List Filled) (idx : ℕ) (i : BlockListItem ContentLink) (d : List ℕ) (r : BlockReader)
      → get_elem? fs idx ≡ some (i, d)
      → load i.link ≡ whole d
      → IsReading fs r
      → Loaded fs idx d r (fetch_block load idx r)
  unfolding Loaded Kept
  fetch_block-Loaded fs idx i d r at loads (items, cached) =
      subst (Loaded fs idx d r)
        (sym (
          fetch_whole idx i d r
            (ap (λ (l : List (BlockListItem ContentLink)). get_elem? l idx) items
              ∙ get_elem?-items_of fs idx i d at)
            loads))
        (
          refl,
          ((room.0.0, insert-All (Cached fs) idx d (make_room r).cache (i, at) room.0.1), room.1),
          lookup-insert idx idx d (make_room r).cache ∙ rw (beq_self idx) refl,
        )
    where
      room : Kept fs r (make_room r)
      room = make_room-Kept fs r (items, cached)

  -- The keys and the prefetches do not matter.
  waited-Loaded :
      (fs : List Filled) (idx : ℕ) (d : List ℕ) (r : BlockReader) (q : Option Ending × BlockReader)
      → Loaded fs idx d r q
      → Loaded fs idx d r (waited load q.0, settled load idx q.1)
  unfolding Loaded Kept
  waited-Loaded fs idx d r q (fine, kept, has) = (rw fine refl, kept, has)

  pub load_block-Loaded :
      (fs : List Filled) (idx : ℕ) (i : BlockListItem ContentLink) (d : List ℕ) (r : BlockReader)
      → get_elem? fs idx ≡ some (i, d)
      → load i.link ≡ whole d
      → IsReading fs r
      → Loaded fs idx d r (load_block load idx r)
  unfolding Loaded Kept
  load_block-Loaded fs idx i d r at loads (items, cached) =
      elim (Option-cases (lookup idx r.cache)) [
        | inr (b, hit) ↦ subst (Loaded fs idx d r) (sym (load_block-hit idx b r hit)) (
          refl,
          ((items, cached), refl),
          hit ∙ ap some (same b (lookup-All (Cached fs) idx b r.cache cached hit)),
        )
        | inl miss ↦ elim (Bool-cases (contains idx r.in_flight)) [
          | inl waits ↦
              subst (Loaded fs idx d r) (sym (load_block-waits idx r miss waits))
                (waited-Loaded fs idx d r (fetch_block load idx r) done)
          | inr alone ↦ subst (Loaded fs idx d r) (sym (load_block-alone idx r miss alone)) done
        ]
      ]
    where
      done : Loaded fs idx d r (fetch_block load idx r)
      done = fetch_block-Loaded fs idx i d r at loads (items, cached)

      same : (b : List ℕ) → Cached fs (idx, b) → b ≡ d
      same b (i', e) = ground arith
