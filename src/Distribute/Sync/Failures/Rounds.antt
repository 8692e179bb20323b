-- ===== src/Distribute/Sync/Failures/Rounds.antt =====
-- A pass keeps every service below the limit of failures.
use invariant_go.Shared.{
  ℕ, zero, suc, ◌-◌, ◌≡◌, refl, sym, ◌⊎◌, inl, inr, Bool, true, false, ◌||◌, not, Option,
  Bool-cases, Option-cases, List, [], ◌∷◌, leb, ◌==◌, Text, eq_text, GoMap, contains, arith, subst,
  length,
}
use invariant_go.Distribute.Service.{InMemoryDistribute, register, notify, get_service_address}
use invariant_go.Distribute.Sync.{
  candidates, Pass, attempts, replicate_block, after_attempts, sync_block, sync_blocks,
  block_locations, decode_id,
}
use invariant_go.Distribute.Sync.Loop.{
  replicate_block-holds, replicate_block-success, replicate_block-failure, tried,
}
use invariant_go.Distribute.Sync.Destination.{
  Upload, reset_window, upload_block, upload_blocks, sync_to_destination, sync,
}
use invariant_go.Distribute.Sync.Failures.{
  Tolerates, record_success-Tolerates, record_failure-Tolerates, register-Tolerates,
  notify-Tolerates,
}
use invariant_go.Distribute.Sync.Failures.Attempts.{
  address-Tolerates, address_state, attempts-Tolerates,
}

module _ {W : Type 0} (discover : W → Text → Option Text × W)
    (fetch : W → Text → Text → Text → Text → Bool × W) where
  after-Tolerates :
      (dest : Text) (success : Bool) (p : Pass W)
      → Tolerates p.state
      → Tolerates (after_attempts discover fetch dest success p).state
  after-Tolerates dest true p h = record_success-Tolerates dest p.state h
  after-Tolerates dest false p h = record_failure-Tolerates dest p.state h

  replicate_block-Tolerates :
      (block source : Text) (locations : List Text) (needed : ℕ) (nodes : List (Text × List ℕ))
      (p : Pass W)
      → Tolerates p.state
      → Tolerates (replicate_block discover fetch block source locations needed nodes p).1.state
  unfolding replicate_block
  replicate_block-Tolerates block source locations needed [] p h = h
  replicate_block-Tolerates block source locations zero (n ∷ nodes) p h = h
  replicate_block-Tolerates block source locations (suc n) ((id, dist) ∷ nodes) p h =
      elim (Bool-cases (contains id locations)) [
        | inl holds ↦
            kept
              (replicate_block-holds discover fetch block source locations n id dist nodes p holds)
              (replicate_block-Tolerates block source locations (suc n) nodes p h)
        | inr lacks ↦ elim (Bool-cases (attempts discover fetch id block source p).0) [
          | inl ok ↦
              kept
                (replicate_block-success discover fetch block source locations n id dist nodes p
                  lacks ok)
                (replicate_block-Tolerates block source locations n nodes
                  (tried discover fetch block source locations id p) next)
          | inr bad ↦
              kept
                (replicate_block-failure discover fetch block source locations n id dist nodes p
                  lacks bad)
                (replicate_block-Tolerates block source locations (suc n) nodes
                  (tried discover fetch block source locations id p) next)
        ]
      ]
    where
      kept : {a b : List Text × Pass W} → a ≡ b → Tolerates b.1.state → Tolerates a.1.state
      kept e t = subst (λ (x : List Text × Pass W). Tolerates x.1.state) (sym e) t

      next : Tolerates (tried discover fetch block source locations id p).state
      next =
          after-Tolerates id (attempts discover fetch id block source p).0
            (attempts discover fetch id block source p).1
            (attempts-Tolerates discover fetch id block source p h)

  sync_block-state :
      (block : Text) (locations : List Text) (d : InMemoryDistribute) (w : W)
      → (d ≡ (sync_block discover fetch block locations (d, w)).0)
        ⊎ ((source : Text) × (address_state discover fetch d w source false
              ≡ (sync_block discover fetch block locations (d, w)).0))
        ⊎ ((source a : Text) × (nodes : List (Text × List ℕ)) × ((replicate_block discover fetch
                block source locations
                (d.rep_factor - length locations)
                nodes
                (record {
                  state = address_state discover fetch d w source false;
                  world = (get_service_address discover d w source false).2;
                  source_addr = a;
                })).1.state
              ≡ (sync_block discover fetch block locations (d, w)).0))
  unfolding sync_block address_state
  sync_block-state block [] d w = inl refl
  sync_block-state block (source ∷ others) d w =
      elim (Bool-cases (leb d.rep_factor (length (source ∷ others)))) [
        | inl enough ↦ inl (ground arith)
        | inr few ↦ elim (Option-cases (decode_id block)) [
          | inl bad ↦ inl (ground arith)
          | inr (bytes, e) ↦ elim (Option-cases (get_service_address discover d w source false).0) [
            | inl lost ↦ inr (inl (source, ground arith))
            | inr (a, at) ↦ inr (inr (source, a, candidates bytes d.services, ground arith))
          ]
        ]
      ]

  sync_block-Tolerates :
      (block : Text) (locations : List Text) (d : InMemoryDistribute) (w : W)
      → Tolerates d
      → Tolerates (sync_block discover fetch block locations (d, w)).0
  unfolding address_state
  sync_block-Tolerates block locations d w h = elim (sync_block-state block locations d w) [
    | inl e ↦ subst Tolerates e h
    | inr (inl (source, e)) ↦
        subst Tolerates e (address-Tolerates discover fetch d w source false h)
    | inr (inr (source, a, nodes, e)) ↦ subst Tolerates e (
        replicate_block-Tolerates block source locations _ nodes _
          (address-Tolerates discover fetch d w source false h))
  ]

  sync_blocks-Tolerates :
      (blocks : GoMap Text (List Text)) (d : InMemoryDistribute) (w : W)
      → Tolerates d
      → Tolerates (sync_blocks discover fetch blocks (d, w)).0
  unfolding sync_blocks
  sync_blocks-Tolerates [] d w h = h
  sync_blocks-Tolerates ((block, locations) ∷ blocks) d w h =
      sync_blocks-Tolerates blocks _ _ (sync_block-Tolerates block locations d w h)

-- Equal services under the same limit.
same_services :
    (d d' : InMemoryDistribute)
    → d'.services ≡ d.services
    → d'.max_attempts ≡ d.max_attempts
    → Tolerates d
    → Tolerates d'
same_services d d' s m (pos, h) = rw (s, m) (pos, h)

module _ {W : Type 0} (discover : W → Text → Option Text × W)
    (fetch : W → Text → Text → Text → Text → Bool × W)
    (block_size : W → Text → Text → Option ℕ × W) where
  upload_block-Tolerates :
      (dest_addr : Text) (start : ℕ) (block : Text) (locations : List Text) (u : Upload W)
      → Tolerates u.state
      → Tolerates (upload_block discover fetch block_size dest_addr start block locations u).state
  unfolding upload_block address_state
  upload_block-Tolerates dest_addr start block [] u h = h
  upload_block-Tolerates dest_addr start block (source ∷ others) u h =
      elim (Bool-cases (contains block u.state.destination_blocks)) [
        | inl there ↦
            same_services u.state
              (upload_block discover fetch block_size dest_addr start block (source ∷ others)
                u).state
              (ground arith) (ground arith) h
        | inr new ↦
            same_services (address_state discover fetch u.state u.world source false)
              (upload_block discover fetch block_size dest_addr start block (source ∷ others)
                u).state
              (ground arith) (ground arith)
              (address-Tolerates discover fetch u.state u.world source false h)
      ]

  upload_blocks-Tolerates :
      (dest_addr : Text) (start : ℕ) (blocks : GoMap Text (List Text)) (u : Upload W)
      → Tolerates u.state
      → Tolerates (upload_blocks discover fetch block_size dest_addr start blocks u).state
  unfolding upload_blocks
  upload_blocks-Tolerates dest_addr start [] u h = h
  upload_blocks-Tolerates dest_addr start ((block, locations) ∷ blocks) u h =
      upload_blocks-Tolerates dest_addr start blocks _
        (upload_block-Tolerates dest_addr start block locations u h)

  reset_window-Tolerates :
      (now : ℕ) (d : InMemoryDistribute) → Tolerates d → Tolerates (reset_window now d)
  unfolding reset_window
  reset_window-Tolerates now d h =
      same_services d (reset_window now d) (ground arith) (ground arith) h

  sync_to_destination-Tolerates :
      (now : ℕ) (locations : GoMap Text (List Text)) (d : InMemoryDistribute) (w : W)
      → Tolerates d
      → Tolerates (sync_to_destination discover fetch block_size now locations (d, w)).0
  unfolding sync_to_destination address_state
  sync_to_destination-Tolerates now locations d w h =
      elim (Option-cases (get_service_address discover d w d.destination false).0) [
        | inl e ↦
            subst Tolerates {x = address_state discover fetch d w d.destination false}
              {y = (sync_to_destination discover fetch block_size now locations (d, w)).0}
              (ground arith) (address-Tolerates discover fetch d w d.destination false h)
        | inr (a, e) ↦
            rw (e, sync_to_destination)
              (upload_blocks-Tolerates a _ locations _ (
                reset_window-Tolerates now _
                  (address-Tolerates discover fetch d w d.destination false h)))
      ]

  -- Register, Notify and a whole pass of Sync, whatever discovery and the services answer, keep every
  -- registered service below the limit of failures, if the limit is positive and every service is below
  -- it before.
  pub sync-Tolerates :
      (now : ℕ) (d : InMemoryDistribute) (w : W) (id : Text) (addresses : List Text)
      → Tolerates d
      → Tolerates (register d id)
        × Tolerates (notify d id addresses)
        × Tolerates (sync discover fetch block_size now d w).0
  unfolding sync
  sync-Tolerates now d w id addresses h =
      (register-Tolerates d id h, notify-Tolerates d id addresses h, pass)
    where
      d' : InMemoryDistribute
      d' = (sync_blocks discover fetch (block_locations d.services []) (d, w)).0

      w' : W
      w' = (sync_blocks discover fetch (block_locations d.services []) (d, w)).1

      here : Tolerates d'
      here = sync_blocks-Tolerates discover fetch (block_locations d.services []) d w h

      pass : Tolerates (sync discover fetch block_size now d w).0
      pass = elim (Bool-cases (not d.has_discovery || leb d.rep_factor 0)) [
        | inl off ↦
            subst Tolerates {x = d} {y = (sync discover fetch block_size now d w).0} (ground arith)
              h
        | inr on ↦ elim (Bool-cases (d'.destination == [])) [
          | inl without ↦
              subst Tolerates {x = d'} {y = (sync discover fetch block_size now d w).0}
                (ground arith) here
          | inr with_one ↦
              subst Tolerates
                {x = (sync_to_destination discover fetch block_size now
                  (block_locations d.services []) (d', w')).0}
                {y = (sync discover fetch block_size now d w).0} (ground arith)
                (sync_to_destination-Tolerates now (block_locations d.services []) d' w' here)
        ]
      ]
