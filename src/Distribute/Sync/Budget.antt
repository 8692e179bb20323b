-- ===== src/Distribute/Sync/Budget.antt =====
-- The limit on the bytes that are uploaded to the destination in an hour.
use invariant_go.Shared.{
  ℕ, ◌+◌, ◌≤◌, ◌≡◌, refl, ◌∙◌, inl, inr, Bool, true, false, Option, Option-cases, List, [], ◌∷◌,
  Text, eq_text, GoMap, lookup, arith,
}
use invariant_go.Distribute.Service.{InMemoryDistribute, get_service_address}
use invariant_go.Distribute.Sync.Destination.{
  Upload, reset_window, upload_block, upload_blocks, sync_to_destination,
}

-- Within the budget: no more than the limit was uploaded in the window, of which some in this pass.
abbrev InBudget : {W : Type 0} → ℕ → ℕ → Upload W → Type 0
InBudget limit start u =
    (u.state.limited ≡ true)
    × (u.state.max_bytes_per_hour ≡ limit)
    × (u.state.backup_bytes_uploaded ≡ start)
    × (start + u.newly_uploaded ≤ limit)

-- The window is reset or kept.
reset_window-budget :
    (now : ℕ) (d : InMemoryDistribute) (limit : ℕ)
    → d.limited ≡ true
    → d.max_bytes_per_hour ≡ limit
    → d.backup_bytes_uploaded ≤ limit
    → ((reset_window now d).limited ≡ true)
      × ((reset_window now d).max_bytes_per_hour ≡ limit)
      × ((reset_window now d).backup_bytes_uploaded ≤ limit)
unfolding reset_window
reset_window-budget now d limit l m b = (ground arith, ground arith, ground arith)

module _ {W : Type 0} (discover : W → Text → Option Text × W)
    (fetch : W → Text → Text → Text → Text → Bool × W)
    (block_size : W → Text → Text → Option ℕ × W) where
  -- The look-up of an address leaves the limit and the count of the uploaded bytes alone.
  address_keeps_budget :
      (d : InMemoryDistribute) (w : W) (id : Text) (force : Bool)
      → let d' = (get_service_address discover d w id force).1 in
        (d'.limited ≡ d.limited)
        × (d'.max_bytes_per_hour ≡ d.max_bytes_per_hour)
        × (d'.backup_bytes_uploaded ≡ d.backup_bytes_uploaded)
  unfolding get_service_address
  address_keeps_budget d w id force = elim (Option-cases (lookup id d.services)) [
    | inl e ↦ (ground arith, ground arith, ground arith)
    | inr (state, e) ↦ (ground arith, ground arith, ground arith)
  ]

  upload_block-InBudget :
      (dest_addr : Text) (limit start : ℕ) (block : Text) (locations : List Text) (u : Upload W)
      → InBudget limit start u
      → InBudget limit start
          (upload_block discover fetch block_size dest_addr start block locations u)
  unfolding upload_block
  upload_block-InBudget dest_addr limit start block [] u h = h
  upload_block-InBudget dest_addr limit start block (source ∷ others) u (l, m, b, n) = (
    ground (arith, address_keeps_budget u.state u.world source false),
    ground (arith, address_keeps_budget u.state u.world source false),
    ground (arith, address_keeps_budget u.state u.world source false),
    ground (arith, address_keeps_budget u.state u.world source false),
  )

  upload_blocks-InBudget :
      (dest_addr : Text) (limit start : ℕ) (blocks : GoMap Text (List Text)) (u : Upload W)
      → InBudget limit start u
      → InBudget limit start (upload_blocks discover fetch block_size dest_addr start blocks u)
  unfolding upload_blocks
  upload_blocks-InBudget dest_addr limit start [] u h = h
  upload_blocks-InBudget dest_addr limit start ((block, locations) ∷ blocks) u h =
      upload_blocks-InBudget dest_addr limit start blocks _
        (upload_block-InBudget dest_addr limit start block locations u h)

  -- With a limit, and no more bytes counted in the window than it allows, a pass of uploads to the
  -- destination leaves no more bytes counted than the limit allows.
  pub sync_to_destination-budget :
      (now : ℕ) (locations : GoMap Text (List Text)) (d : InMemoryDistribute) (w : W)
      → d.limited ≡ true
      → d.backup_bytes_uploaded ≤ d.max_bytes_per_hour
      → (sync_to_destination discover fetch block_size now locations (d, w)).0.backup_bytes_uploaded
        ≤ d.max_bytes_per_hour
  unfolding sync_to_destination reset_window
  sync_to_destination-budget now locations d w l b = elim (Option-cases answer) [
    | inl e ↦ ground (arith, address_keeps_budget d w d.destination false)
    | inr (a, e) ↦
        rw (e, sync_to_destination)
          (total start (upload_blocks discover fetch block_size a start locations opened) (
            upload_blocks-InBudget a d.max_bytes_per_hour start locations opened
              (r.0, r.1, refl, omega (arith, r.2))))
  ]
    where
      answer : Option Text
      answer = (get_service_address discover d w d.destination false).0

      d' : InMemoryDistribute
      d' = (get_service_address discover d w d.destination false).1

      start : ℕ
      start = (reset_window now d').backup_bytes_uploaded

      opened : Upload W
      opened = record {
        state = reset_window now d';
        world = (get_service_address discover d w d.destination false).2;
        newly_uploaded = 0;
      }

      r :
          ((reset_window now d').limited ≡ true)
          × ((reset_window now d').max_bytes_per_hour ≡ d.max_bytes_per_hour)
          × ((reset_window now d').backup_bytes_uploaded ≤ d.max_bytes_per_hour)
      r =
          reset_window-budget now d' d.max_bytes_per_hour
            ((address_keeps_budget d w d.destination false).0 ∙ l)
            (address_keeps_budget d w d.destination false).1
            (omega (arith, address_keeps_budget d w d.destination false))

      total :
          (start : ℕ) (u : Upload W)
          → InBudget d.max_bytes_per_hour start u
          → u.state.backup_bytes_uploaded + u.newly_uploaded ≤ d.max_bytes_per_hour
      total start u (l, m, b, n) = omega arith
