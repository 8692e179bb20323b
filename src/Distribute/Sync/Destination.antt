-- ===== src/Distribute/Sync/Destination.antt =====
-- internal/distribute/inmemory.go: Sync and syncToDestination, with the limit on the bytes per hour.
use invariant_go.Shared.{
  ℕ, ◌+◌, ◌-◌, Bool, false, ◌&&◌, ◌||◌, not, Option, none, some, List, [], ◌∷◌, ltb, leb,
  if◌then◌else◌, ◌==◌, Text, eq_text, GoMap, contains, set_add,
}
use invariant_go.Distribute.Service.{InMemoryDistribute, get_service_address}
use invariant_go.Distribute.Sync.{block_locations, sync_blocks}

-- time.Hour, in nanoseconds
abbrev pub hour : ℕ
hour = 3600000000000

unfoldable pub reset_window : ℕ → InMemoryDistribute → InMemoryDistribute
reset_window now d =
    if leb hour (now - d.backup_window_start)
    then record d { backup_window_start = now; backup_bytes_uploaded = 0 }
    else d

-- The variables of the loop: the state, the world and `newlyUploadedBytes`.
pub record Upload (W : Type 0) : Type 0 where
  pub state : InMemoryDistribute
  pub world : W
  pub newly_uploaded : ℕ

-- `block_size w addr block` is what the service at `addr` answers for the size of the block.
module _ {W : Type 0} (discover : W → Text → Option Text × W)
    (fetch : W → Text → Text → Text → Text → Bool × W)
    (block_size : W → Text → Text → Option ℕ × W) where
  abbrev pub over_limit : InMemoryDistribute → ℕ → ℕ → ℕ → Bool
  over_limit d bytes_uploaded newly size =
      d.limited && ltb d.max_bytes_per_hour (bytes_uploaded + newly + size)

  abbrev pub fetch_to_destination : Text → Text → Text → Text → ℕ → Upload W → Upload W
  fetch_to_destination dest_addr block source source_addr size u =
      let (ok, w) = fetch u.world dest_addr block source source_addr in
      if ok
      then record {
        state = record u.state { destination_blocks = set_add block u.state.destination_blocks };
        world = w;
        newly_uploaded = u.newly_uploaded + size;
      }
      else record u { world = w }

  -- `bytes_uploaded` was read before the loop.
  unfoldable pub upload_block : Text → ℕ → Text → List Text → Upload W → Upload W
  unfolding get_service_address
  upload_block dest_addr bytes_uploaded block [] u = u
  upload_block dest_addr bytes_uploaded block (source ∷ others) u =
      if contains block u.state.destination_blocks
      then u
      else let (source_addr, d, w) = get_service_address discover u.state u.world source false in
        elim source_addr [
          | none ↦ record u { state = d; world = w }
          | some a ↦
              let (size, w') = block_size w a block in
              let u' = record u { state = d; world = w' } in
              elim size [
                | none ↦ u'
                | some n ↦
                    if over_limit d bytes_uploaded u.newly_uploaded n
                    then u'
                    else fetch_to_destination dest_addr block source a n u'
              ]
        ]

  unfoldable pub upload_blocks : Text → ℕ → GoMap Text (List Text) → Upload W → Upload W
  unfolding upload_block
  upload_blocks dest_addr bytes_uploaded [] u = u
  upload_blocks dest_addr bytes_uploaded ((block, locations) ∷ blocks) u =
      upload_blocks dest_addr bytes_uploaded blocks
        (upload_block dest_addr bytes_uploaded block locations u)

  unfoldable pub sync_to_destination :
      ℕ → GoMap Text (List Text) → InMemoryDistribute × W → InMemoryDistribute × W
  unfolding upload_blocks get_service_address reset_window
  sync_to_destination now locations (d, w) =
      let (dest_addr, d', w') = get_service_address discover d w d.destination false in
      elim dest_addr [
        | none ↦ (d', w')
        | some a ↦
            let d'' = reset_window now d' in
            let u =
              upload_blocks a d''.backup_bytes_uploaded locations
                (record { state = d''; world = w'; newly_uploaded = 0 }) in
            (
              record u.state {
                backup_bytes_uploaded = u.state.backup_bytes_uploaded + u.newly_uploaded;
              },
              u.world,
            )
      ]

  -- `now` is the time when the upload starts.
  unfoldable pub sync : ℕ → InMemoryDistribute → W → InMemoryDistribute × W
  unfolding sync_to_destination
  sync now d w =
      if not d.has_discovery || leb d.rep_factor 0
      then (d, w)
      else let locations = block_locations d.services [] in
        let (d', w') = sync_blocks discover fetch locations (d, w) in
        if d'.destination == [] then (d', w') else sync_to_destination now locations (d', w')
