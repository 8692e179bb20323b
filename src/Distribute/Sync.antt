-- ===== src/Distribute/Sync.antt =====
-- internal/distribute/inmemory.go: a pass that replicates the blocks, and the upload to the
-- destination. Discovery and the storage services are parameters, on a state W of the world.
pub mod Destination
pub mod Loop
pub mod Budget
pub mod Failures
pub mod Replicas
use invariant_go.Shared.{
  ℕ, zero, suc, ◌+◌, ◌-◌, ◌*◌, Bool, true, false, ◌&&◌, ◌||◌, not, Option, none, some, List, [],
  ◌∷◌, ◌++◌, length, ltb, leb, nat_eq, if◌then◌else◌, ◌==◌, Text, eq_text, decode_string, GoMap,
  lookup, insert, delete, contains, set_add, sort_by, is_lt,
}
use invariant_go.Distribute.Distance.{distance, cmp_distance}
use invariant_go.Distribute.Service.{NodeState, InMemoryDistribute, get_service_address}

-- blockLocations[block] = append(blockLocations[block], srvID)
unfoldable pub add_locations : Text → List Text → GoMap Text (List Text) → GoMap Text (List Text)
add_locations id [] m = m
add_locations id (b ∷ blocks) m =
    add_locations id blocks
      (insert b (elim (lookup b m) [ none ↦ id ∷ [] | some l ↦ l ++ id ∷ [] ]) m)

unfoldable pub block_locations :
    GoMap Text NodeState → GoMap Text (List Text) → GoMap Text (List Text)
unfolding add_locations
block_locations [] m = m
block_locations ((id, state) ∷ services) m =
    block_locations services (if state.is_destination then m else add_locations id state.blocks m)

-- hex.DecodeString of 32 bytes.
abbrev pub decode_id : Text → Option (List ℕ)
decode_id s = elim (decode_string s) [
  | none ↦ none
  | some b ↦ if nat_eq (length b) 32 then some b else none
]

-- The services with their distance to the block.
unfoldable pub node_dists : List ℕ → GoMap Text NodeState → List (Text × List ℕ)
node_dists block [] = []
node_dists block ((id, state) ∷ services) =
    let rest = node_dists block services in
    if state.is_destination
    then rest
    else elim (decode_id id) [ none ↦ rest | some srv ↦ (id, distance block srv) ∷ rest ]

abbrev pub closer : Text × List ℕ → Text × List ℕ → Bool
closer (a, d) (b, e) = is_lt (cmp_distance d e)

-- sort.Slice
unfoldable pub candidates : List ℕ → GoMap Text NodeState → List (Text × List ℕ)
unfolding node_dists
candidates block services = sort_by closer (node_dists block services)

-- How one attempt ends; after `gave_up` there is no second one.
pub data Attempt : Type 0 where
  succeeded fetch_failed gave_up : Attempt

unfoldable pub record_success : Text → InMemoryDistribute → InMemoryDistribute
record_success id d = elim (lookup id d.services) [
  | none ↦ d
  | some state ↦ record d { services = insert id (record state { failures = 0 }) d.services }
]

unfoldable pub record_failure : Text → InMemoryDistribute → InMemoryDistribute
record_failure id d = elim (lookup id d.services) [
  | none ↦ d
  | some state ↦
      if leb d.max_attempts (state.failures + 1)
      then record d { services = delete id d.services }
      else record d {
        services = insert id (record state { failures = state.failures + 1 }) d.services;
      }
]

-- The variables of the loop over the services: the state, the world and `sourceAddr`.
pub record Pass (W : Type 0) : Type 0 where
  pub state : InMemoryDistribute
  pub world : W
  pub source_addr : Text

-- `fetch w dest block source source_addr` is the answer of the service at `dest` that is told to fetch
-- the block.
module _ {W : Type 0} (discover : W → Text → Option Text × W)
    (fetch : W → Text → Text → Text → Text → Bool × W) where
  abbrev pub run_fetch : Text → Text → Text → Pass W → Attempt × Pass W
  run_fetch dest_addr block source p =
      let (ok, w) = fetch p.world dest_addr block source p.source_addr in
      (if ok then succeeded else fetch_failed, record p { world = w })

  -- attempt == 0
  unfoldable pub first_attempt : Text → Text → Text → Pass W → Attempt × Pass W
  unfolding get_service_address
  first_attempt dest block source p =
      let (dest_addr, d, w) = get_service_address discover p.state p.world dest false in
      let p' = record p { state = d; world = w } in
      elim dest_addr [ none ↦ (gave_up, p') | some a ↦ run_fetch a block source p' ]

  -- attempt == 1: both addresses are asked for again.
  unfoldable pub second_attempt : Text → Text → Text → Pass W → Attempt × Pass W
  unfolding get_service_address
  second_attempt dest block source p =
      let (dest_addr, d, w) = get_service_address discover p.state p.world dest true in
      elim dest_addr [
        | none ↦ (gave_up, record p { state = d; world = w })
        | some a ↦
            let (source_addr, d', w') = get_service_address discover d w source true in
            elim source_addr [
              | none ↦ (gave_up, record p { state = d'; world = w' })
              | some s ↦
                  run_fetch a block source (record { state = d'; world = w'; source_addr = s })
            ]
      ]

  unfoldable pub attempts : Text → Text → Text → Pass W → Bool × Pass W
  unfolding first_attempt second_attempt
  attempts dest block source p =
      let (r, p') = first_attempt dest block source p in
      elim r [
        | succeeded ↦ (true, p')
        | gave_up ↦ (false, p')
        | fetch_failed ↦
            let (r', p'') = second_attempt dest block source p' in
            elim r' [
              | succeeded ↦ (true, p'')
              | fetch_failed ↦ (false, p'')
              | gave_up ↦ (false, p'')
            ]
      ]

  abbrev pub after_attempts : Text → Bool → Pass W → Pass W
  after_attempts dest success p = record p {
    state = if success then record_success dest p.state else record_failure dest p.state;
  }

  -- The loop over the services, with the services that fetched the block as its result.
  unfoldable pub replicate_block :
      Text → Text → List Text → ℕ → List (Text × List ℕ) → Pass W → List Text × Pass W
  unfolding attempts record_success record_failure
  replicate_block block source locations needed [] p = ([], p)
  replicate_block block source locations zero (n ∷ nodes) p = ([], p)
  replicate_block block source locations (suc needed) ((id, d) ∷ nodes) p =
      elim (contains id locations) [
        | true ↦ replicate_block block source locations (suc needed) nodes p
        | false ↦
            let (success, q) = attempts id block source p in
            let p' = after_attempts id success q in
            elim success [
              | true ↦
                  let (done, r) = replicate_block block source locations needed nodes p' in
                  (id ∷ done, r)
              | false ↦ replicate_block block source locations (suc needed) nodes p'
            ]
      ]

  -- One block of the pass.
  unfoldable pub sync_block : Text → List Text → InMemoryDistribute × W → InMemoryDistribute × W
  unfolding replicate_block candidates get_service_address
  sync_block block [] (d, w) = (d, w)
  sync_block block (source ∷ others) (d, w) =
      let locations = source ∷ others in
      if leb d.rep_factor (length locations) then (d, w) else elim (decode_id block) [
        | none ↦ (d, w)
        | some block_bytes ↦
            let nodes = candidates block_bytes d.services in
            let (source_addr, d', w') = get_service_address discover d w source false in
            elim source_addr [
              | none ↦ (d', w')
              | some a ↦
                  let (done, r) =
                    replicate_block block source locations (d.rep_factor - length locations) nodes
                      (record { state = d'; world = w'; source_addr = a }) in
                  (r.state, r.world)
            ]
      ]

  unfoldable pub sync_blocks :
      GoMap Text (List Text) → InMemoryDistribute × W → InMemoryDistribute × W
  unfolding sync_block
  sync_blocks [] s = s
  sync_blocks ((block, locations) ∷ blocks) s = sync_blocks blocks (sync_block block locations s)
