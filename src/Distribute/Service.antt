-- ===== src/Distribute/Service.antt =====
-- internal/distribute/inmemory.go: the registry of the storage services and of their blocks.
use invariant_go.Shared.{
  ℕ, Bool, true, false, ◌&&◌, not, Option, none, some, List, [], ◌∷◌, if◌then◌else◌, ◌==◌, Text,
  eq_text, GoMap, lookup, insert, set_add,
}

-- `desc` is the address of the service description that discovery returned, if one is cached.
pub record NodeState : Type 0 where
  pub blocks : List Text
  pub desc : Option Text
  pub failures : ℕ
  pub is_destination : Bool

-- The rate is kept as the test whether it is positive and as the bytes per hour that it stands for;
-- times are in nanoseconds.
pub record InMemoryDistribute : Type 0 where
  pub services : GoMap Text NodeState
  pub has_discovery : Bool
  pub rep_factor : ℕ
  pub max_attempts : ℕ
  pub destination : Text
  pub limited : Bool
  pub max_bytes_per_hour : ℕ
  pub destination_blocks : List Text
  pub backup_window_start : ℕ
  pub backup_bytes_uploaded : ℕ

abbrev pub new_node_state : NodeState
new_node_state = record { blocks = []; desc = none; failures = 0; is_destination = false }

unfoldable pub new_in_memory_distribute : Bool → ℕ → ℕ → Text → Bool → ℕ → ℕ → InMemoryDistribute
new_in_memory_distribute has_discovery rep_factor max_attempts destination limited max_bytes now =
    record {
      services =
          if destination == []
          then []
          else (destination, record new_node_state { is_destination = true }) ∷ [];
      has_discovery = has_discovery;
      rep_factor = rep_factor;
      max_attempts = max_attempts;
      destination = destination;
      limited = limited;
      max_bytes_per_hour = max_bytes;
      destination_blocks = [];
      backup_window_start = now;
      backup_bytes_uploaded = 0;
    }

unfoldable pub register : InMemoryDistribute → Text → InMemoryDistribute
register d id = elim (lookup id d.services) [
  | some state ↦ d
  | none ↦ record d { services = insert id new_node_state d.services }
]

unfoldable pub add_blocks : List Text → List Text → List Text
add_blocks [] blocks = blocks
add_blocks (a ∷ addresses) blocks = add_blocks addresses (set_add a blocks)

abbrev pub state_or_new : Option NodeState → NodeState
state_or_new none = new_node_state
state_or_new (some state) = state

unfoldable pub notify : InMemoryDistribute → Text → List Text → InMemoryDistribute
unfolding add_blocks
notify d id addresses =
    if not (d.destination == []) && id == d.destination
    then record d { destination_blocks = add_blocks addresses d.destination_blocks }
    else let state = state_or_new (lookup id d.services) in
      record d {
        services =
            insert id (record state { blocks = add_blocks addresses state.blocks }) d.services;
      }

-- The blocks in the order of the map.
unfoldable pub get_blocks : InMemoryDistribute → Text → List Text
get_blocks d id = elim (lookup id d.services) [ none ↦ [] | some state ↦ state.blocks ]

-- What discovery answers is a parameter, on a state W of the world.
module _ {W : Type 0} (discover : W → Text → Option Text × W) where
  abbrev cache_desc : Text → Text → InMemoryDistribute → InMemoryDistribute
  cache_desc id address d = elim (lookup id d.services) [
    | none ↦ d
    | some state ↦ record d {
      services = insert id (record state { desc = some address }) d.services;
    }
  ]

  abbrev pub fetch_address : InMemoryDistribute → W → Text → Option Text × InMemoryDistribute × W
  fetch_address d w id =
      let (answer, w') = discover w id in
      elim answer [
        | none ↦ (none, d, w')
        | some address ↦ (some address, cache_desc id address d, w')
      ]

  unfoldable pub get_service_address :
      InMemoryDistribute → W → Text → Bool → Option Text × InMemoryDistribute × W
  get_service_address d w id force_refresh = elim (lookup id d.services) [
    | none ↦ (none, d, w)
    | some state ↦ elim state.desc [
      | none ↦ fetch_address d w id
      | some address ↦ if force_refresh then fetch_address d w id else (some address, d, w)
    ]
  ]
