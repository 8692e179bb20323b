-- ===== src/Examples/DistributeExamples.antt =====
-- The theorems on the replication at a concrete registry.
use invariant_go.Shared.{
  ℕ, suc, ◌≡◌, ◌≤◌, refl, Bool, true, Option, some, List, [], ◌∷◌, take, Text, eq_text, lookup,
  is_some, All, list_eq, arith, GoMap,
}
use invariant_go.Distribute.Service.{InMemoryDistribute, new_node_state, register, notify}
use invariant_go.Distribute.Sync.{Pass, replicate_block}
use invariant_go.Distribute.Sync.Destination.{sync, sync_to_destination}
use invariant_go.Distribute.Sync.Budget.{sync_to_destination-budget}
use invariant_go.Distribute.Sync.Failures.{Tolerates}
use invariant_go.Distribute.Sync.Failures.Rounds.{sync-Tolerates}
use invariant_go.Distribute.Sync.Replicas.{lacking, replicate_block-lacking}

-- A world that counts the requests, in which every service is found and fetches what it is told to.
abbrev discover : ℕ → Text → Option Text × ℕ
discover w id = (some id, suc w)

abbrev fetch : ℕ → Text → Text → Text → Text → Bool × ℕ
fetch w dest block source addr = (true, suc w)

abbrev sizes : ℕ → Text → Text → Option ℕ × ℕ
sizes w addr block = (some 5, suc w)

abbrev registry : InMemoryDistribute
registry = record {
  services =
      (1 ∷ [], record new_node_state { blocks = (7 ∷ []) ∷ [] })
      ∷ (2 ∷ [], record new_node_state { failures = 1 })
      ∷ (9 ∷ [], record new_node_state { is_destination = true })
      ∷ [];
  has_discovery = true;
  rep_factor = 2;
  max_attempts = 3;
  destination = 9 ∷ [];
  limited = true;
  max_bytes_per_hour = 12;
  destination_blocks = [];
  backup_window_start = 0;
  backup_bytes_uploaded = 4;
}

abbrev locations : GoMap Text (List Text)
locations = (7 ∷ [], (1 ∷ []) ∷ []) ∷ []

sync_to_destination-budget_example :
    (sync_to_destination discover fetch sizes 100 locations (registry, 0)).0.backup_bytes_uploaded
    ≤ 12
sync_to_destination-budget_example =
    sync_to_destination-budget discover fetch sizes 100 locations registry 0 refl (omega arith)

registry-Tolerates : Tolerates registry
registry-Tolerates = (omega arith, (omega arith, (omega arith, (omega arith, tt))))

sync-Tolerates_example :
    Tolerates (register registry (4 ∷ []))
    × Tolerates (notify registry (4 ∷ []) ((7 ∷ []) ∷ []))
    × Tolerates (sync discover fetch sizes 100 registry 0).0
sync-Tolerates_example =
    sync-Tolerates discover fetch sizes 100 registry 0 (4 ∷ []) ((7 ∷ []) ∷ []) registry-Tolerates

abbrev nodes : List (Text × List ℕ)
nodes = (1 ∷ [], 0 ∷ []) ∷ (2 ∷ [], 1 ∷ []) ∷ []

abbrev pass : Pass ℕ
pass = record { state = registry; world = 0; source_addr = 1 ∷ [] }

abbrev replicas : List Text
replicas = (replicate_block discover fetch (7 ∷ []) (1 ∷ []) ((1 ∷ []) ∷ []) 1 nodes pass).0

nodes_found : All (λ (id, dist). is_some (lookup id registry.services) ≡ true) nodes
unfolding lookup list_eq
nodes_found = (refl, (refl, tt))

replicate_block-lacking_example : replicas ≡ take 1 (lacking ((1 ∷ []) ∷ []) nodes)
replicate_block-lacking_example =
    replicate_block-lacking discover fetch (7 ∷ []) (1 ∷ []) ((1 ∷ []) ∷ []) 1 nodes pass
      nodes_found (λ w j. refl) (λ w a b s t. refl)
