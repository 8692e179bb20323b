-- ===== src/Distribute/Sync/Failures.antt =====
-- A service that fails too often in a row is forgotten.
pub mod Attempts
pub mod Rounds
use invariant_go.Shared.{
  ℕ, zero, suc, ◌+◌, ◌-◌, ◌≤◌, ◌<◌, ◌≡◌, refl, sym, ◌∙◌, ◌⊎◌, inl, inr, Bool, true, false, ◌&&◌,
  ◌||◌, not, Option, none, some, Bool-cases, Option-cases, List, [], ◌∷◌, ltb, leb, leb→le,
  if◌then◌else◌, ◌==◌, Text, eq_text, GoMap, lookup, insert, delete, contains, arith, subst, All,
  insert-All, delete-All, lookup-All, length,
}
use invariant_go.Distribute.Service.{
  NodeState, InMemoryDistribute, new_node_state, state_or_new, add_blocks, register, notify,
  get_service_address,
}
use invariant_go.Distribute.Sync.{
  candidates, Attempt, succeeded, fetch_failed, gave_up, Pass, first_attempt, second_attempt,
  attempts, record_success, record_failure, replicate_block, after_attempts, sync_block,
  sync_blocks, block_locations, decode_id,
}
use invariant_go.Distribute.Sync.Loop.{
  replicate_block-holds, replicate_block-success, replicate_block-failure, tried,
}
use invariant_go.Distribute.Sync.Destination.{
  Upload, reset_window, upload_block, upload_blocks, sync_to_destination, sync,
}

-- Every service has failed fewer times than the limit since its last success.
abbrev pub Tolerated : ℕ → Text × NodeState → Type 0
Tolerated max (id, state) = state.failures < max

abbrev pub Tolerates : InMemoryDistribute → Type 0
Tolerates d = (0 < d.max_attempts) × All (Tolerated d.max_attempts) d.services

-- An equal state tolerates the same.
pub moved : (d d' : InMemoryDistribute) → d ≡ d' → Tolerates d → Tolerates d'
moved d d' e h = subst Tolerates e h

pub insert-Tolerates :
    (d : InMemoryDistribute) (id : Text) (state : NodeState)
    → state.failures < d.max_attempts
    → Tolerates d
    → Tolerates (record d { services = insert id state d.services })
insert-Tolerates d id state f (pos, h) =
    (pos, insert-All (Tolerated d.max_attempts) id state d.services f h)

pub failures_of :
    (d : InMemoryDistribute) (id : Text) (state : NodeState)
    → Tolerates d
    → lookup id d.services ≡ some state
    → state.failures < d.max_attempts
failures_of d id state (pos, h) e = lookup-All (Tolerated d.max_attempts) id state d.services h e

pub record_success-Tolerates :
    (id : Text) (d : InMemoryDistribute) → Tolerates d → Tolerates (record_success id d)
unfolding record_success
record_success-Tolerates id d h = elim (Option-cases (lookup id d.services)) [
  | inl e ↦ moved d (record_success id d) (ground arith) h
  | inr (state, e) ↦
      moved (record d { services = insert id (record state { failures = 0 }) d.services })
        (record_success id d) (ground arith)
        (insert-Tolerates d id (record state { failures = 0 }) h.0 h)
]

pub record_failure-Tolerates :
    (id : Text) (d : InMemoryDistribute) → Tolerates d → Tolerates (record_failure id d)
unfolding record_failure
record_failure-Tolerates id d h = elim (Option-cases (lookup id d.services)) [
  | inl e ↦ moved d (record_failure id d) (ground arith) h
  | inr (state, e) ↦ elim (Bool-cases (leb d.max_attempts (state.failures + 1))) [
    | inl over ↦
        moved (record d { services = delete id d.services }) (record_failure id d) (ground arith)
          (h.0, delete-All (Tolerated d.max_attempts) id d.services h.1)
    | inr under ↦
        moved
          (record d {
            services = insert id (record state { failures = state.failures + 1 }) d.services;
          })
          (record_failure id d) (ground arith)
          (insert-Tolerates d id (record state { failures = state.failures + 1 }) (ground arith) h)
  ]
]

pub register-Tolerates :
    (d : InMemoryDistribute) (id : Text) → Tolerates d → Tolerates (register d id)
unfolding register
register-Tolerates d id h = elim (Option-cases (lookup id d.services)) [
  | inl e ↦
      moved (record d { services = insert id new_node_state d.services }) (register d id)
        (ground arith) (insert-Tolerates d id new_node_state h.0 h)
  | inr (state, e) ↦ moved d (register d id) (ground arith) h
]

pub notify-Tolerates :
    (d : InMemoryDistribute) (id : Text) (addresses : List Text)
    → Tolerates d
    → Tolerates (notify d id addresses)
unfolding notify
notify-Tolerates d id addresses h =
    elim (Bool-cases (not (d.destination == []) && id == d.destination)) [
      | inl e ↦
          moved (record d { destination_blocks = add_blocks addresses d.destination_blocks })
            (notify d id addresses) (ground arith) h
      | inr e ↦
          moved (record d { services = insert id added d.services }) (notify d id addresses)
            (ground arith) (insert-Tolerates d id added (known (lookup id d.services) refl) h)
    ]
  where
    added : NodeState
    added = record (state_or_new (lookup id d.services)) {
      blocks = add_blocks addresses (state_or_new (lookup id d.services)).blocks;
    }

    known :
        (o : Option NodeState)
        → lookup id d.services ≡ o
        → (state_or_new o).failures < d.max_attempts
    known none q = h.0
    known (some state) q = failures_of d id state h q
