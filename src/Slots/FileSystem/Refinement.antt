-- ===== src/Slots/FileSystem/Refinement.antt =====
-- The journalled slots behave as those in memory.
use invariant_go.Shared.{ℕ, ◌≡◌, String, Bool, Option, none, some, List, Text, eq_text, arith}
use invariant_go.Journal.{write_ok, PutResult, refused, logged, log_entry}
use invariant_go.Slots.Memory
use invariant_go.Slots.Memory.{MemorySlots, SlotRecord, SlotError, check_update, notify_subscribers}
use invariant_go.Slots.FileSystem
use invariant_go.Slots.FileSystem.{FileSystemSlots}

-- What a client sees: the slots and the channels.
abbrev pub view : FileSystemSlots → MemorySlots
view s = record { id = s.id; slots = s.store.store; subscribers = s.subscribers }

abbrev pub result_of : PutResult SlotError → Option SlotError
result_of (refused e) = some e
result_of (logged o) = none

module _ (verify : List ℕ → Text → List ℕ → Bool) (marshal : Text → Text → Text) where
  pub file_system-refines-memory :
      (s : FileSystemSlots) (name : ℕ) (id a prev : Text) (policy : String) (auth : List ℕ)
      → s.store.journal ≡ some name
      → (let (r, s') = FileSystem.create s write_ok id a policy in
          (result_of r, view s') ≡ Memory.create (view s) id a policy)
        × (let (r, s') = FileSystem.update verify marshal s write_ok id a prev auth in
            (result_of r, view s') ≡ Memory.update verify marshal (view s) id a prev auth)
        × (FileSystem.get s id ≡ Memory.get (view s) id)
  unfolding FileSystem.create FileSystem.update FileSystem.get Memory.create Memory.update
      Memory.get log_entry notify_subscribers
  file_system-refines-memory s name id a prev policy auth h =
      (ground arith, ground arith, ground arith)
