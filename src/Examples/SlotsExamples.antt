-- ===== src/Examples/SlotsExamples.antt =====
-- Slots with a protected and a free record, where every signature is refused, every one accepted, or
-- one that is the message itself.
use invariant_go.Shared.{
  inl, inr, ℕ, ◌==◌, sym, ◌∙◌, String, ◌≡◌, ◌≢◌, refl, Bool, true, false, none, some, List, [], ◌∷◌,
  Text, eq_text, list_eq, list_eq_iff, eq_nat, lookup, replicate, All, arith, decode_string,
}
use invariant_go.Journal.{write_ok, absent}
use invariant_go.Slots.Memory
use invariant_go.Slots.Memory.{MemorySlots, SlotRecord, conflict, authorized, update}
use invariant_go.Slots.Memory.Signature.{SignedBy}
use invariant_go.Slots.Memory.Swap.{
  Call, creates, updates, Swapped, update-Swapped, second_writer_conflicts, run, Unsigned,
  protected_slot_stays,
}
use invariant_go.Slots.FileSystem
use invariant_go.Slots.FileSystem.{FileSystemSlots}
use invariant_go.Slots.FileSystem.Refinement.{view, result_of, file_system-refines-memory}

abbrev refuses : List ℕ → Text → List ℕ → Bool
refuses key message signature = false

abbrev joined : Text → Text → Text
joined a prev = a

abbrev free_id : Text
free_id = b'f' ∷ []

abbrev ecc_id : Text
ecc_id = b'e' ∷ []

abbrev ecc_record : SlotRecord
ecc_record = record { address = 1 ∷ []; policy = "ecc" }

abbrev slots : MemorySlots
slots = record {
  id = [];
  slots = (free_id, record { address = 7 ∷ []; policy = "" }) ∷ (ecc_id, ecc_record) ∷ [];
  subscribers = [] ∷ [];
}

abbrev accepts : List ℕ → Text → List ℕ → Bool
accepts key message signature = true

-- An identifier of 64 digits decodes to a key of 32 bytes.
abbrev key_id : Text
key_id = replicate 64 b'a'

abbrev key_slots : MemorySlots
key_slots = record {
  id = [];
  slots = (key_id, record { address = 7 ∷ []; policy = "ecc" }) ∷ [];
  subscribers = [];
}

first_succeeds : (update accepts joined key_slots key_id (8 ∷ []) (7 ∷ []) []).0 ≡ none
unfolding update lookup list_eq decode_string
first_succeeds = refl

addresses_differ : ◌≢◌ {A = Text} (8 ∷ []) (7 ∷ [])
unfolding list_eq
addresses_differ p = apart ((list_eq_iff (8 ∷ []) (7 ∷ [])).1 p)
  where
    apart : false ≡ true → ⊥
    apart q = cc

signed : (policy : String) → authorized accepts joined key_id (9 ∷ []) (7 ∷ []) [] policy ≡ true
unfolding authorized decode_string
signed policy = ground arith

second_writer_conflicts_example :
    update accepts joined
      (update accepts joined key_slots key_id (8 ∷ []) (7 ∷ []) []).1
      key_id
      (9 ∷ [])
      (7 ∷ [])
      []
    ≡ (some conflict, (update accepts joined key_slots key_id (8 ∷ []) (7 ∷ []) []).1)
second_writer_conflicts_example =
    second_writer_conflicts accepts joined key_slots key_id (8 ∷ []) (9 ∷ []) (7 ∷ []) [] []
      first_succeeds addresses_differ signed

-- A signature of a message is the message itself.
abbrev checks : List ℕ → Text → List ℕ → Bool
checks key message signature = signature == message

abbrev calls : List Call
calls =
    updates key_id (8 ∷ []) (7 ∷ []) (1 ∷ [])
    ∷ creates key_id (3 ∷ []) ""
    ∷ updates key_id (9 ∷ []) (7 ∷ []) []
    ∷ []

unsigned :
    (a signature : List ℕ)
    → (signature == a) ≡ false
    → ¬ SignedBy checks joined key_id a (7 ∷ []) signature "ecc"
unfolding SignedBy
unsigned a signature h (inl other) = other refl
unsigned a signature h (inr (key, decoded, size, valid)) = absurd (apart (sym valid ∙ h))
  where
    apart : true ≡ false → ⊥
    apart q = cc

calls-Unsigned : All (Unsigned checks joined key_id) calls
unfolding list_eq
calls-Unsigned =
    (inr (unsigned (8 ∷ []) (1 ∷ []) refl), (tt, (inr (unsigned (9 ∷ []) [] refl), tt)))

abbrev key_record : SlotRecord
key_record = record { address = 7 ∷ []; policy = "ecc" }

key_found : lookup key_id key_slots.slots ≡ some key_record
unfolding lookup list_eq
key_found = refl

protected_slot_stays_example :
    lookup key_id (run checks joined key_slots calls).slots ≡ some key_record
protected_slot_stays_example =
    protected_slot_stays checks joined key_slots key_id key_record calls refl key_found
      calls-Unsigned

update-Swapped_example :
    Swapped checks joined key_slots key_id
      (8 ∷ [])
      (7 ∷ [])
      (1 ∷ [])
      (lookup key_id key_slots.slots)
      (update checks joined key_slots key_id (8 ∷ []) (7 ∷ []) (1 ∷ []))
update-Swapped_example = update-Swapped checks joined key_slots key_id (8 ∷ []) (7 ∷ []) (1 ∷ [])

abbrev stored : FileSystemSlots
stored = record {
  id = [];
  subscribers = [] ∷ [];
  store = record { store = slots.slots; journal = some 3 };
  disk = record { snapshot = absent; journals = (3, record { lines = []; tail = none }) ∷ [] };
}

file_system-refines-memory_example :
    (let (r, s') = FileSystem.create stored write_ok free_id (9 ∷ []) "" in
      (result_of r, view s') ≡ Memory.create (view stored) free_id (9 ∷ []) "")
    × (let (r, s') =
          FileSystem.update refuses joined stored write_ok free_id (9 ∷ []) (7 ∷ []) [] in
        (result_of r, view s')
        ≡ Memory.update refuses joined (view stored) free_id (9 ∷ []) (7 ∷ []) [])
    × (FileSystem.get stored free_id ≡ Memory.get (view stored) free_id)
file_system-refines-memory_example =
    file_system-refines-memory refuses joined stored 3 free_id (9 ∷ []) (7 ∷ []) "" [] refl
