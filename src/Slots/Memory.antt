-- ===== src/Slots/Memory.antt =====
-- internal/slots/slots.go and inmemory_slots.go. The signature check and the JSON of a request are
-- parameters: `verify key message signature` and `marshal address previous`.
pub mod Signature
pub mod Swap
use invariant_go.Shared.{
  Channel, send, ℕ, String, Bool, true, false, ◌&&◌, Option, none, some, List, [], ◌∷◌, ◌++◌, map,
  length, ltb, nat_eq, if◌then◌else◌, ◌==◌, eq_string, Text, eq_text, decode_string, GoMap, lookup,
  insert, send_chunks, chunk_size_or_default,
}

pub record SlotRecord : Type 0 where
  pub address : Text
  pub policy : String

pub data SlotError : Type 0 where
  slot_not_found conflict slot_exists unauthorized : SlotError

pub record MemorySlots : Type 0 where
  pub id : Text
  pub slots : GoMap Text SlotRecord
  pub subscribers : List Channel

unfoldable pub new_memory_slots : Text → MemorySlots
new_memory_slots id = record { id = id; slots = []; subscribers = [] }

pub data Got : Type 0 where
  found : Text → Got
  failed : SlotError → Got

unfoldable pub get : MemorySlots → Text → Got
get m id = elim (lookup id m.slots) [ none ↦ failed slot_not_found | some r ↦ found r.address ]

unfoldable pub notify_subscribers : MemorySlots → Text → MemorySlots
unfolding send
notify_subscribers m id = record m { subscribers = map (send id) m.subscribers }

unfoldable pub subscribe : MemorySlots → MemorySlots
subscribe m = record m { subscribers = m.subscribers ++ [] ∷ [] }

-- nil is `none`.
unfoldable pub create : MemorySlots → Text → Text → String → Option SlotError × MemorySlots
unfolding notify_subscribers
create m id address policy = elim (lookup id m.slots) [
  | some r ↦ (some slot_exists, m)
  | none ↦ (
    none,
    notify_subscribers
        (record m { slots = insert id (record { address = address; policy = policy }) m.slots }) id,
  )
]

-- The batches of List, with the keys in the order of the map.
unfoldable pub list_slots : MemorySlots → ℕ → List (List Text)
list_slots m chunk_size =
    send_chunks (chunk_size_or_default chunk_size) [] (map (λ (id, r). id) m.slots)

-- ed25519.PublicKeySize
abbrev pub public_key_size : ℕ
public_key_size = 32

-- The new record keeps the policy of the old one.
abbrev pub with_address :
    Text → Text → Option SlotRecord → GoMap Text SlotRecord → GoMap Text SlotRecord
with_address id address none slots = slots
with_address id address (some r) slots = insert id (record r { address = address }) slots

module _ (verify : List ℕ → Text → List ℕ → Bool) (marshal : Text → Text → Text) where
  -- The identifier of a protected slot is the key that its updates are signed with.
  unfoldable pub authorized : Text → Text → Text → List ℕ → String → Bool
  authorized id address previous auth policy =
      if policy == "ecc"
      then elim (decode_string id) [
        | none ↦ false
        | some pub_key ↦
            nat_eq (length pub_key) public_key_size
            && verify pub_key (marshal address previous) auth
      ]
      else true

  -- The error of an update, if the slot's record allows none.
  unfoldable pub check_update : Text → Text → Text → List ℕ → Option SlotRecord → Option SlotError
  unfolding authorized
  check_update id address previous auth none = some slot_not_found
  check_update id address previous auth (some r) =
      if authorized id address previous auth r.policy
      then (if r.address == previous then none else some conflict)
      else some unauthorized

  unfoldable pub update : MemorySlots → Text → Text → Text → List ℕ → Option SlotError × MemorySlots
  unfolding check_update
  update m id address previous auth =
      let slot = lookup id m.slots in
      elim (check_update id address previous auth slot) [
        | some error ↦ (some error, m)
        | none ↦ (none, record m { slots = with_address id address slot m.slots })
      ]
