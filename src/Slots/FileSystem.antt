-- ===== src/Slots/FileSystem.antt =====
-- internal/slots/fs_slots.go: the slots kept in a journalled store. The outcome of each write of the
-- journal is an argument. Update reads the record and writes it under two locks; a call that comes in
-- between is not modelled.
pub mod Refinement
use invariant_go.Shared.{
  Channel, send, ℕ, String, Bool, Option, none, some, List, [], ◌∷◌, ◌++◌, map, Text, eq_text,
  GoMap, lookup, send_chunks, chunk_size_or_default,
}
use invariant_go.Journal
use invariant_go.Journal.{Store, Disk, WriteResult, PutResult, Outcome, refused, logged, done}
use invariant_go.Slots.Memory.{
  SlotRecord, SlotError, slot_not_found, slot_exists, Got, found, failed, check_update,
}

pub record FileSystemSlots : Type 0 where
  pub id : Text
  pub subscribers : List Channel
  pub store : Store Text SlotRecord
  pub disk : Disk Text SlotRecord

unfoldable pub get : FileSystemSlots → Text → Got
unfolding Journal.get
get s id = elim (Journal.get id s.store) [ none ↦ failed slot_not_found | some r ↦ found r.address ]

abbrev check_absent : Text → GoMap Text SlotRecord → Option SlotError
check_absent id store = elim (lookup id store) [ none ↦ none | some r ↦ some slot_exists ]

abbrev notified : Text → PutResult SlotError → List Channel → List Channel
notified id (logged done) chs = map (send id) chs
notified id _ chs = chs

unfoldable pub create :
    FileSystemSlots
    → WriteResult Text SlotRecord
    → Text
    → Text
    → String
    → PutResult SlotError × FileSystemSlots
unfolding Journal.put
create s result id address policy =
    let (r, st, d) =
      Journal.put id (record { address = address; policy = policy }) (check_absent id) result
        s.store s.disk in
    (r, record s { store = st; disk = d; subscribers = notified id r s.subscribers })

unfoldable pub list_slots : FileSystemSlots → ℕ → List (List Text)
list_slots s chunk_size =
    send_chunks (chunk_size_or_default chunk_size) [] (map (λ (id, r). id) s.store.store)

unfoldable pub close : FileSystemSlots → FileSystemSlots
unfolding Journal.close
close s = record s { store = Journal.close s.store }

unfoldable pub subscribe : FileSystemSlots → FileSystemSlots
subscribe s = record s { subscribers = s.subscribers ++ [] ∷ [] }

module _ (verify : List ℕ → Text → List ℕ → Bool) (marshal : Text → Text → Text) where
  unfoldable pub update :
      FileSystemSlots
      → WriteResult Text SlotRecord
      → Text
      → Text
      → Text
      → List ℕ
      → PutResult SlotError × FileSystemSlots
  unfolding Journal.put check_update Journal.get
  update s result id address previous auth = elim (Journal.get id s.store) [
    | none ↦ (refused slot_not_found, s)
    | some r ↦
        let (res, st, d) =
          Journal.put id (record { address = address; policy = r.policy })
            (λ store. check_update verify marshal id address previous auth (lookup id store)) result
            s.store s.disk in
        (res, record s { store = st; disk = d })
  ]
