-- ===== src/Slots/Memory/Swap.antt =====
-- An update is an atomic compare-and-swap, and a protected slot moves by its key only.
use invariant_go.Shared.{
  ℕ, ◌≡◌, ◌≢◌, refl, ◌∙◌, String, Bool, true, false, Option, none, some, Option-cases, Bool-cases,
  ◌⊎◌, inl, inr, List, [], ◌∷◌, if◌then◌else◌, ◌==◌, eq_string, eq_nat, Text, eq_text, lookup,
  lookup-insert, arith, beq_self, All,
}
use invariant_go.Slots.Memory.Signature.{SignedBy, auth_ok-SignedBy, not_SignedBy}
use invariant_go.Slots.Memory.{
  SlotRecord, SlotError, slot_not_found, conflict, unauthorized, MemorySlots, create,
  notify_subscribers, authorized, update,
}

-- What clients ask for.
pub data Call : Type 0 where
  creates : Text → Text → String → Call
  updates : Text → Text → Text → List ℕ → Call

module _ (verify : List ℕ → Text → List ℕ → Bool) (marshal : Text → Text → Text) where
  abbrev pub auth_ok : Text → Text → Text → List ℕ → String → Bool
  auth_ok = authorized verify marshal

  -- What an update must do to the slots, by the record that it finds.
  abbrev pub Swapped :
      MemorySlots
      → Text
      → Text
      → Text
      → List ℕ
      → Option SlotRecord
      → Option SlotError × MemorySlots
      → Type 0
  Swapped m id a prev auth none r = r ≡ (some slot_not_found, m)
  Swapped m id a prev auth (some rec) r =
      (¬ SignedBy verify marshal id a prev auth rec.policy × (r ≡ (some unauthorized, m)))
      ⊎ (SignedBy verify marshal id a prev auth rec.policy
          × (rec.address ≢ prev)
          × (r ≡ (some conflict, m)))
      ⊎ (SignedBy verify marshal id a prev auth rec.policy
          × (rec.address ≡ prev)
          × (r.0 ≡ none)
          × (r.1.subscribers ≡ m.subscribers)
          × ((j : Text)
              → lookup j r.1.slots ≡ (
                  if id == j
                  then some (record { address = a; policy = rec.policy })
                  else lookup j m.slots)))

  update-some :
      (m : MemorySlots) (id a prev : Text) (auth : List ℕ) (rec : SlotRecord)
      → lookup id m.slots ≡ some rec
      → Swapped m id a prev auth (some rec) (update verify marshal m id a prev auth)
  unfolding update
  update-some m id a prev auth rec e = elim (Bool-cases (auth_ok id a prev auth rec.policy)) [
    | inr bad ↦ inl (not_SignedBy verify marshal id a prev auth rec.policy bad, ground arith)
    | inl ok ↦ elim (Bool-cases (rec.address == prev)) [
      | inr off ↦ inr (
          inl (
            auth_ok-SignedBy verify marshal id a prev auth rec.policy ok,
            λ q. differs q off,
            ground (arith, eq_text.beq_iff rec.address prev),
          ))
      | inl at ↦ inr (
          inr (
            auth_ok-SignedBy verify marshal id a prev auth rec.policy ok,
            (eq_text.beq_iff _ _).0 at,
            ground (arith, eq_text.beq_iff rec.address prev),
            ground (arith, eq_text.beq_iff rec.address prev),
            λ j. ground (
              arith,
              eq_text.beq_iff rec.address prev,
              lookup-insert id j (record rec { address = a }) m.slots,
            ),
          ))
    ]
  ]
    where
      differs : rec.address ≡ prev → (rec.address == prev) ≡ false → ⊥
      differs q off = ground (arith, eq_text.beq_iff rec.address prev)

  update-none :
      (m : MemorySlots) (id a prev : Text) (auth : List ℕ)
      → lookup id m.slots ≡ none
      → update verify marshal m id a prev auth ≡ (some slot_not_found, m)
  unfolding update
  update-none m id a prev auth e = ground arith

  -- An update of a missing slot fails. One of a slot that exists fails with no change if it
  -- is protected and its identifier is not a key that accepts the signature, fails with no change if the previous address is another, and
  -- otherwise succeeds and changes the address of this slot alone, keeping its policy.
  pub update-Swapped :
      (m : MemorySlots) (id a prev : Text) (auth : List ℕ)
      → Swapped m id a prev auth (lookup id m.slots) (update verify marshal m id a prev auth)
  update-Swapped m id a prev auth = go (lookup id m.slots) refl
    where
      go :
          (o : Option SlotRecord)
          → lookup id m.slots ≡ o
          → Swapped m id a prev auth o (update verify marshal m id a prev auth)
      go none e = update-none m id a prev auth e
      go (some rec) e = update-some m id a prev auth rec e

  -- Of two writers that read the same address, the second gets a conflict and changes nothing, if the
  -- first one moved the slot to another address; whoever signs it, if its signature serves.
  pub second_writer_conflicts :
      (m : MemorySlots) (id a b prev : Text) (auth1 auth2 : List ℕ)
      → (update verify marshal m id a prev auth1).0 ≡ none
      → a ≢ prev
      → ((policy : String) → auth_ok id b prev auth2 policy ≡ true)
      → update verify marshal (update verify marshal m id a prev auth1).1 id b prev auth2
        ≡ (some conflict, (update verify marshal m id a prev auth1).1)
  unfolding update
  second_writer_conflicts m id a b prev auth1 auth2 h ne ok =
      elim (Option-cases (lookup id m.slots)) [
        | inl e ↦ ground arith
        | inr (rec, e) ↦ ground (
          arith,
          ok rec.policy,
          eq_text.beq_iff rec.address prev,
          eq_text.beq_iff a prev,
          beq_self id,
          lookup-insert id id (record rec { address = a }) m.slots,
        )
      ]

  unfoldable pub step : MemorySlots → Call → MemorySlots
  step m (creates id a policy) = (create m id a policy).1
  step m (updates id a prev auth) = (update verify marshal m id a prev auth).1

  unfoldable pub run : MemorySlots → List Call → MemorySlots
  unfolding step
  run m [] = m
  run m (c ∷ cs) = run (step m c) cs

  -- No update of `id` in the list carries a signature that its identifier accepts as a key.
  abbrev pub Unsigned : Text → Call → Type 0
  Unsigned id (creates j a policy) = Unit
  Unsigned id (updates j a prev auth) = (j ≢ id) ⊎ ¬ SignedBy verify marshal id a prev auth "ecc"

  unsigned_elsewhere :
      (m : MemorySlots) (id j a prev : Text) (auth : List ℕ) (r : SlotRecord)
      → lookup j m.slots ≡ some r
      → (j == id) ≡ false
      → lookup id (update verify marshal m j a prev auth).1.slots ≡ lookup id m.slots
  unsigned_elsewhere m id j a prev auth r some_j other =
      elim (update-some m j a prev auth r some_j) [
        | inl (bad, same) ↦ rw same refl
        | inr (inl (ok, off, same)) ↦ rw same refl
        | inr (inr (ok, at, done, subs, slots)) ↦ slots id ∙ rw other refl
      ]

  update_unsigned :
      (m : MemorySlots) (id j a prev : Text) (auth : List ℕ) (rec : SlotRecord)
      → rec.policy ≡ "ecc"
      → lookup id m.slots ≡ some rec
      → (j ≢ id) ⊎ ¬ SignedBy verify marshal id a prev auth "ecc"
      → lookup id (update verify marshal m j a prev auth).1.slots ≡ some rec
  update_unsigned m id j a prev auth rec p e u = elim (Bool-cases (j == id)) [
    | inl same ↦ same_slot ((eq_text.beq_iff j id).0 same)
    | inr other ↦ elim (Option-cases (lookup j m.slots)) [
      | inl none_j ↦ rw (update-none m j a prev auth none_j) e
      | inr (r, some_j) ↦ unsigned_elsewhere m id j a prev auth r some_j other ∙ e
    ]
  ]
    where
      refused :
          ¬ SignedBy verify marshal id a prev auth rec.policy
          → lookup id (update verify marshal m id a prev auth).1.slots ≡ some rec
      refused bad = elim (update-some m id a prev auth rec e) [
        | inl (_, same) ↦ rw same e
        | inr (inl (_, off, same)) ↦ rw same e
        | inr (inr (ok, at, done, subs, slots)) ↦ absurd (bad ok)
      ]

      same_slot : j ≡ id → lookup id (update verify marshal m j a prev auth).1.slots ≡ some rec
      same_slot q = elim u [ inl off ↦ absurd (off q) | inr bad ↦ rw q (refused (rw p bad)) ]

  step-Unsigned :
      (m : MemorySlots) (id : Text) (rec : SlotRecord) (c : Call)
      → rec.policy ≡ "ecc"
      → lookup id m.slots ≡ some rec
      → Unsigned id c
      → lookup id (step m c).slots ≡ some rec
  unfolding step create notify_subscribers
  step-Unsigned m id rec (creates j a policy) p e u = ground (
    arith,
    eq_text.beq_iff j id,
    lookup-insert j id (record { address = a; policy = policy }) m.slots,
  )
  step-Unsigned m id rec (updates j a prev auth) p e u =
      update_unsigned m id j a prev auth rec p e u

  -- Whatever any number of clients create and update, a protected slot keeps its record as long as no
  -- update of it is signed with the key that is its identifier.
  pub protected_slot_stays :
      (m : MemorySlots) (id : Text) (rec : SlotRecord) (cs : List Call)
      → rec.policy ≡ "ecc"
      → lookup id m.slots ≡ some rec
      → All (Unsigned id) cs
      → lookup id (run m cs).slots ≡ some rec
  unfolding run
  protected_slot_stays m id rec [] p e u = e
  protected_slot_stays m id rec (c ∷ cs) p e (uc, u) =
      protected_slot_stays (step m c) id rec cs p (step-Unsigned m id rec c p e uc) u
