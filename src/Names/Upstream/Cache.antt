-- ===== src/Names/Upstream/Cache.antt =====
-- What the fallback to a parent service answers, and what it keeps.
use invariant_go.Shared.{
  ◌≡◌, ◌⊎◌, refl, ap, ◌∙◌, ◌||◌, Option, some, Option-cases, Bool-cases, inl, inr, List, [], ◌∷◌,
  ◌++◌, ◌==◌, Text, eq_text, contains, contains-append, lookup, lookup-insert, beq_self, arith,
}
use invariant_go.Names.Memory
use invariant_go.Names.Memory.{
  NameEntry, NamesError, not_found, precondition_failed, other_error, Answer, answer, failure,
  InMemoryNames,
}
use invariant_go.Names.Upstream.{
  NamesOps, in_memory_ops, UpstreamNames, add_unseen, combined, get, lookup_names,
}

Answer-cases :
    (r : Answer NameEntry)
    → ((e : NameEntry) × (r ≡ answer e)) ⊎ ((error : NamesError) × (r ≡ failure error))
Answer-cases (answer e) = inl (e, refl)
Answer-cases (failure error) = inr (error, refl)

module _ {T : Type 0} (p : NamesOps T) where
  -- After a Get the local names hold the entry that it returned.
  get-local :
      (u : UpstreamNames InMemoryNames T) (name : Text) (e : NameEntry)
      → (get in_memory_ops p u name).0 ≡ answer e
      → lookup name (get in_memory_ops p u name).1.local.store ≡ some e
  unfolding get Memory.get Memory.put
  get-local u name e h = elim (Option-cases (lookup name u.local.store)) [
    | inr (old, found) ↦ ground arith
    | inl missing ↦ elim (Option-cases u.parent) [
      | inl gone ↦ ground arith
      | inr (t, there) ↦ ground (
        arith,
        Answer-cases (p.get t name).0,
        beq_self name,
        lookup-insert name name e u.local.store,
      )
    ]
  ]

  -- An entry that a Get over local names in memory has returned is returned by the next Get of the name,
  -- whatever the parent has become, and even if it is gone.
  pub get-get :
      (u : UpstreamNames InMemoryNames T) (name : Text) (e : NameEntry) (later : Option T)
      → (get in_memory_ops p u name).0 ≡ answer e
      → (get in_memory_ops p
          (record { local = (get in_memory_ops p u name).1.local; parent = later })
          name).0
        ≡ answer e
  unfolding Memory.get
  get-get u name e later h = unfold get in ground (arith, get-local u name e h)

contains-add_unseen :
    (name : Text) (seen names : List Text)
    → (contains name seen || contains name (add_unseen seen names))
      ≡ (contains name seen || contains name names)
unfolding contains add_unseen
contains-add_unseen name seen [] = refl
contains-add_unseen name seen (n ∷ names) = elim (Bool-cases (n == name)) [
  | inl same ↦ ground (
    arith,
    contains-add_unseen name seen names,
    ap (λ j. contains j seen) ((eq_text.beq_iff n name).0 same),
  )
  | inr other ↦ ground (arith, contains-add_unseen name seen names)
]

module _ {ℓ} {S T : Type ℓ} (l : NamesOps S) (p : NamesOps T) where
  -- If both services answer, a Lookup lists exactly the names that one of them lists.
  pub contains-lookup_names :
      (u : UpstreamNames S T) (t : T) (id : Text) (local_names parent_names : List Text)
      → u.parent ≡ some t
      → l.lookup_names u.local id ≡ answer local_names
      → p.lookup_names t id ≡ answer parent_names
      → (names : List Text) × (lookup_names l p u id ≡ combined names)
        × ((name : Text)
            → contains name names ≡ (contains name local_names || contains name parent_names))
  unfolding lookup_names
  contains-lookup_names u t id local_names parent_names hp hl ha = (
    local_names ++ add_unseen local_names parent_names,
    ground arith,
    λ name. contains-append name local_names _ ∙ contains-add_unseen name local_names parent_names,
  )
