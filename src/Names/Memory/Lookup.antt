-- ===== src/Names/Memory/Lookup.antt =====
-- The reverse lookup, and names after any sequence of calls.
use invariant_go.Shared.{
  ◌≡◌, ◌≢◌, ◌⊎◌, refl, subst, Bool, true, false, Option, none, some, Option-cases, Bool-cases, inl,
  inr, List, [], ◌∷◌, if◌then◌else◌, ◌==◌, Text, eq_text, GoMap, lookup, lookup-delete, contains,
  keys, DistinctKeys, insert-DistinctKeys, delete-DistinctKeys, arith,
}
use invariant_go.Names.Memory.{
  NameEntry, NamesError, not_found, precondition_failed, InMemoryNames, new_in_memory_names, put,
  check_delete, remove, names_with, lookup_names,
}

pub data Call : Type 0 where
  puts : Text → Text → List Text → Call
  deletes : Text → Text → Call

unfoldable pub step : InMemoryNames → Call → InMemoryNames
step s (puts name value tokens) = put s name value tokens
step s (deletes name expected) = (remove s name expected).1

unfoldable pub run : InMemoryNames → List Call → InMemoryNames
unfolding step
run s [] = s
run s (c ∷ cs) = run (step s c) cs

step-DistinctKeys :
    (s : InMemoryNames) (c : Call) → DistinctKeys s.store → DistinctKeys (step s c).store
unfolding step put remove
step-DistinctKeys s (puts name value tokens) h =
    insert-DistinctKeys name (record { value = value; tokens = tokens }) s.store h
step-DistinctKeys s (deletes name expected) h =
    elim (Option-cases (check_delete expected (lookup name s.store))) [
      | inl e ↦ subst DistinctKeys (ground arith) (delete-DistinctKeys name s.store h)
      | inr (error, e) ↦ subst DistinctKeys (ground arith) h
    ]

run-DistinctKeys :
    (s : InMemoryNames) (cs : List Call) → DistinctKeys s.store → DistinctKeys (run s cs).store
unfolding run
run-DistinctKeys s [] h = h
run-DistinctKeys s (c ∷ cs) h = run-DistinctKeys (step s c) cs (step-DistinctKeys s c h)

abbrev pub has_value : Text → Option NameEntry → Bool
has_value id none = false
has_value id (some e) = e.value == id

absent_name :
    (id name : Text) (m : GoMap Text NameEntry)
    → contains name (keys m) ≡ false
    → contains name (names_with id m) ≡ false
unfolding contains names_with
absent_name id name [] h = refl
absent_name id name ((k, e) ∷ m) h = ground (arith, absent_name id name m)

contains-names_with :
    (id name : Text) (m : GoMap Text NameEntry)
    → DistinctKeys m
    → contains name (names_with id m) ≡ has_value id (lookup name m)
unfolding contains names_with lookup
contains-names_with id name [] h = refl
contains-names_with id name ((k, e) ∷ m) (new, h) = elim (Bool-cases (k == name)) [
  | inl same ↦ here ((eq_text.beq_iff k name).0 same) same
  | inr other ↦ ground (arith, contains-names_with id name m h)
]
  where
    here :
        k ≡ name
        → (k == name) ≡ true
        → contains name (names_with id ((k, e) ∷ m)) ≡ has_value id (lookup name ((k, e) ∷ m))
    here p q =
        ground (arith, absent_name id name m (subst (λ j. contains j (keys m) ≡ false) p new))

-- After any sequence of Put and Delete on new names, the lookup of an identifier lists exactly the
-- names whose entry has the identifier as its value.
pub lookup_names-run :
    (id : Text) (cs : List Call) (value name : Text)
    → let s = run (new_in_memory_names id) cs in
      contains name (lookup_names s value) ≡ has_value value (lookup name s.store)
unfolding lookup_names new_in_memory_names
lookup_names-run id cs value name =
    contains-names_with value name _ (run-DistinctKeys (new_in_memory_names id) cs tt)

-- What a Delete must do, by the entry that it finds.
abbrev pub Deleted :
    InMemoryNames → Text → Text → Option NameEntry → Option NamesError × InMemoryNames → Type 0
Deleted s name expected none r = r ≡ (some not_found, s)
Deleted s name expected (some e) r =
    ((expected ≢ []) × (e.value ≢ expected) × (r ≡ (some precondition_failed, s)))
    ⊎ (((expected ≡ []) ⊎ (e.value ≡ expected))
        × (r.0 ≡ none)
        × (r.1.id ≡ s.id)
        × ((j : Text) → lookup j r.1.store ≡ (if name == j then none else lookup j s.store)))

remove-none :
    (s : InMemoryNames) (name expected : Text)
    → lookup name s.store ≡ none
    → remove s name expected ≡ (some not_found, s)
unfolding remove
remove-none s name expected h = ground arith

remove-some :
    (s : InMemoryNames) (name expected : Text) (e : NameEntry)
    → lookup name s.store ≡ some e
    → Deleted s name expected (some e) (remove s name expected)
unfolding remove
remove-some s name expected e h = elim (Option-cases (check_delete expected (some e))) [
  | inr (error, c) ↦ inl (
    ground (arith, eq_text.beq_iff expected [], eq_text.beq_iff e.value expected),
    ground (arith, eq_text.beq_iff expected [], eq_text.beq_iff e.value expected),
    ground arith,
  )
  | inl c ↦ inr (
    ground (arith, eq_text.beq_iff expected [], eq_text.beq_iff e.value expected),
    ground arith,
    ground arith,
    λ j. ground (arith, lookup-delete name j s.store),
  )
]

-- A Delete of a missing name fails. One that expects a value, which is not empty and not the name's, fails
-- and changes nothing; any other, also one that expects the empty value, succeeds and takes away this
-- name alone.
pub remove-Deleted :
    (s : InMemoryNames) (name expected : Text)
    → Deleted s name expected (lookup name s.store) (remove s name expected)
remove-Deleted s name expected = go (lookup name s.store) refl
  where
    go :
        (o : Option NameEntry)
        → lookup name s.store ≡ o
        → Deleted s name expected o (remove s name expected)
    go none h = remove-none s name expected h
    go (some e) h = remove-some s name expected e h
