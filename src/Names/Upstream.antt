-- ===== src/Names/Upstream.antt =====
-- internal/names/upstream.go: local names that fall back to a parent service and cache its answers.
pub mod Cache
use invariant_go.Shared.{
  ◌≡◌, refl, sym, ◌∙◌, Bool, true, false, ◌||◌, Option, none, some, Option-cases, Bool-cases, inl,
  inr, List, [], ◌∷◌, ◌++◌, if◌then◌else◌, ◌==◌, Text, eq_text, contains, contains-append, lookup,
  insert, lookup-insert, beq_self, arith,
}
use invariant_go.Names.Memory
use invariant_go.Names.Memory.{
  NameEntry, NamesError, not_found, precondition_failed, other_error, Answer, answer, failure,
  InMemoryNames,
}

-- The interface Names, on a state of type S. A Get may change the state, as that of a service which
-- caches does; `some error` is the error of a Put or Delete.
pub record NamesOps {ℓ} (S : Type ℓ) : Type ℓ where
  pub get : S → Text → Answer NameEntry × S
  pub put : S → Text → Text → List Text → Option NamesError × S
  pub remove : S → Text → Text → Option NamesError × S
  pub lookup_names : S → Text → Answer (List Text)

abbrev pub in_memory_ops : NamesOps InMemoryNames
in_memory_ops = record {
  get = λ s name. (Memory.get s name, s);
  put = λ s name value tokens. (none, Memory.put s name value tokens);
  remove = Memory.remove;
  lookup_names = λ s id. answer (Memory.lookup_names s id);
}

pub record UpstreamNames {ℓ} (S T : Type ℓ) : Type ℓ where
  pub local : S
  pub parent : Option T

-- The loop over the parent's results; `seen` has the local ones only.
unfoldable pub add_unseen : List Text → List Text → List Text
add_unseen seen [] = []
add_unseen seen (name ∷ names) =
    let rest = add_unseen seen names in if contains name seen then rest else name ∷ rest

-- Lookup returns the names, and the parent's error with the local names if the parent fails.
pub data Combined : Type 0 where
  combined : List Text → Combined
  local_only : List Text → NamesError → Combined
  no_names : NamesError → Combined

module _ {ℓ} {S T : Type ℓ} (l : NamesOps S) (p : NamesOps T) where
  -- The error of the Put that caches the entry is ignored.
  unfoldable pub get : UpstreamNames S T → Text → Answer NameEntry × UpstreamNames S T
  get u name =
      let (r, local) = l.get u.local name in
      elim r [
        | answer e ↦ (answer e, record u { local = local })
        | failure not_found ↦ elim u.parent [
          | none ↦ (failure not_found, record u { local = local })
          | some t ↦
              let (pr, t') = p.get t name in
              elim pr [
                | answer e ↦ (
                  answer e,
                  record { local = (l.put local name e.value e.tokens).1; parent = some t' },
                )
                | failure error ↦ (failure error, record { local = local; parent = some t' })
              ]
        ]
        | failure error ↦ (failure error, record u { local = local })
      ]

  unfoldable pub put :
      UpstreamNames S T → Text → Text → List Text → Option NamesError × UpstreamNames S T
  put u name value tokens =
      let (r, local) = l.put u.local name value tokens in (r, record u { local = local })

  unfoldable pub remove : UpstreamNames S T → Text → Text → Option NamesError × UpstreamNames S T
  remove u name expected =
      let (r, local) = l.remove u.local name expected in (r, record u { local = local })

  unfoldable pub lookup_names : UpstreamNames S T → Text → Combined
  unfolding add_unseen
  lookup_names u id = elim (l.lookup_names u.local id) [
    | failure error ↦ no_names error
    | answer names ↦ elim u.parent [
      | none ↦ combined names
      | some t ↦ elim (p.lookup_names t id) [
        | failure error ↦ local_only names error
        | answer more ↦ combined (names ++ add_unseen names more)
      ]
    ]
  ]
