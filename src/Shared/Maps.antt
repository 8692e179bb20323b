-- ===== src/Shared/Maps.antt =====
-- Go's `map[K]V` as a list of pairs. The order of the pairs stands for the order in which a `range`
-- loop meets the keys, which Go leaves open.
use mathlib.Core.Path.{◌≡◌, refl, subst, ap₂}
use mathlib.Core.Logic.{inl, inr}
use mathlib.Core.Bool.{Bool, true, false, ◌||◌}
use mathlib.Core.Option.{Option, none, some, some-injective}
use mathlib.Core.List.{List, [], ◌∷◌, ◌++◌}
use native.Mathlib.Omega.{arith}
use invariant_go.Shared.Tests.{Eq, ◌==◌, if◌then◌else◌, Bool-cases}
use invariant_go.Shared.Lists.{contains, contains-append, All}

abbrev pub GoMap {ℓ} : Type ℓ → Type ℓ → Type ℓ
GoMap K V = List (K × V)

module _ {ℓ} {K V : Type ℓ} ⦃e : Eq K⦄ where
  -- v, ok := m[k]
  unfoldable pub lookup : K → GoMap K V → Option V
  lookup k [] = none
  lookup k ((j, v) ∷ m) = if j == k then some v else lookup k m

  -- m[k] = v
  unfoldable pub insert : K → V → GoMap K V → GoMap K V
  insert k v [] = (k, v) ∷ []
  insert k v ((j, w) ∷ m) = if j == k then (k, v) ∷ m else (j, w) ∷ insert k v m

  -- delete(m, k)
  unfoldable pub delete : K → GoMap K V → GoMap K V
  delete k [] = []
  delete k ((j, w) ∷ m) = let rest = delete k m in if j == k then rest else (j, w) ∷ rest

  pub lookup-insert :
      (key other : K) (v : V) (m : GoMap K V)
      → lookup other (insert key v m) ≡ (if key == other then some v else lookup other m)
  unfolding lookup insert
  lookup-insert key other v [] = refl
  lookup-insert key other v ((i, old) ∷ rest) = ground (
    arith,
    e.beq_iff i other,
    e.beq_iff i key,
    e.beq_iff key other,
    lookup-insert key other v rest,
  )

  pub lookup-delete :
      (k j : K) (m : GoMap K V) → lookup j (delete k m) ≡ (if k == j then none else lookup j m)
  unfolding lookup delete
  lookup-delete k j [] = ground arith
  lookup-delete k j ((i, w) ∷ m) =
      ground (arith, e.beq_iff k j, e.beq_iff i k, e.beq_iff i j, lookup-delete k j m)

-- _, ok := m[k]
abbrev pub is_some {ℓ} : {A : Type ℓ} → Option A → Bool
is_some none = false
is_some (some a) = true

abbrev pub keys {ℓ} : {K V : Type ℓ} → GoMap K V → List K
keys [] = []
keys ((k, v) ∷ m) = k ∷ keys m

-- No key stands twice, as in every map that Go code builds.
abbrev pub DistinctKeys {ℓ} : {K V : Type ℓ} ⦃e : Eq K⦄ → GoMap K V → Type 0
DistinctKeys [] = Unit
DistinctKeys ((k, v) ∷ m) = (contains k (keys m) ≡ false) × DistinctKeys m

module _ {ℓ} {K V : Type ℓ} ⦃e : Eq K⦄ where
  contains-keys-insert :
      (j k : K) (v : V) (m : GoMap K V)
      → contains j (keys (insert k v m)) ≡ (k == j || contains j (keys m))
  unfolding contains insert
  contains-keys-insert j k v [] = ground arith
  contains-keys-insert j k v ((i, w) ∷ m) =
      ground (arith, e.beq_iff i k, e.beq_iff k j, e.beq_iff i j, contains-keys-insert j k v m)

  contains-keys-delete :
      (j k : K) (m : GoMap K V)
      → contains j (keys m) ≡ false
      → contains j (keys (delete k m)) ≡ false
  unfolding contains delete
  contains-keys-delete j k [] h = refl
  contains-keys-delete j k ((i, w) ∷ m) h = ground (arith, contains-keys-delete j k m)

  pub insert-DistinctKeys :
      (k : K) (v : V) (m : GoMap K V) → DistinctKeys m → DistinctKeys (insert k v m)
  unfolding insert
  insert-DistinctKeys k v [] h = (unfold contains in refl, tt)
  insert-DistinctKeys k v ((j, w) ∷ m) (new, h) = elim (Bool-cases (j == k)) [
    | inl same ↦ rw same (subst (λ i. contains i (keys m) ≡ false) ((e.beq_iff j k).0 same) new, h)
    | inr other ↦ rw other (
      ground (arith, contains-keys-insert j k v m, e.beq_iff k j, e.beq_iff j k),
      insert-DistinctKeys k v m h,
    )
  ]

  pub delete-DistinctKeys : (k : K) (m : GoMap K V) → DistinctKeys m → DistinctKeys (delete k m)
  unfolding delete
  delete-DistinctKeys k [] h = tt
  delete-DistinctKeys k ((j, w) ∷ m) (new, h) = elim (Bool-cases (j == k)) [
    | inl same ↦ rw same (delete-DistinctKeys k m h)
    | inr other ↦ rw other (contains-keys-delete j k m new, delete-DistinctKeys k m h)
  ]

  pub lookup-keys : (k : K) (m : GoMap K V) → contains k (keys m) ≡ is_some (lookup k m)
  unfolding contains lookup
  lookup-keys k [] = refl
  lookup-keys k ((j, v) ∷ m) = ground (arith, lookup-keys k m)

-- A property of the entries of a map.
module _ {ℓ κ} {K V : Type ℓ} ⦃e : Eq K⦄ (P : K × V → Type κ) where
  pub insert-All : (k : K) (v : V) (m : GoMap K V) → P (k, v) → All P m → All P (insert k v m)
  unfolding insert
  insert-All k v [] p h = (p, tt)
  insert-All k v ((j, w) ∷ m) p (q, h) = elim (Bool-cases (j == k)) [
    | inl same ↦ rw same (p, h)
    | inr other ↦ rw other (q, insert-All k v m p h)
  ]

  pub delete-All : (k : K) (m : GoMap K V) → All P m → All P (delete k m)
  unfolding delete
  delete-All k [] h = tt
  delete-All k ((j, w) ∷ m) (q, h) = elim (Bool-cases (j == k)) [
    | inl same ↦ rw same (delete-All k m h)
    | inr other ↦ rw other (q, delete-All k m h)
  ]

  pub lookup-All : (k : K) (v : V) (m : GoMap K V) → All P m → lookup k m ≡ some v → P (k, v)
  unfolding lookup
  lookup-All k v [] h found = absurd (nothing found)
    where
      nothing : ◌≡◌ {A = Option V} none (some v) → ⊥
      nothing q = cc
  lookup-All k v ((j, w) ∷ m) (q, h) found = elim (Bool-cases (j == k)) [
    | inl same ↦
        subst P
          (ap₂ (λ (x : K) (y : V). (x, y)) ((e.beq_iff j k).0 same)
            (some-injective _ _ (rw same at found)))
          q
    | inr other ↦ lookup-All k v m h (rw other at found)
  ]

-- map[K]struct{}: the keys, each once.
module _ {ℓ} {K : Type ℓ} ⦃e : Eq K⦄ where
  unfoldable pub set_add : K → List K → List K
  set_add k s = if contains k s then s else s ++ k ∷ []

  pub contains-set_add :
      (k j : K) (s : List K) → contains j (set_add k s) ≡ (k == j || contains j s)
  unfolding set_add contains
  contains-set_add k j s = ground (arith, contains-append j s (k ∷ []), e.beq_iff k j)

  pub set_add_idem : (k : K) (s : List K) → set_add k (set_add k s) ≡ set_add k s
  unfolding set_add
  set_add_idem k s = ground (arith, contains-append k s (k ∷ []), singleton)
    where
      singleton : contains k (k ∷ []) ≡ true
      singleton = unfold contains in ground (arith, e.beq_iff k k)
