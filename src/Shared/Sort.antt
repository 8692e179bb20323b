-- ===== src/Shared/Sort.antt =====
-- `sort.Slice` and `sort.Strings`, as an insertion sort by the program's `less`. Go leaves open the
-- order of elements that `less` does not tell apart.
use Prim.Native.Nat.{suc}
use mathlib.Core.Path.{◌≡◌, refl}
use mathlib.Core.Bool.{Bool, true, false, ◌||◌}
use mathlib.Core.List.{List, [], ◌∷◌}
use native.Mathlib.Omega.{arith}
use invariant_go.Shared.Tests.{Eq, ◌==◌, if◌then◌else◌, Bool-cases}
use invariant_go.Shared.Lists.{length, contains, All}
use mathlib.Core.Logic.{inl, inr}

module _ {ℓ} {A : Type ℓ} where
  unfoldable pub insert_by : (A → A → Bool) → A → List A → List A
  insert_by less x [] = x ∷ []
  insert_by less x (y ∷ ys) =
      let rest = insert_by less x ys in if less y x then y ∷ rest else x ∷ y ∷ ys

  unfoldable pub sort_by : (A → A → Bool) → List A → List A
  unfolding insert_by
  sort_by less [] = []
  sort_by less (x ∷ xs) = insert_by less x (sort_by less xs)

  -- No element stands behind one that is greater.
  abbrev pub IsSorted : (A → A → Bool) → List A → Type ℓ
  IsSorted less [] = Unit
  IsSorted less (x ∷ xs) = All (λ y. less y x ≡ false) xs × IsSorted less xs

  length-insert_by :
      (less : A → A → Bool) (x : A) (xs : List A) → length (insert_by less x xs) ≡ suc (length xs)
  unfolding insert_by
  length-insert_by less x [] = refl
  length-insert_by less x (y ∷ ys) = ground (arith, length-insert_by less x ys)

  pub length-sort_by : (less : A → A → Bool) (xs : List A) → length (sort_by less xs) ≡ length xs
  unfolding sort_by
  length-sort_by less [] = refl
  length-sort_by less (x ∷ xs) =
      omega (arith, length-insert_by less x (sort_by less xs), length-sort_by less xs)

module _ {ℓ} {A : Type ℓ} ⦃e : Eq A⦄ where
  contains-insert_by :
      (less : A → A → Bool) (a x : A) (xs : List A)
      → contains a (insert_by less x xs) ≡ (x == a || contains a xs)
  unfolding insert_by contains
  contains-insert_by less a x [] = refl
  contains-insert_by less a x (y ∷ ys) = ground (arith, contains-insert_by less a x ys)

  -- Sorting keeps the elements.
  pub contains-sort_by :
      (less : A → A → Bool) (a : A) (xs : List A) → contains a (sort_by less xs) ≡ contains a xs
  unfolding sort_by contains
  contains-sort_by less a [] = refl
  contains-sort_by less a (x ∷ xs) =
      ground (arith, contains-insert_by less a x (sort_by less xs), contains-sort_by less a xs)

module _ {ℓ} {A : Type ℓ} (less : A → A → Bool)
    (asym : (a b : A) → less a b ≡ true → less b a ≡ false)
    (trans : (a b c : A) → less b a ≡ false → less c b ≡ false → less c a ≡ false) where
  All-trans :
      (x y : A) (ys : List A)
      → less y x ≡ false
      → All (λ z. less z y ≡ false) ys
      → All (λ z. less z x ≡ false) ys
  All-trans x y [] h a = tt
  All-trans x y (z ∷ ys) h (hz, a) = (trans x y z h hz, All-trans x y ys h a)

  All-insert_by :
      (a x : A) (xs : List A)
      → less x a ≡ false
      → All (λ z. less z a ≡ false) xs
      → All (λ z. less z a ≡ false) (insert_by less x xs)
  unfolding insert_by
  All-insert_by a x [] h hs = (h, tt)
  All-insert_by a x (y ∷ ys) h (hy, hys) = elim (Bool-cases (less y x)) [
    | inl l ↦ rw l (hy, All-insert_by a x ys h hys)
    | inr g ↦ rw g (h, (hy, hys))
  ]

  insert_by-IsSorted :
      (x : A) (xs : List A) → IsSorted less xs → IsSorted less (insert_by less x xs)
  unfolding insert_by
  insert_by-IsSorted x [] h = (tt, tt)
  insert_by-IsSorted x (y ∷ ys) (hy, hys) = elim (Bool-cases (less y x)) [
    | inl l ↦ rw l (All-insert_by y x ys (asym y x l) hy, insert_by-IsSorted x ys hys)
    | inr g ↦ rw g ((g, All-trans x y ys g hy), (hy, hys))
  ]

  pub sort_by-IsSorted : (xs : List A) → IsSorted less (sort_by less xs)
  unfolding sort_by
  sort_by-IsSorted [] = tt
  sort_by-IsSorted (x ∷ xs) = insert_by-IsSorted x (sort_by less xs) (sort_by-IsSorted xs)
