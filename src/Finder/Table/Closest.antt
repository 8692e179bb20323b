-- ===== src/Finder/Table/Closest.antt =====
-- `find_closest` returns the nodes of the table that are closest to the target, in order.
use invariant_go.Shared.{
  ℕ, zero, suc, ◌≡◌, ◌≤◌, refl, sym, ◌∙◌, Bool, true, false, List, [], ◌∷◌, length, length-take,
  take, contains, All, ltb, eq_text, eq_nat, list_eq_iff, arith, ◌==◌, sort_by, IsSorted,
  sort_by-IsSorted, length-sort_by, contains-sort_by, Bool-cases, inl, inr, bytes_compare_asym,
  bytes_compare_trans, subst,
}
use Prim.Native.Nat.{min}
use invariant_go.Finder.Node.{NodeId, less, xor}
use invariant_go.Finder.Table.{RoutingTable, snapshot, find_closest}

less_asym : (t n m : NodeId) → less n m t ≡ true → less m n t ≡ false
unfolding less
less_asym t n m = bytes_compare_asym (xor n t) (xor m t)

less_trans : (t n m k : NodeId) → less m n t ≡ false → less k m t ≡ false → less k n t ≡ false
unfolding less
less_trans t n m k = bytes_compare_trans (xor n t) (xor m t) (xor k t)

module _ (less_than : NodeId → NodeId → Bool) where
  All-contains :
      (P : NodeId → Type 0) (a : NodeId) (xs : List NodeId) → All P xs → contains a xs ≡ true → P a
  unfolding contains
  All-contains P a [] h c = cc
  All-contains P a (x ∷ xs) (hx, h) c = elim (Bool-cases (x == a)) [
    | inl e ↦ subst P ((list_eq_iff x a).0 e) hx
    | inr e ↦ All-contains P a xs h (ground arith)
  ]

  -- What `take` leaves out of a sorted list is not below what it keeps.
  take_least :
      (k : ℕ) (xs : List NodeId) (n m : NodeId)
      → IsSorted less_than xs
      → contains n (take k xs) ≡ true
      → contains m xs ≡ true
      → contains m (take k xs) ≡ false
      → less_than m n ≡ false
  unfolding contains
  take_least zero xs n m s cn cm nm = cc
  take_least (suc k) [] n m s cn cm nm = cc
  take_least (suc k) (x ∷ xs) n m (sx, s) cn cm nm = elim (Bool-cases (x == n)) [
    | inl e ↦
        subst (λ z. less_than m z ≡ false) ((list_eq_iff x n).0 e)
          (All-contains (λ z. less_than z x ≡ false) m xs sx (ground arith))
    | inr e ↦ take_least k xs n m s (ground arith) (ground arith) (ground arith)
  ]

  contains-take :
      (k : ℕ) (xs : List NodeId) (n : NodeId) → contains n (take k xs) ≡ true → contains n xs ≡ true
  unfolding contains
  contains-take zero xs n h = cc
  contains-take (suc k) [] n h = cc
  contains-take (suc k) (x ∷ xs) n h = ground (arith, contains-take k xs n)

  All-take : (P : NodeId → Type 0) (k : ℕ) (xs : List NodeId) → All P xs → All P (take k xs)
  All-take P zero xs h = tt
  All-take P (suc k) [] h = tt
  All-take P (suc k) (x ∷ xs) (hx, h) = (hx, All-take P k xs h)

  take-IsSorted :
      (k : ℕ) (xs : List NodeId) → IsSorted less_than xs → IsSorted less_than (take k xs)
  take-IsSorted zero xs h = tt
  take-IsSorted (suc k) [] h = tt
  take-IsSorted (suc k) (x ∷ xs) (hx, h) = (All-take _ k xs hx, take-IsSorted k xs h)

take_all : (k : ℕ) (xs : List NodeId) → length xs ≤ k → take k xs ≡ xs
take_all zero [] h = refl
take_all zero (x ∷ xs) h = absurd (omega arith)
take_all (suc k) [] h = refl
take_all (suc k) (x ∷ xs) h = rw (take_all k xs (omega arith))

abbrev closer_to : NodeId → NodeId → NodeId → Bool
closer_to target n m = less n m target

find_closest-take :
    (rt : RoutingTable) (t : NodeId) (count : ℕ)
    → find_closest rt t count ≡ take count (sort_by (closer_to t) (snapshot rt))
unfolding find_closest
find_closest-take rt t count =
    elim (Bool-cases (ltb count (length (sort_by (closer_to t) (snapshot rt))))) [
      | inl lt ↦ rw lt refl
      | inr ge ↦ rw ge (sym (take_all count _ (ground arith)))
    ]

pub record IsClosest (rt : RoutingTable) (t : NodeId) (count : ℕ) (found : List NodeId)
    : Type 0 where
  pub size : length found ≡ min count (length (snapshot rt))
  pub known : (n : NodeId) → contains n found ≡ true → contains n (snapshot rt) ≡ true
  pub ordered : IsSorted (λ n m. less n m t) found
  pub closest :
      (n m : NodeId)
      → contains n found ≡ true
      → contains m (snapshot rt) ≡ true
      → contains m found ≡ false
      → less m n t ≡ false

-- For every table, target and count the result has the smaller of `count` and the number of known
-- nodes as its size, holds known nodes only, in the order of their distance to the target, and no
-- known node that is left out is closer to the target than one that is returned.
pub find_closest-IsClosest :
    (rt : RoutingTable) (t : NodeId) (count : ℕ) → IsClosest rt t count (find_closest rt t count)
find_closest-IsClosest rt t count = rw (find_closest-take rt t count) (record {
  size = length-take count _ ∙ omega (arith, length-sort_by (closer_to t) (snapshot rt));
  known = λ n c.
      sym (contains-sort_by (closer_to t) n (snapshot rt))
      ∙ contains-take (closer_to t) count _ n c;
  ordered = take-IsSorted (closer_to t) count _ sorted;
  closest = λ n m cn cm nm.
      take_least (closer_to t) count _ n m sorted cn
        (contains-sort_by (closer_to t) m (snapshot rt) ∙ cm) nm;
})
  where
    sorted : IsSorted (closer_to t) (sort_by (closer_to t) (snapshot rt))
    sorted = sort_by-IsSorted (closer_to t) (less_asym t) (less_trans t) (snapshot rt)
