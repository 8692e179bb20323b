-- ===== src/Finder/Table/Buckets.antt =====
-- One bucket: a node enters at the tail, once, and at most `bucket_size` nodes stay.
use invariant_go.Shared.{
  ℕ, suc, ◌-◌, ◌≡◌, ◌<◌, refl, ap, ◌⊎◌, inl, inr, false, ◌||◌, none, some, Option-cases, Bool-cases,
  List, [], ◌∷◌, ◌++◌, length, length-append, drop, contains, contains-append, All, ltb, eq_text,
  eq_nat, list_eq, list_eq_iff, arith, ◌==◌, beq_sym,
}
use invariant_go.Finder.Node.{NodeId, IsNodeId, bucket_size, equals, prefix_len}
use invariant_go.Finder.Table.{without_first, add_to_bucket, Distinct, BucketOk}

-- The entry that goes is the first, or it stands further down.
without_first_cases :
    (node n : NodeId) (bucket o : List NodeId)
    → without_first node (n ∷ bucket) ≡ some o
    → ((n ≡ node) × (o ≡ bucket))
      ⊎ ((r : List NodeId) × (without_first node bucket ≡ some r) × (o ≡ n ∷ r))
unfolding without_first equals
without_first_cases node n bucket o h = elim (Option-cases (without_first node bucket)) [
  | inl e ↦ ground (arith, list_eq_iff n node)
  | inr (r, e) ↦ elim (Bool-cases (list_eq n node)) [
    | inl t ↦ inl ((list_eq_iff n node).0 t, ground arith)
    | inr t ↦ inr (r, e, ground arith)
  ]
]

without_first-none :
    (node : NodeId) (bucket : List NodeId)
    → without_first node bucket ≡ none
    → contains node bucket ≡ false
unfolding without_first equals contains
without_first-none node [] h = refl
without_first-none node (n ∷ bucket) h = ground (arith, without_first-none node bucket)

length-without_first :
    (node : NodeId) (bucket o : List NodeId)
    → without_first node bucket ≡ some o
    → length bucket ≡ suc (length o)
unfolding without_first equals
length-without_first node [] o h = cc
length-without_first node (n ∷ bucket) o h = elim (without_first_cases node n bucket o h) [
  | inl (e, eo) ↦ rw eo
  | inr (r, e, eo) ↦ rw eo (ap suc (length-without_first node bucket r e))
]

contains-without_first :
    (node m : NodeId) (bucket o : List NodeId)
    → without_first node bucket ≡ some o
    → contains m bucket ≡ (node == m || contains m o)
unfolding without_first contains
contains-without_first node m [] o h = cc
contains-without_first node m (n ∷ bucket) o h = elim (without_first_cases node n bucket o h) [
  | inl (e, eo) ↦ rw (eo, e)
  | inr (r, e, eo) ↦ rw eo (ground (arith, contains-without_first node m bucket r e))
]

All-without_first :
    (P : NodeId → Type 0) (node : NodeId) (bucket o : List NodeId)
    → without_first node bucket ≡ some o
    → All P bucket
    → All P o
unfolding without_first equals
All-without_first P node [] o h a = cc
All-without_first P node (n ∷ bucket) o h (a, as') = elim (without_first_cases node n bucket o h) [
  | inl (e, eo) ↦ rw eo as'
  | inr (r, e, eo) ↦ rw eo (a, All-without_first P node bucket r e as')
]

Distinct-without_first :
    (node : NodeId) (bucket o : List NodeId)
    → without_first node bucket ≡ some o
    → Distinct bucket
    → Distinct o × (contains node o ≡ false)
unfolding without_first contains
Distinct-without_first node [] o h d = cc
Distinct-without_first node (n ∷ bucket) o h (dn, d) =
    elim (without_first_cases node n bucket o h) [
      | inl (e, eo) ↦ rw eo (d, rw e at dn)
      | inr (r, e, eo) ↦ rw eo (later r e (Distinct-without_first node bucket r e d))
    ]
  where
    later :
        (r : List NodeId)
        → without_first node bucket ≡ some r
        → Distinct r × (contains node r ≡ false)
        → Distinct (n ∷ r) × (contains node (n ∷ r) ≡ false)
    later r e (dr, cr) = ground (arith, contains-without_first node n bucket r e, beq_sym node n)

All-append :
    (P : NodeId → Type 0) (xs : List NodeId) (y : NodeId) → All P xs → P y → All P (xs ++ y ∷ [])
All-append P [] y h hy = (hy, tt)
All-append P (x ∷ xs) y (hx, h) hy = (hx, All-append P xs y h hy)

Distinct-append :
    (xs : List NodeId) (y : NodeId) → Distinct xs → contains y xs ≡ false → Distinct (xs ++ y ∷ [])
unfolding contains
Distinct-append [] y d c = (refl, tt)
Distinct-append (x ∷ xs) y (dx, d) c =
    ground (arith, contains-append x xs (y ∷ []), Distinct-append xs y d, beq_sym x y)

drop-All : (P : NodeId → Type 0) (xs : List NodeId) → All P xs → All P (drop 1 xs)
drop-All P [] h = tt
drop-All P (x ∷ xs) h = h.1

drop-Distinct :
    (xs : List NodeId) (y : NodeId)
    → Distinct xs
    → contains y xs ≡ false
    → Distinct (drop 1 xs) × (contains y (drop 1 xs) ≡ false)
unfolding contains
drop-Distinct [] y d c = (tt, refl)
drop-Distinct (x ∷ xs) y (dx, d) c = ground arith

length-drop : (xs : List NodeId) → length (drop 1 xs) ≡ length xs - 1
length-drop [] = refl
length-drop (x ∷ xs) = omega arith

-- A bucket with `node` behind a part of it.
tail_ok :
    (self : NodeId) (i : ℕ) (others : List NodeId) (node : NodeId)
    → length others < bucket_size
    → All (λ n. IsNodeId n × (prefix_len self n ≡ i)) others
    → Distinct others
    → contains node others ≡ false
    → IsNodeId node
    → prefix_len self node ≡ i
    → BucketOk self i (others ++ node ∷ [])
tail_ok self i others node len a d c hn hp = record {
  bounded = omega (arith, length-append others (node ∷ []));
  placed = All-append _ others node a (hn, hp);
  distinct = Distinct-append others node d c;
}

pub add_to_bucket-BucketOk :
    (self : NodeId) (i : ℕ) (node : NodeId) (bucket : List NodeId)
    → BucketOk self i bucket
    → IsNodeId node
    → prefix_len self node ≡ i
    → BucketOk self i (add_to_bucket node bucket)
unfolding add_to_bucket
add_to_bucket-BucketOk self i node bucket ok hn hp =
    elim (Option-cases (without_first node bucket)) [
      | inr (o, e) ↦
          let d = Distinct-without_first node bucket o e ok.distinct in
          rw (e, add_to_bucket)
            (tail_ok self i o node (omega (arith, length-without_first node bucket o e, ok.bounded))
              (All-without_first _ node bucket o e ok.placed) d.0 d.1 hn hp)
      | inl e ↦
          rw (e, add_to_bucket)
            (elim (Bool-cases (ltb (length bucket) bucket_size)) [
              | inl lt ↦ rw lt (
                  tail_ok self i bucket node (ground arith) ok.placed ok.distinct
                    (without_first-none node bucket e) hn hp)
              | inr ge ↦
                  let d =
                    drop-Distinct bucket node ok.distinct (without_first-none node bucket e) in
                  rw ge (
                    tail_ok self i (drop 1 bucket) node
                      (omega (arith, length-drop bucket, ok.bounded)) (drop-All _ bucket ok.placed)
                      d.0 d.1 hn hp)
            ])
    ]
