-- ===== src/Storage/Caching/Termination.antt =====
-- doEvict ends: each round that is followed by another has dropped an address.
use invariant_go.Shared.{
  ℕ, zero, suc, ◌≤◌, ◌<◌, ◌≡◌, refl, sym, ◌∙◌, ap, subst, Bool, true, false, Bool-cases, some,
  Option-cases, List, [], ◌∷◌, ◌⊎◌, inl, inr, length, ◌==◌, eq_text, beq_self, Text, arith,
}
use invariant_go.Storage.Interface.{Block, StorageOps}
use invariant_go.Storage.Caching.{Controlled, CachingStorage, is_small, last_used, without}
use invariant_go.Storage.Caching.Evict.{
  Round, again, stop, send_block, to_destination, to_overflow, to_next, send_away, candidate,
  remove_local, evict_round, do_evict,
}
use invariant_go.Storage.Caching.Evict.Steps.{Round-cases, round-none, round-stop, round-again}

length-without : (a : Text) (xs : List Text) → length (without a xs) ≤ length xs
unfolding without
length-without a [] = omega arith
length-without a (x ∷ xs) = ground (arith, length-without a xs)

last_used_cons :
    (x : Text) (xs : List Text) (a : Text)
    → last_used (x ∷ xs) ≡ some a
    → (x ≡ a) ⊎ (last_used xs ≡ some a)
unfolding last_used
last_used_cons x xs a h = elim (Option-cases (last_used xs)) [
  | inl e ↦ inl (ground arith)
  | inr (y, e) ↦ inr (ground arith)
]

last_dropped :
    (a : Text) (xs : List Text) → last_used xs ≡ some a → length (without a xs) < length xs
unfolding without last_used
last_dropped a [] h = absurd (none_last h)
  where
    none_last : last_used [] ≡ some a → ⊥
    none_last e = ground arith
last_dropped a (x ∷ xs) h = elim (Bool-cases (x == a)) [
  | inl same ↦ ground (arith, length-without a xs)
  | inr other ↦ elim (last_used_cons x xs a h) [
    | inl e ↦ absurd (clash (sym other ∙ (eq_text.beq_iff x a).1 e))
    | inr e ↦ ground (arith, last_dropped a xs e)
  ]
]
  where
    clash : false ≡ true → ⊥
    clash c = cc

module _ {L D O : Type 0} (lo : Controlled L) (dest : StorageOps D) (over : Controlled O) where
  send_block-lru :
      (a : Text) (b : Block) (d : D) (s : CachingStorage L D O)
      → (send_block lo dest over a b d s).1.lru ≡ s.lru
  send_block-lru a b d s = ground arith

  to_destination-lru :
      (a : Text) (s : CachingStorage L D O) → (to_destination lo dest over a s).1.lru ≡ s.lru
  unfolding to_destination
  to_destination-lru a s = elim (Option-cases s.destination) [
    | inl e ↦ ground arith
    | inr (d, e) ↦ elim (Option-cases (lo.ops.get s.local a)) [
      | inl f ↦ ground arith
      | inr (b, f) ↦ ground (arith, send_block-lru a b d s)
    ]
  ]

  to_overflow-lru :
      (a : Text) (o : O) (s : CachingStorage L D O) → (to_overflow lo dest over a o s).1.lru ≡ s.lru
  unfolding to_overflow
  to_overflow-lru a o s = elim (Option-cases (lo.ops.get s.local a)) [
    | inl f ↦ ground arith
    | inr (b, f) ↦ ground arith
  ]

  to_next-lru :
      (a : Text) (p : Bool × CachingStorage L D O) → (to_next lo dest over a p).1.lru ≡ p.1.lru
  unfolding to_next
  to_next-lru a (true, s) = refl
  to_next-lru a (false, s) = elim (Option-cases s.overflow) [
    | inl e ↦ ground arith
    | inr (o, e) ↦ ground (arith, to_overflow-lru a o s)
  ]

  send_away-lru : (a : Text) (s : CachingStorage L D O) → (send_away lo dest over a s).1.lru ≡ s.lru
  unfolding send_away
  send_away-lru a s = to_next-lru a (to_destination lo dest over a s) ∙ to_destination-lru a s

  candidate-last_used :
      (s : CachingStorage L D O) (a : Text)
      → candidate lo dest over s ≡ some a
      → last_used s.lru ≡ some a
  unfolding candidate
  candidate-last_used s a h = elim (Bool-cases (is_small s)) [
    | inl small ↦ absurd (ground arith)
    | inr big ↦ ground arith
  ]

  -- A removal after which there is another round.
  remove_local-lru :
      (a : Text) (s : CachingStorage L D O)
      → last_used s.lru ≡ some a
      → (remove_local lo dest over a s).0 ≡ again
      → (remove_local lo dest over a s).1.lru ≡ without a s.lru
  unfolding remove_local
  remove_local-lru a s last h = elim (Bool-cases (is_small s)) [
    | inl small ↦ absurd (ground arith)
    | inr big ↦ ground (arith, beq_self a)
  ]

  evict_round-lru :
      (s : CachingStorage L D O)
      → (evict_round lo dest over s).0 ≡ again
      → length (evict_round lo dest over s).1.lru < length s.lru
  evict_round-lru s h = elim (Option-cases (candidate lo dest over s)) [
    | inl e ↦ absurd (
        clash
          (sym (ap (λ (q : Round × CachingStorage L D O). q.0) (round-none lo dest over s e)) ∙ h))
    | inr (a, e) ↦ elim (Round-cases (send_away lo dest over a s).0) [
      | inr r ↦ absurd (
          clash (
            sym (ap (λ (q : Round × CachingStorage L D O). q.0) (round-stop lo dest over s a e r))
            ∙ h))
      | inl r ↦ dropped a e (round-again lo dest over s a e r)
    ]
  ]
    where
      clash : stop ≡ again → ⊥
      clash c = cc

      dropped :
          (a : Text)
          → candidate lo dest over s ≡ some a
          → evict_round lo dest over s ≡ remove_local lo dest over a (send_away lo dest over a s).1
          → length (evict_round lo dest over s).1.lru < length s.lru
      dropped a e r =
          subst (λ (xs : List Text). length xs < length s.lru) (sym lru_is)
            (last_dropped a s.lru (candidate-last_used s a e))
        where
          last : last_used (send_away lo dest over a s).1.lru ≡ some a
          last = ap last_used (send_away-lru a s) ∙ candidate-last_used s a e

          lru_is : (evict_round lo dest over s).1.lru ≡ without a s.lru
          lru_is =
              ap (λ (q : Round × CachingStorage L D O). q.1.lru) r
              ∙ remove_local-lru a (send_away lo dest over a s).1 last
                  (sym (ap (λ (q : Round × CachingStorage L D O). q.0) r) ∙ h)
              ∙ ap (without a) (send_away-lru a s)

  pub do_evict_enough :
      (f g : ℕ) (s : CachingStorage L D O)
      → length s.lru < f
      → length s.lru < g
      → do_evict lo dest over f s ≡ do_evict lo dest over g s
  unfolding do_evict
  do_evict_enough zero g s hf hg = absurd (omega arith)
  do_evict_enough (suc f) zero s hf hg = absurd (omega arith)
  do_evict_enough (suc f) (suc g) s hf hg = elim (Round-cases (evict_round lo dest over s).0) [
    | inr h ↦ rw (h, do_evict) refl
    | inl h ↦
        rw (h, do_evict)
          (do_evict_enough f g (evict_round lo dest over s).1 (omega (arith, evict_round-lru s h))
            (omega (arith, evict_round-lru s h)))
  ]
