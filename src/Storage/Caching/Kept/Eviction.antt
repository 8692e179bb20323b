-- ===== src/Storage/Caching/Kept/Eviction.antt =====
-- A call of doEvict, with the removal from the local store.
use invariant_go.Shared.{
  Option, ℕ, zero, suc, ◌≡◌, refl, sym, ◌∙◌, ap, subst, true, false, Bool-cases, some, Option-cases,
  ◌⊎◌, inl, inr, ◌==◌, eq_text, Text, arith,
}
use invariant_go.Storage.Interface.{Block, StorageOps}
use invariant_go.Storage.Caching.{Controlled, CachingStorage, is_small}
use invariant_go.Storage.Caching.Evict.{
  Round, again, stop, send_away, candidate, is_last, forget, remove_local, evict_round, do_evict,
}
use invariant_go.Storage.Caching.Evict.Steps.{Round-cases, round-none, round-stop, round-again}
use invariant_go.Storage.Caching.Kept.Rounds.{Away, send_away-Away}
use invariant_go.Storage.Caching.Places.{
  Honest, RemovesOne, InLocal, InDestination, InOverflow, Sound, HasPlace, Held, Ready, StillHeld,
  Sourced,
}

module _ {L D O : Type 0} (table : Text → Option Block) (lo : Controlled L) (dest : StorageOps D)
    (over : Controlled O) (honest_dest : Honest table dest) (honest_over : Honest table over.ops)
    (removes : RemovesOne lo) where
  sent-StillHeld :
      (a : Text) (s : CachingStorage L D O) (q : Round × CachingStorage L D O)
      → Ready lo dest over table s
      → Away table lo dest over honest_dest honest_over a s q
      → StillHeld lo dest over table s q.1
  unfolding StillHeld Ready HasPlace InLocal
  sent-StillHeld a s q (known, place) away =
      ((away.known, λ e f. place (away.open_there e) (away.open_over f)), λ x b h. go x b h)
    where
      go : (x : Text) (b : Block) → Held lo dest over x b s → Held lo dest over x b q.1
      go x b (inl here) = inl (ap (λ l. lo.ops.get l x) away.same_local ∙ here)
      go x b (inr (inl there)) = inr (inl (away.kept_there x b there))
      go x b (inr (inr over_it)) = inr (inr (away.kept_over x b over_it))

  -- The state after the removal.
  abbrev without_local : Text → CachingStorage L D O → CachingStorage L D O
  without_local a s = record (forget lo dest over a s) { local = (lo.remove s.local a).1 }

  removed-StillHeld :
      (a : Text) (s : CachingStorage L D O) (q : Round × CachingStorage L D O)
      → Ready lo dest over table s
      → q.0 ≡ again
      → Away table lo dest over honest_dest honest_over a s q
      → StillHeld lo dest over table s (without_local a q.1)
  unfolding StillHeld Ready HasPlace InLocal InDestination InOverflow Sourced
  removed-StillHeld a s q (known, place) r away = (
    (removed_known, λ e f. place (away.open_there e) (away.open_over f)),
    λ x b h. go x b (Bool-cases (a == x)) h,
  )
    where
      removed_known : Sound lo dest over table (without_local a q.1)
      removed_known = record {
        listed = away.known.listed;
        from_local = λ x b h. elim (Bool-cases (a == x)) [
          | inr other ↦ away.known.from_local x b (sym (removes.0 q.1.local a x other) ∙ h)
          | inl same ↦
              subst (λ k. table k ≡ some b) ((eq_text.beq_iff a x).0 same)
                (away.known.from_local a b (
                  removes.1 q.1.local a b
                    (ap (lo.ops.get (lo.remove q.1.local a).1) ((eq_text.beq_iff a x).0 same) ∙ h)))
        ];
        from_there = away.known.from_there;
        from_over = away.known.from_over;
      }

      sure :
          (b : Block) → lo.ops.get s.local a ≡ some b → Held lo dest over a b (without_local a q.1)
      sure b h = elim (away.away b h) [ inl e ↦ absurd (no (sym r ∙ e)) | inr found ↦ inr found ]
        where
          no : again ≡ stop → ⊥
          no e = cc

      go :
          (x : Text) (b : Block)
          → ((a == x) ≡ true) ⊎ ((a == x) ≡ false)
          → Held lo dest over x b s
          → Held lo dest over x b (without_local a q.1)
      go x b c (inr (inl there)) = inr (inl (away.kept_there x b there))
      go x b c (inr (inr over_it)) = inr (inr (away.kept_over x b over_it))
      go x b (inr other) (inl here) =
          inl (removes.0 q.1.local a x other ∙ ap (λ l. lo.ops.get l x) away.same_local ∙ here)
      go x b (inl same) (inl here) =
          subst (λ k. Held lo dest over k b (without_local a q.1)) ((eq_text.beq_iff a x).0 same)
            (sure b (ap (lo.ops.get s.local) ((eq_text.beq_iff a x).0 same) ∙ here))

  remove_local-cases :
      (a : Text) (s : CachingStorage L D O)
      → ((remove_local lo dest over a s).1 ≡ s)
        ⊎ ((remove_local lo dest over a s).1 ≡ without_local a s)
  unfolding remove_local
  remove_local-cases a s = elim (Bool-cases (is_small s)) [
    | inl small ↦ inl (ground arith)
    | inr big ↦ elim (Bool-cases (is_last lo dest over a s.lru)) [
      | inl last ↦ inr (rw (big, remove_local) (rw (last, remove_local) refl))
      | inr touched ↦ inl (ground arith)
    ]
  ]

  StillHeld-refl :
      (s : CachingStorage L D O) → Ready lo dest over table s → StillHeld lo dest over table s s
  unfolding StillHeld
  StillHeld-refl s ready = (ready, λ x b h. h)

  StillHeld-trans :
      (s t u : CachingStorage L D O)
      → StillHeld lo dest over table s t
      → StillHeld lo dest over table t u
      → StillHeld lo dest over table s u
  unfolding StillHeld
  StillHeld-trans s t u (rt, h) (ru, k) = (ru, λ x b e. k x b (h x b e))

  moved_to :
      (s t u : CachingStorage L D O)
      → t ≡ u
      → StillHeld lo dest over table s u
      → StillHeld lo dest over table s t
  moved_to s t u e k = subst (StillHeld lo dest over table s) (sym e) k

  evict_round-StillHeld :
      (s : CachingStorage L D O)
      → Ready lo dest over table s
      → StillHeld lo dest over table s (evict_round lo dest over s).1
  unfolding Ready
  evict_round-StillHeld s ready = elim (Option-cases (candidate lo dest over s)) [
    | inl e ↦
        moved_to s (evict_round lo dest over s).1 s
          (ap (λ (q : Round × CachingStorage L D O). q.1) (round-none lo dest over s e))
          (StillHeld-refl s ready)
    | inr (a, e) ↦ with_candidate a e (away a ready)
  ]
    where
      away :
          (a : Text)
          → Ready lo dest over table s
          → Away table lo dest over honest_dest honest_over a s (send_away lo dest over a s)
      away a (known, place) =
          send_away-Away table lo dest over honest_dest honest_over a s known place

      with_candidate :
          (a : Text)
          → candidate lo dest over s ≡ some a
          → Away table lo dest over honest_dest honest_over a s (send_away lo dest over a s)
          → StillHeld lo dest over table s (evict_round lo dest over s).1
      with_candidate a e sent = elim (Round-cases (send_away lo dest over a s).0) [
        | inr h ↦
            moved_to s (evict_round lo dest over s).1 (send_away lo dest over a s).1
              (ap (λ (q : Round × CachingStorage L D O). q.1) (round-stop lo dest over s a e h))
              (sent-StillHeld a s (send_away lo dest over a s) ready sent)
        | inl h ↦ elim (remove_local-cases a (send_away lo dest over a s).1) [
          | inl same ↦
              moved_to s (evict_round lo dest over s).1 (send_away lo dest over a s).1
                (ap (λ (q : Round × CachingStorage L D O). q.1) (round-again lo dest over s a e h)
                  ∙ same)
                (sent-StillHeld a s (send_away lo dest over a s) ready sent)
          | inr gone ↦
              moved_to s (evict_round lo dest over s).1
                (without_local a (send_away lo dest over a s).1)
                (ap (λ (q : Round × CachingStorage L D O). q.1) (round-again lo dest over s a e h)
                  ∙ gone)
                (removed-StillHeld a s (send_away lo dest over a s) ready h sent)
        ]
      ]

  pub do_evict-StillHeld :
      (fuel : ℕ) (s : CachingStorage L D O)
      → Ready lo dest over table s
      → StillHeld lo dest over table s (do_evict lo dest over fuel s)
  unfolding do_evict StillHeld
  do_evict-StillHeld zero s ready = StillHeld-refl s ready
  do_evict-StillHeld (suc fuel) s ready = elim (Round-cases (evict_round lo dest over s).0) [
    | inr h ↦ rw (h, do_evict) first
    | inl h ↦
        rw (h, do_evict)
          (StillHeld-trans s (evict_round lo dest over s).1
            (do_evict lo dest over fuel (evict_round lo dest over s).1) first
            (do_evict-StillHeld fuel (evict_round lo dest over s).1 first.0))
  ]
    where
      first : StillHeld lo dest over table s (evict_round lo dest over s).1
      first = evict_round-StillHeld s ready
