-- ===== src/Storage/Caching/Kept/Rounds.antt =====
-- A round of doEvict up to the removal of the block.
use invariant_go.Shared.{
  ◌≡◌, refl, sym, ◌∙◌, ap, subst, Bool, true, false, Bool-cases, Option, none, some, some-injective,
  Option-cases, ◌⊎◌, inl, inr, eq_text, Text, arith,
}
use invariant_go.Storage.Interface.{Block, accepted, errored, StorageOps}
use invariant_go.Storage.Caching.{Controlled, CachingStorage, plain_reader}
use invariant_go.Storage.Caching.Evict.{
  Round, again, stop, to_destination, to_overflow, to_next, send_away,
}
use invariant_go.Storage.Caching.Kept.{
  StoreAtResult-cases, some_of, Sent, to_destination-Sent, same_block,
}
use invariant_go.Storage.Caching.Places.{
  Honest, InLocal, InDestination, InOverflow, Sound, HasPlace, Sourced, store_at_kept,
  store_at-Sourced,
}

module _ {L D O : Type 0} (table : Text → Option Block) (lo : Controlled L) (dest : StorageOps D)
    (over : Controlled O) (honest_dest : Honest table dest)
    (honest_over : Honest table over.ops) where
  pub record Away (a : Text) (s : CachingStorage L D O) (q : Round × CachingStorage L D O)
      : Type 0 where
    pub same_local : q.1.local ≡ s.local
    pub kept_there : (x : Text) (b : Block) → InDestination dest x b s → InDestination dest x b q.1
    pub kept_over : (x : Text) (b : Block) → InOverflow over x b s → InOverflow over x b q.1
    pub known : Sound lo dest over table q.1
    pub open_there : q.1.destination ≡ none → s.destination ≡ none
    pub open_over : q.1.overflow ≡ none → s.overflow ≡ none
    pub away :
        (b : Block)
        → InLocal lo a b s
        → (q.0 ≡ stop) ⊎ InDestination dest a b q.1 ⊎ InOverflow over a b q.1

  -- A round that does nothing more after the attempt at the destination.
  unmoved :
      (a : Text) (s : CachingStorage L D O) (p : Bool × CachingStorage L D O) (r : Round)
      → Sent table lo dest over honest_dest honest_over a s p
      → ((b : Block)
          → InLocal lo a b s
          → (r ≡ stop) ⊎ InDestination dest a b p.1 ⊎ InOverflow over a b p.1)
      → Away a s (r, p.1)
  unfolding InOverflow
  unmoved a s p r sent away = record {
    same_local = sent.same_local;
    kept_there = sent.kept;
    kept_over = λ x b (o, at, h). (o, sent.same_overflow ∙ at, h);
    known = sent.known;
    open_there = sent.still;
    open_over = λ e. sym sent.same_overflow ∙ e;
    away = away;
  }

  abbrev after : Text → Block → O → O
  after a b o = (over.ops.store_at o a (plain_reader b)).1

  abbrev moved : CachingStorage L D O → O → CachingStorage L D O
  moved s o = record s { overflow = some o }

  moved-Away :
      (a : Text) (b : Block) (s : CachingStorage L D O) (o : O) (r : Round)
      → Sound lo dest over table s
      → s.overflow ≡ some o
      → (r ≡ stop) ⊎ (over.ops.get (after a b o) a ≡ some b)
      → table a ≡ some b
      → InLocal lo a b s
      → Away a s (r, moved s (after a b o))
  unfolding InOverflow InDestination InLocal
  moved-Away a b s o r known at stored right here = record {
    same_local = refl;
    kept_there = λ x y h. h;
    kept_over = λ x y (e, ate, h). (
      after a b o,
      refl,
      store_at_kept table over.ops honest_over o a x b y (known.from_over o at) right
          (ap (λ (f : O). over.ops.get f x) (some-injective o e (sym at ∙ ate)) ∙ h),
    );
    known = record {
      listed = known.listed;
      from_local = known.from_local;
      from_there = known.from_there;
      from_over = λ e ate.
          subst (Sourced table over.ops) (some-injective (after a b o) e ate)
            (store_at-Sourced table over.ops honest_over o a b (known.from_over o at) right);
    };
    open_there = λ e. e;
    open_over = λ e. absurd (no e);
    away = λ y h. elim stored [
      | inl stopped ↦ inl stopped
      | inr k ↦ inr (inr (after a b o, refl, k ∙ sym here ∙ h))
    ];
  }
    where
      no : ◌≡◌ {A = Option O} (some (after a b o)) none → ⊥
      no e = cc

  stays :
      (a : Text) (s : CachingStorage L D O)
      → Sound lo dest over table s
      → ((b : Block) → InLocal lo a b s → InOverflow over a b s)
      → Away a s (again, s)
  stays a s known over_it = record {
    same_local = refl;
    kept_there = λ x y h. h;
    kept_over = λ x y h. h;
    known = known;
    open_there = λ e. e;
    open_over = λ e. e;
    away = λ y h. inr (inr (over_it y h));
  }

  overflow-there :
      (a : Text) (s : CachingStorage L D O) (o : O)
      → over.ops.has o a ≡ true
      → to_overflow lo dest over a o s ≡ (again, s)
  unfolding to_overflow
  overflow-there a s o h = ground arith

  overflow-gone :
      (a : Text) (s : CachingStorage L D O) (o : O)
      → over.ops.has o a ≡ false
      → lo.ops.get s.local a ≡ none
      → to_overflow lo dest over a o s ≡ (again, s)
  unfolding to_overflow
  overflow-gone a s o h k = ground arith

  overflow-accepted :
      (a : Text) (b : Block) (s : CachingStorage L D O) (o : O)
      → over.ops.has o a ≡ false
      → lo.ops.get s.local a ≡ some b
      → (over.ops.store_at o a (plain_reader b)).0 ≡ accepted
      → to_overflow lo dest over a o s ≡ (again, moved s (after a b o))
  unfolding to_overflow
  overflow-accepted a b s o h k e =
      rw (h, to_overflow) (rw (k, to_overflow) (rw (e, to_overflow) refl))

  overflow-errored :
      (a : Text) (b : Block) (s : CachingStorage L D O) (o : O)
      → over.ops.has o a ≡ false
      → lo.ops.get s.local a ≡ some b
      → (over.ops.store_at o a (plain_reader b)).0 ≡ errored
      → to_overflow lo dest over a o s ≡ (stop, moved s (after a b o))
  unfolding to_overflow
  overflow-errored a b s o h k e =
      rw (h, to_overflow) (rw (k, to_overflow) (rw (e, to_overflow) refl))

  to_overflow-Away :
      (a : Text) (s : CachingStorage L D O) (o : O)
      → Sound lo dest over table s
      → s.overflow ≡ some o
      → Away a s (to_overflow lo dest over a o s)
  unfolding InOverflow InLocal Sourced
  to_overflow-Away a s o known at = elim (Bool-cases (over.ops.has o a)) [
    | inl there ↦ subst (Away a s) (sym (overflow-there a s o there)) (
        stays a s known
          (λ b h. found b h (some_of (over.ops.get o a) (sym (honest_over.has_get o a) ∙ there))))
    | inr absent ↦ elim (Option-cases (lo.ops.get s.local a)) [
      | inl gone ↦
          subst (Away a s) (sym (overflow-gone a s o absent gone))
            (stays a s known (λ b h. absurd (no b (sym gone ∙ h))))
      | inr (b, h) ↦ elim (StoreAtResult-cases (over.ops.store_at o a (plain_reader b)).0) [
        | inl acc ↦ subst (Away a s) (sym (overflow-accepted a b s o absent h acc)) (
            moved-Away a b s o again known at (inr (honest_over.stored o a b acc))
              (known.from_local a b h) h)
        | inr (inl rej) ↦ absurd (honest_over.not_rejected o a b (known.from_local a b h) rej)
        | inr (inr err) ↦
            subst (Away a s) (sym (overflow-errored a b s o absent h err))
              (moved-Away a b s o stop known at (inl refl) (known.from_local a b h) h)
      ]
    ]
  ]
    where
      no : (b : Block) → ◌≡◌ {A = Option Block} none (some b) → ⊥
      no b e = cc

      found :
          (b : Block)
          → lo.ops.get s.local a ≡ some b
          → (y : Block) × (over.ops.get o a ≡ some y)
          → (o' : O) × (s.overflow ≡ some o') × (over.ops.get o' a ≡ some b)
      found b h (y, k) = (
        o,
        at,
        k
            ∙ same_block table lo dest over honest_dest honest_over a b y (known.from_local a b h)
                (known.from_over o at a y k),
      )

  Away-after :
      (a : Text) (s : CachingStorage L D O) (p : Bool × CachingStorage L D O)
      (q : Round × CachingStorage L D O)
      → Sent table lo dest over honest_dest honest_over a s p
      → Away a p.1 q
      → Away a s q
  unfolding InOverflow InLocal
  Away-after a s p q sent away = record {
    same_local = away.same_local ∙ sent.same_local;
    kept_there = λ x b h. away.kept_there x b (sent.kept x b h);
    kept_over = λ x b (o, at, h). away.kept_over x b (o, sent.same_overflow ∙ at, h);
    known = away.known;
    open_there = λ e. sent.still (away.open_there e);
    open_over = λ e. sym sent.same_overflow ∙ away.open_over e;
    away = λ b h. away.away b (ap (λ l. lo.ops.get l a) sent.same_local ∙ h);
  }

  next-overflow :
      (a : Text) (s : CachingStorage L D O) (o : O)
      → s.overflow ≡ some o
      → to_next lo dest over a (false, s) ≡ to_overflow lo dest over a o s
  unfolding to_next
  next-overflow a s o at = ground arith

  next-waits :
      (a : Text) (s : CachingStorage L D O) (d : D)
      → s.overflow ≡ none
      → s.destination ≡ some d
      → to_next lo dest over a (false, s) ≡ (stop, s)
  unfolding to_next
  next-waits a s d none_there at = ground arith

  to_next-Away :
      (a : Text) (s : CachingStorage L D O) (p : Bool × CachingStorage L D O)
      → Sent table lo dest over honest_dest honest_over a s p
      → HasPlace s
      → Away a s (to_next lo dest over a p)
  unfolding to_next HasPlace
  to_next-Away a s (true, s') sent place =
      unmoved a s (true, s') again sent
        (λ b h. elim (sent.away b h) [ inl f ↦ absurd (no f) | inr there ↦ inr (inl there) ])
    where
      no : true ≡ false → ⊥
      no f = cc
  to_next-Away a s (false, s') sent place = elim (Option-cases s'.overflow) [
    | inr (o, at) ↦ subst (Away a s) (sym (next-overflow a s' o at)) (
        Away-after a s (false, s') (to_overflow lo dest over a o s') sent
          (to_overflow-Away a s' o sent.known at))
    | inl e ↦ elim (Option-cases s'.destination) [
      | inl f ↦ absurd (place (sent.still f) (sym sent.same_overflow ∙ e))
      | inr (d, at) ↦
          subst (Away a s) (sym (next-waits a s' d e at))
            (unmoved a s (false, s') stop sent (λ b h. inl refl))
    ]
  ]

  pub send_away-Away :
      (a : Text) (s : CachingStorage L D O)
      → Sound lo dest over table s
      → HasPlace s
      → Away a s (send_away lo dest over a s)
  unfolding send_away
  send_away-Away a s known place =
      to_next-Away a s (to_destination lo dest over a s)
        (to_destination-Sent table lo dest over honest_dest honest_over a s known) place
