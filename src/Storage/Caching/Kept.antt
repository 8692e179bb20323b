-- ===== src/Storage/Caching/Kept.antt =====
-- What doEvict does to the blocks that the caching store can find: the destination.
pub mod Rounds
pub mod Eviction
pub mod Lookup
use invariant_go.Shared.{
  ℕ, zero, suc, ◌≡◌, refl, sym, ◌∙◌, ap, subst, Bool, true, false, Bool-cases, ◌||◌, Option, none,
  some, some-injective, Option-cases, List, [], ◌∷◌, ◌⊎◌, inl, inr, if◌then◌else◌, ◌==◌, eq_text,
  beq_self, Text, contains, is_some, arith,
}
use invariant_go.Storage.Interface.{
  Block, Reader, StoreAtResult, accepted, rejected, errored, StorageOps,
}
use invariant_go.Storage.Caching.{Controlled, CachingStorage, plain_reader, known_there}
use invariant_go.Storage.Caching.Evict.{
  Round, again, stop, send_block, to_destination, to_overflow, send_away,
}
use invariant_go.Storage.Caching.Places.{
  Honest, InLocal, InDestination, InOverflow, Sound, Sourced, store_at_kept, store_at-Sourced,
}

pub StoreAtResult-cases : (r : StoreAtResult) → (r ≡ accepted) ⊎ (r ≡ rejected) ⊎ (r ≡ errored)
StoreAtResult-cases accepted = inl refl
StoreAtResult-cases rejected = inr (inl refl)
StoreAtResult-cases errored = inr (inr refl)

pub some_of : (o : Option Block) → is_some o ≡ true → (b : Block) × (o ≡ some b)
some_of none h = absurd (ground arith)
some_of (some b) h = (b, refl)

module _ {L D O : Type 0} (table : Text → Option Block) (lo : Controlled L) (dest : StorageOps D)
    (over : Controlled O) (honest_dest : Honest table dest)
    (honest_over : Honest table over.ops) where
  -- The block of an address is the only one.
  pub same_block : (a : Text) (b y : Block) → table a ≡ some b → table a ≡ some y → some y ≡ some b
  same_block a b y h k = sym k ∙ h

  pub record Sent (a : Text) (s : CachingStorage L D O) (p : Bool × CachingStorage L D O)
      : Type 0 where
    pub same_local : p.1.local ≡ s.local
    pub same_overflow : p.1.overflow ≡ s.overflow
    pub kept : (x : Text) (b : Block) → InDestination dest x b s → InDestination dest x b p.1
    pub known : Sound lo dest over table p.1
    pub away : (b : Block) → InLocal lo a b s → (p.0 ≡ false) ⊎ InDestination dest a b p.1
    pub still : p.1.destination ≡ none → s.destination ≡ none

  unsent : (a : Text) (s : CachingStorage L D O) → Sound lo dest over table s → Sent a s (false, s)
  unsent a s known = record {
    same_local = refl;
    same_overflow = refl;
    kept = λ x b h. h;
    known = known;
    away = λ b h. inl refl;
    still = λ h. h;
  }

  was_there :
      (a : Text) (s : CachingStorage L D O) (d : D)
      → Sound lo dest over table s
      → s.destination ≡ some d
      → is_some (dest.get d a) ≡ true
      → Sent a s (true, s)
  unfolding InLocal InDestination Sourced
  was_there a s d known at there = record {
    same_local = refl;
    same_overflow = refl;
    kept = λ x b h. h;
    known = known;
    away = λ b h. inr (found b h (some_of (dest.get d a) there));
    still = λ h. h;
  }
    where
      found :
          (b : Block)
          → lo.ops.get s.local a ≡ some b
          → (y : Block) × (dest.get d a ≡ some y)
          → (d' : D) × (s.destination ≡ some d') × (dest.get d' a ≡ some b)
      found b h (y, k) =
          (d, at, k ∙ same_block a b y (known.from_local a b h) (known.from_there d at a y k))

  -- The destination after StoreAt of a block.
  abbrev after : Text → Block → D → D
  after a b d = (dest.store_at d a (plain_reader b)).1

  abbrev moved : CachingStorage L D O → D → CachingStorage L D O
  moved s d = record s { destination = some d }

  moved-kept :
      (a : Text) (b : Block) (s : CachingStorage L D O) (d : D)
      → s.destination ≡ some d
      → Sound lo dest over table s
      → table a ≡ some b
      → (x : Text) (y : Block) → InDestination dest x y s
      → InDestination dest x y (moved s (after a b d))
  unfolding InDestination
  moved-kept a b s d at known right x y (e, ate, h) = (
    after a b d,
    refl,
    store_at_kept table dest honest_dest d a x b y (known.from_there d at) right
        (ap (λ (f : D). dest.get f x) (some-injective d e (sym at ∙ ate)) ∙ h),
  )

  still_there :
      (a : Text) (b : Block) (d : D) (x : Text)
      → Sourced table dest d
      → table a ≡ some b
      → is_some (dest.get d x) ≡ true
      → is_some (dest.get (after a b d) x) ≡ true
  still_there a b d x from right h = go (some_of (dest.get d x) h)
    where
      go : (y : Block) × (dest.get d x ≡ some y) → is_some (dest.get (after a b d) x) ≡ true
      go (y, k) = ap is_some (store_at_kept table dest honest_dest d a x b y from right k)

  moved_from :
      (a : Text) (b : Block) (d e : D)
      → Sourced table dest d
      → table a ≡ some b
      → some (after a b d) ≡ some e
      → Sourced table dest e
  moved_from a b d e from right at =
      subst (Sourced table dest) (some-injective (after a b d) e at)
        (store_at-Sourced table dest honest_dest d a b from right)

  moved-Sound :
      (a : Text) (b : Block) (s : CachingStorage L D O) (d : D)
      → s.destination ≡ some d
      → Sound lo dest over table s
      → table a ≡ some b
      → Sound lo dest over table (moved s (after a b d))
  moved-Sound a b s d at known right = record {
    listed = λ x e h ate.
        ap (λ (f : D). is_some (dest.get f x)) (sym (some-injective (after a b d) e ate))
        ∙ still_there a b d x (known.from_there d at) right (known.listed x d h at);
    from_local = known.from_local;
    from_there = λ e ate. moved_from a b d e (known.from_there d at) right ate;
    from_over = known.from_over;
  }

  accepted-Sound :
      (a : Text) (b : Block) (s : CachingStorage L D O) (d : D)
      → s.destination ≡ some d
      → Sound lo dest over table s
      → table a ≡ some b
      → (dest.store_at d a (plain_reader b)).0 ≡ accepted
      → Sound lo dest over table (known_there a (moved s (after a b d)))
  unfolding contains
  accepted-Sound a b s d at known right acc = record {
    listed = λ x e h ate.
        ap (λ (f : D). is_some (dest.get f x)) (sym (some-injective (after a b d) e ate))
        ∙ go x h (Bool-cases (a == x));
    from_local = known.from_local;
    from_there = λ e ate. moved_from a b d e (known.from_there d at) right ate;
    from_over = known.from_over;
  }
    where
      go :
          (x : Text)
          → contains x (known_there a (moved s (after a b d))).dest_has ≡ true
          → ((a == x) ≡ true) ⊎ ((a == x) ≡ false)
          → is_some (dest.get (after a b d) x) ≡ true
      go x h (inl same) =
          ap (λ k. is_some (dest.get (after a b d) k)) (sym ((eq_text.beq_iff a x).0 same))
          ∙ ap is_some (honest_dest.stored d a b acc)
      go x h (inr other) =
          still_there a b d x (known.from_there d at) right (known.listed x d (ground arith) at)

  send_block-errored :
      (a : Text) (b : Block) (s : CachingStorage L D O) (d : D)
      → (dest.store_at d a (plain_reader b)).0 ≡ errored
      → send_block lo dest over a b d s ≡ (false, moved s (after a b d))
  send_block-errored a b s d e = rw (e, send_block) refl

  send_block-accepted :
      (a : Text) (b : Block) (s : CachingStorage L D O) (d : D)
      → (dest.store_at d a (plain_reader b)).0 ≡ accepted
      → send_block lo dest over a b d s ≡ (true, known_there a (moved s (after a b d)))
  send_block-accepted a b s d e = rw (e, send_block) refl

  send_block-Sent :
      (a : Text) (b : Block) (s : CachingStorage L D O) (d : D)
      → Sound lo dest over table s
      → s.destination ≡ some d
      → InLocal lo a b s
      → Sent a s (send_block lo dest over a b d s)
  unfolding InLocal InDestination Sourced
  send_block-Sent a b s d known at h =
      elim (StoreAtResult-cases (dest.store_at d a (plain_reader b)).0) [
        | inl acc ↦ subst (Sent a s) (sym (send_block-accepted a b s d acc)) (record {
          same_local = refl;
          same_overflow = refl;
          kept = λ x y k. moved-kept a b s d at known (known.from_local a b h) x y k;
          known = accepted-Sound a b s d at known (known.from_local a b h) acc;
          away = λ y k. inr (after a b d, refl, honest_dest.stored d a b acc ∙ sym h ∙ k);
          still = λ e. absurd (no e);
        })
        | inr (inl rej) ↦ absurd (honest_dest.not_rejected d a b (known.from_local a b h) rej)
        | inr (inr err) ↦ subst (Sent a s) (sym (send_block-errored a b s d err)) (record {
          same_local = refl;
          same_overflow = refl;
          kept = λ x y k. moved-kept a b s d at known (known.from_local a b h) x y k;
          known = moved-Sound a b s d at known (known.from_local a b h);
          away = λ y k. inl refl;
          still = λ e. absurd (no e);
        })
      ]
    where
      no : ◌≡◌ {A = Option D} (some (after a b d)) none → ⊥
      no e = cc

  to_destination-none :
      (a : Text) (s : CachingStorage L D O)
      → s.destination ≡ none
      → to_destination lo dest over a s ≡ (false, s)
  unfolding to_destination
  to_destination-none a s e = ground arith

  to_destination-there :
      (a : Text) (s : CachingStorage L D O) (d : D)
      → s.destination ≡ some d
      → (contains a s.dest_has || dest.has d a) ≡ true
      → to_destination lo dest over a s ≡ (true, s)
  unfolding to_destination
  to_destination-there a s d at h = ground arith

  to_destination-gone :
      (a : Text) (s : CachingStorage L D O) (d : D)
      → s.destination ≡ some d
      → (contains a s.dest_has || dest.has d a) ≡ false
      → lo.ops.get s.local a ≡ none
      → to_destination lo dest over a s ≡ (false, s)
  unfolding to_destination
  to_destination-gone a s d at h k = ground arith

  to_destination-send :
      (a : Text) (s : CachingStorage L D O) (d : D) (b : Block)
      → s.destination ≡ some d
      → (contains a s.dest_has || dest.has d a) ≡ false
      → lo.ops.get s.local a ≡ some b
      → to_destination lo dest over a s ≡ send_block lo dest over a b d s
  unfolding to_destination
  to_destination-send a s d b at h k =
      rw (at, to_destination) (rw (h, to_destination) (rw (k, to_destination) refl))

  pub to_destination-Sent :
      (a : Text) (s : CachingStorage L D O)
      → Sound lo dest over table s
      → Sent a s (to_destination lo dest over a s)
  unfolding InLocal
  to_destination-Sent a s known = elim (Option-cases s.destination) [
    | inl e ↦ subst (Sent a s) (sym (to_destination-none a s e)) (unsent a s known)
    | inr (d, at) ↦ elim (Bool-cases (contains a s.dest_has || dest.has d a)) [
      | inl there ↦
          subst (Sent a s) (sym (to_destination-there a s d at there))
            (was_there a s d known at (present d at there))
      | inr absent ↦ elim (Option-cases (lo.ops.get s.local a)) [
        | inl gone ↦
            subst (Sent a s) (sym (to_destination-gone a s d at absent gone)) (unsent a s known)
        | inr (b, h) ↦
            subst (Sent a s) (sym (to_destination-send a s d b at absent h))
              (send_block-Sent a b s d known at h)
      ]
    ]
  ]
    where
      present :
          (d : D)
          → s.destination ≡ some d
          → (contains a s.dest_has || dest.has d a) ≡ true
          → is_some (dest.get d a) ≡ true
      present d at h = elim (Bool-cases (contains a s.dest_has)) [
        | inl listed ↦ known.listed a d listed at
        | inr other ↦ sym (honest_dest.has_get d a) ∙ right h other
      ]
        where
          right :
              (contains a s.dest_has || dest.has d a) ≡ true
              → contains a s.dest_has ≡ false
              → dest.has d a ≡ true
          right h o = ground arith
