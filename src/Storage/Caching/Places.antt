-- ===== src/Storage/Caching/Places.antt =====
-- Where the caching store has a block, and what it relies on of its stores.
use invariant_go.Shared.{
  ◌≡◌, sym, ◌∙◌, ap, true, false, Bool-cases, Option, none, some, ◌⊎◌, inl, inr, ◌==◌, eq_text,
  beq_self, Text, contains, is_some, arith,
}
use invariant_go.Storage.Interface.{Block, accepted, rejected, StorageOps, Keeps}
use invariant_go.Storage.Caching.{Controlled, CachingStorage, plain_reader}

-- A store whose StoreAt changes at most the address it is called with, holds there what it accepted or
-- what it had, and answers false for no block of the table, though it may fail. The table says which
-- block belongs to an address.
pub record Honest {S : Type 0} (table : Text → Option Block) (ops : StorageOps S) : Type 0 where
  pub has_get : (s : S) (a : Text) → ops.has s a ≡ is_some (ops.get s a)
  pub others :
      (s : S) (a x : Text) (b : Block)
      → (a == x) ≡ false
      → ops.get (ops.store_at s a (plain_reader b)).1 x ≡ ops.get s x
  pub there :
      (s : S) (a : Text) (b : Block)
      → (ops.get (ops.store_at s a (plain_reader b)).1 a ≡ some b)
        ⊎ (ops.get (ops.store_at s a (plain_reader b)).1 a ≡ ops.get s a)
  pub stored :
      (s : S) (a : Text) (b : Block)
      → (ops.store_at s a (plain_reader b)).0 ≡ accepted
      → ops.get (ops.store_at s a (plain_reader b)).1 a ≡ some b
  pub not_rejected :
      (s : S) (a : Text) (b : Block)
      → table a ≡ some b
      → (ops.store_at s a (plain_reader b)).0 ≡ rejected
      → ⊥

-- Every store that keeps its blocks is one, if the blocks of the table belong to their hash.
pub Keeps-Honest :
    {S : Type 0} (address_of : Block → Text) (table : Text → Option Block) (ops : StorageOps S)
    → Keeps address_of ops
    → ((a : Text) (b : Block) → table a ≡ some b → address_of b ≡ a)
    → Honest table ops
Keeps-Honest address_of table ops keeps own = record {
  has_get = keeps.has_get;
  others =
      λ s a x b h. ground (arith, keeps.get_store_at s (plain_reader b) a x, eq_text.beq_iff a x);
  there = λ s a b. elim (Bool-cases (a == address_of b)) [
    | inl y ↦ inl (ground (arith, keeps.get_store_at s (plain_reader b) a a, beq_self a))
    | inr n ↦ inr (ground (arith, keeps.get_store_at s (plain_reader b) a a, beq_self a))
  ];
  stored = λ s a b h. ground (
    arith,
    keeps.get_store_at s (plain_reader b) a a,
    keeps.store_at_result s (plain_reader b) a,
    beq_self a,
  );
  not_rejected = λ s a b h k. ground (
    arith,
    keeps.store_at_result s (plain_reader b) a,
    own a b h,
    eq_text.beq_iff a (address_of b),
  );
}

module _ {S : Type 0} (table : Text → Option Block) (ops : StorageOps S) where
  -- The store holds blocks of the table only.
  unfoldable pub Sourced : S → Type 0
  Sourced s = (a : Text) (b : Block) → ops.get s a ≡ some b → table a ≡ some b

  module _ (honest : Honest table ops) where
    pub store_at_kept :
        (s : S) (a x : Text) (b y : Block)
        → Sourced s
        → table a ≡ some b
        → ops.get s x ≡ some y
        → ops.get (ops.store_at s a (plain_reader b)).1 x ≡ some y
    unfolding Sourced
    store_at_kept s a x b y from right h = elim (Bool-cases (a == x)) [
      | inr other ↦ honest.others s a x b other ∙ h
      | inl same ↦
          rw (sym ((eq_text.beq_iff a x).0 same))
            (here (ap (ops.get s) ((eq_text.beq_iff a x).0 same) ∙ h))
    ]
      where
        here : ops.get s a ≡ some y → ops.get (ops.store_at s a (plain_reader b)).1 a ≡ some y
        here k = elim (honest.there s a b) [
          | inl new ↦ new ∙ sym right ∙ from a y k
          | inr old ↦ old ∙ k
        ]

    pub store_at-Sourced :
        (s : S) (a : Text) (b : Block)
        → Sourced s
        → table a ≡ some b
        → Sourced (ops.store_at s a (plain_reader b)).1
    unfolding Sourced
    store_at-Sourced s a b from right x y h = elim (Bool-cases (a == x)) [
      | inr other ↦ from x y (sym (honest.others s a x b other) ∙ h)
      | inl same ↦
          ap table (sym ((eq_text.beq_iff a x).0 same))
          ∙ here (
              ap (ops.get (ops.store_at s a (plain_reader b)).1) ((eq_text.beq_iff a x).0 same) ∙ h)
    ]
      where
        here : ops.get (ops.store_at s a (plain_reader b)).1 a ≡ some y → table a ≡ some y
        here k = elim (honest.there s a b) [
          | inl new ↦ right ∙ sym new ∙ k
          | inr old ↦ from a y (sym old ∙ k)
        ]

-- Removing a block leaves the others, and puts no other block in its place.
abbrev pub RemovesOne : {L : Type 0} → Controlled L → Type 0
RemovesOne {L = L} lo =
    ((l : L) (a x : Text) → (a == x) ≡ false → lo.ops.get (lo.remove l a).1 x ≡ lo.ops.get l x)
    × ((l : L) (a : Text) (b : Block)
        → lo.ops.get (lo.remove l a).1 a ≡ some b
        → lo.ops.get l a ≡ some b)

module _ {L D O : Type 0} where
  unfoldable pub InLocal : Controlled L → Text → Block → CachingStorage L D O → Type 0
  InLocal lo x b s = lo.ops.get s.local x ≡ some b

  unfoldable pub InDestination : StorageOps D → Text → Block → CachingStorage L D O → Type 0
  InDestination dest x b s = (d : D) × (s.destination ≡ some d) × (dest.get d x ≡ some b)

  unfoldable pub InOverflow : Controlled O → Text → Block → CachingStorage L D O → Type 0
  InOverflow over x b s = (o : O) × (s.overflow ≡ some o) × (over.ops.get o x ≡ some b)

  -- A block can be sent somewhere.
  unfoldable pub HasPlace : CachingStorage L D O → Type 0
  HasPlace s = s.destination ≡ none → s.overflow ≡ none → ⊥

  module _ (lo : Controlled L) (dest : StorageOps D) (over : Controlled O) where
    -- The block is found in one of the stores.
    abbrev pub Held : Text → Block → CachingStorage L D O → Type 0
    Held x b s = InLocal lo x b s ⊎ InDestination dest x b s ⊎ InOverflow over x b s

    module _ (table : Text → Option Block) where
      -- The three stores hold blocks of the table only.
      unfoldable pub AllSourced : CachingStorage L D O → Type 0
      AllSourced s =
          Sourced table lo.ops s.local
          × ((d : D) → s.destination ≡ some d → Sourced table dest d)
          × ((o : O) → s.overflow ≡ some o → Sourced table over.ops o)

      -- destHas is right, and the stores hold blocks of the table only.
      pub record Sound (s : CachingStorage L D O) : Type 0 where
        pub listed :
            (a : Text) (d : D)
            → contains a s.dest_has ≡ true
            → s.destination ≡ some d
            → is_some (dest.get d a) ≡ true
        pub from_local : Sourced table lo.ops s.local
        pub from_there : (d : D) → s.destination ≡ some d → Sourced table dest d
        pub from_over : (o : O) → s.overflow ≡ some o → Sourced table over.ops o

      -- What doEvict relies on and leaves true.
      unfoldable pub Ready : CachingStorage L D O → Type 0
      Ready s = Sound s × HasPlace s

      unfoldable pub StillHeld : CachingStorage L D O → CachingStorage L D O → Type 0
      StillHeld s s' = Ready s' × ((x : Text) (b : Block) → Held x b s → Held x b s')
