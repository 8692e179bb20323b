-- ===== src/Storage/Caching/Kept/Lookup.antt =====
-- Get finds what one of the stores holds.
use invariant_go.Shared.{
  ◌≡◌, refl, sym, ◌∙◌, ap, Option, none, some, some-injective, Option-cases, ◌⊎◌, inl, inr, Text,
  arith,
}
use invariant_go.Storage.Interface.{Block, StorageOps}
use invariant_go.Storage.Caching.{Controlled, CachingStorage, fetch_destination, get}
use invariant_go.Storage.Caching.Places.{
  InLocal, InDestination, InOverflow, Held, Sourced, AllSourced,
}

module _ {L D O : Type 0} (table : Text → Option Block) (lo : Controlled L) (dest : StorageOps D)
    (over : Controlled O) where
  get-local :
      (s : CachingStorage L D O) (x : Text) (y : Block)
      → lo.ops.get s.local x ≡ some y
      → (get lo dest over s x).0 ≡ some y
  unfolding get
  get-local s x y h = rw (h, get) refl

  get-overflow :
      (s : CachingStorage L D O) (x : Text) (o : O) (y : Block)
      → lo.ops.get s.local x ≡ none
      → s.overflow ≡ some o
      → over.ops.get o x ≡ some y
      → (get lo dest over s x).0 ≡ some y
  unfolding get
  get-overflow s x o y h at k = rw (h, get) (rw (at, get) (rw (k, get) refl))

  fetched :
      (s : CachingStorage L D O) (x : Text) (d : D) (y : Block)
      → s.destination ≡ some d
      → dest.get d x ≡ some y
      → (fetch_destination lo dest over s x).0 ≡ some y
  fetched s x d y at k = rw (at, fetch_destination) (rw (k, fetch_destination) refl)

  get-fetch :
      (s : CachingStorage L D O) (x : Text)
      → lo.ops.get s.local x ≡ none
      → ((s.overflow ≡ none) ⊎ ((o : O) × (s.overflow ≡ some o) × (over.ops.get o x ≡ none)))
      → (get lo dest over s x).0 ≡ (fetch_destination lo dest over s x).0
  unfolding get
  get-fetch s x h (inl e) = ground arith
  get-fetch s x h (inr (o, e, f)) = ground arith

  get-destination :
      (s : CachingStorage L D O) (x : Text) (d : D) (y : Block)
      → lo.ops.get s.local x ≡ none
      → ((s.overflow ≡ none) ⊎ ((o : O) × (s.overflow ≡ some o) × (over.ops.get o x ≡ none)))
      → s.destination ≡ some d
      → dest.get d x ≡ some y
      → (get lo dest over s x).0 ≡ some y
  get-destination s x d y h rest at k = get-fetch s x h rest ∙ fetched s x d y at k

  -- A block that the local store, the overflow or the destination holds under an address is what Get
  -- returns for the address, if the stores do not hold different blocks under one address.
  pub get-Held :
      (s : CachingStorage L D O) (x : Text) (b : Block)
      → AllSourced lo dest over table s
      → Held lo dest over x b s
      → (get lo dest over s x).0 ≡ some b
  unfolding InLocal InDestination InOverflow AllSourced Sourced
  get-Held s x b (from_local, from_there, from_over) held =
      elim (Option-cases (lo.ops.get s.local x)) [
        | inr (y, h) ↦ get-local s x y h ∙ same y (from_local x y h)
        | inl h ↦ elim (Option-cases s.overflow) [
          | inl e ↦ behind h (inl e)
          | inr (o, e) ↦ elim (Option-cases (over.ops.get o x)) [
            | inr (y, k) ↦ get-overflow s x o y h e k ∙ same y (from_over o e x y k)
            | inl k ↦ behind h (inr (o, e, k))
          ]
        ]
      ]
    where
      right : Held lo dest over x b s → table x ≡ some b
      right (inl h) = from_local x b h
      right (inr (inl (d, at, h))) = from_there d at x b h
      right (inr (inr (o, at, h))) = from_over o at x b h

      same : (y : Block) → table x ≡ some y → some y ≡ some b
      same y h = sym h ∙ right held

      behind :
          lo.ops.get s.local x ≡ none
          → ((s.overflow ≡ none) ⊎ ((o : O) × (s.overflow ≡ some o) × (over.ops.get o x ≡ none)))
          → (get lo dest over s x).0 ≡ some b
      behind h rest = go held rest
        where
          go :
              Held lo dest over x b s
              → ((s.overflow ≡ none)
                  ⊎ ((o : O) × (s.overflow ≡ some o) × (over.ops.get o x ≡ none)))
              → (get lo dest over s x).0 ≡ some b
          go (inl here) r = absurd (ground arith)
          go (inr (inl (d, at, k))) r = get-destination s x d b h r at k
          go (inr (inr (o, at, k))) (inl e) = absurd (ground arith)
          go (inr (inr (o, at, k))) (inr (o', e, f)) = absurd (empty o o' (sym at ∙ e) k f)
            where
              empty :
                  (o o' : O)
                  → ◌≡◌ {A = Option O} (some o) (some o')
                  → over.ops.get o x ≡ some b
                  → over.ops.get o' x ≡ none
                  → ⊥
              empty o o' e k f =
                  clash (sym k ∙ ap (λ v. over.ops.get v x) (some-injective o o' e) ∙ f)
                where
                  clash : ◌≡◌ {A = Option Block} (some b) none → ⊥
                  clash c = cc
