-- ===== src/Content/RoundTrip/Watched.antt =====
-- A store that notes when a block takes the place of a different one under its address.
use invariant_go.Shared.{
  ℕ, ◌≡◌, Bool, true, false, Bool-cases, Option, none, some, List, inl, inr, if◌then◌else◌, ◌==◌,
  eq_text, Text, arith,
}
use invariant_go.Storage.Interface.{Reader, StorageOps, Keeps}
use invariant_go.Content.RoundTrip.Promises.{as_reader, IsClean}

-- The block found is another one.
unfoldable pub replaces : Option (List ℕ) → Reader → Bool
replaces none r = false
replaces (some x) r = if r.fails then false else if x == r.content then false else true

module _ {S : Type 0} (address_of : List ℕ → Text) (ops : StorageOps S) where
  unfoldable pub watched : StorageOps (S × Bool)
  unfolding replaces
  watched = record {
    has = λ (s, noted) a. ops.has s a;
    get = λ (s, noted) a. ops.get s a;
    store = λ (s, noted) r.
        let (a, s') = ops.store s r in
        (a, (s', (if replaces (ops.get s (address_of r.content)) r then true else noted)));
    store_at = λ (s, noted) a r. let (k, s') = ops.store_at s a r in (k, (s', noted));
    size = λ (s, noted) a. ops.size s a;
  }

  -- Nothing was noted.
  abbrev pub Unnoted : S × Bool → Type 0
  Unnoted (s, noted) = noted ≡ false

  module _ (keeps : Keeps address_of ops) where
    pub watched-Keeps : Keeps address_of watched
    unfolding watched
    watched-Keeps = record {
      has_get = λ (s, noted) a. keeps.has_get s a;
      size_get = λ (s, noted) a. keeps.size_get s a;
      store_result = λ (s, noted) r. keeps.store_result s r;
      get_store = λ (s, noted) r a. keeps.get_store s r a;
      store_at_result = λ (s, noted) r a. keeps.store_at_result s r a;
      get_store_at = λ (s, noted) r a b. keeps.get_store_at s r a b;
    }

    replaces_same :
        (o : Option (List ℕ)) (out : List ℕ) (noted : Bool)
        → (if replaces o (as_reader out) then true else noted) ≡ false
        → (noted ≡ false) × ((x : List ℕ) → o ≡ some x → x ≡ out)
    unfolding replaces
    replaces_same none out noted h = (h, λ x e. absurd (ground arith))
    replaces_same (some y) out noted h = elim (Bool-cases (y == out)) [
      | inl same ↦ (ground arith, λ x e. ground (arith, eq_text.beq_iff y out))
      | inr other ↦ absurd (ground arith)
    ]

    pub watched-IsClean : IsClean address_of watched Unnoted
    unfolding watched IsClean
    watched-IsClean (s, noted) out h = replaces_same (ops.get s (address_of out)) out noted h
