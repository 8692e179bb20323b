-- ===== src/Storage/Interface.antt =====
-- internal/storage/storage.go: what every store of blocks offers, and the laws that a store which
-- keeps its blocks satisfies.
use invariant_go.Shared.{
  ℕ, ◌≡◌, Bool, Option, none, some, List, length, if◌then◌else◌, ◌==◌, Text, eq_text, is_some,
}

abbrev pub Block : Type 0
Block = List ℕ

-- An io.Reader as what can be read from it, and whether reading ends with an error.
pub record Reader : Type 0 where
  pub content : Block
  pub fails : Bool

-- StoreAt returns `true, nil`, `false, nil` or an error.
pub data StoreAtResult : Type 0 where
  accepted rejected errored : StoreAtResult

-- The operations, on a state of type S. `none` as the result of `store` is an error.
pub record StorageOps {ℓ} (S : Type ℓ) : Type ℓ where
  pub has : S → Text → Bool
  pub get : S → Text → Option Block
  pub store : S → Reader → Option Text × S
  pub store_at : S → Text → Reader → StoreAtResult × S
  pub size : S → Text → Option ℕ

abbrev pub block_size : Option Block → Option ℕ
block_size none = none
block_size (some b) = some (length b)

-- A store that keeps what it is given, under the address that `address_of` computes from it.
pub record Keeps {ℓ} {S : Type ℓ} (address_of : Block → Text) (ops : StorageOps S) : Type ℓ where
  pub has_get : (s : S) (a : Text) → ops.has s a ≡ is_some (ops.get s a)
  pub size_get : (s : S) (a : Text) → ops.size s a ≡ block_size (ops.get s a)
  pub store_result :
      (s : S) (r : Reader)
      → (ops.store s r).0 ≡ (if r.fails then none else some (address_of r.content))
  pub get_store :
      (s : S) (r : Reader) (a : Text)
      → ops.get (ops.store s r).1 a ≡ (
          if r.fails
          then ops.get s a
          else if address_of r.content == a
          then some r.content
          else ops.get s a)
  pub store_at_result :
      (s : S) (r : Reader) (a : Text)
      → (ops.store_at s a r).0
        ≡ (if r.fails then errored else if a == address_of r.content then accepted else rejected)
  pub get_store_at :
      (s : S) (r : Reader) (a b : Text)
      → ops.get (ops.store_at s a r).1 b ≡ (
          if r.fails
          then ops.get s b
          else if a == address_of r.content
          then (if a == b then some r.content else ops.get s b)
          else ops.get s b)
