-- ===== src/Storage/Joined.antt =====
-- internal/storage/joined_storage.go: a store in front of another, which may be missing.
use invariant_go.Shared.{
  ℕ, ◌≡◌, Bool, true, false, Option, none, some, if◌then◌else◌, Text, eq_text, is_some, arith,
}
use invariant_go.Storage.Interface.{Block, Reader, StoreAtResult, StorageOps, Keeps, block_size}

pub record JoinedStorage {ℓ} (S T : Type ℓ) : Type ℓ where
  pub primary : S
  pub secondary : Option T

module _ {ℓ} {S T : Type ℓ} (p : StorageOps S) (q : StorageOps T) where
  unfoldable pub has : JoinedStorage S T → Text → Bool
  has j address =
      if p.has j.primary address
      then true
      else elim j.secondary [ none ↦ false | some t ↦ q.has t address ]

  unfoldable pub get : JoinedStorage S T → Text → Option Block
  get j address = elim (p.get j.primary address) [
    | some b ↦ some b
    | none ↦ elim j.secondary [ none ↦ none | some t ↦ q.get t address ]
  ]

  unfoldable pub store : JoinedStorage S T → Reader → Option Text × JoinedStorage S T
  store j r = let (a, s) = p.store j.primary r in (a, record j { primary = s })

  unfoldable pub store_at : JoinedStorage S T → Text → Reader → StoreAtResult × JoinedStorage S T
  store_at j address r =
      let (a, s) = p.store_at j.primary address r in (a, record j { primary = s })

  unfoldable pub size : JoinedStorage S T → Text → Option ℕ
  size j address = elim (p.size j.primary address) [
    | some n ↦ some n
    | none ↦ elim j.secondary [ none ↦ none | some t ↦ q.size t address ]
  ]

  abbrev pub joined_ops : StorageOps (JoinedStorage S T)
  joined_ops = record { has = has; get = get; store = store; store_at = store_at; size = size }

  -- If both stores keep their blocks, so does the joined one: in particular Has and Size agree with
  -- Get across the two, and what was stored is returned whatever the second store has at its address.
  pub joined-Keeps :
      (address_of : Block → Text)
      → Keeps address_of p
      → Keeps address_of q
      → Keeps address_of joined_ops
  unfolding has get store store_at size
  joined-Keeps address_of kp kq = record {
    has_get = λ j a.
        coherent j.secondary (p.has j.primary a) (p.get j.primary a) a (kp.has_get j.primary a);
    size_get = λ j a.
        sized j.secondary (p.size j.primary a) (p.get j.primary a) a (kp.size_get j.primary a);
    store_result = λ j r. kp.store_result j.primary r;
    get_store = λ j r a. ground (arith, kp.get_store j.primary r a);
    store_at_result = λ j r a. kp.store_at_result j.primary r a;
    get_store_at = λ j r a b. ground (arith, kp.get_store_at j.primary r a b);
  }
    where
      coherent :
          (t : Option T) (h : Bool) (g : Option Block) (a : Text)
          → h ≡ is_some g
          → (if h then true else elim t [ none ↦ false | some t ↦ q.has t a ])
            ≡ is_some
                (elim g [ some b ↦ some b | none ↦ elim t [ none ↦ none | some t ↦ q.get t a ] ])
      coherent none h g a e = ground arith
      coherent (some t) h g a e = ground (arith, kq.has_get t a)

      sized :
          (t : Option T) (n : Option ℕ) (g : Option Block) (a : Text)
          → n ≡ block_size g
          → ◌≡◌ {A = Option ℕ}
              (elim n [ some n ↦ some n | none ↦ elim t [ none ↦ none | some t ↦ q.size t a ] ])
              (block_size
                (elim g [ some b ↦ some b | none ↦ elim t [ none ↦ none | some t ↦ q.get t a ] ]))
      sized none n g a e = ground arith
      sized (some t) n g a e = ground (arith, kq.size_get t a)
