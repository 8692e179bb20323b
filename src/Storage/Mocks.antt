-- ===== src/Storage/Mocks.antt =====
-- internal/storage/hashing_storage.go and dryrun_storage.go: stores that keep no block.
use invariant_go.Shared.{
  ℕ, ◌≡◌, Bool, false, ◌||◌, ◌&&◌, not, Option, none, some, List, if◌then◌else◌, ◌==◌, Text,
  eq_text, encode_to_string, contains, set_add, contains-set_add, arith,
}
use invariant_go.Storage.Interface.{Reader, StoreAtResult, accepted, errored, StorageOps, Keeps}

-- `errored` is `true` with an error in the source.
unfoldable pub hash_store_at : Text → Reader → StoreAtResult
hash_store_at address r = if r.fails then errored else accepted

-- `seen` is a set of addresses.
pub record DryRunStorage : Type 0 where
  pub seen : List Text

unfoldable pub dry_has : DryRunStorage → Text → Bool
dry_has s address = contains address s.seen

unfoldable pub dry_store_at : DryRunStorage → Text → Reader → StoreAtResult × DryRunStorage
dry_store_at s address r = (accepted, record s { seen = set_add address s.seen })

-- hashingStorage has no state.
module _ (sha256 : List ℕ → List ℕ) where
  unfoldable pub hash_store : Reader → Option Text
  hash_store r = if r.fails then none else some (encode_to_string (sha256 r.content))

  abbrev pub hashing_ops : StorageOps {0} Unit
  hashing_ops = record {
    has = λ s a. false;
    get = λ s a. none;
    store = λ s r. (hash_store r, s);
    store_at = λ s a r. (hash_store_at a r, s);
    size = λ s a. none;
  }

  unfoldable pub dry_store : DryRunStorage → Reader → Option Text × DryRunStorage
  unfolding hash_store
  dry_store s r = elim (hash_store r) [
    | none ↦ (none, s)
    | some address ↦ (some address, record s { seen = set_add address s.seen })
  ]

  abbrev pub dry_run_ops : StorageOps DryRunStorage
  dry_run_ops = record {
    has = dry_has;
    get = λ s a. none;
    store = dry_store;
    store_at = dry_store_at;
    size = λ s a. none;
  }

  -- A dry run returns from Store the address that every store which keeps its blocks returns, and
  -- answers from then on that it has this address, and the addresses it had before.
  pub dry_run-agrees :
      {S : Type 0} (ops : StorageOps S)
      → Keeps (λ b. encode_to_string (sha256 b)) ops
      → (s : S) (d : DryRunStorage) (r : Reader) (a : Text)
      → ((dry_run_ops.store d r).0 ≡ (ops.store s r).0)
        × (dry_run_ops.has (dry_run_ops.store d r).1 a
            ≡ (dry_run_ops.has d a || not r.fails && encode_to_string (sha256 r.content) == a))
  unfolding dry_store dry_has hash_store
  dry_run-agrees ops k s d r a = (
    ground (arith, k.store_result s r),
    ground (arith, contains-set_add (encode_to_string (sha256 r.content)) a d.seen),
  )
