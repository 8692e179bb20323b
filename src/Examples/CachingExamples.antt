-- ===== src/Examples/CachingExamples.antt =====
-- The theorems on the caching store with stores in memory.
use invariant_go.Shared.{
  ◌≡◌, refl, sym, ◌∙◌, ap, true, false, Bool-cases, Option, none, some, some-injective, [], ◌∷◌,
  ◌⊎◌, inl, inr, if◌then◌else◌, ◌==◌, eq_text, beq_self, list_eq, Text, contains, map, GoMap,
  lookup, encode_to_string, hex_digit, arith,
}
use invariant_go.Examples.Digest.{digest}
use invariant_go.Storage.Interface.{Block, StorageOps}
use invariant_go.Storage.Memory.{InMemoryStorage, get, remove, in_memory_ops}
use invariant_go.Storage.Memory.Content.{get-remove, in_memory-Keeps}
use invariant_go.Storage.Caching
use invariant_go.Storage.Caching.{Controlled, CachingStorage}
use invariant_go.Storage.Caching.Evict.{do_evict}
use invariant_go.Storage.Caching.Termination.{do_evict_enough}
use invariant_go.Storage.Caching.Kept.Eviction.{do_evict-StillHeld}
use invariant_go.Storage.Caching.Kept.Lookup.{get-Held}
use invariant_go.Storage.Caching.Places.{
  Honest, Keeps-Honest, RemovesOne, InDestination, Sourced, HasPlace, AllSourced, Ready, StillHeld,
}

unfoldable hash : Block → Block
unfolding digest
hash b = digest 32 b

unfoldable hash_address : Block → Text
unfolding hash encode_to_string hex_digit
hash_address b = encode_to_string (hash b)

abbrev memory_ops : StorageOps InMemoryStorage
memory_ops = in_memory_ops hash

abbrev memory_store : Controlled InMemoryStorage
memory_store = record { ops = memory_ops; remove = remove; list = λ s. map (λ (a, b). a) s.store }

memory_store-RemovesOne : RemovesOne memory_store
memory_store-RemovesOne = (
  λ l a x h. (get-remove l a x).1 ∙ rw h refl,
  λ l a b h. absurd (clash a b (get l a) (sym (get-remove l a a).1 ∙ h)),
)
  where
    clash : (a : Text) (b : Block) (o : Option Block) → (if a == a then none else o) ≡ some b → ⊥
    clash a b o h = ground (arith, beq_self a)

abbrev old : Block
old = 1 ∷ 2 ∷ []

abbrev new : Block
new = 3 ∷ []

abbrev entries : GoMap Text Block
entries = (hash_address old, old) ∷ (hash_address new, new) ∷ []

abbrev table : Text → Option Block
table a = lookup a entries

table_own : (a : Text) (b : Block) → table a ≡ some b → encode_to_string (hash b) ≡ a
unfolding lookup hash_address
table_own a b h = own (Bool-cases (hash_address old == a)) (Bool-cases (hash_address new == a))
  where
    own :
        ((hash_address old == a) ≡ true) ⊎ ((hash_address old == a) ≡ false)
        → ((hash_address new == a) ≡ true) ⊎ ((hash_address new == a) ≡ false)
        → encode_to_string (hash b) ≡ a
    own (inl y) q =
        ap hash_address (sym (some-injective old b (sym (rw y refl) ∙ h)))
        ∙ (eq_text.beq_iff (hash_address old) a).0 y
    own (inr n) (inl y) =
        ap hash_address (sym (some-injective new b (sym (rw n (rw y refl)) ∙ h)))
        ∙ (eq_text.beq_iff (hash_address new) a).0 y
    own (inr n) (inr n') = absurd (no (sym (rw n (rw n' refl)) ∙ h))
      where
        no : ◌≡◌ {A = Option Block} none (some b) → ⊥
        no e = cc

memory_ops-Honest : Honest table memory_ops
memory_ops-Honest =
    Keeps-Honest (λ b. encode_to_string (hash b)) table memory_ops (in_memory-Keeps hash) table_own

abbrev holding : GoMap Text Block → InMemoryStorage
holding m = record { id = []; store = m; subscribers = [] }

nothing_found : (a : Text) (b : Block) → ◌≡◌ {A = Option Block} none (some b) → table a ≡ some b
nothing_found a b h = absurd (no h)
  where
    no : ◌≡◌ {A = Option Block} none (some b) → ⊥
    no h = cc

-- The local store is above its desired size, and nothing is at the destination yet.
abbrev full : CachingStorage InMemoryStorage InMemoryStorage InMemoryStorage
full = record {
  local = holding entries;
  destination = some (holding []);
  overflow = none;
  max_size = 10;
  desired_size = 1;
  delegate_on_max = false;
  lru = hash_address new ∷ hash_address old ∷ [];
  added = 3;
  removed = 0;
  dest_has = [];
}

full-Ready : Ready memory_store memory_ops memory_store table full
unfolding Ready HasPlace contains Sourced get lookup
full-Ready = (
  record {
    listed = λ a d h e. absurd (no h);
    from_local = λ a b h. h;
    from_there =
        λ d e a b h. nothing_found a b (ap (λ t. get t a) (some-injective (holding []) d e) ∙ h);
    from_over = λ o e. absurd (no_store o e);
  },
  λ e f. no_place e,
)
  where
    no : false ≡ true → ⊥
    no h = cc

    no_store : (o : InMemoryStorage) → ◌≡◌ {A = Option InMemoryStorage} none (some o) → ⊥
    no_store o h = cc

    no_place : ◌≡◌ {A = Option InMemoryStorage} (some (holding [])) none → ⊥
    no_place h = cc

do_evict-StillHeld_example :
    StillHeld memory_store memory_ops memory_store table full
      (do_evict memory_store memory_ops memory_store 3 full)
do_evict-StillHeld_example =
    do_evict-StillHeld table memory_store memory_ops memory_store memory_ops-Honest
      memory_ops-Honest memory_store-RemovesOne 3 full full-Ready

do_evict_enough_example :
    do_evict memory_store memory_ops memory_store 3 full
    ≡ do_evict memory_store memory_ops memory_store 100 full
do_evict_enough_example =
    do_evict_enough memory_store memory_ops memory_store 3 100 full (omega arith) (omega arith)

abbrev evicted : CachingStorage InMemoryStorage InMemoryStorage InMemoryStorage
evicted = record full { local = holding []; destination = some (holding entries); lru = [] }

old_there : InDestination memory_ops (hash_address old) old evicted
unfolding InDestination get lookup hash_address hash digest list_eq encode_to_string hex_digit
old_there = (holding entries, refl, refl)

evicted-AllSourced : AllSourced memory_store memory_ops memory_store table evicted
unfolding AllSourced Sourced get lookup
evicted-AllSourced = (
  nothing_found,
  λ d e a b h. ap (λ t. get t a) (some-injective (holding entries) d e) ∙ h,
  λ o e. absurd (no o e),
)
  where
    no : (o : InMemoryStorage) → ◌≡◌ {A = Option InMemoryStorage} none (some o) → ⊥
    no o h = cc

get-Held_example :
    (Caching.get memory_store memory_ops memory_store evicted (hash_address old)).0 ≡ some old
get-Held_example =
    get-Held table memory_store memory_ops memory_store evicted (hash_address old) old
      evicted-AllSourced (inr (inl old_there))
