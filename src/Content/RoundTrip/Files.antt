-- ===== src/Content/RoundTrip/Files.antt =====
-- What is read through the link of a file is the file.
use invariant_go.Shared.{
  ℕ, ◌≡◌, refl, sym, ◌∙◌, ap, subst, true, false, Bool-cases, Option, none, some, some-injective,
  List, [], ◌∷◌, ◌++◌, ◌⊎◌, inl, inr, All, join_chunks, Text, arith,
}
use invariant_go.Storage.Interface.{StorageOps, Keeps}
use invariant_go.Content.Link.{ContentTransform, ContentLink, Codec, Stream, whole}
use invariant_go.Content.BuzHash.{BlockListItem}
use invariant_go.Content.BuzHash.Chunks.{write_all, chunks, join-chunks, split-chunks}
use invariant_go.Content.BlockReader.{new_block_reader, read_all}
use invariant_go.Content.Writer.{
  KeyPolicy, random_per_block, random_all_key, deterministic, supplied_all_key, no_policy,
  other_policy, WriterOptions, Splitter, buz_hash_splitter, select_splitter, make_link, hash_text,
  blocks_transform,
}
use invariant_go.Content.Writer.File.{list_link, shared_key}
use invariant_go.Content.Reader.{
  Applied, applied, apply_error, apply_panic, as_stream, opened, apply_transform, apply_transforms,
  read_transformed, read_link,
}
use invariant_go.Content.RoundTrip.Block.{CodecLaws, Chosen, IsKey, ValidKeys, known_policy, Undoes}
use invariant_go.Content.RoundTrip.Stored.{ValidOptions, check_hash-sha256}

-- A splitter that writes the chunks of a partition of its input, in their order.
unfoldable pub Chops : {W : Type 0} → Splitter W → Type 0
Chops {W = W} sp =
    (chop : List ℕ → List (List ℕ)) × ((bytes : List ℕ) → join_chunks (chop bytes) ≡ bytes)
    × ((write : W → List ℕ → Option ContentLink × W) (bytes : List ℕ) (w : W)
        → sp.cut write bytes false w ≡ write_all write (chop bytes) [] w)

pub buz_hash_splitter-Chops : (W : Type 0) → Chops (buz_hash_splitter {W = W})
unfolding Chops
buz_hash_splitter-Chops W = (chunks, join-chunks, λ write bytes w. split-chunks write bytes w)

pub select_splitter-Chops :
    {W : Type 0} (head name kind : Text) (splitters : List (Splitter W))
    → All Chops splitters
    → Chops (select_splitter head name kind splitters)
unfolding select_splitter
select_splitter-Chops {W = W} head name kind [] h = buz_hash_splitter-Chops W
select_splitter-Chops head name kind (s ∷ splitters) (hs, h) =
    elim (Bool-cases (s.matches head name kind)) [
      | inl picked ↦ rw (picked, select_splitter) hs
      | inr other ↦ rw (other, select_splitter) (select_splitter-Chops head name kind splitters h)
    ]

module _ (c : Codec) (read_items : List (BlockListItem ContentLink) → Stream) where
  apply_transforms-append :
      (ts us : List ContentTransform) (e : Text) (s s' : Stream)
      → apply_transforms c read_items ts e s ≡ some s'
      → apply_transforms c read_items (ts ++ us) e s ≡ apply_transforms c read_items us e s'
  unfolding apply_transforms
  apply_transforms-append [] us e s s' h =
      ap (λ x. apply_transforms c read_items us e x) (some-injective s s' h)
  apply_transforms-append (t ∷ ts) us e s s' h =
      go (apply_transform c read_items t e s) refl (λ x k. apply_transforms-append ts us e x s' k)
    where
      go :
          (a : Applied)
          → apply_transform c read_items t e s ≡ a
          → ((x : Stream)
              → apply_transforms c read_items ts e x ≡ some s'
              → apply_transforms c read_items (ts ++ us) e x
                ≡ apply_transforms c read_items us e s')
          → apply_transforms c read_items (t ∷ ts ++ us) e s ≡ apply_transforms c read_items us e s'
      go (applied s'') k rest =
          rw (k, apply_transforms) (rest s'' (sym (rw (k, apply_transforms) refl) ∙ h))
      go apply_error k rest = absurd (ground arith)
      go apply_panic k rest = absurd (ground arith)

-- The options that a writer is started with.
unfoldable pub UsableOptions : WriterOptions → Type 0
UsableOptions opts =
    ((opts.compress_algorithm ≡ "")
      ⊎ (opts.compress_algorithm ≡ "inflate")
      ⊎ (opts.compress_algorithm ≡ "gzip"))
    × ((opts.encrypt_algorithm ≡ "") ⊎ (opts.encrypt_algorithm ≡ "aes-256-cbc"))
    × (known_policy opts.key_policy ≡ true)
    × (opts.key_policy ≡ supplied_all_key → IsKey 32 opts.supplied_key)

-- What reads a list of blocks.
abbrev pub items_reader :
    (c : Codec)
    → (Text → Option (List ℕ))
    → Option (Text → Option Text)
    → ℕ
    → ℕ
    → ℕ
    → List (BlockListItem ContentLink)
    → Stream
items_reader c get slot rounds buffer depth items =
    read_all (λ l. as_stream (read_link c get slot rounds buffer depth l)) rounds buffer
      (new_block_reader items)

module _ (c : Codec) (laws : CodecLaws c) where
  -- The bytes of a list that was written, read through the link of the file.
  pub read_transformed-list_link :
      (read_items : List (BlockListItem ContentLink) → Stream) (address : Text)
      (ts : List ContentTransform) (items : List (BlockListItem ContentLink)) (out data' : List ℕ)
      → Undoes c laws ts (hash_text c data') out (c.marshal items)
      → c.unmarshal (c.marshal items) ≡ some items
      → read_items items ≡ whole data'
      → read_transformed c read_items
          (list_link (hash_text c data') (make_link address ts (hash_text c (c.marshal items))))
          out
        ≡ opened (whole data')
  unfolding Undoes make_link apply_transforms
  read_transformed-list_link read_items address ts items out data' undoes unmarshals reads =
      rw
        (
          apply_transforms-append c read_items ts (blocks_transform ∷ []) (hash_text c data')
              (whole out) (whole (c.marshal items)) (undoes read_items),
          read_transformed,
        )
        (rw (unmarshals, apply_transforms, apply_transform)
          (rw (reads) (ap opened (check_hash-sha256 c laws read_items data'))))

module _ (c : Codec) (laws : CodecLaws c) {R : Type 0} (rand : R → ℕ → Option (List ℕ) × R)
    (random : (rng : R) (n : ℕ) → Chosen n (rand rng n)) {S : Type 0} (address_of : List ℕ → Text)
    (ops : StorageOps S) (keeps : Keeps address_of ops) where
  UsableOptions-ValidOptions :
      (opts : WriterOptions) (shared : Option (List ℕ))
      → UsableOptions opts
      → ((k : List ℕ) → shared ≡ some k → IsKey 32 k)
      → ValidOptions opts shared
  unfolding UsableOptions ValidOptions ValidKeys
  UsableOptions-ValidOptions opts shared (comp, enc, known, supplied) keys =
      (comp, enc, (known, keys, supplied))

  unfoldable pub Shared : WriterOptions → Option (Option (List ℕ)) × R → Type 0
  Shared opts q = (shared : Option (List ℕ)) × (q.0 ≡ some shared) × ValidOptions opts shared

  pub shared_key-Shared :
      (opts : WriterOptions) (rng : R)
      → UsableOptions opts
      → Shared opts (shared_key c rand ops opts rng)
  unfolding shared_key Shared UsableOptions Chosen known_policy
  shared_key-Shared opts rng usable = go opts.key_policy refl
    where
      one : (k : List ℕ) → IsKey 32 k → ValidOptions opts (some k)
      one k h =
          UsableOptions-ValidOptions opts (some k) usable
            (λ k' e. subst (IsKey 32) (some-injective k k' e) h)

      no_key : ValidOptions opts none
      no_key = UsableOptions-ValidOptions opts none usable (λ k' e. absurd (ground arith))

      random_key :
          opts.key_policy ≡ random_all_key
          → Chosen 32 (rand rng 32)
          → Shared opts (shared_key c rand ops opts rng)
      random_key e (k, hk, ok) = (some k, rw (e, shared_key) (rw hk refl), one k ok)

      supplied :
          opts.key_policy ≡ supplied_all_key
          → IsKey 32 opts.supplied_key
          → Shared opts (shared_key c rand ops opts rng)
      supplied e ok =
          (some opts.supplied_key, rw (e, shared_key) (rw (ok.0) refl), one opts.supplied_key ok)

      unknown : opts.key_policy ≡ other_policy → known_policy opts.key_policy ≡ true → ⊥
      unknown e h = ground arith

      go : (p : KeyPolicy) → opts.key_policy ≡ p → Shared opts (shared_key c rand ops opts rng)
      go random_all_key e = random_key e (random rng 32)
      go supplied_all_key e = supplied e (usable.3 e)
      go random_per_block e = (none, rw (e, shared_key) refl, no_key)
      go deterministic e = (none, rw (e, shared_key) refl, no_key)
      go no_policy e = (none, rw (e, shared_key) refl, no_key)
      go other_policy e = absurd (unknown e usable.2)
