-- ===== src/Content/RoundTrip/Stored.antt =====
-- What is stored under a link is read through the link.
use invariant_go.Shared.{
  list_eq, ℕ, suc, ◌≡◌, refl, sym, ◌∙◌, ap, subst, true, false, Bool-cases, ◌&&◌, Option, some,
  List, [], ◌∷◌, ◌⊎◌, inl, inr, if◌then◌else◌, ◌==◌, eq_text, beq_self, Text, arith,
}
use invariant_go.Storage.Interface.{StorageOps, Keeps}
use invariant_go.Content.Link.{ContentTransform, ContentLink, Codec, Stream, whole}
use invariant_go.Content.Writer.{
  WriterOptions, World, is_empty, make_link, hash_text, compress_data, encrypt_data, store_block,
  write_block,
}
use invariant_go.Content.BlockReader.{new_block_reader, read_all}
use invariant_go.Content.Reader.{
  as_stream, opened, apply_transforms, check_hash, read_transformed, read_link,
}
use invariant_go.Content.RoundTrip.Block.{
  CodecLaws, IsRead, Items, Chosen, ValidKeys, Undoes, Compressed, compress_data-Compressed,
}
use invariant_go.Content.RoundTrip.Encryption.{Encrypted, encrypt_data-Encrypted}
use invariant_go.Content.RoundTrip.Promises.{as_reader, IsClean, Extends, Grows, Readable}

-- The algorithms are known, and the keys usable.
unfoldable pub ValidOptions : WriterOptions → Option (List ℕ) → Type 0
ValidOptions opts shared =
    ((opts.compress_algorithm ≡ "")
      ⊎ (opts.compress_algorithm ≡ "inflate")
      ⊎ (opts.compress_algorithm ≡ "gzip"))
    × ((opts.encrypt_algorithm ≡ "") ⊎ (opts.encrypt_algorithm ≡ "aes-256-cbc"))
    × ValidKeys opts shared

module _ (c : Codec) (laws : CodecLaws c) (read_items : Items → Stream) where
  pub check_hash-sha256 : (b : List ℕ) → check_hash c (hash_text c b) (whole b) ≡ whole b
  unfolding check_hash
  check_hash-sha256 b = rw (beq_self (hash_text c b)) (ground arith)

  read_transformed-Undoes :
      (link : ContentLink) (out b : List ℕ)
      → Undoes c laws link.transforms link.expected out b
      → check_hash c link.expected (whole b) ≡ whole b
      → read_transformed c read_items link out ≡ opened (whole b)
  unfolding Undoes
  read_transformed-Undoes link out b h k = rw (h read_items, read_transformed) (ap opened k)

  -- The expected hash of a link is the block's, or left out.
  check_hash-make_link :
      (address : Text) (ts : List ContentTransform) (b : List ℕ)
      → check_hash c (make_link address ts (hash_text c b)).expected (whole b) ≡ whole b
  unfolding make_link check_hash list_eq
  check_hash-make_link address ts b = elim (Bool-cases (is_empty ts && hash_text c b == address)) [
    | inl left_out ↦ rw (left_out, make_link) refl
    | inr kept ↦ rw (kept, make_link) (check_hash-sha256 b)
  ]

module _ (c : Codec) (get : Text → Option (List ℕ)) (slot : Option (Text → Option Text))
    (rounds buffer : ℕ) where
  pub read_link-stored :
      (depth : ℕ) (link : ContentLink) (out b : List ℕ)
      → link.slot ≡ false
      → get link.address ≡ some out
      → read_transformed c
          (λ items.
            read_all
              (λ l. as_stream (read_link c get slot rounds buffer depth l))
              rounds
              buffer
              (new_block_reader items))
          link
          out
        ≡ opened (whole b)
      → read_link c get slot rounds buffer (suc depth) link ≡ opened (whole b)
  unfolding read_link
  read_link-stored depth link out b fixed has reads =
      rw (fixed, read_link) (rw (has, read_link) reads)

module _ (c : Codec) (laws : CodecLaws c) {R : Type 0} (rand : R → ℕ → Option (List ℕ) × R)
    (random : (rng : R) (n : ℕ) → Chosen n (rand rng n)) {S : Type 0} (address_of : List ℕ → Text)
    (ops : StorageOps S) (keeps : Keeps address_of ops) where
  after_store :
      (s : S) (out : List ℕ) (a : Text)
      → ops.get (ops.store s (as_reader out)).1 a
        ≡ (if address_of out == a then some out else ops.get s a)
  after_store s out a = keeps.get_store s (as_reader out) a

  pub after_here :
      (s : S) (out : List ℕ) (a : Text)
      → (address_of out == a) ≡ true
      → ops.get (ops.store s (as_reader out)).1 a ≡ some out
  after_here s out a h = after_store s out a ∙ rw h refl

  pub after_there :
      (s : S) (out : List ℕ) (a : Text)
      → (address_of out == a) ≡ false
      → ops.get (ops.store s (as_reader out)).1 a ≡ ops.get s a
  after_there s out a h = after_store s out a ∙ rw h refl

  -- What a write leaves: the link of the block, and its bytes in the store, from which the transforms
  -- of the link lead back to the block.
  pub record Stored (opts : WriterOptions) (b : List ℕ) (w : World S R)
      (q : Option ContentLink × World S R) : Type 0 where
    pub address : Text
    pub transforms : List ContentTransform
    pub out : List ℕ
    pub result : q.0 ≡ some (make_link address transforms (hash_text c b))
    pub has : ops.get q.1.store address ≡ some out
    pub undoes : (e' : Text) → IsRead opts (hash_text c b) e' → Undoes c laws transforms e' out b
    pub after : q.1.store ≡ (ops.store w.store (as_reader out)).1

  store_block-Stored :
      (opts : WriterOptions) (b out : List ℕ) (ts : List ContentTransform) (w : World S R) (rng : R)
      → ((e' : Text) → IsRead opts (hash_text c b) e' → Undoes c laws ts e' out b)
      → Stored opts b w (store_block c rand ops out ts (hash_text c b) (record w { rng = rng }))
  store_block-Stored opts b out ts w rng undoes = record {
    address = address_of out;
    transforms = ts;
    out = out;
    result = rw (keeps.store_result w.store (as_reader out), store_block) refl;
    has =
        rw (keeps.store_result w.store (as_reader out), store_block)
          (after_store w.store out (address_of out) ∙ rw (beq_self (address_of out)) refl);
    undoes = undoes;
    after = rw (keeps.store_result w.store (as_reader out), store_block) refl;
  }

  pub write_block-stored :
      (opts : WriterOptions) (shared : Option (List ℕ)) (w : World S R) (b mid out : List ℕ)
      (ts ts' : List ContentTransform)
      → compress_data c opts.compress_algorithm b ≡ some (mid, ts)
      → (encrypt_data c rand opts shared b mid ts w.rng).0 ≡ some (out, ts')
      → write_block c rand ops opts shared w b
        ≡ store_block c rand ops out ts'
            (hash_text c b)
            (record w { rng = (encrypt_data c rand opts shared b mid ts w.rng).1 })
  unfolding write_block
  write_block-stored opts shared w b mid out ts ts' h k =
      rw (h, write_block) (rw (k, write_block) refl)

  pub write_block-Stored :
      (opts : WriterOptions) (shared : Option (List ℕ)) (w : World S R) (b : List ℕ)
      → ValidOptions opts shared
      → Stored opts b w (write_block c rand ops opts shared w b)
  unfolding ValidOptions Compressed Encrypted
  write_block-Stored opts shared w b (compresses, encrypts, keys) =
      go (compress_data-Compressed c laws opts.compress_algorithm b compresses)
    where
      go :
          Compressed c laws b (compress_data c opts.compress_algorithm b)
          → Stored opts b w (write_block c rand ops opts shared w b)
      go (mid, ts, h, undoes) =
          with_out
            (encrypt_data-Encrypted c laws rand random opts shared b mid ts w.rng encrypts keys)
        where
          with_out :
              Encrypted c laws rand random opts mid ts
                (hash_text c b)
                (encrypt_data c rand opts shared b mid ts w.rng)
              → Stored opts b w (write_block c rand ops opts shared w b)
          with_out (out, ts', k, undoes') =
              subst (Stored opts b w) (sym (write_block-stored opts shared w b mid out ts ts' h k))
                (store_block-Stored opts b out ts' w
                  (encrypt_data c rand opts shared b mid ts w.rng).1
                  (λ e' ok. undoes' e' b ok (undoes e')))

  -- A link finds the key of its block, whether it names its expected hash or not.
  Undoes-make_link :
      (opts : WriterOptions) (address : Text) (ts : List ContentTransform) (out b : List ℕ)
      → ((e' : Text) → IsRead opts (hash_text c b) e' → Undoes c laws ts e' out b)
      → Undoes c laws ts (make_link address ts (hash_text c b)).expected out b
  unfolding Undoes make_link apply_transforms IsRead
  Undoes-make_link opts address [] out b undoes = undoes (hash_text c b) (inr (inr refl))
  Undoes-make_link opts address (t ∷ ts) out b undoes = undoes (hash_text c b) (inr (inr refl))

  pub read_link-Stored :
      (opts : WriterOptions) (b : List ℕ) (w : World S R) (q : Option ContentLink × World S R)
      (s : Stored opts b w q) (st : S)
      → Extends ops q.1.store st
      → (slot : Option (Text → Option Text)) (rounds buffer depth : ℕ)
      → read_link c
          (ops.get st)
          slot
          rounds
          buffer
          (suc depth)
          (make_link s.address s.transforms (hash_text c b))
        ≡ opened (whole b)
  unfolding make_link Extends
  read_link-Stored opts b w q s st extends slot rounds buffer depth =
      read_link-stored c (ops.get st) slot rounds buffer depth
        (make_link s.address s.transforms (hash_text c b)) s.out b refl
        (extends s.address s.out s.has)
        (read_transformed-Undoes c laws
          (λ items.
            read_all (λ l. as_stream (read_link c (ops.get st) slot rounds buffer depth l)) rounds
              buffer (new_block_reader items))
          (make_link s.address s.transforms (hash_text c b)) s.out b
          (Undoes-make_link opts s.address s.transforms s.out b s.undoes)
          (check_hash-make_link c laws (λ items. whole []) s.address s.transforms b))

  -- A block is written, and Read of the link that is returned gives the bytes of the block, if the
  -- compression is none, inflate or gzip, the encryption none or aes-256-cbc, the key policy a known one,
  -- and the shared and supplied keys have 32 bytes; if hashes have 32 bytes, and what decompresses or
  -- decrypts undoes what compresses or encrypts; and if neither the random source nor the store fails.
  pub write_block-Readable :
      (opts : WriterOptions) (shared : Option (List ℕ)) (w : World S R) (b : List ℕ)
      → ValidOptions opts shared
      → Readable c ops b (write_block c rand ops opts shared w b)
  unfolding Readable Extends
  write_block-Readable opts shared w b valid = go (write_block-Stored opts shared w b valid)
    where
      go :
          Stored opts b w (write_block c rand ops opts shared w b)
          → Readable c ops b (write_block c rand ops opts shared w b)
      go s = (
        make_link s.address s.transforms (hash_text c b),
        s.result,
        λ slot rounds buffer depth.
            read_link-Stored opts b w (write_block c rand ops opts shared w b) s
              (write_block c rand ops opts shared w b).1.store (λ a out h. h) slot rounds buffer
              depth,
      )

module _ {S : Type 0} (address_of : List ℕ → Text) (ops : StorageOps S)
    (keeps : Keeps address_of ops) (Clean : S → Type 0) (clean : IsClean address_of ops Clean) where
  store-Grows : (s : S) (out : List ℕ) → Grows ops Clean s (ops.store s (as_reader out)).1
  unfolding IsClean Grows Extends
  store-Grows s out ok = ((clean s out ok).0, λ a x h. found a x h)
    where
      found :
          (a : Text) (x : List ℕ)
          → ops.get s a ≡ some x
          → ops.get (ops.store s (as_reader out)).1 a ≡ some x
      found a x h = elim (Bool-cases (address_of out == a)) [
        | inl here ↦
            (keeps.get_store s (as_reader out) a ∙ rw here refl)
            ∙ ap some
                (sym ((clean s out ok).1 x (rw ((eq_text.beq_iff (address_of out) a).0 here) h)))
        | inr there ↦ (keeps.get_store s (as_reader out) a ∙ rw there refl) ∙ h
      ]

  -- Storing a block takes nothing away.
  pub stored-Grows :
      (s t : S) (out : List ℕ) → t ≡ (ops.store s (as_reader out)).1 → Grows ops Clean s t
  stored-Grows s t out e = subst (Grows ops Clean s) (sym e) (store-Grows s out)
