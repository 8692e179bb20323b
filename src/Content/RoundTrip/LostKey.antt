-- ===== src/Content/RoundTrip/LostKey.antt =====
-- The key of an encrypted list under the deterministic policy.
use invariant_go.Shared.{
  ℕ, suc, ◌≡◌, refl, sym, ◌∙◌, ap, subst, true, false, Option, some, List, [], ◌∷◌, ◌++◌, length,
  take, leb, eq_text, beq_self, Text, arith,
}
use invariant_go.Storage.Interface.{StorageOps, Keeps}
use invariant_go.Content.Link.{ContentTransform, ContentLink, Codec}
use invariant_go.Content.BuzHash.{BlockListItem, max_block_size}
use invariant_go.Content.Writer.{
  deterministic, WriterOptions, World, pad, is_deterministic, hashes_iv, blocks_transform,
  make_link, hash_text, compress_data, decipher_transform, choose_key, choose_iv, encrypt_data,
  store_block, write_block,
}
use invariant_go.Content.Writer.File.{Written, written, list_link, write_block_list}
use invariant_go.Content.Reader.{key_text}
use invariant_go.Content.RoundTrip.Block.{CodecLaws, Chosen}
use invariant_go.Content.RoundTrip.Encryption.{encrypt_data-aes}
use invariant_go.Content.RoundTrip.Stored.{write_block-stored, after_here}
use invariant_go.Content.RoundTrip.Lists.{write_block_list-one}

module _ (c : Codec) {R S : Type 0} (ops : StorageOps S) where
  -- The bytes in the store are encrypted with the hash of the list, and the key that the link gives to
  -- the reader is `overall`.
  unfoldable pub LosesKey : Text → List ℕ → Written ContentLink × World S R → Type 0
  LosesKey overall json q =
      (link : ContentLink) × (t : ContentTransform) × (ts : List ContentTransform) × (iv : List ℕ)
      × (mid : List ℕ) × (q.0 ≡ written link)
      × (link.transforms ≡ t ∷ ts)
      × (t.kind ≡ "Decipher")
      × (key_text t link.expected ≡ overall)
      × (ops.get q.1.store link.address ≡ some (c.encrypt (c.sha256 json) iv (pad mid)))

module _ (c : Codec) (laws : CodecLaws c) {R : Type 0} (rand : R → ℕ → Option (List ℕ) × R)
    (random : (rng : R) (n : ℕ) → Chosen n (rand rng n)) {S : Type 0} (address_of : List ℕ → Text)
    (ops : StorageOps S) (keeps : Keeps address_of ops) where
  key_text-left_out :
      (opts : WriterOptions) (b iv : List ℕ) (overall : Text)
      → opts.key_policy ≡ deterministic
      → key_text (decipher_transform opts (hash_text c b) (c.sha256 b) iv) overall ≡ overall
  unfolding is_deterministic
  key_text-left_out opts b iv overall policy =
      ground (arith, beq_self (hash_text c b), eq_text.beq_iff overall [], beq_self {A = Text} [])

  deterministic-iv : List ℕ → List ℕ
  deterministic-iv b = take 16 (c.sha256 (c.sha256 b ++ b))

  choose_key-deterministic :
      (opts : WriterOptions) (shared : Option (List ℕ)) (b : List ℕ) (rng : R)
      → opts.key_policy ≡ deterministic
      → (choose_key c rand opts shared b rng).0 ≡ some (c.sha256 b)
  unfolding choose_key
  choose_key-deterministic opts shared b rng policy = rw (policy, choose_key) refl

  choose_iv-deterministic :
      (opts : WriterOptions) (b : List ℕ) (rng : R)
      → opts.key_policy ≡ deterministic
      → (choose_iv c rand opts (c.sha256 b) b rng).0 ≡ some (deterministic-iv b)
  unfolding choose_iv hashes_iv deterministic-iv
  choose_iv-deterministic opts b rng policy = rw (policy, choose_iv) refl

  stored_link :
      (out : List ℕ) (ts : List ContentTransform) (expected : Text) (w : World S R)
      → (store_block c rand ops out ts expected w).0 ≡ some (make_link (address_of out) ts expected)
  stored_link out ts expected w =
      rw (keeps.store_result w.store (record { content = out; fails = false }), store_block) refl

  stored_bytes :
      (out : List ℕ) (ts : List ContentTransform) (expected : Text) (w : World S R)
      → ops.get (store_block c rand ops out ts expected w).1.store (address_of out) ≡ some out
  stored_bytes out ts expected w =
      rw (keeps.store_result w.store (record { content = out; fails = false }), store_block)
        (after_here c laws rand random address_of ops keeps w.store out (address_of out)
          (beq_self (address_of out)))

  -- Under the deterministic policy with aes-256-cbc, a list that can be compressed and fits a block is
  -- encrypted with its own hash, while the key that Read takes for it is the hash of the file; if hashes
  -- have 32 bytes and the store does not fail.
  pub write_block_list-LosesKey :
      (fuel : ℕ) (opts : WriterOptions) (shared : Option (List ℕ)) (overall : Text)
      (items : List (BlockListItem ContentLink)) (w : World S R) (mid : List ℕ)
      (ts : List ContentTransform)
      → opts.key_policy ≡ deterministic
      → opts.encrypt_algorithm ≡ "aes-256-cbc"
      → compress_data c opts.compress_algorithm (c.marshal items) ≡ some (mid, ts)
      → leb (length (c.marshal items)) max_block_size ≡ true
      → LosesKey c ops overall
          (c.marshal items)
          (write_block_list c rand ops (suc fuel) opts shared overall items w)
  unfolding LosesKey make_link
  write_block_list-LosesKey fuel opts shared overall items w mid ts policy aes compressed fits =
      subst (LosesKey c ops overall json)
        (sym (
          write_block_list-one c laws rand random address_of ops keeps fuel opts shared overall
            items w link fits written_link))
        (
          list_link overall link,
          t,
          ts ++ blocks_transform ∷ [],
          deterministic-iv json,
          mid,
          refl,
          refl,
          refl,
          key_text-left_out opts json (deterministic-iv json) overall policy,
          bytes,
        )
    where
      json : List ℕ
      json = c.marshal items

      t : ContentTransform
      t = decipher_transform opts (hash_text c json) (c.sha256 json) (deterministic-iv json)

      out : List ℕ
      out = c.encrypt (c.sha256 json) (deterministic-iv json) (pad mid)

      link : ContentLink
      link = make_link (address_of out) (t ∷ ts) (hash_text c json)

      w1 : World S R
      w1 = record w { rng = (encrypt_data c rand opts shared json mid ts w.rng).1 }

      write_eq :
          write_block c rand ops opts shared w json
          ≡ store_block c rand ops out (t ∷ ts) (hash_text c json) w1
      write_eq =
          write_block-stored c laws rand random address_of ops keeps opts shared w json mid out ts
            (t ∷ ts) compressed
            (encrypt_data-aes c laws rand random opts shared json mid ts w.rng (c.sha256 json)
              (deterministic-iv json) aes (choose_key-deterministic opts shared json w.rng policy)
              (laws.sha256_length json)
              (choose_iv-deterministic opts json (choose_key c rand opts shared json w.rng).1
                policy))

      written_link : (write_block c rand ops opts shared w json).0 ≡ some link
      written_link =
          ap (λ (q : Option ContentLink × World S R). q.0) write_eq
          ∙ stored_link out (t ∷ ts) (hash_text c json) w1

      bytes :
          ops.get (write_block c rand ops opts shared w json).1.store (address_of out) ≡ some out
      bytes =
          ap (λ (q : Option ContentLink × World S R). ops.get q.1.store (address_of out)) write_eq
          ∙ stored_bytes out (t ∷ ts) (hash_text c json) w1
