-- ===== src/Content/RoundTrip/Block.antt =====
-- A block that was written is read back: compression, encryption and the store, undone in turn.
use invariant_go.Shared.{
  list_eq, ℕ, ◌%◌, ◌<◌, ◌≡◌, refl, Bool, true, false, ◌||◌, not, Option, some, List, [], ◌∷◌, ◌⊎◌,
  inl, inr, length, nat_eq, ◌==◌, eq_string, eq_text, beq_self, String, Text, arith, AreBytes,
  encode_to_string, decode-encode,
}
use invariant_go.Content.Link.{ContentTransform, ContentLink, Codec, Stream, whole}
use invariant_go.Content.BuzHash.{BlockListItem}
use invariant_go.Content.Writer.{
  KeyPolicy, supplied_all_key, other_policy, WriterOptions, pad, is_deterministic, compress_data,
  decompress_transform, decipher_transform,
}
use invariant_go.Content.Reader.{
  applied, key_text, decipher_bytes, decipher, decompress, apply_transform, apply_transforms,
}
use invariant_go.Content.RoundTrip.Padding.{unpad-pad, length-pad}

-- What the writer and the reader rely on.
pub record CodecLaws (c : Codec) : Type 0 where
  pub sha256_length : (b : List ℕ) → length (c.sha256 b) ≡ 32
  pub sha256_bytes : (b : List ℕ) → AreBytes (c.sha256 b)
  pub inflate_deflate : (b : List ℕ) → c.inflate (whole (c.deflate b)) ≡ whole b
  pub gunzip_gzip : (b : List ℕ) → c.gunzip (whole (c.gzip b)) ≡ some (whole b)
  pub decrypt_encrypt :
      (key iv p : List ℕ)
      → length key ≡ 32
      → length iv ≡ 16
      → length p % 16 ≡ 0
      → c.decrypt key iv (c.encrypt key iv p) ≡ p
  pub encrypt_length :
      (key iv p : List ℕ)
      → length key ≡ 32
      → length iv ≡ 16
      → length p % 16 ≡ 0
      → length (c.encrypt key iv p) ≡ length p

abbrev pub IsKey : ℕ → List ℕ → Type 0
IsKey n k = (length k ≡ n) × AreBytes k

unfoldable pub Chosen : {R : Type 0} → ℕ → Option (List ℕ) × R → Type 0
Chosen n q = (k : List ℕ) × (q.0 ≡ some k) × IsKey n k

unfoldable pub known_policy : KeyPolicy → Bool
known_policy other_policy = false
known_policy _ = true

-- The policy exists, and the keys that were handed over have 32 bytes.
unfoldable pub ValidKeys : WriterOptions → Option (List ℕ) → Type 0
ValidKeys opts shared =
    (known_policy opts.key_policy ≡ true)
    × ((k : List ℕ) → shared ≡ some k → IsKey 32 k)
    × (opts.key_policy ≡ supplied_all_key → IsKey 32 opts.supplied_key)

abbrev pub Items : Type 0
Items = List (BlockListItem ContentLink)

-- Whether the reader of a link with the expected hash `e'` finds the key that was made with `expected`.
abbrev pub KeyFound : WriterOptions → Text → Text → Type 0
KeyFound opts expected e' = (is_deterministic opts.key_policy ≡ false) ⊎ (e' ≡ expected)

unfoldable pub IsRead : WriterOptions → Text → Text → Type 0
IsRead opts expected e' = (opts.encrypt_algorithm ≡ "") ⊎ KeyFound opts expected e'

key_text-decipher_transform :
    (opts : WriterOptions) (expected e' : Text) (key iv : List ℕ)
    → KeyFound opts expected e'
    → (encode_to_string key == []) ≡ false
    → key_text (decipher_transform opts expected key iv) e' ≡ encode_to_string key
key_text-decipher_transform opts expected e' key iv (inl named) h =
    ground (arith, eq_text.beq_iff (encode_to_string key) [], beq_self {A = Text} [])
key_text-decipher_transform opts expected e' key iv (inr same) h = ground (
  arith,
  eq_text.beq_iff expected (encode_to_string key),
  eq_text.beq_iff (encode_to_string key) [],
  beq_self {A = Text} [],
)

module _ (c : Codec) (laws : CodecLaws c) where
  -- The transforms of a link turn these bytes into those.
  unfoldable pub Undoes : List ContentTransform → Text → List ℕ → List ℕ → Type 0
  Undoes ts expected out b =
      (read_items : Items → Stream)
      → apply_transforms c read_items ts expected (whole out) ≡ some (whole b)

  compress_data-inflate :
      (b : List ℕ) (expected : Text)
      → Undoes (decompress_transform "inflate" ∷ []) expected (c.deflate b) b
  unfolding Undoes apply_transforms
  compress_data-inflate b expected =
      λ read_items. rw (laws.inflate_deflate b, apply_transforms, apply_transform, decompress) refl

  compress_data-gzip :
      (b : List ℕ) (expected : Text)
      → Undoes (decompress_transform "gzip" ∷ []) expected (c.gzip b) b
  unfolding Undoes apply_transforms
  compress_data-gzip b expected =
      λ read_items. rw (laws.gunzip_gzip b, apply_transforms, apply_transform, decompress) refl

  decipher_bytes-encrypt :
      (key iv b : List ℕ)
      → length key ≡ 32
      → length iv ≡ 16
      → decipher_bytes c key iv (c.encrypt key iv (pad b)) ≡ applied (whole b)
  unfolding decipher_bytes
  decipher_bytes-encrypt key iv b hk hv =
      rw (filled, decipher_bytes)
        (rw (hv, decipher_bytes)
          (rw (laws.decrypt_encrypt key iv (pad b) hk hv (length-pad b).1) (rw (unpad-pad b) refl)))
    where
      size : length (c.encrypt key iv (pad b)) ≡ length (pad b)
      size = laws.encrypt_length key iv (pad b) hk hv (length-pad b).1

      filled :
          (nat_eq (length (c.encrypt key iv (pad b))) 0
            || not (nat_eq (length (c.encrypt key iv (pad b)) % 16) 0))
          ≡ false
      filled = rw size (ground (arith, length-pad b))

  encode-nonempty : (key : List ℕ) → 0 < length key → (encode_to_string key == []) ≡ false
  unfolding encode_to_string list_eq
  encode-nonempty [] h = absurd (omega arith)
  encode-nonempty (k ∷ key) h = refl

  decipher-encrypt :
      (opts : WriterOptions) (expected e' : Text) (key iv b : List ℕ)
      → KeyFound opts expected e'
      → IsKey 32 key
      → IsKey 16 iv
      → decipher c (decipher_transform opts expected key iv) e' (whole (c.encrypt key iv (pad b)))
        ≡ applied (whole b)
  unfolding decipher
  decipher-encrypt opts expected e' key iv b found (hk, key_bytes) (hv, iv_bytes) =
      rw (key_is, decipher)
        (rw (nonempty, decipher)
          (rw (decode-encode key key_bytes, decipher)
            (rw (decode-encode iv iv_bytes, decipher)
              (rw (hk, decipher) (decipher_bytes-encrypt key iv b hk hv)))))
    where
      nonempty : (encode_to_string key == []) ≡ false
      nonempty = encode-nonempty key (omega (arith, hk))

      key_is : key_text (decipher_transform opts expected key iv) e' ≡ encode_to_string key
      key_is = key_text-decipher_transform opts expected e' key iv found nonempty

  pub Undoes-decipher :
      (opts : WriterOptions) (expected e' : Text) (key iv b : List ℕ) (ts : List ContentTransform)
      (x : List ℕ)
      → KeyFound opts expected e'
      → IsKey 32 key
      → IsKey 16 iv
      → Undoes ts e' b x
      → Undoes (decipher_transform opts expected key iv ∷ ts) e' (c.encrypt key iv (pad b)) x
  unfolding Undoes apply_transforms
  Undoes-decipher opts expected e' key iv b ts x found hk hv h = λ read_items.
      rw (decipher-encrypt opts expected e' key iv b found hk hv, apply_transforms, apply_transform)
        (h read_items)

  -- What compression leaves, is turned back by the transforms of the link.
  unfoldable pub Compressed : List ℕ → Option (List ℕ × List ContentTransform) → Type 0
  Compressed b q =
      (out : List ℕ) × (ts : List ContentTransform) × (q ≡ some (out, ts))
      × ((expected : Text) → Undoes ts expected out b)

  pub compress_data-Compressed :
      (algorithm : String) (b : List ℕ)
      → (algorithm ≡ "") ⊎ (algorithm ≡ "inflate") ⊎ (algorithm ≡ "gzip")
      → Compressed b (compress_data c algorithm b)
  unfolding Compressed compress_data Undoes apply_transforms
  compress_data-Compressed algorithm b (inl e) =
      (b, [], rw (e, compress_data) refl, λ expected read_items. refl)
  compress_data-Compressed algorithm b (inr (inl e)) = (
    c.deflate b,
    decompress_transform "inflate" ∷ [],
    rw (e, compress_data) refl,
    compress_data-inflate b,
  )
  compress_data-Compressed algorithm b (inr (inr e)) =
      (c.gzip b, decompress_transform "gzip" ∷ [], rw (e, compress_data) refl, compress_data-gzip b)
