-- ===== src/Content/RoundTrip/Encryption.antt =====
-- Encryption, with the choice of a key, is undone by the transform that it adds.
use invariant_go.Shared.{
  All-take, ℕ, ◌≡◌, refl, sym, ◌∙◌, true, false, Bool-cases, Option, none, some, List, ◌∷◌, ◌++◌,
  ◌⊎◌, inl, inr, length, length-take, take, eq_string, eq_text, String, Text, arith, IsByte,
}
use invariant_go.Content.Link.{ContentTransform, Codec}
use invariant_go.Content.Writer.{
  KeyPolicy, random_per_block, random_all_key, deterministic, supplied_all_key, no_policy,
  other_policy, WriterOptions, pad, hash_text, decipher_transform, choose_key, choose_iv,
  encrypt_data, hashes_iv,
}
use invariant_go.Content.RoundTrip.Block.{
  CodecLaws, Chosen, known_policy, ValidKeys, KeyFound, IsRead, Undoes, Undoes-decipher,
}

differ : (a : String) → a ≡ "" → a ≡ "aes-256-cbc" → ⊥
differ a h k = no ((eq_string.beq_iff "" "aes-256-cbc").1 (sym h ∙ k))
  where
    no : false ≡ true → ⊥
    no e = cc

module _ (c : Codec) (laws : CodecLaws c) {R : Type 0} (rand : R → ℕ → Option (List ℕ) × R)
    (random : (rng : R) (n : ℕ) → Chosen n (rand rng n)) where
  choose_key-Chosen :
      (opts : WriterOptions) (shared : Option (List ℕ)) (b : List ℕ) (rng : R)
      → ValidKeys opts shared
      → Chosen 32 (choose_key c rand opts shared b rng)
  unfolding choose_key Chosen ValidKeys known_policy
  choose_key-Chosen opts shared b rng (known, shares, supplied) =
      go opts.key_policy shared refl refl
    where
      go :
          (p : KeyPolicy) (s : Option (List ℕ))
          → opts.key_policy ≡ p
          → shared ≡ s
          → Chosen 32 (choose_key c rand opts shared b rng)
      go random_per_block s e f = rw (e, choose_key) (random rng 32)
      go no_policy s e f = rw (e, choose_key) (random rng 32)
      go random_all_key none e f = rw (e, choose_key) (rw f (random rng 32))
      go random_all_key (some k) e f = rw (e, choose_key) (rw f (k, refl, shares k f))
      go supplied_all_key (some k) e f = rw (e, choose_key) (rw f (k, refl, shares k f))
      go supplied_all_key none e f =
          rw (e, choose_key) (rw f (rw ((supplied e).0) (opts.supplied_key, refl, supplied e)))
      go deterministic s e f =
          rw (e, choose_key) (c.sha256 b, refl, (laws.sha256_length b, laws.sha256_bytes b))
      go other_policy s e f = absurd (ground arith)

  choose_iv-Chosen :
      (opts : WriterOptions) (key b : List ℕ) (rng : R)
      → Chosen 16 (choose_iv c rand opts key b rng)
  unfolding choose_iv Chosen
  choose_iv-Chosen opts key b rng = elim (Bool-cases (hashes_iv opts.key_policy)) [
    | inl hashed ↦
        rw (hashed, choose_iv)
          (
            take 16 (c.sha256 (key ++ b)),
            refl,
            (
              omega (arith, length-take 16 (c.sha256 (key ++ b)), laws.sha256_length (key ++ b)),
              All-take IsByte 16 (c.sha256 (key ++ b)) (laws.sha256_bytes (key ++ b)),
            ),
          )
    | inr fresh ↦ rw (fresh, choose_iv) (random rng 16)
  ]

  -- What encryption leaves is turned back by the transforms that it adds.
  unfoldable pub Encrypted :
      WriterOptions
      → List ℕ
      → List ContentTransform
      → Text
      → Option (List ℕ × List ContentTransform) × R
      → Type 0
  Encrypted opts current ts expected q =
      (out : List ℕ) × (ts' : List ContentTransform) × (q.0 ≡ some (out, ts'))
      × ((e' : Text) (x : List ℕ)
          → IsRead opts expected e'
          → Undoes c laws ts e' current x
          → Undoes c laws ts' e' out x)

  pub encrypt_data-aes :
      (opts : WriterOptions) (shared : Option (List ℕ)) (b current : List ℕ)
      (ts : List ContentTransform) (rng : R) (key iv : List ℕ)
      → opts.encrypt_algorithm ≡ "aes-256-cbc"
      → (choose_key c rand opts shared b rng).0 ≡ some key
      → length key ≡ 32
      → (choose_iv c rand opts key b (choose_key c rand opts shared b rng).1).0 ≡ some iv
      → (encrypt_data c rand opts shared b current ts rng).0
        ≡ some (c.encrypt key iv (pad current), decipher_transform opts (hash_text c b) key iv ∷ ts)
  unfolding encrypt_data
  encrypt_data-aes opts shared b current ts rng key iv aes hk size hv =
      rw (aes, encrypt_data)
        (rw (hk, encrypt_data) (rw (hv, encrypt_data) (rw (size, encrypt_data) refl)))

  pub encrypt_data-Encrypted :
      (opts : WriterOptions) (shared : Option (List ℕ)) (b current : List ℕ)
      (ts : List ContentTransform) (rng : R)
      → (opts.encrypt_algorithm ≡ "") ⊎ (opts.encrypt_algorithm ≡ "aes-256-cbc")
      → ValidKeys opts shared
      → Encrypted opts current ts (hash_text c b) (encrypt_data c rand opts shared b current ts rng)
  unfolding Encrypted encrypt_data Chosen IsRead
  encrypt_data-Encrypted opts shared b current ts rng (inl plain) valid =
      (current, ts, rw (plain, encrypt_data) refl, λ e' x ok h. h)
  encrypt_data-Encrypted opts shared b current ts rng (inr aes) valid =
      go (choose_key-Chosen opts shared b rng valid)
    where
      found : (e' : Text) → IsRead opts (hash_text c b) e' → KeyFound opts (hash_text c b) e'
      found e' (inl plain) = absurd (differ opts.encrypt_algorithm plain aes)
      found e' (inr f) = f

      go :
          Chosen 32 (choose_key c rand opts shared b rng)
          → Encrypted opts current ts
              (hash_text c b)
              (encrypt_data c rand opts shared b current ts rng)
      go (key, hk, key_ok) =
          with_iv (choose_iv-Chosen opts key b (choose_key c rand opts shared b rng).1)
        where
          with_iv :
              Chosen 16 (choose_iv c rand opts key b (choose_key c rand opts shared b rng).1)
              → Encrypted opts current ts
                  (hash_text c b)
                  (encrypt_data c rand opts shared b current ts rng)
          with_iv (iv, hv, iv_ok) = (
            c.encrypt key iv (pad current),
            decipher_transform opts (hash_text c b) key iv ∷ ts,
            encrypt_data-aes opts shared b current ts rng key iv aes hk key_ok.0 hv,
            λ e' x ok h.
                Undoes-decipher c laws opts (hash_text c b) e' key iv current ts x (found e' ok)
                  key_ok iv_ok h,
          )
