-- ===== src/Content/Writer.antt =====
-- internal/content/writer.go: a file is written as blocks, compressed and encrypted, and as a list of
-- them.
pub mod File
use invariant_go.Shared.{
  ℕ, zero, suc, ◌+◌, ◌-◌, ◌/◌, ◌%◌, Bool, true, false, ◌&&◌, ◌||◌, Option, none, some, List, [],
  ◌∷◌, ◌++◌, length, take, drop, replicate, ltb, leb, nat_eq, if◌then◌else◌, ◌==◌, eq_string,
  eq_text, String, Text, encode_to_string,
}
use invariant_go.Storage.Interface.{Reader, StorageOps}
use invariant_go.Content.Link.{ContentTransform, ContentLink, Codec}
use invariant_go.Content.BuzHash.{BlockListItem, split, max_block_size}

-- `no_policy` is the empty text.
pub data KeyPolicy : Type 0 where
  random_per_block random_all_key deterministic supplied_all_key no_policy other_policy : KeyPolicy

pub record WriterOptions : Type 0 where
  pub compress_algorithm : String
  pub encrypt_algorithm : String
  pub key_policy : KeyPolicy
  pub supplied_key : List ℕ
  pub filename : Text
  pub content_type : Text

-- The store, and the source of random bytes.
pub record World (S R : Type 0) : Type 0 where
  pub store : S
  pub rng : R

-- A Splitter that reads its input to the end and uses the callback for chunks only.
pub record Splitter (W : Type 0) : Type 0 where
  pub matches : List ℕ → Text → Text → Bool
  pub cut :
      (W → List ℕ → Option ContentLink × W)
      → List ℕ
      → Bool
      → W
      → Option (List (BlockListItem ContentLink)) × W

abbrev pub buz_hash_splitter : {W : Type 0} → Splitter W
buz_hash_splitter = record {
  matches = λ head name kind. true;
  cut = λ write bytes fails w. split write bytes fails w;
}

unfoldable pub select_splitter :
    {W : Type 0} → List ℕ → Text → Text → List (Splitter W) → Splitter W
select_splitter head name kind [] = buz_hash_splitter
select_splitter head name kind (s ∷ splitters) =
    if s.matches head name kind then s else select_splitter head name kind splitters

-- PKCS#7; a remainder of 0 gives a whole block.
unfoldable pub pad : List ℕ → List ℕ
pad b = let n = 16 - length b % 16 in b ++ replicate n n

abbrev pub is_empty : {A : Type 0} → List A → Bool
is_empty [] = true
is_empty (x ∷ xs) = false

-- The lengths that aes.NewCipher accepts.
abbrev pub valid_key_size : ℕ → Bool
valid_key_size n = nat_eq n 16 || nat_eq n 24 || nat_eq n 32

unfoldable pub is_deterministic : KeyPolicy → Bool
is_deterministic deterministic = true
is_deterministic _ = false

-- The policies whose initialization vector is a hash.
unfoldable pub hashes_iv : KeyPolicy → Bool
hashes_iv deterministic = true
hashes_iv supplied_all_key = true
hashes_iv _ = false

unfoldable pub make_link : Text → List ContentTransform → Text → ContentLink
make_link address transforms expected = record {
  address = address;
  slot = false;
  transforms = transforms;
  expected = if is_empty transforms && expected == address then [] else expected;
  primary = [];
}

abbrev pub decompress_transform : String → ContentTransform
decompress_transform algorithm = record {
  kind = "Decompress";
  algorithm = algorithm;
  key = [];
  iv = [];
}

abbrev pub blocks_transform : ContentTransform
blocks_transform = record { kind = "Blocks"; algorithm = ""; key = []; iv = [] }

-- A key that is the expected hash is left out of the link.
abbrev pub decipher_transform : WriterOptions → Text → List ℕ → List ℕ → ContentTransform
decipher_transform opts expected key iv = record {
  kind = "Decipher";
  algorithm = "aes-256-cbc";
  key =
      if is_deterministic opts.key_policy && expected == encode_to_string key
      then []
      else encode_to_string key;
  iv = encode_to_string iv;
}

-- `none` is an error.
module _ (c : Codec) where
  abbrev pub hash_text : List ℕ → Text
  hash_text b = encode_to_string (c.sha256 b)

  unfoldable pub compress_data : String → List ℕ → Option (List ℕ × List ContentTransform)
  compress_data algorithm b =
      if algorithm == ""
      then some (b, [])
      else if algorithm == "inflate"
      then some (c.deflate b, decompress_transform algorithm ∷ [])
      else if algorithm == "gzip"
      then some (c.gzip b, decompress_transform algorithm ∷ [])
      else none

  -- `rand rng n` is io.ReadFull of `n` random bytes.
  module _ {R : Type 0} (rand : R → ℕ → Option (List ℕ) × R) where
    unfoldable pub choose_key : WriterOptions → Option (List ℕ) → List ℕ → R → Option (List ℕ) × R
    choose_key opts shared b rng = elim opts.key_policy [
      | random_per_block ↦ rand rng 32
      | no_policy ↦ rand rng 32
      | random_all_key ↦ elim shared [ none ↦ rand rng 32 | some key ↦ (some key, rng) ]
      | supplied_all_key ↦ elim shared [
        | some key ↦ (some key, rng)
        | none ↦
            (if nat_eq (length opts.supplied_key) 32 then some opts.supplied_key else none, rng)
      ]
      | deterministic ↦ (some (c.sha256 b), rng)
      | other_policy ↦ (none, rng)
    ]

    unfoldable pub choose_iv : WriterOptions → List ℕ → List ℕ → R → Option (List ℕ) × R
    unfolding hashes_iv
    choose_iv opts key b rng =
        if hashes_iv opts.key_policy
        then (some (take 16 (c.sha256 (key ++ b))), rng)
        else rand rng 16

    -- `b` is the block, `current` what compression has made of it.
    unfoldable pub encrypt_data :
        WriterOptions
        → Option (List ℕ)
        → List ℕ
        → List ℕ
        → List ContentTransform
        → R
        → Option (List ℕ × List ContentTransform) × R
    unfolding choose_key choose_iv pad is_deterministic
    encrypt_data opts shared b current transforms rng =
        if opts.encrypt_algorithm == ""
        then (some (current, transforms), rng)
        else if opts.encrypt_algorithm == "aes-256-cbc"
        then (let (k, rng') = choose_key opts shared b rng in
            elim k [
              | none ↦ (none, rng')
              | some key ↦
                  let (v, rng'') = choose_iv opts key b rng' in
                  elim v [
                    | none ↦ (none, rng'')
                    | some iv ↦
                        if valid_key_size (length key)
                        then (
                          some (
                            c.encrypt key iv (pad current),
                            decipher_transform opts (hash_text b) key iv ∷ transforms,
                          ),
                          rng'',
                        )
                        else (none, rng'')
                  ]
            ])
        else (none, rng)

    module _ {S : Type 0} (ops : StorageOps S) where
      -- writeBlock behind its transforms.
      abbrev pub store_block :
          List ℕ → List ContentTransform → Text → World S R → Option ContentLink × World S R
      store_block b transforms expected w =
          let (a, st) = ops.store w.store (record { content = b; fails = false }) in
          elim a [
            | none ↦ (none, record w { store = st })
            | some address ↦ (some (make_link address transforms expected), record w { store = st })
          ]

      unfoldable pub write_block :
          WriterOptions → Option (List ℕ) → World S R → List ℕ → Option ContentLink × World S R
      unfolding compress_data encrypt_data make_link
      write_block opts shared w b = elim (compress_data opts.compress_algorithm b) [
        | none ↦ (none, w)
        | some (compressed, transforms) ↦
            let (encrypted, rng) = encrypt_data opts shared b compressed transforms w.rng in
            elim encrypted [
              | none ↦ (none, record w { rng = rng })
              | some (out, transforms') ↦
                  store_block out transforms' (hash_text b) (record w { rng = rng })
            ]
      ]
