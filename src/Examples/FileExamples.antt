-- ===== src/Examples/FileExamples.antt =====
-- The theorems on Write and Read at a small file, with a codec whose ciphers and compressions change
-- nothing, and a store whose addresses are the hexadecimal text of the hash.
use invariant_go.Shared.{
  ℕ, zero, suc, Bool, list_eq, ◌≡◌, refl, ap, true, false, Option, none, some, some-injective, List,
  [], ◌∷◌, inl, inr, replicate, if◌then◌else◌, ◌==◌, eq_text, Text, arith, AreBytes, is_some,
  hex_digit, encode_to_string, length-replicate, eq_nat, join_chunks,
}
use invariant_go.Examples.Digest.{digest, length-digest, digest-AreBytes}
use invariant_go.Storage.Interface.{
  Block, accepted, rejected, errored, StorageOps, Keeps, block_size,
}
use invariant_go.Content.Link.{ContentLink, Codec}
use invariant_go.Content.BuzHash.{BlockListItem}
use invariant_go.Content.BuzHash.Chunks.{write_all}
use invariant_go.Content.Writer.{
  deterministic, WriterOptions, World, Splitter, select_splitter, write_block, compress_data,
  encrypt_data, make_link, pad, decompress_transform,
}
use invariant_go.Content.Writer.File.{shared_key, file_link, write_root, write, write_block_list}
use invariant_go.Content.Reader.{unpad}
use invariant_go.Content.RoundTrip.Padding.{unpad-pad}
use invariant_go.Content.RoundTrip.Block.{CodecLaws, Chosen, ValidKeys, known_policy}
use invariant_go.Content.RoundTrip.Stored.{ValidOptions, write_block-Readable}
use invariant_go.Content.RoundTrip.Files.{Chops, UsableOptions}
use invariant_go.Content.RoundTrip.WholeFile.{write-FileReads}
use invariant_go.Content.RoundTrip.Promises.{
  Readable, FileReads, ListFits, FitsOne, with_rng, chosen,
}
use invariant_go.Content.RoundTrip.Watched.{
  watched, Unnoted, replaces, watched-Keeps, watched-IsClean,
}
use invariant_go.Content.RoundTrip.LostKey.{LosesKey, write_block_list-LosesKey}

-- Bytes of zeros.
zeros-AreBytes : (n : ℕ) → AreBytes (replicate n 0)
zeros-AreBytes zero = tt
zeros-AreBytes (suc n) = (omega arith, zeros-AreBytes n)

unfoldable hash_address : Block → Text
unfolding digest encode_to_string hex_digit
hash_address b = encode_to_string (digest 32 b)

abbrev map_ops : StorageOps (Text → Option Block)
map_ops = record {
  has = λ s a. is_some (s a);
  get = λ s a. s a;
  store = λ s r. if r.fails then (none, s) else (
    some (hash_address r.content),
    λ a. if hash_address r.content == a then some r.content else s a,
  );
  store_at = λ s a r.
      if r.fails
      then (errored, s)
      else if a == hash_address r.content
      then (accepted, λ b. if a == b then some r.content else s b)
      else (rejected, s);
  size = λ s a. block_size (s a);
}

map_ops-Keeps : Keeps hash_address map_ops
map_ops-Keeps = record {
  has_get = λ s a. refl;
  size_get = λ s a. refl;
  store_result = λ s r. ground arith;
  get_store = λ s r a. ground arith;
  store_at_result = λ s r a. ground arith;
  get_store_at = λ s r a b. ground arith;
}

-- It notes whether a block took the place of another one.
abbrev store_ops : StorageOps ((Text → Option Block) × Bool)
store_ops = watched hash_address map_ops

store_ops-Keeps : Keeps hash_address store_ops
store_ops-Keeps = watched-Keeps hash_address map_ops map_ops-Keeps

abbrev listed : List (BlockListItem ContentLink)
listed =
    record {
      link =
          make_link (hash_address (1 ∷ [])) (decompress_transform "inflate" ∷ [])
            (hash_address (1 ∷ []));
      size = 1;
    }
    ∷ record {
      link =
          make_link (hash_address (2 ∷ [])) (decompress_transform "inflate" ∷ [])
            (hash_address (2 ∷ []));
      size = 1;
    }
    ∷ []

-- The only list that is read back is `listed`.
abbrev codec : Codec
codec = record {
  sha256 = λ b. digest 32 b;
  deflate = λ b. b;
  inflate = λ s. s;
  gzip = λ b. b;
  gunzip = λ s. some s;
  encrypt = λ key iv b. b;
  decrypt = λ key iv b. b;
  marshal = λ items. 7 ∷ 7 ∷ [];
  unmarshal = λ b. some listed;
}

codec-CodecLaws : CodecLaws codec
codec-CodecLaws = record {
  sha256_length = λ b. length-digest 32 b;
  sha256_bytes = λ b. digest-AreBytes 32 b;
  inflate_deflate = λ b. refl;
  gunzip_gzip = λ b. refl;
  decrypt_encrypt = λ key iv p hk hv hp. refl;
  encrypt_length = λ key iv p hk hv hp. refl;
}

-- The random bytes are zero.
abbrev rand : ℕ → ℕ → Option (List ℕ) × ℕ
rand rng n = (some (replicate n 0), suc rng)

rand-Chosen : (rng n : ℕ) → Chosen n (rand rng n)
unfolding Chosen
rand-Chosen rng n = (replicate n 0, refl, (length-replicate n 0, zeros-AreBytes n))

abbrev singles : List ℕ → List (List ℕ)
singles [] = []
singles (b ∷ bytes) = (b ∷ []) ∷ singles bytes

join-singles : (bytes : List ℕ) → join_chunks (singles bytes) ≡ bytes
join-singles [] = refl
join-singles (b ∷ bytes) = ap (λ bs. b ∷ bs) (join-singles bytes)

-- A splitter that cuts after every byte.
abbrev bytewise : {W : Type 0} → Splitter W
bytewise = record {
  matches = λ head name kind. true;
  cut = λ write bytes fails w. if fails then (none, w) else write_all write (singles bytes) [] w;
}

bytewise-Chops : (W : Type 0) → Chops (bytewise {W = W})
unfolding Chops
bytewise-Chops W = (singles, join-singles, λ write bytes w. refl)

abbrev plain_options : WriterOptions
plain_options = record {
  compress_algorithm = "inflate";
  encrypt_algorithm = "";
  key_policy = deterministic;
  supplied_key = [];
  filename = [];
  content_type = [];
}

abbrev start : World ((Text → Option Block) × Bool) ℕ
start = record { store = (λ a. none, false); rng = 0 }

abbrev two_bytes : List ℕ
two_bytes = 1 ∷ 2 ∷ []

plain_options-UsableOptions : UsableOptions plain_options
unfolding UsableOptions known_policy
plain_options-UsableOptions = (inr (inl refl), inl refl, refl, λ e. cc)

listed-ListFits :
    ListFits codec rand store_ops plain_options
      (chosen (bytewise ∷ []) plain_options two_bytes)
      two_bytes
      (with_rng codec rand store_ops plain_options start)
unfolding ListFits FitsOne write_all write_block compress_data encrypt_data make_link
    encode_to_string hex_digit chosen with_rng select_splitter shared_key watched hash_address
    digest
listed-ListFits shared items h = inr (refl, ap some (some-injective listed items h), inl refl)

nothing_replaced :
    (write codec rand store_ops 1
      (bytewise ∷ [])
      plain_options
      (record { content = two_bytes; fails = false })
      start).1.store.1
    ≡ false
unfolding write write_root write_block_list file_link write_all write_block compress_data
    encrypt_data make_link encode_to_string hex_digit select_splitter shared_key watched replaces
    hash_address digest list_eq
nothing_replaced = refl

write-FileReads_example : FileReads codec store_ops two_bytes (
    write codec rand store_ops 1
      (bytewise ∷ [])
      plain_options
      (record { content = two_bytes; fails = false })
      start)
write-FileReads_example =
    write-FileReads codec codec-CodecLaws rand rand-Chosen hash_address store_ops store_ops-Keeps
      (Unnoted hash_address map_ops) (watched-IsClean hash_address map_ops map_ops-Keeps) 0
      (bytewise ∷ []) plain_options two_bytes start plain_options-UsableOptions
      (bytewise-Chops (World ((Text → Option Block) × Bool) ℕ), tt) (omega arith) listed-ListFits
      nothing_replaced

abbrev encrypted_options : WriterOptions
encrypted_options = record {
  compress_algorithm = "gzip";
  encrypt_algorithm = "aes-256-cbc";
  key_policy = deterministic;
  supplied_key = [];
  filename = [];
  content_type = [];
}

gzip_listed :
    compress_data codec "gzip" (7 ∷ 7 ∷ []) ≡ some (7 ∷ 7 ∷ [], decompress_transform "gzip" ∷ [])
unfolding compress_data
gzip_listed = refl

write_block_list-LosesKey_example :
    LosesKey codec store_ops
      (9 ∷ [])
      (7 ∷ 7 ∷ [])
      (write_block_list codec rand store_ops 1 encrypted_options none (9 ∷ []) listed start)
write_block_list-LosesKey_example =
    write_block_list-LosesKey codec codec-CodecLaws rand rand-Chosen hash_address store_ops
      store_ops-Keeps 0 encrypted_options none (9 ∷ []) listed start (7 ∷ 7 ∷ [])
      (decompress_transform "gzip" ∷ []) refl refl gzip_listed refl

encrypted_options-ValidOptions : ValidOptions encrypted_options none
unfolding ValidOptions ValidKeys known_policy
encrypted_options-ValidOptions = (inr (inr refl), inr refl, (refl, (λ k e. cc), λ e. cc))

write_block-Readable_example :
    Readable codec store_ops two_bytes
      (write_block codec rand store_ops encrypted_options none start two_bytes)
write_block-Readable_example =
    write_block-Readable codec codec-CodecLaws rand rand-Chosen hash_address store_ops
      store_ops-Keeps encrypted_options none start two_bytes encrypted_options-ValidOptions

unpad-pad_example : unpad (pad two_bytes) ≡ some two_bytes
unpad-pad_example = unpad-pad two_bytes
