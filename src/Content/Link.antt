-- ===== src/Content/Link.antt =====
-- internal/content/types.go: links to blocks, and the functions of other libraries that the writer and
-- the reader use: hashes, compression, the cipher and JSON.
use invariant_go.Shared.{ℕ, Bool, Option, List, String, Text}
use invariant_go.Content.BuzHash.{BlockListItem}

pub record ContentTransform : Type 0 where
  pub kind : String
  pub algorithm : String
  pub key : Text
  pub iv : Text

pub record ContentLink : Type 0 where
  pub address : Text
  pub slot : Bool
  pub transforms : List ContentTransform
  pub expected : Text
  pub primary : Text

-- How the reading of a stream ends. `with_panic` is a run-time panic, `too_deep` that the fuel for
-- links within links ran out.
pub data Ending : Type 0 where
  at_eof with_error with_panic too_deep : Ending

-- An io.ReadCloser as the bytes that can be read from it, and how reading ends.
pub record Stream : Type 0 where
  pub content : List ℕ
  pub ending : Ending

abbrev pub whole : List ℕ → Stream
whole b = record { content = b; ending = at_eof }

-- crypto/sha256, compress/flate and compress/gzip, crypto/aes with crypto/cipher, and encoding/json for
-- lists of blocks. `encrypt key iv plaintext` and `decrypt key iv ciphertext` work in CBC mode.
pub record Codec : Type 0 where
  pub sha256 : List ℕ → List ℕ
  pub deflate : List ℕ → List ℕ
  pub inflate : Stream → Stream
  pub gzip : List ℕ → List ℕ
  pub gunzip : Stream → Option Stream
  pub encrypt : List ℕ → List ℕ → List ℕ → List ℕ
  pub decrypt : List ℕ → List ℕ → List ℕ → List ℕ
  pub marshal : List (BlockListItem ContentLink) → List ℕ
  pub unmarshal : List ℕ → Option (List (BlockListItem ContentLink))

-- aes.NewCipher accepts these lengths of a key.
abbrev pub aes_block_size : ℕ
aes_block_size = 16
