-- ===== src/Content/Reader.antt =====
-- internal/content/reader.go: a link is read back through its transforms.
use invariant_go.Shared.{
  ◌⊎◌, inl, inr, ℕ, zero, suc, ◌-◌, ◌%◌, Bool, true, ◌&&◌, ◌||◌, not, Option, none, some, List, [],
  ◌∷◌, length, take, drop, ltb, nat_eq, if◌then◌else◌, ◌==◌, eq_string, eq_text, Text,
  decode_string, encode_to_string,
}
use invariant_go.Content.Link.{
  ContentTransform, ContentLink, Codec, at_eof, with_error, with_panic, too_deep, Stream, whole,
  aes_block_size,
}
use invariant_go.Content.BuzHash.{BlockListItem}
use invariant_go.Content.BlockReader.{new_block_reader, read_all}

pub data ReadError : Type 0 where
  block_not_found slot_service_missing slot_lookup_failed : ReadError

-- What Read returns, or a run-time panic.
pub data Opened : Type 0 where
  opened : Stream → Opened
  open_error : ReadError → Opened
  open_panic : Opened

-- What applyTransform returns: the new reader, an error, or a run-time panic.
pub data Applied : Type 0 where
  applied : Stream → Applied
  apply_error apply_panic : Applied

-- All bytes of a list are `n`.
unfoldable pub all_equal : ℕ → List ℕ → Bool
all_equal n [] = true
all_equal n (b ∷ bs) = nat_eq b n && all_equal n bs

abbrev pub last_byte : List ℕ → ℕ
last_byte [] = 0
last_byte (b ∷ []) = b
last_byte (b ∷ b' ∷ bs) = last_byte (b' ∷ bs)

-- PKCS#7, of a plaintext that is not empty.
unfoldable pub unpad : List ℕ → Option (List ℕ)
unfolding all_equal
unpad p =
    let n = last_byte p in
    if ltb aes_block_size n || nat_eq n 0
    then none
    else if all_equal n (drop (length p - n) p)
    then some (take (length p - n) p)
    else none

abbrev pub valid_key_size : ℕ → Bool
valid_key_size n = nat_eq n 16 || nat_eq n 24 || nat_eq n 32

-- io.ReadAll, with its error; a panic in a reader stays one.
abbrev pub with_all : Stream → (List ℕ → Applied) → Applied
with_all s k = elim s.ending [
  | at_eof ↦ k s.content
  | with_error ↦ apply_error
  | with_panic ↦ apply_panic
  | too_deep ↦ apply_panic
]

abbrev pub as_applied : Option Stream → Applied
as_applied none = apply_error
as_applied (some s) = applied s

abbrev pub plain : Option (List ℕ) → Applied
plain none = apply_error
plain (some b) = applied (whole b)

abbrev pub as_stream : Opened → Stream
as_stream (opened s) = s
as_stream (open_error e) = record { content = []; ending = with_error }
as_stream open_panic = record { content = []; ending = with_panic }

-- The key of a transform; a key that is left out is the expected hash.
abbrev pub key_text : ContentTransform → Text → Text
key_text t expected = if t.key == [] && not (expected == []) then expected else t.key

module _ (c : Codec) where
  -- CBC panics if the initialization vector has another length than a block.
  unfoldable pub decipher_bytes : List ℕ → List ℕ → List ℕ → Applied
  unfolding unpad
  decipher_bytes key iv b =
      if nat_eq (length b) 0 || not (nat_eq (length b % aes_block_size) 0)
      then apply_error
      else if nat_eq (length iv) aes_block_size
      then plain (unpad (c.decrypt key iv b))
      else apply_panic

  unfoldable pub decipher : ContentTransform → Text → Stream → Applied
  unfolding decipher_bytes
  decipher t expected s =
      if not (t.algorithm == "aes-256-cbc")
      then apply_error
      else if key_text t expected == []
      then apply_error
      else elim (decode_string (key_text t expected)) [
        | none ↦ apply_error
        | some key ↦ elim (decode_string t.iv) [
          | none ↦ apply_error
          | some iv ↦
              if valid_key_size (length key)
              then with_all s (decipher_bytes key iv)
              else apply_error
        ]
      ]

  unfoldable pub decompress : ContentTransform → Stream → Applied
  decompress t s =
      if t.algorithm == "inflate"
      then applied (c.inflate s)
      else if t.algorithm == "gzip"
      then as_applied (c.gunzip s)
      else apply_error

  -- `read_items` reads a list of blocks.
  unfoldable pub apply_transform :
      (List (BlockListItem ContentLink) → Stream) → ContentTransform → Text → Stream → Applied
  unfolding decipher decompress
  apply_transform read_items t expected s =
      if t.kind == "Decompress"
      then decompress t s
      else if t.kind == "Decipher"
      then decipher t expected s
      else if t.kind == "Blocks"
      then with_all s (λ b. elim (c.unmarshal b) [
        | none ↦ apply_error
        | some items ↦ applied (read_items items)
      ])
      else apply_error

  -- The loop over the transforms. After an error Read closes the nil reader that it got, and panics.
  unfoldable pub apply_transforms :
      (List (BlockListItem ContentLink) → Stream)
      → List ContentTransform
      → Text
      → Stream
      → Option Stream
  unfolding apply_transform
  apply_transforms read_items [] expected s = some s
  apply_transforms read_items (t ∷ ts) expected s = elim (apply_transform read_items t expected s) [
    | applied s' ↦ apply_transforms read_items ts expected s'
    | apply_error ↦ none
    | apply_panic ↦ none
  ]

  -- hashCheckerReader: the end of a stream with another hash is an error.
  unfoldable pub check_hash : Text → Stream → Stream
  check_hash expected s = elim s.ending [
    | at_eof ↦
        if not (expected == []) && not (encode_to_string (c.sha256 s.content) == expected)
        then record s { ending = with_error }
        else s
    | with_error ↦ s
    | with_panic ↦ s
    | too_deep ↦ s
  ]

  abbrev pub read_transformed :
      (List (BlockListItem ContentLink) → Stream) → ContentLink → List ℕ → Opened
  read_transformed read_items link b =
      elim (apply_transforms read_items link.transforms link.expected (whole b)) [
        | none ↦ open_panic
        | some s ↦ opened (check_hash link.expected s)
      ]

  -- `get` is the store's Get, `slot` the slot service's, if there is one, with `buffer` the size of the
  -- buffer with which a list of blocks is read and `rounds` how often. The fuel is the depth of the links.
  module _ (get : Text → Option (List ℕ)) (slot : Option (Text → Option Text))
      (rounds buffer : ℕ) where
    -- The address of a link, or the error of its slot.
    abbrev pub resolve : ContentLink → ReadError ⊎ Text
    resolve link =
        if link.slot
        then elim slot [
          | none ↦ inl slot_service_missing
          | some lookup_slot ↦ elim (lookup_slot link.address) [
            | none ↦ inl slot_lookup_failed
            | some a ↦ inr a
          ]
        ]
        else inr link.address

    unfoldable pub read_link : ℕ → ContentLink → Opened
    unfolding apply_transforms check_hash
    read_link zero link = opened (record { content = []; ending = too_deep })
    read_link (suc depth) link = elim (resolve link) [
      | inl e ↦ open_error e
      | inr address ↦ elim (get address) [
        | none ↦ open_error block_not_found
        | some b ↦
            read_transformed
              (λ items.
                read_all (λ l. as_stream (read_link depth l)) rounds buffer
                  (new_block_reader items))
              link b
      ]
    ]
