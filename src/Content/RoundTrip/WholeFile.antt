-- ===== src/Content/RoundTrip/WholeFile.antt =====
-- A file that was written is read through its link.
use invariant_go.Shared.{
  length, ◌<◌, ℕ, suc, ◌≡◌, refl, sym, ◌∙◌, ap, subst, false, Option, some, List, [], ◌∷◌, inl, inr,
  All, take, join_chunks, Text, arith,
}
use mathlib.Core.List.{append-nil}
use invariant_go.Storage.Interface.{StorageOps, Keeps}
use invariant_go.Content.Int64.{int64_limit}
use invariant_go.Content.Link.{ContentLink, Codec}
use invariant_go.Content.BuzHash.{BlockListItem}
use invariant_go.Content.BlockReader.Position.{Filled, items_of, content_of, Sized}
use invariant_go.Content.Writer.{WriterOptions, World, Splitter, hash_text, write_block}
use invariant_go.Content.Writer.File.{Written, file_link, shared_key, write_root, write}
use invariant_go.Content.RoundTrip.Block.{CodecLaws, Chosen}
use invariant_go.Content.RoundTrip.Stored.{ValidOptions}
use invariant_go.Content.RoundTrip.Chunked.{Chunked, write_all-Chunked}
use invariant_go.Content.RoundTrip.Files.{
  Chops, select_splitter-Chops, UsableOptions, Shared, shared_key-Shared,
}
use invariant_go.Content.RoundTrip.Promises.{
  IsClean, Extends, ReadsIn, FileReads, FitsOne, ListFits, with_rng, chosen,
}
use invariant_go.Content.RoundTrip.Lists.{
  write_root-nil, write_root-one, write_block_list-FileReads,
}

module _ (c : Codec) (laws : CodecLaws c) {R : Type 0} (rand : R → ℕ → Option (List ℕ) × R)
    (random : (rng : R) (n : ℕ) → Chosen n (rand rng n)) {S : Type 0} (address_of : List ℕ → Text)
    (ops : StorageOps S) (keeps : Keeps address_of ops) (Clean : S → Type 0)
    (clean : IsClean address_of ops Clean) where
  -- Ending clean, the file is read.
  abbrev Reads : List ℕ → Written ContentLink × World S R → Type 0
  Reads bytes q = Clean q.1.store → FileReads c ops bytes q

  write_root-FileReads :
      (fuel : ℕ) (opts : WriterOptions) (shared : Option (List ℕ)) (w : World S R)
      (fs : List Filled)
      → ValidOptions opts shared
      → FitsOne c opts (items_of fs)
      → All Sized fs
      → length (content_of fs) < int64_limit
      → All (λ (i, d). file_link (hash_text c d) i.link ≡ i.link) fs
      → (Clean w.store → (st : S) → Extends ops w.store st → All (ReadsIn c ops st) fs)
      → Reads (content_of fs) (
          write_root c rand ops
            (suc fuel)
            opts
            shared
            (hash_text c (content_of fs))
            (items_of fs)
            w)
  unfolding write_root FitsOne Extends
  write_root-FileReads fuel opts shared w [] valid fits sized bound files reads ok =
      write_root-nil c laws rand random address_of ops keeps (suc fuel) opts shared w valid
  write_root-FileReads fuel opts shared w ((i, d) ∷ []) valid fits sized bound files reads ok =
      rw (append-nil d) (
        write_root-one c laws rand random address_of ops keeps (suc fuel) opts shared w i d files.0
          (reads ok w.store (λ a out e. e)).0)
  write_root-FileReads fuel opts shared w (f ∷ f' ∷ fs) valid (inl few) sized bound files reads ok =
      absurd (omega arith)
  write_root-FileReads fuel opts shared w (f ∷ f' ∷ fs) valid (inr (fits, unmarshals, named)) sized
        bound files reads ok =
      write_block_list-FileReads c laws rand random address_of ops keeps Clean clean fuel opts
        shared w (f ∷ f' ∷ fs) valid fits unmarshals named sized bound reads ok

  write-write_root :
      (fuel : ℕ) (splitters : List (Splitter (World S R))) (opts : WriterOptions) (bytes : List ℕ)
      (w : World S R) (shared : Option (List ℕ)) (items : List (BlockListItem ContentLink))
      → (shared_key c rand ops opts w.rng).0 ≡ some shared
      → ((chosen splitters opts bytes).cut
          (write_block c rand ops opts shared)
          bytes
          false
          (with_rng c rand ops opts w)).0
        ≡ some items
      → write c rand ops fuel splitters opts (record { content = bytes; fails = false }) w
        ≡ write_root c rand ops fuel opts shared
            (hash_text c bytes)
            items
            ((chosen splitters opts bytes).cut
              (write_block c rand ops opts shared)
              bytes
              false
              (with_rng c rand ops opts w)).1
  unfolding write chosen with_rng
  write-write_root fuel splitters opts bytes w shared items hk hc =
      rw (hk, write) (rw (hc, write) refl)

  -- A file of less than 2^63 bytes that can be read to its end is written, and Read of the link that is returned gives the file.
  -- The conditions: the compression is none, inflate or gzip and the encryption none or aes-256-cbc; the
  -- key policy is a known one, and a key that is supplied has 32 bytes; hashes have 32 bytes, and what
  -- decompresses or decrypts undoes what compresses or encrypts; neither the random source nor the store
  -- fails; no block of the run takes the place of a different one under the same address; the splitters
  -- write the chunks of a partition of the file in order; and the list of the blocks, if there is one,
  -- fits a block, is read back from its JSON, and is not encrypted under the deterministic policy.
  pub write-FileReads :
      (fuel : ℕ) (splitters : List (Splitter (World S R))) (opts : WriterOptions) (bytes : List ℕ)
      (w : World S R)
      → UsableOptions opts
      → All Chops splitters
      → length bytes < int64_limit
      → ListFits c rand ops opts (chosen splitters opts bytes) bytes (with_rng c rand ops opts w)
      → Clean
          (write c rand ops
            (suc fuel)
            splitters
            opts
            (record { content = bytes; fails = false })
            w).1.store
      → FileReads c ops bytes
          (write c rand ops (suc fuel) splitters opts (record { content = bytes; fails = false }) w)
  unfolding chosen with_rng ListFits Chops Shared
  write-FileReads fuel splitters opts bytes w usable chop bound fits ok =
      with_key (shared_key-Shared c laws rand random address_of ops keeps opts w.rng usable) ok
    where
      sp : Splitter (World S R)
      sp = chosen splitters opts bytes

      w0 : World S R
      w0 = with_rng c rand ops opts w

      with_chunks :
          (shared : Option (List ℕ))
          → (shared_key c rand ops opts w.rng).0 ≡ some shared
          → ValidOptions opts shared
          → (cs : List (List ℕ)) → join_chunks cs ≡ bytes
          → Chunked c laws rand random address_of ops keeps Clean clean cs [] w0
              (sp.cut (write_block c rand ops opts shared) bytes false w0)
          → Reads bytes (
              write c rand ops
                (suc fuel)
                splitters
                opts
                (record { content = bytes; fails = false })
                w)
      with_chunks shared hk valid cs joins h =
          chunked (subst (λ x. length x < int64_limit) (sym same) bound)
        where
          same : content_of h.filled ≡ bytes
          same = ap join_chunks h.blocks_are ∙ joins

          chunked :
              length (content_of h.filled) < int64_limit
              → Reads bytes (
                  write c rand ops
                    (suc fuel)
                    splitters
                    opts
                    (record { content = bytes; fails = false })
                    w)
          chunked small =
              subst (Reads bytes)
                (sym (
                  write-write_root (suc fuel) splitters opts bytes w shared (items_of h.filled) hk
                    h.result))
                (subst
                  (λ x. Reads x (
                    write_root c rand ops (suc fuel) opts shared (hash_text c x) (items_of h.filled)
                      (sp.cut (write_block c rand ops opts shared) bytes false w0).1))
                  same
                  (write_root-FileReads fuel opts shared
                    (sp.cut (write_block c rand ops opts shared) bytes false w0).1 h.filled valid
                    (fits shared (items_of h.filled) h.result) h.sized small h.files h.reads))

      with_splitter :
          (shared : Option (List ℕ))
          → (shared_key c rand ops opts w.rng).0 ≡ some shared
          → ValidOptions opts shared
          → Chops sp
          → Reads bytes (
              write c rand ops
                (suc fuel)
                splitters
                opts
                (record { content = bytes; fails = false })
                w)
      with_splitter shared hk valid (chop, joins, cuts) =
          with_chunks shared hk valid (chop bytes) (joins bytes) (
            subst (Chunked c laws rand random address_of ops keeps Clean clean (chop bytes) [] w0)
              (sym (cuts (write_block c rand ops opts shared) bytes w0))
              (write_all-Chunked c laws rand random address_of ops keeps Clean clean opts shared
                valid (chop bytes) [] w0))

      with_key :
          Shared c laws rand random address_of ops keeps opts (shared_key c rand ops opts w.rng)
          → Reads bytes (
              write c rand ops
                (suc fuel)
                splitters
                opts
                (record { content = bytes; fails = false })
                w)
      with_key (shared, hk, valid) =
          with_splitter shared hk valid
            (select_splitter-Chops (take 1024 bytes) opts.filename opts.content_type splitters chop)
