-- ===== src/Content/RoundTrip/Lists.antt =====
-- What write_root makes of the blocks of a file.
use invariant_go.Shared.{
  ℕ, suc, ◌<◌, ◌≡◌, refl, sym, ap, subst, true, false, Option, some, List, [], ◌∷◌, ◌⊎◌, inl, inr,
  All, length, leb, Text, arith,
}
use invariant_go.Storage.Interface.{StorageOps, Keeps}
use invariant_go.Content.Int64.{int64_limit}
use invariant_go.Content.Link.{ContentLink, Codec, whole}
use invariant_go.Content.BuzHash.{BlockListItem, max_block_size}
use invariant_go.Content.BlockReader.{new_block_reader}
use invariant_go.Content.BlockReader.Position.{Filled, items_of, content_of, Sized}
use invariant_go.Content.BlockReader.Reading.{read_all-content_of, Loads}
use invariant_go.Content.Writer.{
  WriterOptions, World, is_deterministic, make_link, hash_text, write_block,
}
use invariant_go.Content.Writer.File.{
  Written, written, list_link, file_link, write_block_list, write_root,
}
use invariant_go.Content.Reader.{as_stream, opened, read_link}
use invariant_go.Content.RoundTrip.Block.{CodecLaws, Chosen, IsRead}
use invariant_go.Content.RoundTrip.Stored.{
  ValidOptions, Stored, write_block-Stored, read_link-Stored, read_link-stored, stored-Grows,
}
use invariant_go.Content.RoundTrip.Chunked.{file_link-make_link}
use invariant_go.Content.RoundTrip.Files.{read_transformed-list_link, items_reader}
use invariant_go.Content.RoundTrip.Promises.{IsClean, Extends, Grows, ReadsIn, FileReads}

module _ (c : Codec) (laws : CodecLaws c) {R : Type 0} (rand : R → ℕ → Option (List ℕ) × R)
    (random : (rng : R) (n : ℕ) → Chosen n (rand rng n)) {S : Type 0} (address_of : List ℕ → Text)
    (ops : StorageOps S) (keeps : Keeps address_of ops) where
  pub write_root-nil :
      (fuel : ℕ) (opts : WriterOptions) (shared : Option (List ℕ)) (w : World S R)
      → ValidOptions opts shared
      → FileReads c ops [] (write_root c rand ops fuel opts shared (hash_text c []) [] w)
  unfolding FileReads write_root Extends
  write_root-nil fuel opts shared w valid =
      go (write_block-Stored c laws rand random address_of ops keeps opts shared w [] valid)
    where
      at_end :
          (s : Stored c laws rand random address_of ops keeps opts [] w
            (write_block c rand ops opts shared w []))
          (slot : Option (Text → Option Text)) (rounds n depth : ℕ)
          → read_link c
              (ops.get (write_block c rand ops opts shared w []).1.store)
              slot
              rounds
              (suc n)
              (suc (suc depth))
              (make_link s.address s.transforms (hash_text c []))
            ≡ opened (whole [])
          → read_link c
              (ops.get (write_root c rand ops fuel opts shared (hash_text c []) [] w).1.store)
              slot
              rounds
              (suc n)
              (suc (suc depth))
              (file_link (hash_text c []) (make_link s.address s.transforms (hash_text c [])))
            ≡ opened (whole [])
      at_end s slot rounds n depth h =
          rw (file_link-make_link c s.address s.transforms []) (rw (s.result, write_root) h)

      go :
          Stored c laws rand random address_of ops keeps opts [] w
            (write_block c rand ops opts shared w [])
          → FileReads c ops [] (write_root c rand ops fuel opts shared (hash_text c []) [] w)
      go s = (
        file_link (hash_text c []) (make_link s.address s.transforms (hash_text c [])),
        rw (s.result, write_root) refl,
        λ slot rounds n depth h. at_end s slot rounds n depth (
            read_link-Stored c laws rand random address_of ops keeps opts [] w
              (write_block c rand ops opts shared w []) s
              (write_block c rand ops opts shared w []).1.store (λ a out e. e) slot rounds (suc n)
              (suc depth)),
      )

  pub write_root-one :
      (fuel : ℕ) (opts : WriterOptions) (shared : Option (List ℕ)) (w : World S R)
      (i : BlockListItem ContentLink) (d : List ℕ)
      → file_link (hash_text c d) i.link ≡ i.link
      → ReadsIn c ops w.store (i, d)
      → FileReads c ops d (write_root c rand ops fuel opts shared (hash_text c d) (i ∷ []) w)
  unfolding FileReads write_root ReadsIn
  write_root-one fuel opts shared w i d same reads = (
    file_link (hash_text c d) i.link,
    refl,
    λ slot rounds n depth h. rw same (reads slot rounds (suc n) (suc depth)),
  )

  ReadsIn-Loads :
      (st : S) (slot : Option (Text → Option Text)) (rounds buffer depth : ℕ) (fs : List Filled)
      → All (ReadsIn c ops st) fs
      → All (Loads (λ l. as_stream (read_link c (ops.get st) slot rounds buffer (suc depth) l))) fs
  unfolding ReadsIn Loads
  ReadsIn-Loads st slot rounds buffer depth [] h = tt
  ReadsIn-Loads st slot rounds buffer depth ((i, d) ∷ fs) (hd, h) =
      (ap as_stream (hd slot rounds buffer depth), ReadsIn-Loads st slot rounds buffer depth fs h)

  items_reader-content_of :
      (st : S) (slot : Option (Text → Option Text)) (rounds n depth : ℕ) (fs : List Filled)
      → All Sized fs
      → All (ReadsIn c ops st) fs
      → length (content_of fs) < int64_limit
      → length (content_of fs) < rounds
      → items_reader c (ops.get st) slot rounds (suc n) (suc depth) (items_of fs)
        ≡ whole (content_of fs)
  unfolding new_block_reader
  items_reader-content_of st slot rounds n depth fs sized reads bound enough =
      read_all-content_of
        (λ l. as_stream (read_link c (ops.get st) slot rounds (suc n) (suc depth) l)) fs n rounds
        (new_block_reader (items_of fs)) sized (ReadsIn-Loads st slot rounds (suc n) depth fs reads)
        bound (omega arith) (refl, tt) (omega arith)

  pub write_block_list-one :
      (fuel : ℕ) (opts : WriterOptions) (shared : Option (List ℕ)) (overall : Text)
      (items : List (BlockListItem ContentLink)) (w : World S R) (l : ContentLink)
      → leb (length (c.marshal items)) max_block_size ≡ true
      → (write_block c rand ops opts shared w (c.marshal items)).0 ≡ some l
      → write_block_list c rand ops (suc fuel) opts shared overall items w ≡ (
        written (list_link overall l),
        (write_block c rand ops opts shared w (c.marshal items)).1,
      )
  unfolding write_block_list
  write_block_list-one fuel opts shared overall items w l fits h =
      rw (fits, write_block_list) (rw (h, write_block_list) refl)

module _ (c : Codec) (laws : CodecLaws c) {R : Type 0} (rand : R → ℕ → Option (List ℕ) × R)
    (random : (rng : R) (n : ℕ) → Chosen n (rand rng n)) {S : Type 0} (address_of : List ℕ → Text)
    (ops : StorageOps S) (keeps : Keeps address_of ops) (Clean : S → Type 0)
    (clean : IsClean address_of ops Clean) where
  pub write_block_list-FileReads :
      (fuel : ℕ) (opts : WriterOptions) (shared : Option (List ℕ)) (w : World S R)
      (fs : List Filled)
      → ValidOptions opts shared
      → leb (length (c.marshal (items_of fs))) max_block_size ≡ true
      → c.unmarshal (c.marshal (items_of fs)) ≡ some (items_of fs)
      → (opts.encrypt_algorithm ≡ "") ⊎ (is_deterministic opts.key_policy ≡ false)
      → All Sized fs
      → length (content_of fs) < int64_limit
      → (Clean w.store → (st : S) → Extends ops w.store st → All (ReadsIn c ops st) fs)
      → Clean
          (write_block_list c rand ops
            (suc fuel)
            opts
            shared
            (hash_text c (content_of fs))
            (items_of fs)
            w).1.store
      → FileReads c ops (content_of fs) (
          write_block_list c rand ops
            (suc fuel)
            opts
            shared
            (hash_text c (content_of fs))
            (items_of fs)
            w)
  unfolding FileReads IsRead Grows make_link
  write_block_list-FileReads fuel opts shared w fs valid fits unmarshals named sized bound reads
        ok =
      go (
        write_block-Stored c laws rand random address_of ops keeps opts shared w
          (c.marshal (items_of fs)) valid)
    where
      q : Option ContentLink × World S R
      q = write_block c rand ops opts shared w (c.marshal (items_of fs))

      is_read : (e' : Text) → IsRead opts (hash_text c (c.marshal (items_of fs))) e'
      is_read e' = elim named [ inl plain ↦ inl plain | inr fresh ↦ inr (inl fresh) ]

      grown :
          Stored c laws rand random address_of ops keeps opts (c.marshal (items_of fs)) w q
          → Clean w.store × Extends ops w.store q.1.store
      grown s = stored-Grows address_of ops keeps Clean clean w.store q.1.store s.out s.after (
          subst (λ (p : Written ContentLink × World S R). Clean p.1.store)
            (write_block_list-one c laws rand random address_of ops keeps fuel opts shared
              (hash_text c (content_of fs)) (items_of fs) w
              (make_link s.address s.transforms (hash_text c (c.marshal (items_of fs)))) fits
              s.result)
            ok)

      go :
          Stored c laws rand random address_of ops keeps opts (c.marshal (items_of fs)) w q
          → FileReads c ops (content_of fs) (
              write_block_list c rand ops
                (suc fuel)
                opts
                shared
                (hash_text c (content_of fs))
                (items_of fs)
                w)
      go s =
          subst (FileReads c ops (content_of fs))
            (sym (
              write_block_list-one c laws rand random address_of ops keeps fuel opts shared
                (hash_text c (content_of fs)) (items_of fs) w link fits s.result))
            (
              list_link (hash_text c (content_of fs)) link,
              refl,
              λ slot rounds n depth enough.
                  read_link-stored c (ops.get q.1.store) slot rounds (suc n) (suc depth)
                    (list_link (hash_text c (content_of fs)) link) s.out (content_of fs) refl s.has
                    (read_transformed-list_link c laws
                      (items_reader c (ops.get q.1.store) slot rounds (suc n) (suc depth)) s.address
                      s.transforms (items_of fs) s.out (content_of fs)
                      (s.undoes (hash_text c (content_of fs))
                        (is_read (hash_text c (content_of fs))))
                      unmarshals
                      (items_reader-content_of c laws rand random address_of ops keeps q.1.store
                        slot rounds n depth fs sized (reads (grown s).0 q.1.store (grown s).1) bound
                        enough)),
            )
        where
          link : ContentLink
          link = make_link s.address s.transforms (hash_text c (c.marshal (items_of fs)))
