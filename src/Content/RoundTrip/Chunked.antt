-- ===== src/Content/RoundTrip/Chunked.antt =====
-- The chunks of a file, written one after another, can all be read in the end.
use invariant_go.Shared.{
  ℕ, ◌≡◌, refl, sym, ◌∙◌, ap, subst, Option, some, List, [], ◌∷◌, ◌++◌, All, length, Text,
}
use mathlib.Core.List.{append_assoc, append-nil}
use invariant_go.Storage.Interface.{StorageOps, Keeps}
use invariant_go.Content.Link.{ContentTransform, ContentLink, Codec}
use invariant_go.Content.BuzHash.{BlockListItem}
use invariant_go.Content.BuzHash.Chunks.{write_all}
use invariant_go.Content.BlockReader.Position.{Filled, items_of, blocks_of, Sized}
use invariant_go.Content.Writer.{WriterOptions, World, make_link, hash_text, write_block}
use invariant_go.Content.Writer.File.{file_link}
use invariant_go.Content.RoundTrip.Block.{CodecLaws, Chosen}
use invariant_go.Content.RoundTrip.Stored.{
  ValidOptions, Stored, write_block-Stored, read_link-Stored, stored-Grows,
}
use invariant_go.Content.RoundTrip.Promises.{IsClean, Extends, Grows, ReadsIn}

-- file_link leaves the link of a block as it is.
pub file_link-make_link :
    (c : Codec) (address : Text) (ts : List ContentTransform) (b : List ℕ)
    → file_link (hash_text c b) (make_link address ts (hash_text c b))
      ≡ make_link address ts (hash_text c b)
unfolding file_link make_link
file_link-make_link c address ts b = refl

module _ {L W : Type 0} (write : W → List ℕ → Option L × W) where
  write_all-step :
      (b : List ℕ) (cs : List (List ℕ)) (blocks : List (BlockListItem L)) (w : W) (l : L)
      → (write w b).0 ≡ some l
      → write_all write (b ∷ cs) blocks w
        ≡ write_all write cs (blocks ++ record { link = l; size = length b } ∷ []) (write w b).1
  unfolding write_all
  write_all-step b cs blocks w l h = rw (h, write_all) refl

module _ (c : Codec) (laws : CodecLaws c) {R : Type 0} (rand : R → ℕ → Option (List ℕ) × R)
    (random : (rng : R) (n : ℕ) → Chosen n (rand rng n)) {S : Type 0} (address_of : List ℕ → Text)
    (ops : StorageOps S) (keeps : Keeps address_of ops) (Clean : S → Type 0)
    (clean : IsClean address_of ops Clean) where
  pub record Chunked (cs : List (List ℕ)) (blocks : List (BlockListItem ContentLink))
      (w : World S R) (q : Option (List (BlockListItem ContentLink)) × World S R) : Type 0 where
    pub filled : List Filled
    pub result : q.0 ≡ some (blocks ++ items_of filled)
    pub blocks_are : blocks_of filled ≡ cs
    pub sized : All Sized filled
    pub files : All (λ (i, d). file_link (hash_text c d) i.link ≡ i.link) filled
    pub reads :
        Clean q.1.store → (st : S) → Extends ops q.1.store st → All (ReadsIn c ops st) filled
    pub later : Grows ops Clean w.store q.1.store

  abbrev new_item :
      {opts : WriterOptions} {b : List ℕ} {w : World S R} {q : Option ContentLink × World S R}
      → Stored c laws rand random address_of ops keeps opts b w q
      → BlockListItem ContentLink
  new_item {b = b} s = record {
    link = make_link s.address s.transforms (hash_text c b);
    size = length b;
  }

  Chunked-cons :
      (opts : WriterOptions) (b : List ℕ) (cs : List (List ℕ))
      (blocks : List (BlockListItem ContentLink)) (w : World S R)
      (q : Option ContentLink × World S R)
      (r : Option (List (BlockListItem ContentLink)) × World S R)
      (s : Stored c laws rand random address_of ops keeps opts b w q)
      → Grows ops Clean w.store q.1.store
      → Chunked cs (blocks ++ new_item s ∷ []) q.1 r
      → Chunked (b ∷ cs) blocks w r
  unfolding Extends ReadsIn Grows
  Chunked-cons opts b cs blocks w q r s later h = record {
    filled = (new_item s, b) ∷ h.filled;
    result = h.result ∙ ap some (append_assoc blocks (new_item s ∷ []) (items_of h.filled));
    blocks_are = ap (λ bs. b ∷ bs) h.blocks_are;
    sized = (refl, h.sized);
    files = (file_link-make_link c s.address s.transforms b, h.files);
    reads = λ ok st l. (
      read_link-Stored c laws rand random address_of ops keeps opts b w q s st
          (λ a out e. l a out ((h.later ok).1 a out e)),
      h.reads ok st l,
    );
    later = λ ok. (
      (later (h.later ok).0).0,
      λ a out e. (h.later ok).1 a out ((later (h.later ok).0).1 a out e),
    );
  }

  pub write_all-Chunked :
      (opts : WriterOptions) (shared : Option (List ℕ))
      → ValidOptions opts shared
      → (cs : List (List ℕ)) (blocks : List (BlockListItem ContentLink)) (w : World S R)
      → Chunked cs blocks w (write_all (write_block c rand ops opts shared) cs blocks w)
  unfolding write_all Extends Grows
  write_all-Chunked opts shared valid [] blocks w = record {
    filled = [];
    result = ap some (sym (append-nil blocks));
    blocks_are = refl;
    sized = tt;
    files = tt;
    reads = λ ok st later. tt;
    later = λ ok. (ok, λ a out h. h);
  }
  write_all-Chunked opts shared valid (b ∷ cs) blocks w =
      go (write_block-Stored c laws rand random address_of ops keeps opts shared w b valid)
        (λ blocks'.
          write_all-Chunked opts shared valid cs blocks' (write_block c rand ops opts shared w b).1)
    where
      go :
          Stored c laws rand random address_of ops keeps opts b w
            (write_block c rand ops opts shared w b)
          → ((blocks' : List (BlockListItem ContentLink))
              → Chunked cs blocks' (write_block c rand ops opts shared w b).1 (
                  write_all
                    (write_block c rand ops opts shared)
                    cs
                    blocks'
                    (write_block c rand ops opts shared w b).1))
          → Chunked
              (b ∷ cs)
              blocks
              w
              (write_all (write_block c rand ops opts shared) (b ∷ cs) blocks w)
      go s rest =
          subst (Chunked (b ∷ cs) blocks w)
            (sym (
              write_all-step (write_block c rand ops opts shared) b cs blocks w (new_item s).link
                s.result))
            (Chunked-cons opts b cs blocks w (write_block c rand ops opts shared w b)
              (write_all (write_block c rand ops opts shared) cs (blocks ++ new_item s ∷ [])
                (write_block c rand ops opts shared w b).1)
              s
              (stored-Grows address_of ops keeps Clean clean w.store
                (write_block c rand ops opts shared w b).1.store s.out s.after)
              (rest (blocks ++ new_item s ∷ [])))
