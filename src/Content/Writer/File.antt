-- ===== src/Content/Writer/File.antt =====
-- internal/content/writer.go: Write and writeBlockList.
use invariant_go.Shared.{
  ℕ, zero, suc, ◌+◌, ◌-◌, ◌/◌, ◌&&◌, Option, none, some, List, [], ◌∷◌, ◌++◌, length, take, drop,
  ltb, leb, nat_eq, if◌then◌else◌, ◌==◌, eq_text, Text,
}
use invariant_go.Storage.Interface.{StorageOps, Reader}
use invariant_go.Content.Link.{ContentLink, Codec}
use invariant_go.Content.BuzHash.{BlockListItem, max_block_size}
use invariant_go.Content.Writer.{
  random_per_block, random_all_key, deterministic, supplied_all_key, no_policy, other_policy,
  WriterOptions, World, Splitter, select_splitter, is_empty, blocks_transform, hash_text,
  write_block,
}

-- `out_of_fuel` is no outcome of the source: it marks the recursion of writeBlockList that is cut off.
pub data Written (A : Type 0) : Type 0 where
  written : A → Written A
  write_error out_of_fuel : Written A

abbrev pub ceil_div : ℕ → ℕ → ℕ
ceil_div a b = (a + b - 1) / b

-- for i := range chunks: items[i*1000 : min(i*1000+1000, len(items))]
unfoldable pub groups_of : {A : Type 0} → ℕ → List A → List (List A)
groups_of zero items = []
groups_of (suc n) items = take 1000 items ∷ groups_of n (drop 1000 items)

unfoldable pub total_size : {L : Type 0} → List (BlockListItem L) → ℕ
total_size [] = 0
total_size (i ∷ items) = i.size + total_size items

-- The link of a block that holds a list.
abbrev pub list_link : Text → ContentLink → ContentLink
list_link overall link = record link {
  transforms = link.transforms ++ blocks_transform ∷ [];
  expected = overall;
}

-- link.Expected of a file that is one block.
unfoldable pub file_link : Text → ContentLink → ContentLink
file_link overall link = record link {
  expected = if is_empty link.transforms && overall == link.address then [] else overall;
}

module _ (c : Codec) {R : Type 0} (rand : R → ℕ → Option (List ℕ) × R) {S : Type 0}
    (ops : StorageOps S) where
  -- The loop over the groups, for the function that writes one of them.
  unfoldable pub write_groups :
      (List (BlockListItem ContentLink) → World S R → Written ContentLink × World S R)
      → List (List (BlockListItem ContentLink))
      → List (BlockListItem ContentLink)
      → World S R
      → Written (List (BlockListItem ContentLink)) × World S R
  unfolding total_size
  write_groups write_group [] parents w = (written parents, w)
  write_groups write_group (g ∷ groups) parents w =
      let (r, w') = write_group g w in
      elim r [
        | written link ↦
            write_groups write_group groups
              (parents ++ record { link = link; size = total_size g } ∷ []) w'
        | write_error ↦ (write_error, w')
        | out_of_fuel ↦ (out_of_fuel, w')
      ]

  unfoldable pub write_block_list :
      ℕ
      → WriterOptions
      → Option (List ℕ)
      → Text
      → List (BlockListItem ContentLink)
      → World S R
      → Written ContentLink × World S R
  unfolding write_block groups_of write_groups
  write_block_list zero opts shared overall items w = (out_of_fuel, w)
  write_block_list (suc fuel) opts shared overall items w =
      if leb (length (c.marshal items)) max_block_size
      then (let (link, w') = write_block c rand ops opts shared w (c.marshal items) in
          elim link [ none ↦ (write_error, w') | some l ↦ (written (list_link overall l), w') ])
      else (let (r, w') =
            write_groups (write_block_list fuel opts shared [])
              (groups_of (ceil_div (length items) 1000) items) [] w in
          elim r [
            | written parents ↦ write_block_list fuel opts shared overall parents w'
            | write_error ↦ (write_error, w')
            | out_of_fuel ↦ (out_of_fuel, w')
          ])

  -- The key that the blocks of a file share, if the policy has one.
  unfoldable pub shared_key : WriterOptions → R → Option (Option (List ℕ)) × R
  shared_key opts rng = elim opts.key_policy [
    | random_all_key ↦
        (let (k, rng') = rand rng 32 in
          elim k [ none ↦ (none, rng') | some key ↦ (some (some key), rng') ])
    | supplied_all_key ↦
        (if nat_eq (length opts.supplied_key) 32 then some (some opts.supplied_key) else none, rng)
    | random_per_block ↦ (some none, rng)
    | deterministic ↦ (some none, rng)
    | no_policy ↦ (some none, rng)
    | other_policy ↦ (some none, rng)
  ]

  -- What Write does with the blocks; `overall` is the hash of the file.
  unfoldable pub write_root :
      ℕ
      → WriterOptions
      → Option (List ℕ)
      → Text
      → List (BlockListItem ContentLink)
      → World S R
      → Written ContentLink × World S R
  unfolding file_link write_block_list
  write_root fuel opts shared overall [] w =
      let (link, w') = write_block c rand ops opts shared w [] in
      elim link [ none ↦ (write_error, w') | some l ↦ (written (file_link overall l), w') ]
  write_root fuel opts shared overall (i ∷ []) w = (written (file_link overall i.link), w)
  write_root fuel opts shared overall (i ∷ j ∷ items) w =
      write_block_list fuel opts shared overall (i ∷ j ∷ items) w

  -- A reader that fails within its first 1024 bytes is an error before anything is written.
  unfoldable pub write :
      ℕ
      → List (Splitter (World S R))
      → WriterOptions
      → Reader
      → World S R
      → Written ContentLink × World S R
  unfolding shared_key select_splitter write_root
  write fuel splitters opts r w =
      let (k, rng) = shared_key opts w.rng in
      let w0 = record w { rng = rng } in
      elim k [
        | none ↦ (write_error, w0)
        | some shared ↦
            if r.fails && ltb (length r.content) 1024
            then (write_error, w0)
            else let splitter =
                select_splitter (take 1024 r.content) opts.filename opts.content_type splitters in
              let (blocks, w') =
                splitter.cut (write_block c rand ops opts shared) r.content r.fails w0 in
              elim blocks [
                | none ↦ (write_error, w')
                | some items ↦ write_root fuel opts shared (hash_text c r.content) items w'
              ]
      ]
