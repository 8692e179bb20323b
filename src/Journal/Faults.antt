-- ===== src/Journal/Faults.antt =====
-- Writes that go wrong, and lines that the scanner refuses.
use mathlib.Core.List.{append-nil}
use invariant_go.Shared.{
  ℕ, ◌≤◌, ◌≡◌, refl, sym, ◌∙◌, ap, Option, none, some, List, [], ◌∷◌, ◌++◌, All, All-append, Eq,
  GoMap, arith, IsSorted,
}
use invariant_go.Journal.{
  Entry, Line, written, glued, File, Disk, Store, Snapshot, absent, corrupt, readable, write_ok,
  write_part, done, io_failed, apply_entry, apply_line, scan, file_lines, apply_journal,
  apply_journals, earlier, load, max_scan_token_size, append_line, append_part, update_file,
  in_journal, log_entry,
}
use invariant_go.Journal.Replay.{
  replay, replay-append, all_lines, all_lines-append, Fits, load_lem, sort_by_sorted,
}
use invariant_go.Journal.Crash.{World, Consistent, update_file-last, IsSorted-snoc}

module _ {ℓ} {K V : Type ℓ} ⦃e : Eq K⦄ (size : Line K V → ℕ) where
  -- The directory of a consistent state with another content of the open journal.
  with_open_file : (w : World K V) → Consistent size w → File K V → Disk K V
  with_open_file w c f = record w.disk { journals = c.old ++ (c.name, f) ∷ [] }

  load_open :
      (w : World K V) (c : Consistent size w) (f : File K V)
      → All (Fits size) (file_lines f)
      → load size (with_open_file w c f)
        ≡ some (replay (file_lines f) (replay (all_lines c.old) c.base))
  unfolding with_open_file
  load_open w c f h =
      load_lem size (record w.disk { journals = c.old ++ (c.name, f) ∷ [] }) c.base c.start
        (IsSorted-snoc c.old c.name f c.sorted c.newest)
        (rw (all_lines-append c.old ((c.name, f) ∷ [])) (
          All-append (Fits size) (all_lines c.old) (file_lines f ++ []) c.old_fit
            (rw (append-nil (file_lines f)) h)))
      ∙ rw (all_lines-append c.old ((c.name, f) ∷ [])) (
          rw (replay-append (all_lines c.old) (file_lines f ++ []) c.base)
            (rw (append-nil (file_lines f))))

  disk_is :
      (w : World K V) (c : Consistent size w)
      → w.disk ≡ with_open_file w c (record { lines = c.lines; tail = none })
  unfolding with_open_file
  disk_is w c = ap (λ (js : List (ℕ × File K V)). record w.disk { journals = js }) c.directory

  after_torn :
      (w : World K V) (c : Consistent size w) (part : Line K V) (entry : Entry K V)
      → record w.disk {
        journals =
            update_file c.name
              (append_line (written entry))
              (update_file c.name (append_part part) w.disk.journals);
      }
        ≡ with_open_file w c
            (record { lines = c.lines ++ glued part (written entry) ∷ []; tail = none })
  unfolding with_open_file append_line append_part
  after_torn w c part entry =
      ap (λ (js : List (ℕ × File K V)). record w.disk { journals = js })
        (ap
            (λ js.
              update_file c.name (append_line (written entry))
                (update_file c.name (append_part part) js))
            c.directory
          ∙ ap (update_file c.name (append_line (written entry)))
              (update_file-last c.name (append_part part) _ c.old c.newest)
          ∙ update_file-last c.name (append_line (written entry)) _ c.old c.newest)

  replay_glued :
      (ls : List (Line K V)) (part l : Line K V) (m : GoMap K V)
      → replay ((ls ++ glued part l ∷ []) ++ []) m ≡ replay (ls ++ []) m
  unfolding apply_line
  replay_glued ls part l m =
      rw (append-nil (ls ++ glued part l ∷ []))
        (rw (append-nil ls) (replay-append ls (glued part l ∷ []) m ∙ unfold replay in refl))

  torn_entry :
      (entry : Entry K V) (s : Store K V) (d : Disk K V) (name : ℕ) (part : Line K V)
      → s.journal ≡ some name
      → log_entry entry (write_part part) s d ≡ (io_failed, s, in_journal name (append_part part) d)
  unfolding log_entry
  torn_entry entry s d name part h = ground arith

  good_entry :
      (entry : Entry K V) (s : Store K V) (d : Disk K V) (name : ℕ)
      → s.journal ≡ some name
      → log_entry entry write_ok s d ≡ (
        done,
        record s { store = apply_entry s.store entry },
        in_journal name (append_line (written entry)) d,
      )
  unfolding log_entry
  good_entry entry s d name h = ground arith

  -- A write that leaves a part of its line makes the next successful Put or Delete undurable: that
  -- one reports success, and a restart reads the map from before both, if the line that the part and
  -- the next entry make together is shorter than 64 KiB.
  pub torn_write_loses_next :
      (w : World K V)
      → Consistent size w
      → (part : Line K V) (first next : Entry K V) → Fits size (glued part (written next))
      → let (o1, s1, d1) = log_entry first (write_part part) w.store w.disk in
        let (o2, s2, d2) = log_entry next write_ok s1 d1 in
        (o1 ≡ io_failed)
        × (o2 ≡ done)
        × (s2.store ≡ apply_entry w.store.store next)
        × (load size d2 ≡ load size w.disk)
  torn_write_loses_next w c part first next fits =
      rw (torn_entry first w.store w.disk c.name part c.opened) (
        rw (good_entry next w.store (in_journal c.name (append_part part) w.disk) c.name c.opened) (
          refl,
          refl,
          refl,
          ap (load size) (after_torn w c part next)
              ∙ load_open w c _ (
                  rw (append-nil (c.lines ++ glued part (written next) ∷ []))
                    (All-append (Fits size) c.lines _ c.fit (fits, tt)))
              ∙ ap some (replay_glued c.lines part (written next) _)
              ∙ sym (load_open w c _ (rw (append-nil c.lines) c.fit))
              ∙ ap (load size) (sym (disk_is w c)),
        ))

  scan_long :
      (ls : List (Line K V)) (l : Line K V) (m : GoMap K V)
      → max_scan_token_size ≤ size l
      → scan size (ls ++ l ∷ []) m ≡ none
  unfolding scan
  scan_long [] l m h = ground arith
  scan_long (x ∷ ls) l m h = ground (arith, scan_long ls l (apply_line m x) h)

  apply_journals-none :
      (f : File K V) (n : ℕ) (js : List (ℕ × File K V)) (m : GoMap K V)
      → ((m' : GoMap K V) → apply_journals size js m' ≡ none)
      → apply_journals size ((n, f) ∷ js) m ≡ none
  unfolding apply_journals
  apply_journals-none f n js m h = go (apply_journal size f m) refl
    where
      go :
          (o : Option (GoMap K V))
          → apply_journal size f m ≡ o
          → apply_journals size ((n, f) ∷ js) m ≡ none
      go none q = rw (q, apply_journals)
      go (some m') q = rw (q, apply_journals) (h m')

  apply_journal_long :
      (ls : List (Line K V)) (l : Line K V) (m : GoMap K V)
      → max_scan_token_size ≤ size l
      → apply_journal size (record { lines = ls ++ l ∷ []; tail = none }) m ≡ none
  unfolding apply_journal
  apply_journal_long ls l m h = rw (append-nil (ls ++ l ∷ [])) (scan_long ls l m h)

  last_one :
      (f : File K V) (name : ℕ) (m : GoMap K V)
      → apply_journal size f m ≡ none
      → apply_journals size ((name, f) ∷ []) m ≡ none
  unfolding apply_journals
  last_one f name m h = rw (h, apply_journals)

  apply_journals_long :
      (old : List (ℕ × File K V)) (name : ℕ) (ls : List (Line K V)) (l : Line K V) (m : GoMap K V)
      → max_scan_token_size ≤ size l
      → apply_journals size (old ++ (name, record { lines = ls ++ l ∷ []; tail = none }) ∷ []) m
        ≡ none
  apply_journals_long [] name ls l m h =
      last_one (record { lines = ls ++ l ∷ []; tail = none }) name m (apply_journal_long ls l m h)
  apply_journals_long ((n, f) ∷ old) name ls l m h =
      apply_journals-none f n (old ++ (name, record { lines = ls ++ l ∷ []; tail = none }) ∷ []) m
        (λ m'. apply_journals_long old name ls l m' h)

  load-none :
      (d : Disk K V)
      → IsSorted earlier d.journals
      → ((m : GoMap K V) → apply_journals size d.journals m ≡ none)
      → load size d ≡ none
  unfolding load
  load-none d hs h = go d.snapshot refl
    where
      go : (s : Snapshot K V) → d.snapshot ≡ s → load size d ≡ none
      go absent q = rw (q, load) (rw (sort_by_sorted d.journals hs) (h []))
      go corrupt q = rw (q, load)
      go (readable m) q = rw (q, load) (rw (sort_by_sorted d.journals hs) (h m))

  -- A Put or Delete whose line does not fit the scanner succeeds, and no later restart reads the
  -- directory that it leaves.
  pub long_line_blocks_load :
      (w : World K V)
      → Consistent size w
      → (entry : Entry K V) → max_scan_token_size ≤ size (written entry)
      → let (o, s, d) = log_entry entry write_ok w.store w.disk in
        (o ≡ done) × (s.store ≡ apply_entry w.store.store entry) × (load size d ≡ none)
  long_line_blocks_load w c entry long = rw (good_entry entry w.store w.disk c.name c.opened) (
    refl,
    refl,
    rw
        (ap (update_file c.name (append_line (written entry))) c.directory
          ∙ update_file-last c.name (append_line (written entry)) _ c.old c.newest)
        (load-none
          (record w.disk {
            journals =
                c.old
                ++ (c.name, append_line (written entry) (record { lines = c.lines; tail = none }))
                  ∷ [];
          })
          (IsSorted-snoc c.old c.name _ c.sorted c.newest)
          (λ m.
            unfold append_line in apply_journals_long c.old c.name c.lines (written entry) m long)),
  )
