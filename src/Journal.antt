-- ===== src/Journal.antt =====
-- internal/journal/journal.go: a map kept in memory, its journals and its snapshot on disk.
-- `encoding/json` and the file system are seen through what they leave: a line of a journal reads
-- back as the entry that was written, or it does not parse.
pub mod Replay
pub mod Crash
pub mod Faults
use invariant_go.Shared.{
  ℕ, zero, suc, ◌+◌, ◌≡◌, Bool, true, false, Option, none, some, List, [], ◌∷◌, ◌++◌, map, ltb,
  nat_eq, if◌then◌else◌, Eq, GoMap, lookup, insert, delete, sort_by,
}

module _ {ℓ} (K V : Type ℓ) where
  -- `entry`: its Op is "PUT" or "DELETE".
  pub data Entry : Type ℓ where
    put_entry : K → V → Entry
    delete_entry : K → Entry

  -- A line that does not parse, or has another Op, changes nothing when it is read. One such is a part of
  -- a line with the next line glued to it, which is as long as the two.
  pub data Line : Type ℓ where
    written : Entry → Line
    malformed : Line
    glued : Line → Line → Line

  -- The complete lines of a journal, and what stands behind the last line break.
  pub record File : Type ℓ where
    pub lines : List Line
    pub tail : Option Line

  pub data Snapshot : Type ℓ where
    absent corrupt : Snapshot
    readable : GoMap K V → Snapshot

  -- A journal is named by the time of its creation in nanoseconds; as the stamps have the same
  -- number of digits, the order of the names is that of the stamps.
  pub record Disk : Type ℓ where
    pub snapshot : Snapshot
    pub journals : List (ℕ × File)

  -- `journal` is the open file, nil after Close.
  pub record Store : Type ℓ where
    pub store : GoMap K V
    pub journal : Option ℕ

-- How the write of one line ends: all of it is on disk; nothing was written; a part of it was, which
-- reads as the line given; or the line was written and the sync failed.
pub data WriteResult {ℓ} (K V : Type ℓ) : Type ℓ where
  write_ok write_nothing sync_failed : WriteResult K V
  write_part : Line K V → WriteResult K V

pub data Outcome : Type 0 where
  done io_failed : Outcome

-- Put and Delete return the error of their check, or that of the write.
pub data PutResult {ℓ} (E : Type ℓ) : Type ℓ where
  refused : E → PutResult E
  logged : Outcome → PutResult E

-- How far doSnapshot came: it returned early, or it renamed and then removed `n` journals.
pub data Progress : Type 0 where
  stopped_early : Progress
  cleaned : ℕ → Progress

-- bufio.MaxScanTokenSize: the scanner stops with an error at a longer line.
abbrev pub max_scan_token_size : ℕ
max_scan_token_size = 65536

module _ {ℓ} {K V : Type ℓ} ⦃e : Eq K⦄ where
  unfoldable pub apply_entry : GoMap K V → Entry K V → GoMap K V
  apply_entry m (Entry.put_entry k v) = insert k v m
  apply_entry m (Entry.delete_entry k) = delete k m

  unfoldable pub apply_line : GoMap K V → Line K V → GoMap K V
  unfolding apply_entry
  apply_line m (Line.written entry) = apply_entry m entry
  apply_line m Line.malformed = m
  apply_line m (Line.glued part l) = m

  -- The loop of the scanner, for lines of the lengths that `size` gives.
  unfoldable pub scan : (Line K V → ℕ) → List (Line K V) → GoMap K V → Option (GoMap K V)
  unfolding apply_line
  scan size [] m = some m
  scan size (l ∷ ls) m =
      if ltb (size l) max_scan_token_size then scan size ls (apply_line m l) else none

  abbrev pub file_lines : File K V → List (Line K V)
  file_lines f = f.lines ++ elim f.tail [ none ↦ [] | some l ↦ l ∷ [] ]

  unfoldable pub apply_journal : (Line K V → ℕ) → File K V → GoMap K V → Option (GoMap K V)
  unfolding scan
  apply_journal size f m = scan size (file_lines f) m

  unfoldable pub apply_journals :
      (Line K V → ℕ) → List (ℕ × File K V) → GoMap K V → Option (GoMap K V)
  unfolding apply_journal
  apply_journals size [] m = some m
  apply_journals size ((name, f) ∷ js) m = elim (apply_journal size f m) [
    | none ↦ none
    | some m' ↦ apply_journals size js m'
  ]

  abbrev pub earlier : ℕ × File K V → ℕ × File K V → Bool
  earlier (n, f) (m, g) = ltb n m

  -- Steps 1 and 2 of NewStore: the snapshot, then the journals in the order of their names.
  unfoldable pub load : (Line K V → ℕ) → Disk K V → Option (GoMap K V)
  unfolding apply_journals
  load size d = elim d.snapshot [
    | absent ↦ apply_journals size (sort_by earlier d.journals) []
    | corrupt ↦ none
    | readable m ↦ apply_journals size (sort_by earlier d.journals) m
  ]

  -- O_CREATE with O_APPEND: a file of that name is kept, and otherwise made empty.
  unfoldable pub create_journal : ℕ → List (ℕ × File K V) → List (ℕ × File K V)
  create_journal now [] = (now, record { lines = []; tail = none }) ∷ []
  create_journal now ((name, f) ∷ js) =
      if nat_eq name now then (name, f) ∷ js else (name, f) ∷ create_journal now js

  unfoldable pub open_new_journal : ℕ → Store K V → Disk K V → Store K V × Disk K V
  unfolding create_journal
  open_new_journal now s d =
      (record s { journal = some now }, record d { journals = create_journal now d.journals })

  unfoldable pub new_store : (Line K V → ℕ) → ℕ → Disk K V → Option (Store K V × Disk K V)
  unfolding load open_new_journal
  new_store size now d = elim (load size d) [
    | none ↦ none
    | some m ↦ some (open_new_journal now (record { store = m; journal = none }) d)
  ]

  -- A line written behind an unfinished one makes one line with it, which does not parse.
  unfoldable pub append_line : Line K V → File K V → File K V
  append_line l f = record {
    lines = f.lines ++ elim f.tail [ none ↦ l | some part ↦ Line.glued part l ] ∷ [];
    tail = none;
  }

  unfoldable pub append_part : Line K V → File K V → File K V
  append_part l f = record f {
    tail = some (elim f.tail [ none ↦ l | some part ↦ Line.glued part l ]);
  }

  unfoldable pub update_file : ℕ → (File K V → File K V) → List (ℕ × File K V) → List (ℕ × File K V)
  update_file name g [] = []
  update_file name g ((n, f) ∷ js) = (n, if nat_eq n name then g f else f) ∷ update_file name g js

  abbrev pub in_journal : ℕ → (File K V → File K V) → Disk K V → Disk K V
  in_journal name g d = record d { journals = update_file name g d.journals }

  -- Put and Delete behind their check: write, sync, and then change the map. The write to a closed
  -- journal fails.
  unfoldable pub log_entry :
      Entry K V → WriteResult K V → Store K V → Disk K V → Outcome × Store K V × Disk K V
  unfolding append_line append_part update_file apply_entry
  log_entry entry result s d = elim s.journal [
    | none ↦ (io_failed, s, d)
    | some name ↦ elim result [
      | write_ok ↦ (
        done,
        record s { store = apply_entry s.store entry },
        in_journal name (append_line (Line.written entry)) d,
      )
      | write_nothing ↦ (io_failed, s, d)
      | sync_failed ↦ (io_failed, s, in_journal name (append_line (Line.written entry)) d)
      | write_part part ↦ (io_failed, s, in_journal name (append_part part) d)
    ]
  ]

  -- `check` reads the map, and returns its error if it has one.
  unfoldable pub put {κ} :
      {E : Type κ}
      → K
      → V
      → (GoMap K V → Option E)
      → WriteResult K V
      → Store K V
      → Disk K V
      → PutResult E × Store K V × Disk K V
  unfolding log_entry
  put key value check result s d = elim (check s.store) [
    | some error ↦ (refused error, s, d)
    | none ↦
        let (o, s', d') = log_entry (Entry.put_entry key value) result s d in (logged o, s', d')
  ]

  unfoldable pub remove {κ} :
      {E : Type κ}
      → K
      → (GoMap K V → Option E)
      → WriteResult K V
      → Store K V
      → Disk K V
      → PutResult E × Store K V × Disk K V
  unfolding log_entry
  remove key check result s d = elim (check s.store) [
    | some error ↦ (refused error, s, d)
    | none ↦ let (o, s', d') = log_entry (Entry.delete_entry key) result s d in (logged o, s', d')
  ]

  unfoldable pub get : K → Store K V → Option V
  get k s = lookup k s.store

  unfoldable pub close : Store K V → Store K V
  close s = record s { journal = none }

  -- doSnapshot: the rename puts the copy in the place of the snapshot.
  unfoldable pub rename_snapshot : GoMap K V → Disk K V → Disk K V
  rename_snapshot copy d = record d { snapshot = Snapshot.readable copy }

  -- The clean-up, up to its first `n` removals; the directory is read in the order of the names.
  unfoldable pub remove_old : ℕ → ℕ → List (ℕ × File K V) → List (ℕ × File K V)
  remove_old zero new js = js
  remove_old (suc n) new [] = []
  remove_old (suc n) new ((name, f) ∷ js) = elim (nat_eq name new) [
    | true ↦ (name, f) ∷ remove_old (suc n) new js
    | false ↦ remove_old n new js
  ]

  -- doSnapshot with no write in between.
  unfoldable pub do_snapshot : ℕ → Progress → Store K V → Disk K V → Store K V × Disk K V
  unfolding open_new_journal rename_snapshot remove_old
  do_snapshot now progress s d =
      let (s', d') = open_new_journal now s d in
      elim progress [
        | stopped_early ↦ (s', d')
        | cleaned n ↦
            (s', record (rename_snapshot s.store d') { journals = remove_old n now d'.journals })
      ]
