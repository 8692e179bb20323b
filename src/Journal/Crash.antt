-- ===== src/Journal/Crash.antt =====
-- Crashes: the steps of the writers and of the snapshot goroutine, and the states between them.
pub mod Preservation
pub mod Steps
use mathlib.Core.List.{append-nil}
use invariant_go.Shared.{
  ℕ, zero, suc, ◌+◌, ◌≤◌, ◌<◌, ◌≡◌, ◌≢◌, refl, sym, ◌∙◌, ap, subst, ◌⊎◌, inl, inr, Bool, true,
  false, Option, none, some, List, [], ◌∷◌, ◌++◌, All, All-append_left, All-append_right,
  All-append, ltb, lt→ltb, nat_eq, nat_eq_iff, if◌then◌else◌, Eq, ◌==◌, GoMap, lookup, sort_by,
  IsSorted, arith,
}
use invariant_go.Journal.{
  Entry, Line, written, malformed, File, Disk, Store, Snapshot, readable, WriteResult, write_ok,
  done, apply_entry, apply_line, file_lines, earlier, load, append_line, update_file, log_entry,
  open_new_journal, create_journal, rename_snapshot, remove_old, new_store,
}
use invariant_go.Journal.Replay.{
  replay, last_write, override, or_else, lookup-replay, last_write-append, all_lines,
  all_lines-append, Fits, load_lem, base_of,
}

-- How far the snapshot goroutine is.
pub data Phase {ℓ} (K V : Type ℓ) : Type ℓ where
  idle : Phase K V
  copied : GoMap K V → ℕ → Phase K V
  renamed : ℕ → Phase K V

pub record World {ℓ} (K V : Type ℓ) : Type ℓ where
  pub store : Store K V
  pub disk : Disk K V
  pub phase : Phase K V

module _ {ℓ} {K V : Type ℓ} ⦃e : Eq K⦄ where
  -- A Put or a Delete whose write and sync succeed.
  unfoldable pub write_world : Entry K V → World K V → World K V
  write_world entry w =
      let (_, s, d) = log_entry entry write_ok w.store w.disk in record w { store = s; disk = d }

  -- The locked part of doSnapshot.
  unfoldable pub begin_world : ℕ → World K V → World K V
  begin_world now w =
      let (s, d) = open_new_journal now w.store w.disk in
      record { store = s; disk = d; phase = copied w.store.store now }

  unfoldable pub rename_world : GoMap K V → ℕ → World K V → World K V
  rename_world copy new w = record w { disk = rename_snapshot copy w.disk; phase = renamed new }

  unfoldable pub remove_world : ℕ → World K V → World K V
  remove_world new w = record w {
    disk = record w.disk { journals = remove_old 1 new w.disk.journals };
  }

  -- The steps of the writers and of the snapshot goroutine, in any order that the locks allow. No
  -- write fails, a line fits the scanner, and the clock gives a new journal the greatest name.
  pub data Step (size : Line K V → ℕ) (w : World K V) : World K V → Type ℓ where
    writes : (entry : Entry K V) → Fits size (written entry) → Step size w (write_world entry w)
    begins :
        (now : ℕ)
        → w.phase ≡ idle
        → All (λ j. j.0 < now) w.disk.journals
        → Step size w (begin_world now w)
    gives_up : Step size w (record w { phase = idle })
    renames :
        (copy : GoMap K V) (new : ℕ)
        → w.phase ≡ copied copy new
        → Step size w (rename_world copy new w)
    removes : (new : ℕ) → w.phase ≡ renamed new → Step size w (remove_world new w)

  pub data Reach (size : Line K V → ℕ) (w : World K V) : World K V → Type ℓ where
    here : Reach size w w
    next : {u v : World K V} → Reach size w u → Step size u v → Reach size w v

  -- What the old journals last wrote is what the snapshot holds.
  abbrev pub Absorbed : List (ℕ × File K V) → GoMap K V → Type ℓ
  Absorbed old base =
      (k : K)
      → (last_write k (all_lines old) ≡ none)
        ⊎ (last_write k (all_lines old) ≡ some (lookup k base))

  abbrev pub PhaseOk : Phase K V → ℕ → List (ℕ × File K V) → GoMap K V → Type ℓ
  PhaseOk idle name old base = Unit
  PhaseOk (copied copy new) name old base =
      (new ≡ name)
      × ((k : K) → lookup k copy ≡ override (last_write k (all_lines old)) (lookup k base))
  PhaseOk (renamed new) name old base = (new ≡ name) × Absorbed old base

  -- The directory holds old journals and the open one, and together they give the map in memory.
  pub record Consistent (size : Line K V → ℕ) (w : World K V) : Type ℓ where
    pub name : ℕ
    pub old : List (ℕ × File K V)
    pub lines : List (Line K V)
    pub base : GoMap K V
    pub opened : w.store.journal ≡ some name
    pub directory : w.disk.journals ≡ old ++ (name, record { lines = lines; tail = none }) ∷ []
    pub sorted : IsSorted earlier old
    pub newest : All (λ j. j.0 < name) old
    pub start : base_of w.disk.snapshot ≡ some base
    pub old_fit : All (Fits size) (all_lines old)
    pub fit : All (Fits size) lines
    pub agrees :
        (k : K)
        → lookup k w.store.store
          ≡ override (or_else (last_write k lines) (last_write k (all_lines old))) (lookup k base)
    pub phase_ok : PhaseOk w.phase name old base

  pub update_file-last :
      (name : ℕ) (g : File K V → File K V) (f : File K V) (old : List (ℕ × File K V))
      → All (λ j. j.0 < name) old
      → update_file name g (old ++ (name, f) ∷ []) ≡ old ++ (name, g f) ∷ []
  unfolding update_file
  update_file-last name g f [] h = ground arith
  update_file-last name g f ((n, x) ∷ old) (hn, h) = ground (arith, update_file-last name g f old h)

  pub create_journal-last :
      (now : ℕ) (js : List (ℕ × File K V))
      → All (λ j. j.0 < now) js
      → create_journal now js ≡ js ++ (now, record { lines = []; tail = none }) ∷ []
  unfolding create_journal
  create_journal-last now [] h = refl
  create_journal-last now ((n, x) ∷ js) (hn, h) = ground (arith, create_journal-last now js h)

  pub IsSorted-snoc :
      (js : List (ℕ × File K V)) (name : ℕ) (f : File K V)
      → IsSorted earlier js
      → All (λ j. j.0 < name) js
      → IsSorted earlier (js ++ (name, f) ∷ [])
  IsSorted-snoc [] name f h b = (tt, tt)
  IsSorted-snoc ((n, x) ∷ js) name f (hx, h) (bn, b) = (
    All-append (λ k. earlier k (n, x) ≡ false) js _ hx (ground arith, tt),
    IsSorted-snoc js name f h b,
  )

  pub old_and_new :
      (size : Line K V → ℕ) (old : List (ℕ × File K V)) (name : ℕ) (lines : List (Line K V)) (k : K)
      → last_write k (all_lines (old ++ (name, record { lines = lines; tail = none }) ∷ []))
        ≡ or_else (last_write k lines) (last_write k (all_lines old))
  old_and_new size old name lines k =
      rw (all_lines-append old ((name, record { lines = lines; tail = none }) ∷ [])) (
        rw (last_write-append k (all_lines old) ((lines ++ []) ++ []))
          (rw (append-nil (lines ++ [])) (rw (append-nil lines))))

  -- Restarting in a consistent state reads the map that was in memory.
  Consistent-load :
      (size : Line K V → ℕ) (w : World K V)
      → Consistent size w
      → (m : GoMap K V) × (load size w.disk ≡ some m)
        × ((k : K) → lookup k m ≡ lookup k w.store.store)
  Consistent-load size w c = (
    replay (all_lines w.disk.journals) c.base,
    load_lem size w.disk c.base c.start
        (rw c.directory (IsSorted-snoc c.old c.name _ c.sorted c.newest))
        (rw c.directory (
          rw (all_lines-append c.old _) (
            All-append (Fits size) (all_lines c.old) _ c.old_fit
              (rw (append-nil (c.lines ++ [])) (rw (append-nil c.lines) c.fit))))),
    λ k.
        lookup-replay k (all_lines w.disk.journals) c.base
        ∙ rw c.directory (rw (old_and_new size c.old c.name c.lines k) (sym (c.agrees k))),
  )
