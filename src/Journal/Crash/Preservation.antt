-- ===== src/Journal/Crash/Preservation.antt =====
-- Every step of the writers and of the snapshot goroutine keeps the directory consistent.
use mathlib.Core.List.{append-nil}
use invariant_go.Shared.{
  ℕ, ◌<◌, ◌≡◌, refl, ◌∙◌, ap, subst, none, some, List, [], ◌∷◌, ◌++◌, All, All-append,
  All-append_right, Eq, GoMap, lookup, IsSorted, arith,
}
use invariant_go.Journal.{
  Entry, Line, written, File, Disk, Store, write_ok, done, apply_entry, apply_line, file_lines,
  earlier, append_line, update_file, log_entry, open_new_journal, rename_snapshot, remove_old,
}
use invariant_go.Journal.Replay.{
  last_write, touched, override, or_else, lookup-apply_line, last_write-append, all_lines,
  all_lines-append, Fits,
}
use invariant_go.Journal.Crash.{
  idle, copied, renamed, World, write_world, begin_world, rename_world, remove_world, Step, writes,
  begins, gives_up, renames, removes, Reach, here, next, Consistent, PhaseOk, update_file-last,
  create_journal-last, IsSorted-snoc, old_and_new,
}

module _ {ℓ} {K V : Type ℓ} ⦃e : Eq K⦄ (size : Line K V → ℕ) where
  last_write-snoc :
      (k : K) (ls : List (Line K V)) (l : Line K V)
      → last_write k (ls ++ l ∷ []) ≡ or_else (touched k l) (last_write k ls)
  last_write-snoc k ls l = last_write-append k ls (l ∷ []) ∙ unfold last_write in refl

  lookup-apply_entry :
      (k : K) (m : GoMap K V) (entry : Entry K V)
      → lookup k (apply_entry m entry) ≡ override (touched k (written entry)) (lookup k m)
  lookup-apply_entry k m entry = unfold apply_line in lookup-apply_line k m (written entry)

  log_entry_ok :
      (entry : Entry K V) (s : Store K V) (d : Disk K V) (name : ℕ)
      → s.journal ≡ some name
      → log_entry entry write_ok s d ≡ (
        done,
        record s { store = apply_entry s.store entry },
        record d { journals = update_file name (append_line (written entry)) d.journals },
      )
  unfolding log_entry
  log_entry_ok entry s d name h = ground arith

  write-Consistent :
      (entry : Entry K V) (w : World K V)
      → Fits size (written entry)
      → Consistent size w
      → Consistent size (write_world entry w)
  unfolding write_world
  write-Consistent entry w fits c = rw (log_entry_ok entry w.store w.disk c.name c.opened) (record {
    name = c.name;
    old = c.old;
    lines = c.lines ++ written entry ∷ [];
    base = c.base;
    opened = c.opened;
    directory = rw c.directory (
        update_file-last c.name (append_line (written entry)) _ c.old c.newest
        ∙ unfold append_line in refl);
    sorted = c.sorted;
    newest = c.newest;
    start = c.start;
    old_fit = c.old_fit;
    fit = All-append (Fits size) c.lines (written entry ∷ []) c.fit (fits, tt);
    agrees = λ k. ground (
      arith,
      lookup-apply_entry k w.store.store entry,
      c.agrees k,
      last_write-snoc k c.lines (written entry),
    );
    phase_ok = c.phase_ok;
  })

  begin-Consistent :
      (now : ℕ) (w : World K V)
      → All (λ j. j.0 < now) w.disk.journals
      → Consistent size w
      → Consistent size (begin_world now w)
  unfolding begin_world open_new_journal last_write
  begin-Consistent now w later c = record {
    name = now;
    old = w.disk.journals;
    lines = [];
    base = c.base;
    opened = refl;
    directory = create_journal-last now w.disk.journals later;
    sorted = rw c.directory (IsSorted-snoc c.old c.name _ c.sorted c.newest);
    newest = later;
    start = c.start;
    old_fit = rw c.directory (
        rw (all_lines-append c.old _) (
          All-append (Fits size) (all_lines c.old) _ c.old_fit
            (rw (append-nil (c.lines ++ [])) (rw (append-nil c.lines) c.fit))));
    fit = tt;
    agrees = memory;
    phase_ok = (refl, memory);
  }
    where
      memory :
          (k : K)
          → lookup k w.store.store
            ≡ override (last_write k (all_lines w.disk.journals)) (lookup k c.base)
      memory k = rw c.directory (rw (old_and_new size c.old c.name c.lines k) (c.agrees k))

  give_up-Consistent :
      (w : World K V) → Consistent size w → Consistent size (record w { phase = idle })
  give_up-Consistent w c = record {
    name = c.name;
    old = c.old;
    lines = c.lines;
    base = c.base;
    opened = c.opened;
    directory = c.directory;
    sorted = c.sorted;
    newest = c.newest;
    start = c.start;
    old_fit = c.old_fit;
    fit = c.fit;
    agrees = c.agrees;
    phase_ok = tt;
  }

  rename-Consistent :
      (copy : GoMap K V) (new : ℕ) (w : World K V)
      → w.phase ≡ copied copy new
      → Consistent size w
      → Consistent size (rename_world copy new w)
  unfolding rename_world rename_snapshot
  rename-Consistent copy new w at c =
      let (same, copy_ok) = subst (λ p. PhaseOk p c.name c.old c.base) at c.phase_ok in
      record {
        name = c.name;
        old = c.old;
        lines = c.lines;
        base = copy;
        opened = c.opened;
        directory = c.directory;
        sorted = c.sorted;
        newest = c.newest;
        start = refl;
        old_fit = c.old_fit;
        fit = c.fit;
        agrees = λ k. ground (arith, c.agrees k, copy_ok k);
        phase_ok = (same, λ k. ground (arith, copy_ok k));
      }

  drop_old :
      (new n : ℕ) (f g : File K V) (rest : List (ℕ × File K V))
      → n < new
      → remove_old 1 new ((n, f) ∷ rest ++ (new, g) ∷ []) ≡ rest ++ (new, g) ∷ []
  unfolding remove_old
  drop_old new n f g rest lt = ground arith

  keep_current : (new : ℕ) (g : File K V) → remove_old 1 new ((new, g) ∷ []) ≡ (new, g) ∷ []
  unfolding remove_old
  keep_current new g = ground arith

  remove-Consistent :
      (new : ℕ) (w : World K V)
      → w.phase ≡ renamed new
      → Consistent size w
      → Consistent size (remove_world new w)
  unfolding remove_world
  remove-Consistent new w at c =
      go c.old c.directory c.sorted c.newest c.old_fit c.agrees
        (subst (λ p. PhaseOk p c.name c.old c.base) at c.phase_ok)
    where
      go :
          (old : List (ℕ × File K V))
          → w.disk.journals ≡ old ++ (c.name, record { lines = c.lines; tail = none }) ∷ []
          → IsSorted earlier old
          → All (λ j. j.0 < c.name) old
          → All (Fits size) (all_lines old)
          → ((k : K)
              → lookup k w.store.store
                ≡ override
                    (or_else (last_write k c.lines) (last_write k (all_lines old)))
                    (lookup k c.base))
          → PhaseOk (renamed new) c.name old c.base
          → Consistent size (remove_world new w)
      go [] dir s n f a p = record {
        name = c.name;
        old = [];
        lines = c.lines;
        base = c.base;
        opened = c.opened;
        directory = ap (remove_old 1 new) dir ∙ rw p.0 (keep_current c.name _);
        sorted = tt;
        newest = tt;
        start = c.start;
        old_fit = tt;
        fit = c.fit;
        agrees = a;
        phase_ok = rw at p;
      }
      go ((m, file) ∷ old) dir (sm, s) (nm, n) f a p = record {
        name = c.name;
        old = old;
        lines = c.lines;
        base = c.base;
        opened = c.opened;
        directory = ap (remove_old 1 new) dir ∙ rw p.0 (drop_old c.name m file _ old nm);
        sorted = s;
        newest = n;
        start = c.start;
        old_fit = All-append_right (Fits size) (file_lines file) (all_lines old) f;
        fit = c.fit;
        agrees =
            λ k. ground (arith, a k, last_write-append k (file_lines file) (all_lines old), p.1 k);
        phase_ok = rw at (
          p.0,
          λ k. ground (arith, last_write-append k (file_lines file) (all_lines old), p.1 k),
        );
      }

  Step-Consistent : {w v : World K V} → Step size w v → Consistent size w → Consistent size v
  Step-Consistent {w} (writes entry fits) c = write-Consistent entry w fits c
  Step-Consistent {w} (begins now p later) c = begin-Consistent now w later c
  Step-Consistent {w} gives_up c = give_up-Consistent w c
  Step-Consistent {w} (renames copy new p) c = rename-Consistent copy new w p c
  Step-Consistent {w} (removes new p) c = remove-Consistent new w p c

  pub Reach-Consistent : {w v : World K V} → Consistent size w → Reach size w v → Consistent size v
  Reach-Consistent c here = c
  Reach-Consistent c (next r st) = Step-Consistent st (Reach-Consistent c r)
