-- ===== src/Examples/JournalExamples.antt =====
-- A directory with one journal that ends in an unfinished line.
use invariant_go.Shared.{
  ◌+◌, ℕ, String, ◌≡◌, refl, none, some, [], ◌∷◌, GoMap, lookup, eq_string, arith, if◌then◌else◌,
  ltb,
}
use invariant_go.Journal.{
  put_entry, delete_entry, Line, written, malformed, glued, File, Disk, Store, absent, done,
  io_failed, write_part, write_ok, log_entry, open_new_journal, new_store, load, apply_entry,
}
use invariant_go.Journal.Replay.{override, last_write, all_lines}
use invariant_go.Journal.Crash.{
  World, writes, begins, Reach, here, next, write_world, begin_world, Consistent,
}
use invariant_go.Journal.Crash.Steps.{
  Loadable, new_store-Loadable, crash_recovery, opened_world, new_store_lem, opened-Consistent,
}
use invariant_go.Journal.Faults.{torn_write_loses_next, long_line_blocks_load}

-- Lines are short, but for a key of its own.
abbrev line_size : Line String ℕ → ℕ
line_size (written (put_entry k v)) = if ltb 1000 v then 70000 else 40
line_size (written (delete_entry k)) = 40
line_size malformed = 7
line_size (glued part l) = line_size part + line_size l

abbrev old_file : File String ℕ
old_file = record { lines = written (put_entry "a" 1) ∷ []; tail = some malformed }

abbrev old_disk : Disk String ℕ
old_disk = record { snapshot = absent; journals = (5, old_file) ∷ [] }

old_disk-Loadable : Loadable line_size 9 old_disk []
old_disk-Loadable = record {
  start = refl;
  sorted = (tt, tt);
  newest = (omega arith, tt);
  fit = (omega arith, (omega arith, tt));
}

abbrev start_world : World String ℕ
start_world = opened_world line_size 9 [] old_disk

new_store-Loadable_example :
    (s : Store String ℕ) × (d' : Disk String ℕ) × (new_store line_size 9 old_disk ≡ some (s, d'))
    × ((k : String)
        → lookup k s.store ≡ override (last_write k (all_lines old_disk.journals)) (lookup k []))
new_store-Loadable_example = new_store-Loadable line_size 9 old_disk [] old_disk-Loadable

abbrev world_1 : World String ℕ
world_1 = write_world (put_entry "b" 2) start_world

-- A write, and the writing of the snapshot while another write goes on.
abbrev world_2 : World String ℕ
world_2 = begin_world 10 world_1

abbrev world_3 : World String ℕ
world_3 = write_world (delete_entry "a") world_2

steps : Reach line_size start_world world_3
unfolding write_world log_entry open_new_journal
steps =
    next (next (next here (writes (put_entry "b" 2) (omega arith))) (begins 10 refl (omega arith)))
      (writes (delete_entry "a") (omega arith))

crash_recovery_example :
    (m : GoMap String ℕ) × (load line_size world_3.disk ≡ some m)
    × ((k : String) → lookup k m ≡ lookup k world_3.store.store)
crash_recovery_example =
    crash_recovery line_size 9 old_disk start_world.disk [] start_world.store world_3
      old_disk-Loadable (new_store_lem line_size 9 old_disk [] old_disk-Loadable) steps

start-Consistent : Consistent line_size start_world
start-Consistent = opened-Consistent line_size 9 old_disk [] old_disk-Loadable

torn_write_loses_next_example :
    let (o1, s1, d1) =
      log_entry (put_entry "b" 2) (write_part malformed) start_world.store start_world.disk in
    let (o2, s2, d2) = log_entry (put_entry "c" 3) write_ok s1 d1 in
    (o1 ≡ io_failed)
    × (o2 ≡ done)
    × (s2.store ≡ apply_entry start_world.store.store (put_entry "c" 3))
    × (load line_size d2 ≡ load line_size start_world.disk)
torn_write_loses_next_example =
    torn_write_loses_next line_size start_world start-Consistent malformed (put_entry "b" 2)
      (put_entry "c" 3) (omega arith)

long_line_blocks_load_example :
    let (o, s, d) = log_entry (put_entry "b" 5000) write_ok start_world.store start_world.disk in
    (o ≡ done)
    × (s.store ≡ apply_entry start_world.store.store (put_entry "b" 5000))
    × (load line_size d ≡ none)
long_line_blocks_load_example =
    long_line_blocks_load line_size start_world start-Consistent (put_entry "b" 5000) (omega arith)
