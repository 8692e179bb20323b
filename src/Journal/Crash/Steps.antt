-- ===== src/Journal/Crash/Steps.antt =====
-- What NewStore reads from a directory, and what a restart finds after any steps.
use invariant_go.Shared.{
  ℕ, ◌<◌, ◌≡◌, refl, sym, ◌∙◌, subst, none, some, some-injective, [], All, Eq, GoMap, lookup,
  IsSorted,
}
use invariant_go.Journal.{Line, Disk, Store, earlier, load, open_new_journal, new_store}
use invariant_go.Journal.Replay.{
  replay, last_write, override, lookup-replay, all_lines, Fits, load_lem, base_of,
}
use invariant_go.Journal.Crash.{
  idle, World, Reach, Consistent, create_journal-last, Consistent-load,
}
use invariant_go.Journal.Crash.Preservation.{Reach-Consistent}

module _ {ℓ} {K V : Type ℓ} ⦃e : Eq K⦄ (size : Line K V → ℕ) where
  -- A directory that NewStore accepts: a readable snapshot, journals in order, no line too long.
  pub record Loadable (now : ℕ) (d : Disk K V) (base : GoMap K V) : Type ℓ where
    pub start : base_of d.snapshot ≡ some base
    pub sorted : IsSorted earlier d.journals
    pub newest : All (λ j. j.0 < now) d.journals
    pub fit : All (Fits size) (all_lines d.journals)

  abbrev pub opened_world : ℕ → GoMap K V → Disk K V → World K V
  opened_world now base d =
      let (s, d') =
        open_new_journal now (record { store = replay (all_lines d.journals) base; journal = none })
          d in
      record { store = s; disk = d'; phase = idle }

  pub new_store_lem :
      (now : ℕ) (d : Disk K V) (base : GoMap K V)
      → Loadable now d base
      → new_store size now d
        ≡ some ((opened_world now base d).store, (opened_world now base d).disk)
  unfolding new_store
  new_store_lem now d base l = rw (load_lem size d base l.start l.sorted l.fit, new_store) refl

  pub opened-Consistent :
      (now : ℕ) (d : Disk K V) (base : GoMap K V)
      → Loadable now d base
      → Consistent size (opened_world now base d)
  unfolding open_new_journal last_write
  opened-Consistent now d base l = record {
    name = now;
    old = d.journals;
    lines = [];
    base = base;
    opened = refl;
    directory = create_journal-last now d.journals l.newest;
    sorted = l.sorted;
    newest = l.newest;
    start = l.start;
    old_fit = l.fit;
    fit = tt;
    agrees = λ k. lookup-replay k (all_lines d.journals) base;
    phase_ok = tt;
  }

  -- From a directory that loads, NewStore succeeds under a name later than all journals, and its map
  -- holds, for every key, what the last line that names the key says, or else the snapshot.
  pub new_store-Loadable :
      (now : ℕ) (d : Disk K V) (base : GoMap K V)
      → Loadable now d base
      → (s : Store K V) × (d' : Disk K V) × (new_store size now d ≡ some (s, d'))
        × ((k : K)
            → lookup k s.store ≡ override (last_write k (all_lines d.journals)) (lookup k base))
  unfolding open_new_journal
  new_store-Loadable now d base l = (
    (opened_world now base d).store,
    (opened_world now base d).disk,
    new_store_lem now d base l,
    λ k. lookup-replay k (all_lines d.journals) base,
  )

  -- After NewStore has succeeded on a directory that loads, and after any interleaving of writes that
  -- succeed and whose lines are shorter than 64 KiB, and of the steps of doSnapshot, with names of new
  -- journals later than all others, finished or broken off at any point, loading the directory as it then
  -- is succeeds and gives, for every key, what the map in memory holds.
  pub crash_recovery :
      (now : ℕ) (d d' : Disk K V) (base : GoMap K V) (s : Store K V) (w : World K V)
      → Loadable now d base
      → new_store size now d ≡ some (s, d')
      → Reach size (record { store = s; disk = d'; phase = idle }) w
      → (m : GoMap K V) × (load size w.disk ≡ some m)
        × ((k : K) → lookup k m ≡ lookup k w.store.store)
  crash_recovery now d d' base s w l opened r =
      Consistent-load size w (Reach-Consistent size start r)
    where
      same :
          ◌≡◌ {A = Store K V × Disk K V}
            ((opened_world now base d).store, (opened_world now base d).disk)
            (s, d')
      same = some-injective _ _ (sym (new_store_lem now d base l) ∙ opened)

      start : Consistent size (record { store = s; disk = d'; phase = idle })
      start =
          subst
            (λ (p : Store K V × Disk K V).
              Consistent size (record { store = p.0; disk = p.1; phase = idle }))
            same (opened-Consistent now d base l)
