-- ===== src/Journal/Replay.antt =====
-- What reading journals gives: for every key the last line that names it decides.
use mathlib.Core.List.{append_assoc}
use invariant_go.Shared.{
  ℕ, ◌<◌, ◌≡◌, refl, sym, false, Option, none, some, List, [], ◌∷◌, ◌++◌, All, All-append_left,
  All-append_right, lt→ltb, if◌then◌else◌, Eq, ◌==◌, GoMap, lookup, lookup-insert, lookup-delete,
  sort_by, IsSorted, insert_by, arith, some-injective,
}
use invariant_go.Journal.{
  put_entry, delete_entry, Line, written, malformed, glued, File, Disk, Snapshot, absent, corrupt,
  readable, apply_line, scan, file_lines, apply_journals, earlier, load, max_scan_token_size,
}

-- The last value that a key was given, and `some none` where it was deleted last, over what was.
abbrev pub override {κ} : {A : Type κ} → Option A → A → A
override none o = o
override (some r) o = r

abbrev pub or_else {κ} : {A : Type κ} → Option A → Option A → Option A
or_else none o = o
or_else (some r) o = some r

-- The map that the journals start from.
abbrev pub base_of {ℓ} : {K V : Type ℓ} → Snapshot K V → Option (GoMap K V)
base_of absent = some []
base_of corrupt = none
base_of (readable m) = some m

module _ {ℓ} {K V : Type ℓ} ⦃e : Eq K⦄ where
  unfoldable pub replay : List (Line K V) → GoMap K V → GoMap K V
  unfolding apply_line
  replay [] m = m
  replay (l ∷ ls) m = replay ls (apply_line m l)

  unfoldable pub touched : K → Line K V → Option (Option V)
  touched k (written (put_entry j v)) = if j == k then some (some v) else none
  touched k (written (delete_entry j)) = if j == k then some none else none
  touched k malformed = none
  touched k (glued part l) = none

  unfoldable pub last_write : K → List (Line K V) → Option (Option V)
  unfolding touched
  last_write k [] = none
  last_write k (l ∷ ls) = or_else (last_write k ls) (touched k l)

  pub lookup-apply_line :
      (k : K) (m : GoMap K V) (l : Line K V)
      → lookup k (apply_line m l) ≡ override (touched k l) (lookup k m)
  unfolding apply_line touched
  lookup-apply_line k m (written (put_entry j v)) = ground (arith, lookup-insert j k v m)
  lookup-apply_line k m (written (delete_entry j)) = ground (arith, lookup-delete j k m)
  lookup-apply_line k m malformed = refl
  lookup-apply_line k m (glued part l) = refl

  pub lookup-replay :
      (k : K) (ls : List (Line K V)) (m : GoMap K V)
      → lookup k (replay ls m) ≡ override (last_write k ls) (lookup k m)
  unfolding replay last_write
  lookup-replay k [] m = refl
  lookup-replay k (l ∷ ls) m =
      ground (arith, lookup-replay k ls (apply_line m l), lookup-apply_line k m l)

  pub last_write-append :
      (k : K) (xs ys : List (Line K V))
      → last_write k (xs ++ ys) ≡ or_else (last_write k ys) (last_write k xs)
  unfolding last_write
  last_write-append k [] ys = ground arith
  last_write-append k (x ∷ xs) ys = ground (arith, last_write-append k xs ys)

  pub replay-append :
      (xs ys : List (Line K V)) (m : GoMap K V) → replay (xs ++ ys) m ≡ replay ys (replay xs m)
  unfolding replay
  replay-append [] ys m = refl
  replay-append (x ∷ xs) ys m = replay-append xs ys (apply_line m x)

  abbrev pub all_lines : List (ℕ × File K V) → List (Line K V)
  all_lines [] = []
  all_lines ((n, f) ∷ js) = file_lines f ++ all_lines js

  pub all_lines-append :
      (js ks : List (ℕ × File K V)) → all_lines (js ++ ks) ≡ all_lines js ++ all_lines ks
  all_lines-append [] ks = refl
  all_lines-append ((n, f) ∷ js) ks =
      rw (all_lines-append js ks) (sym (append_assoc (file_lines f) (all_lines js) (all_lines ks)))

  pub sort_by_sorted : (js : List (ℕ × File K V)) → IsSorted earlier js → sort_by earlier js ≡ js
  unfolding sort_by
  sort_by_sorted [] h = refl
  sort_by_sorted (j ∷ js) (hj, h) = rw (sort_by_sorted js h) (front j js hj)
    where
      front :
          (j : ℕ × File K V) (js : List (ℕ × File K V))
          → All (λ k. earlier k j ≡ false) js
          → insert_by earlier j js ≡ j ∷ js
      front j [] h = refl
      front j (k ∷ js) (hk, h) = rw hk refl

  module _ (size : Line K V → ℕ) where
    abbrev pub Fits : Line K V → Type 0
    Fits l = size l < max_scan_token_size

    pub scan_lem :
        (ls : List (Line K V)) (m : GoMap K V) → All Fits ls → scan size ls m ≡ some (replay ls m)
    unfolding scan replay
    scan_lem [] m h = refl
    scan_lem (l ∷ ls) m (hl, h) = rw (lt→ltb _ _ hl) (scan_lem ls (apply_line m l) h)

    apply_journals_lem :
        (js : List (ℕ × File K V)) (m : GoMap K V)
        → All Fits (all_lines js)
        → apply_journals size js m ≡ some (replay (all_lines js) m)
    unfolding apply_journals
    apply_journals_lem [] m h = unfold replay in refl
    apply_journals_lem ((n, f) ∷ js) m h =
        rw
          (
            scan_lem (file_lines f) m (All-append_left (Fits) (file_lines f) (all_lines js) h),
            apply_journals,
          )
          (rw (replay-append (file_lines f) (all_lines js) m) (
            apply_journals_lem js (replay (file_lines f) m)
              (All-append_right (Fits) (file_lines f) (all_lines js) h)))

    -- What a readable directory loads as, its journals in order and no line too long.
    pub load_lem :
        (d : Disk K V) (base : GoMap K V)
        → base_of d.snapshot ≡ some base
        → IsSorted earlier d.journals
        → All Fits (all_lines d.journals)
        → load size d ≡ some (replay (all_lines d.journals) base)
    unfolding load
    load_lem d base hb hs hf = go d.snapshot hb refl
      where
        go :
            (s : Snapshot K V)
            → base_of s ≡ some base
            → d.snapshot ≡ s
            → load size d ≡ some (replay (all_lines d.journals) base)
        go absent h e =
            rw (e, load)
              (rw (sort_by_sorted d.journals hs)
                (rw (some-injective _ _ h) (apply_journals_lem d.journals base hf)))
        go corrupt h e = cc
        go (readable m) h e =
            rw (e, load)
              (rw (sort_by_sorted d.journals hs)
                (rw (some-injective _ _ h) (apply_journals_lem d.journals base hf)))
