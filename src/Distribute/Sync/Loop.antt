-- ===== src/Distribute/Sync/Loop.antt =====
-- What each turn of the loop over the candidate services does.
use invariant_go.Shared.{
  ℕ, suc, ◌≡◌, refl, Bool, true, false, Option, List, ◌∷◌, Text, eq_text, contains, arith,
}
use invariant_go.Distribute.Sync.{Pass, attempts, after_attempts, replicate_block}

module _ {W : Type 0} (discover : W → Text → Option Text × W)
    (fetch : W → Text → Text → Text → Text → Bool × W) (block source : Text)
    (locations : List Text) where
  pub replicate_block-holds :
      (n : ℕ) (id : Text) (dist : List ℕ) (nodes : List (Text × List ℕ)) (p : Pass W)
      → contains id locations ≡ true
      → replicate_block discover fetch block source locations (suc n) ((id, dist) ∷ nodes) p
        ≡ replicate_block discover fetch block source locations (suc n) nodes p
  unfolding replicate_block
  replicate_block-holds n id dist nodes p h = rw (h, replicate_block) refl

  abbrev pub tried : Text → Pass W → Pass W
  tried id p =
      let (success, q) = attempts discover fetch id block source p in
      after_attempts discover fetch id success q

  pub replicate_block-success :
      (n : ℕ) (id : Text) (dist : List ℕ) (nodes : List (Text × List ℕ)) (p : Pass W)
      → contains id locations ≡ false
      → (attempts discover fetch id block source p).0 ≡ true
      → let (ids, r) = replicate_block discover fetch block source locations n nodes (tried id p) in
        replicate_block discover fetch block source locations (suc n) ((id, dist) ∷ nodes) p
        ≡ (id ∷ ids, r)
  unfolding replicate_block
  replicate_block-success n id dist nodes p lacks ok = ground arith

  pub replicate_block-failure :
      (n : ℕ) (id : Text) (dist : List ℕ) (nodes : List (Text × List ℕ)) (p : Pass W)
      → contains id locations ≡ false
      → (attempts discover fetch id block source p).0 ≡ false
      → replicate_block discover fetch block source locations (suc n) ((id, dist) ∷ nodes) p
        ≡ replicate_block discover fetch block source locations (suc n) nodes (tried id p)
  unfolding replicate_block
  replicate_block-failure n id dist nodes p lacks bad = ground arith
