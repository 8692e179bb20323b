-- ===== src/Distribute/Sync/Replicas.antt =====
-- Which services receive a block.
use invariant_go.Shared.{
  ℕ, zero, suc, ◌≡◌, refl, ◌∙◌, ap, inl, inr, Bool, true, false, Option, some, Bool-cases,
  Option-cases, List, [], ◌∷◌, take, if◌then◌else◌, Text, eq_text, lookup, lookup-insert, contains,
  is_some, arith, All,
}
use invariant_go.Distribute.Service.{InMemoryDistribute, get_service_address}
use invariant_go.Distribute.Sync.{
  succeeded, Pass, first_attempt, attempts, record_success, replicate_block,
}
use invariant_go.Distribute.Sync.Loop.{replicate_block-holds, replicate_block-success, tried}

-- The services among the candidates that do not hold the block, in the order of the candidates.
unfoldable pub lacking : List Text → List (Text × List ℕ) → List Text
lacking locations [] = []
lacking locations ((id, dist) ∷ nodes) =
    let rest = lacking locations nodes in if contains id locations then rest else id ∷ rest

module _ {W : Type 0} (discover : W → Text → Option Text × W)
    (fetch : W → Text → Text → Text → Text → Bool × W) (block source : Text)
    (locations : List Text) where
  abbrev replicas : ℕ → List (Text × List ℕ) → Pass W → List Text
  replicas needed nodes p = (replicate_block discover fetch block source locations needed nodes p).0

  address_known :
      (d : InMemoryDistribute) (w : W) (id : Text)
      → is_some (lookup id d.services) ≡ true
      → ((w : W) (j : Text) → is_some (discover w j).0 ≡ true)
      → is_some (get_service_address discover d w id false).0 ≡ true
  unfolding get_service_address
  address_known d w id known answers = ground (arith, answers w id)

  address_registers :
      (d : InMemoryDistribute) (w : W) (id j : Text)
      → is_some (lookup j (get_service_address discover d w id false).1.services)
        ≡ is_some (lookup j d.services)
  unfolding get_service_address
  address_registers d w id j = elim (Option-cases (lookup id d.services)) [
    | inl e ↦ ground arith
    | inr (state, e) ↦ elim (Option-cases (discover w id).0) [
      | inl no_answer ↦ ground arith
      | inr (a, answer) ↦ ground (
        arith,
        eq_text.beq_iff id j,
        lookup-insert id j (record state { desc = some a }) d.services,
      )
    ]
  ]

  first_fetch :
      (id : Text) (p : Pass W)
      → is_some (lookup id p.state.services) ≡ true
      → ((w : W) (j : Text) → is_some (discover w j).0 ≡ true)
      → ((w : W) (a b s t : Text) → (fetch w a b s t).0 ≡ true)
      → (first_attempt discover fetch id block source p).0 ≡ succeeded
  unfolding first_attempt
  first_fetch id p known answers fetches =
      elim (Option-cases (get_service_address discover p.state p.world id false).0) [
        | inl e ↦ absurd (ground (arith, address_known p.state p.world id known answers))
        | inr (a, e) ↦ ground (
          arith,
          fetches (get_service_address discover p.state p.world id false).2 a block source
              p.source_addr,
        )
      ]

  first_registers :
      (id j : Text) (p : Pass W)
      → is_some (lookup j (first_attempt discover fetch id block source p).1.state.services)
        ≡ is_some (lookup j p.state.services)
  unfolding first_attempt
  first_registers id j p =
      elim (Option-cases (get_service_address discover p.state p.world id false).0) [
        | inl e ↦ ground (arith, address_registers p.state p.world id j)
        | inr (a, e) ↦ ground (arith, address_registers p.state p.world id j)
      ]

  attempts_first :
      (id : Text) (p : Pass W)
      → (first_attempt discover fetch id block source p).0 ≡ succeeded
      → attempts discover fetch id block source p
        ≡ (true, (first_attempt discover fetch id block source p).1)
  unfolding attempts
  attempts_first id p e = ground arith

  success_registers :
      (id j : Text) (d : InMemoryDistribute)
      → is_some (lookup j (record_success id d).services) ≡ is_some (lookup j d.services)
  unfolding record_success
  success_registers id j d = elim (Option-cases (lookup id d.services)) [
    | inl e ↦ ground arith
    | inr (state, e) ↦
        ground (
          arith,
          eq_text.beq_iff id j,
          lookup-insert id j (record state { failures = 0 }) d.services,
        )
  ]

  tried_registers :
      (id j : Text) (p : Pass W)
      → (first_attempt discover fetch id block source p).0 ≡ succeeded
      → is_some (lookup j (tried discover fetch block source locations id p).state.services)
        ≡ is_some (lookup j p.state.services)
  tried_registers id j p e = rw (attempts_first id p e) (
      success_registers id j (first_attempt discover fetch id block source p).1.state
      ∙ first_registers id j p)

  abbrev pub Registered : Pass W → Text × List ℕ → Type 0
  Registered p (id, dist) = is_some (lookup id p.state.services) ≡ true

  Registered-next :
      (id : Text) (p : Pass W) (nodes : List (Text × List ℕ))
      → (first_attempt discover fetch id block source p).0 ≡ succeeded
      → All (Registered p) nodes
      → All (Registered (tried discover fetch block source locations id p)) nodes
  Registered-next id p [] e h = tt
  Registered-next id p ((j, dist) ∷ nodes) e (r, h) =
      (tried_registers id j p e ∙ r, Registered-next id p nodes e h)

  pub replicate_block-lacking :
      (needed : ℕ) (nodes : List (Text × List ℕ)) (p : Pass W)
      → All (Registered p) nodes
      → ((w : W) (j : Text) → is_some (discover w j).0 ≡ true)
      → ((w : W) (a b s t : Text) → (fetch w a b s t).0 ≡ true)
      → replicas needed nodes p ≡ take needed (lacking locations nodes)
  unfolding replicate_block lacking
  replicate_block-lacking zero [] p r answers fetches = refl
  replicate_block-lacking (suc n) [] p r answers fetches = refl
  replicate_block-lacking zero (n ∷ nodes) p r answers fetches = refl
  replicate_block-lacking (suc n) ((id, dist) ∷ nodes) p (known, r) answers fetches =
      elim (Bool-cases (contains id locations)) [
        | inl holds ↦
            ap (λ (x : List Text × Pass W). x.0)
              (replicate_block-holds discover fetch block source locations n id dist nodes p holds)
            ∙ replicate_block-lacking (suc n) nodes p r answers fetches
            ∙ rw (holds, lacking) refl
        | inr lacks ↦
            ap (λ (x : List Text × Pass W). x.0)
              (replicate_block-success discover fetch block source locations n id dist nodes p lacks
                (ap (λ (x : Bool × Pass W). x.0) (attempts_first id p first)))
            ∙ ap (◌∷◌ id) (
                replicate_block-lacking n nodes (tried discover fetch block source locations id p)
                  (Registered-next id p nodes first r) answers fetches)
            ∙ rw (lacks, lacking) refl
      ]
    where
      first : (first_attempt discover fetch id block source p).0 ≡ succeeded
      first = first_fetch id p known answers fetches
