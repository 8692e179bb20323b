-- ===== src/Distribute/Sync/Failures/Attempts.antt =====
-- The attempts to replicate a block count no failure themselves.
use invariant_go.Shared.{
  ◌≡◌, refl, ◌⊎◌, inl, inr, Bool, true, false, ◌||◌, Option, none, some, Bool-cases, Option-cases,
  Text, eq_text, lookup, insert, arith, subst,
}
use invariant_go.Distribute.Service.{InMemoryDistribute, get_service_address}
use invariant_go.Distribute.Sync.{
  Attempt, succeeded, fetch_failed, gave_up, Pass, first_attempt, second_attempt, attempts,
}
use invariant_go.Distribute.Sync.Failures.{Tolerates, moved, insert-Tolerates, failures_of}

module _ {W : Type 0} (discover : W → Text → Option Text × W)
    (fetch : W → Text → Text → Text → Text → Bool × W) where
  pub address-Tolerates :
      (d : InMemoryDistribute) (w : W) (id : Text) (force : Bool)
      → Tolerates d
      → Tolerates (get_service_address discover d w id force).1
  unfolding get_service_address
  address-Tolerates d w id force h = elim (Option-cases (lookup id d.services)) [
    | inl e ↦ moved d ((get_service_address discover d w id force).1) (ground arith) h
    | inr (state, e) ↦ elim (Option-cases (discover w id).0) [
      | inl no_answer ↦ moved d ((get_service_address discover d w id force).1) (ground arith) h
      | inr (a, answer) ↦ elim (Bool-cases (force || cached state.desc)) [
        | inl refresh ↦
            moved (record d { services = insert id (record state { desc = some a }) d.services })
              ((get_service_address discover d w id force).1) (ground arith)
              (insert-Tolerates d id (record state { desc = some a }) (failures_of d id state h e)
                h)
        | inr keep ↦ moved d ((get_service_address discover d w id force).1) (ground arith) h
      ]
    ]
  ]
    where
      cached : Option Text → Bool
      cached none = true
      cached (some a) = false

  unfoldable pub address_state : InMemoryDistribute → W → Text → Bool → InMemoryDistribute
  address_state d w id force = (get_service_address discover d w id force).1

  first-state :
      (dest block source : Text) (p : Pass W)
      → address_state p.state p.world dest false
        ≡ (first_attempt discover fetch dest block source p).1.state
  unfolding first_attempt address_state
  first-state dest block source p =
      elim (Option-cases (get_service_address discover p.state p.world dest false).0) [
        | inl e ↦ ground arith
        | inr (a, e) ↦ ground arith
      ]

  second-state :
      (dest block source : Text) (p : Pass W)
      → let (r, d, w) = get_service_address discover p.state p.world dest true in
        (d ≡ (second_attempt discover fetch dest block source p).1.state)
        ⊎ (address_state d w source true
            ≡ (second_attempt discover fetch dest block source p).1.state)
  unfolding second_attempt address_state
  second-state dest block source p =
      elim (Option-cases (get_service_address discover p.state p.world dest true).0) [
        | inl e ↦ inl (ground arith)
        | inr (a, e) ↦ inr (ground arith)
      ]

  attempts-state :
      (dest block source : Text) (p : Pass W)
      → let (r, q) = first_attempt discover fetch dest block source p in
        (q.state ≡ (attempts discover fetch dest block source p).1.state)
        ⊎ ((second_attempt discover fetch dest block source q).1.state
            ≡ (attempts discover fetch dest block source p).1.state)
  unfolding attempts
  attempts-state dest block source p = go (first_attempt discover fetch dest block source p).0 refl
    where
      q : Pass W
      q = (first_attempt discover fetch dest block source p).1

      go :
          (r : Attempt)
          → (first_attempt discover fetch dest block source p).0 ≡ r
          → (q.state ≡ (attempts discover fetch dest block source p).1.state)
            ⊎ ((second_attempt discover fetch dest block source q).1.state
                ≡ (attempts discover fetch dest block source p).1.state)
      go succeeded e = inl (ground arith)
      go gave_up e = inl (ground arith)
      go fetch_failed e = inr (ground arith)

  first-Tolerates :
      (dest block source : Text) (p : Pass W)
      → Tolerates p.state
      → Tolerates (first_attempt discover fetch dest block source p).1.state
  unfolding address_state
  first-Tolerates dest block source p h =
      subst Tolerates (first-state dest block source p)
        (address-Tolerates p.state p.world dest false h)

  second-Tolerates :
      (dest block source : Text) (p : Pass W)
      → Tolerates p.state
      → Tolerates (second_attempt discover fetch dest block source p).1.state
  unfolding address_state
  second-Tolerates dest block source p h = elim (second-state dest block source p) [
    | inl e ↦ subst Tolerates e (address-Tolerates p.state p.world dest true h)
    | inr e ↦
        subst Tolerates e
          (address-Tolerates _ _ source true (address-Tolerates p.state p.world dest true h))
  ]

  pub attempts-Tolerates :
      (dest block source : Text) (p : Pass W)
      → Tolerates p.state
      → Tolerates (attempts discover fetch dest block source p).1.state
  attempts-Tolerates dest block source p h = elim (attempts-state dest block source p) [
    | inl e ↦ subst Tolerates e (first-Tolerates dest block source p h)
    | inr e ↦
        subst Tolerates e
          (second-Tolerates dest block source _ (first-Tolerates dest block source p h))
  ]
