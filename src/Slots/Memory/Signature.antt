-- ===== src/Slots/Memory/Signature.antt =====
-- What the signature of an update must be, without the code that checks it.
use invariant_go.Shared.{
  ℕ, ◌≡◌, ◌≢◌, refl, ◌∙◌, String, Bool, true, false, some, Option-cases, Bool-cases, ◌⊎◌, inl, inr,
  List, ◌==◌, ◌&&◌, sym, eq_string, eq_nat, Text, eq_text, arith, length, nat_eq, nat_eq_iff,
  decode_string,
}
use invariant_go.Slots.Memory.{authorized}

module _ (verify : List ℕ → Text → List ℕ → Bool) (marshal : Text → Text → Text) where
  abbrev auth_ok : Text → Text → Text → List ℕ → String → Bool
  auth_ok = authorized verify marshal

  -- The slot is not protected, or its identifier is the text of a key of 32 bytes which accepts the
  -- signature of the new and the previous address.
  unfoldable pub SignedBy : Text → Text → Text → List ℕ → String → Type 0
  SignedBy id a prev auth policy =
      (policy ≢ "ecc")
      ⊎ ((key : List ℕ) × (decode_string id ≡ some key)
          × (length key ≡ 32)
          × (verify key (marshal a prev) auth ≡ true))

  ecc_ok :
      (id a prev : Text) (auth : List ℕ) (policy : String)
      → policy ≡ "ecc"
      → (key : List ℕ) × (decode_string id ≡ some key)
        × (length key ≡ 32)
        × (verify key (marshal a prev) auth ≡ true)
      → auth_ok id a prev auth policy ≡ true
  unfolding authorized
  ecc_ok id a prev auth policy p (key, e, l, v) =
      rw (p, authorized) (rw (e, authorized) (ground (arith, nat_eq_iff (length key) 32)))

  ecc_signed :
      (id a prev : Text) (auth : List ℕ) (policy : String)
      → policy ≡ "ecc"
      → auth_ok id a prev auth policy ≡ true
      → SignedBy id a prev auth policy
  unfolding authorized SignedBy
  ecc_signed id a prev auth policy p h = elim (Option-cases (decode_string id)) [
    | inl e ↦ absurd (no_key (sym (rw (p, authorized) (rw (e, authorized) refl)) ∙ h))
    | inr (key, e) ↦ with_key key e (sym (rw (p, authorized) (rw (e, authorized) refl)) ∙ h)
  ]
    where
      no_key : false ≡ true → ⊥
      no_key q = cc

      with_key :
          (key : List ℕ)
          → decode_string id ≡ some key
          → (nat_eq (length key) 32 && verify key (marshal a prev) auth) ≡ true
          → SignedBy id a prev auth policy
      with_key key e q = inr (key, e, ground (arith, nat_eq_iff (length key) 32), ground arith)

  pub auth_ok-SignedBy :
      (id a prev : Text) (auth : List ℕ) (policy : String)
      → auth_ok id a prev auth policy ≡ true
      → SignedBy id a prev auth policy
  unfolding SignedBy
  auth_ok-SignedBy id a prev auth policy h = elim (Bool-cases (policy == "ecc")) [
    | inl y ↦ ecc_signed id a prev auth policy ((eq_string.beq_iff policy "ecc").0 y) h
    | inr n ↦ inl (λ q. apart ((eq_string.beq_iff policy "ecc").1 q) n)
  ]
    where
      apart : {b : Bool} → b ≡ true → b ≡ false → ⊥
      apart p q = cc

  SignedBy-auth_ok :
      (id a prev : Text) (auth : List ℕ) (policy : String)
      → SignedBy id a prev auth policy
      → auth_ok id a prev auth policy ≡ true
  unfolding authorized SignedBy
  SignedBy-auth_ok id a prev auth policy (inl ne) = elim (Bool-cases (policy == "ecc")) [
    | inl y ↦ absurd (ne ((eq_string.beq_iff policy "ecc").0 y))
    | inr n ↦ rw (n, authorized) refl
  ]
  SignedBy-auth_ok id a prev auth policy (inr signed) = elim (Bool-cases (policy == "ecc")) [
    | inl y ↦ ecc_ok id a prev auth policy ((eq_string.beq_iff policy "ecc").0 y) signed
    | inr n ↦ rw (n, authorized) refl
  ]

  pub not_SignedBy :
      (id a prev : Text) (auth : List ℕ) (policy : String)
      → auth_ok id a prev auth policy ≡ false
      → ¬ SignedBy id a prev auth policy
  not_SignedBy id a prev auth policy h k = apart (SignedBy-auth_ok id a prev auth policy k)
    where
      apart : auth_ok id a prev auth policy ≡ true → ⊥
      apart q = cc
