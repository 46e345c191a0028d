-- ===== src/Validation/NoErrors.antt =====
-- When a rule reports nothing (src/validation/changeValidator.ts).
use ptv_mcp.Base.{
  ℕ, ◌+◌, ◌≤◌, ◌≡◌, refl, ◌↔◌, ◌⊎◌, inl, inr, Bool, true, false, List, [], ◌∷◌, ◌++◌, arith,
  Bool-cases, any, all, length, All,
}
use ptv_mcp.Validation.Errors.{FieldPath, error_if, is_nil, result_of, each_from, each}

-- Some element satisfies `P`.
abbrev pub Exists : {A : Type 0} → (A → Type 0) → List A → Type 0
Exists P [] = ⊥
Exists P (x ∷ xs) = P x ⊎ Exists P xs

pub both_nil : {A : Type 0} (xs ys : List A) → (xs ++ ys ≡ []) ↔ ((xs ≡ []) × (ys ≡ []))
both_nil [] ys = ((λ h. (refl, h)), (λ h. h.1))
both_nil (x ∷ xs) ys = ((λ h. absurd (cc h)), (λ h. absurd (cc (h.0))))

pub error_if-nil : (b : Bool) (path : FieldPath) → (error_if b path ≡ []) ↔ (b ≡ false)
error_if-nil true path = ((λ h. absurd (no h)), (λ h. absurd (cc h)))
  where
    no : path ∷ [] ≡ [] → ⊥
    no e = cc
error_if-nil false path = ((λ h. refl), (λ h. refl))

module _ {A : Type 0} where
  pub each_from-nil :
      (rule : A → ℕ → List FieldPath) (P : A → Type 0)
      → ((x : A) (i : ℕ) → (rule x i ≡ []) ↔ P x)
      → (i : ℕ) (xs : List A) → (each_from rule i xs ≡ []) ↔ All P xs
  unfolding each_from
  each_from-nil rule P same i [] = ((λ h. tt), (λ h. refl))
  each_from-nil rule P same i (x ∷ xs) =
      let both = both_nil (rule x i) (each_from rule (i + 1) xs) in
      let rest = each_from-nil rule P same (i + 1) xs in
      (
        (λ h. ((same x i).0 (both.0 h).0, rest.0 (both.0 h).1)),
        (λ h. both.1 ((same x i).1 h.0, rest.1 h.1)),
      )

  pub each-nil :
      (rule : A → List FieldPath) (P : A → Type 0)
      → ((x : A) → (rule x ≡ []) ↔ P x)
      → (xs : List A) → (each rule xs ≡ []) ↔ All P xs
  unfolding each
  each-nil rule P same [] = ((λ h. tt), (λ h. refl))
  each-nil rule P same (x ∷ xs) =
      let both = both_nil (rule x) (each rule xs) in
      let rest = each-nil rule P same xs in
      (
        (λ h. ((same x).0 (both.0 h).0, rest.0 (both.0 h).1)),
        (λ h. both.1 ((same x).1 h.0, rest.1 h.1)),
      )

  pub any-Exists : (p : A → Bool) (xs : List A) → (any p xs ≡ true) ↔ Exists (λ x. p x ≡ true) xs
  any-Exists p [] = ((λ h. absurd (cc h)), (λ h. absurd h))
  any-Exists p (x ∷ xs) = elim (Bool-cases (p x)) [
    | inl hit ↦ ((λ h. inl hit), (λ h. rw hit))
    | inr miss ↦
        let rest = any-Exists p xs in
        ((λ h. inr (rest.0 (rw miss at h))), (λ h. rw miss (rest.1 (later miss h))))
  ]
    where
      later : p x ≡ false → (p x ≡ true) ⊎ Exists (λ x. p x ≡ true) xs → Exists (λ x. p x ≡ true) xs
      later miss (inl hit) = absurd (cc (miss, hit))
      later miss (inr rest) = rest

  pub all-false : (p : A → Bool) (xs : List A) → (all p xs ≡ false) ↔ Exists (λ x. p x ≡ false) xs
  all-false p [] = ((λ h. absurd (cc h)), (λ h. absurd h))
  all-false p (x ∷ xs) = elim (Bool-cases (p x)) [
    | inl hit ↦
        let rest = all-false p xs in
        ((λ h. inr (rest.0 (rw hit at h))), (λ h. rw hit (rest.1 (later hit h))))
    | inr miss ↦ ((λ h. inl miss), (λ h. rw miss))
  ]
    where
      later :
          p x ≡ true → (p x ≡ false) ⊎ Exists (λ x. p x ≡ false) xs → Exists (λ x. p x ≡ false) xs
      later hit (inl miss) = absurd (cc (miss, hit))
      later hit (inr rest) = rest

  pub is_nil-false : (xs : List A) → (is_nil xs ≡ false) ↔ (1 ≤ length xs)
  is_nil-false [] = ((λ h. absurd (cc h)), (λ h. absurd (omega arith)))
  is_nil-false (x ∷ xs) = ((λ h. omega arith), (λ h. refl))

  pub is_nil-true : (xs : List A) → (is_nil xs ≡ true) ↔ (xs ≡ [])
  is_nil-true [] = ((λ h. refl), (λ h. refl))
  is_nil-true (x ∷ xs) = ((λ h. absurd (cc h)), (λ h. absurd (cc h)))

-- A validation is valid when no rule of a list reports anything.
pub valid_iff :
    (rules : List (List FieldPath))
    → ((result_of (each (λ e. e) rules)).valid ≡ true) ↔ All (λ errors. errors ≡ []) rules
valid_iff rules =
    let silent = each-nil (λ e. e) (λ errors. errors ≡ []) (λ e. ((λ h. h), (λ h. h))) rules in
    let nothing = is_nil-true (each (λ e. e) rules) in
    ((λ h. silent.0 (nothing.0 h)), (λ h. nothing.1 (silent.1 h)))
