-- ===== src/Validation/RuleLaws/Texts.antt =====
-- When the rules on names, types and languages are silent (src/validation/changeValidator.ts).
use ptv_mcp.Base.{
  ℕ, ◌≤◌, ◌≡◌, refl, sym, ◌↔◌, ◌⊎◌, inl, inr, Bool, true, false, not, Option, none, some, List, [],
  ◌∷◌, arith, Text, text_eq, text_eq_iff, ltb, Bool-cases, length, Mem, is_empty, trim, trim_start,
}
use ptv_mcp.Validation.Domain.{LocalizedText, Service}
use ptv_mcp.Validation.Errors.{FieldPath, error_if, is_blank, includes}
use ptv_mcp.Validation.NoErrors.{Exists, error_if-nil, any-Exists, is_nil-false}
use ptv_mcp.Validation.ServiceRules
use ptv_mcp.Validation.Writable.{IsFilled}

pub includes-Mem : (xs : List Text) (s : Text) → (includes xs s ≡ true) ↔ Mem s xs
includes-Mem [] s = ((λ h. absurd (cc h)), (λ h. absurd h))
includes-Mem (x ∷ xs) s = elim (Bool-cases (text_eq x s)) [
  | inl same ↦ ((λ h. inl (sym ((text_eq_iff x s).0 same))), (λ h. rw same))
  | inr other ↦ (
    (λ h. inr ((includes-Mem xs s).0 (rw other at h))),
    (λ h. rw other ((includes-Mem xs s).1 (later other h))),
  )
]
  where
    later : text_eq x s ≡ false → (s ≡ x) ⊎ Mem s xs → Mem s xs
    later other (inl same) =
        let hit : text_eq x s ≡ true = (text_eq_iff x s).1 (sym same) in absurd (cc (other, hit))
    later other (inr rest) = rest

pub negation_fails : (b : Bool) → (not b ≡ false) ↔ (b ≡ true)
negation_fails b = ground arith

pub negation_holds : (b : Bool) → (not b ≡ true) ↔ (b ≡ false)
negation_holds b = ground arith

Exists-map :
    {A : Type 0} (P Q : A → Type 0)
    → ((x : A) → P x → Q x)
    → (xs : List A) → Exists P xs
    → Exists Q xs
Exists-map P Q f [] h = h
Exists-map P Q f (x ∷ xs) (inl here) = inl (f x here)
Exists-map P Q f (x ∷ xs) (inr rest) = inr (Exists-map P Q f xs rest)

pub names_rule :
    (names : LocalizedText)
    → (ServiceRules.require_name names ≡ [])
      ↔ Exists (λ (p : Text × Text). is_blank p.1 ≡ false) names
unfolding ServiceRules.require_name
names_rule names =
    let found = any-Exists (λ (p : Text × Text). not (is_blank p.1)) names in
    (
      (λ h.
          Exists-map _ _ (λ p. (negation_holds (is_blank p.1)).0) names
            (found.0 ((negation_fails _).0 ((error_if-nil _ _).0 h)))),
      (λ h. (error_if-nil _ _).1 (
          (negation_fails _).1
            (found.1 (Exists-map _ _ (λ p. (negation_holds (is_blank p.1)).1) names h)))),
    )

pub blank_rule : (o : Option Text) → (ServiceRules.is_blank_option o ≡ false) ↔ IsFilled o
blank_rule none = ((λ h. absurd (cc h)), (λ h. absurd h))
blank_rule (some s) = ((λ h. h), (λ h. h))

pub blank_trim : (s : Text) → is_blank s ≡ false → is_empty s ≡ false
unfolding trim trim_start
blank_trim [] h = cc
blank_trim (c ∷ s) h = refl

pub organization_rule :
    (s : Service)
    → (ServiceRules.validate_organization_id s ≡ []) ↔ (is_blank s.organization_id ≡ false)
unfolding ServiceRules.validate_organization_id
organization_rule s = (
  (λ h. ground (arith, (error_if-nil _ _).0 h)),
  (λ h. (error_if-nil _ _).1 (rw (blank_trim s.organization_id h, h))),
)

pub type_rule :
    (s : Service)
    → (ServiceRules.validate_service_type s ≡ []) ↔ Mem s.service_type ServiceRules.service_types
unfolding ServiceRules.validate_service_type
type_rule s =
    let found = includes-Mem ServiceRules.service_types s.service_type in
    (
      (λ h. found.0 ((negation_fails _).0 ((error_if-nil _ _).0 h))),
      (λ h. (error_if-nil _ _).1 ((negation_fails _).1 (found.1 h))),
    )

pub languages_rule :
    (languages : List Text)
    → (ServiceRules.validate_languages languages ≡ []) ↔ (1 ≤ length languages)
unfolding ServiceRules.validate_languages
languages_rule languages = (
  (λ h. (is_nil-false languages).0 ((error_if-nil _ _).0 h)),
  (λ h. (error_if-nil _ _).1 ((is_nil-false languages).1 h)),
)

pub limit_rule : (limit n : ℕ) (path : FieldPath) → (error_if (ltb limit n) path ≡ []) ↔ (n ≤ limit)
limit_rule limit n path = ground arith
