-- ===== src/Validation/Organizations.antt =====
-- An organisation that the rules accept (src/validation/organizationRules.ts, validateOrganization).
use ptv_mcp.Base.{
  ℕ, ◌≤◌, ◌≡◌, ◌⊎◌, inl, inr, Bool, true, false, not, ◌&&◌, Option, none, some, [], ◌∷◌, arith,
  Text, text, ltb, if◌then◌else◌, length, All, All-map, is_empty,
}
use ptv_mcp.Validation.{is_valid_business_code}
use ptv_mcp.Validation.Domain.{LocalizedText, Organization}
use ptv_mcp.Validation.Errors.{field, in_language, error_if, or_nil, in_}
use ptv_mcp.Validation.NoErrors.{both_nil, error_if-nil, each-nil, is_nil-false, valid_iff}
use ptv_mcp.Validation.OrganizationRules.{
  trimmed, named_languages, check_version_text, check_version, organization_rules, visiting_of,
  validate_organization,
}

-- A text of a language version, trimmed, that is there and within its limit.
abbrev pub IsWithin : ℕ → Option LocalizedText → Text → Type 0
IsWithin max texts language =
    (1 ≤ length (trimmed (in_ language (or_nil texts))))
    × (length (trimmed (in_ language (or_nil texts))) ≤ max)

pub record AcceptedOrganization (o : Organization) : Type 0 where
  pub named : 1 ≤ length (named_languages o.names)
  pub described :
      All
        (λ l. IsWithin 150 o.summaries l × IsWithin 2500 o.descriptions l)
        (named_languages o.names)
  pub one_visit : length (visiting_of o.addresses) ≤ 1
  pub business_code :
      (code : Text)
      → o.business_code ≡ some code
      → (code ≡ []) ⊎ (is_valid_business_code code ≡ true)

text_checked :
    (max : ℕ) (name : Text) (texts : Option LocalizedText) (l : Text)
    → check_version_text max name texts l ≡ []
    → IsWithin max texts l
unfolding check_version_text
text_checked max name texts l h = within (trimmed (in_ l (or_nil texts))) h
  where
    within :
        (s : Text)
        → (if is_empty s
            then in_language name l ∷ []
            else error_if (ltb max (length s)) (in_language name l))
          ≡ []
        → (1 ≤ length s) × (length s ≤ max)
    within [] e = absurd (cc e)
    within (c ∷ s) e = (
      omega arith,
      ground (arith, (error_if-nil (ltb max (length (c ∷ s))) (in_language name l)).0 e),
    )

version_checked :
    (o : Organization) (l : Text)
    → check_version o l ≡ []
    → IsWithin 150 o.summaries l × IsWithin 2500 o.descriptions l
unfolding check_version
version_checked o l h =
    let parts = (both_nil _ _).0 h in
    (text_checked 150 _ o.summaries l parts.0, text_checked 2500 _ o.descriptions l parts.1)

code_checked :
    (stored : Option Text) (code : Text)
    → elim stored [
      | none ↦ false
      | some code ↦ not (is_empty code) && not (is_valid_business_code code)
    ]
      ≡ false
    → stored ≡ some code
    → (code ≡ []) ⊎ (is_valid_business_code code ≡ true)
code_checked none code h e = absurd (cc e)
code_checked (some []) code h e = inl (cc e)
code_checked (some (c ∷ s)) code h e =
    let same : c ∷ s ≡ code = cc e in rw (← same) (inr (ground arith))

-- An organisation that is accepted has a name that is not blank, for every language of such a name
-- a summary of 1 to 150 and a description of 1 to 2500 characters without the surrounding space,
-- at most one visiting address, and a business ID that is absent, empty or valid.
pub validate_organization-ok :
    (o : Organization) (creating : Bool)
    → (validate_organization o creating).valid ≡ true
    → AcceptedOrganization o
unfolding validate_organization
validate_organization-ok o creating h =
    let (names, (versions, (_, (code, (_, (_, (_, (visits, _)))))))) =
      (valid_iff (organization_rules o creating)).0 h in
    record {
      named = (is_nil-false (named_languages o.names)).0 ((error_if-nil _ _).0 names);
      described =
          All-map (λ l. check_version o l ≡ []) _ (version_checked o) (named_languages o.names)
            ((each-nil (check_version o) (λ l. check_version o l ≡ []) (λ l. ((λ e. e), (λ e. e)))
                (named_languages o.names)).0
              versions);
      one_visit = ground (
        arith,
        (error_if-nil (ltb 1 (length (visiting_of o.addresses))) (field (text "addresses"))).0
            visits,
      );
      business_code = λ c e. code_checked o.business_code c ((error_if-nil _ _).0 code) e;
    }
