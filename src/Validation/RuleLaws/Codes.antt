-- ===== src/Validation/RuleLaws/Codes.antt =====
-- When the rules on ontology terms, classes and areas are silent (src/validation/changeValidator.ts).
use ptv_mcp.Base.{
  ◌≤◌, ◌≡◌, refl, ◌↔◌, ◌⊎◌, inl, inr, true, false, not, ◌&&◌, ◌||◌, Option, none, some, List, [],
  ◌∷◌, ◌++◌, arith, Text, text, if◌then◌else◌, Bool-cases, any, all, length, All, starts_with,
}
use ptv_mcp.Validation.Domain.{
  PublishingStatus, draft, published, modified, archived, withdrawn, CodeListEntry, Service,
}
use ptv_mcp.Validation.Errors.{FieldPath, field, error_if, is_nil, each_from, is_truthy, includes}
use ptv_mcp.Validation.NoErrors.{
  Exists, both_nil, error_if-nil, each_from-nil, any-Exists, all-false, is_nil-false,
}
use ptv_mcp.Validation.ServiceRules
use ptv_mcp.Validation.Writable.{IsFilled, IsWritable, IsKoko, MayBeSubclass, ForBusinesses}
use ptv_mcp.Validation.RuleLaws.Texts.{includes-Mem, blank_rule}

uri_rule :
    (name : Text) (es : List CodeListEntry)
    → (each_from (ServiceRules.require_uri name) 0 es ≡ [])
      ↔ All (λ (e : CodeListEntry). IsFilled e.uri) es
uri_rule name es =
    each_from-nil (ServiceRules.require_uri name) (λ e. IsFilled e.uri)
      (λ e i. (
        (λ h. (blank_rule e.uri).0 ((error_if-nil _ _).0 h)),
        (λ h. (error_if-nil _ _).1 ((blank_rule e.uri).1 h)),
      ))
      0 es

pub code_rule :
    (s : Service)
    → (ServiceRules.validate_industrial_classes_code s ≡ [])
      ↔ All (λ (e : CodeListEntry). IsFilled e.code ⊎ IsFilled e.uri) s.industrial_classes
unfolding ServiceRules.validate_industrial_classes_code
code_rule s =
    each_from-nil ServiceRules.require_code (λ e. IsFilled e.code ⊎ IsFilled e.uri)
      (λ e i. ((λ h. either e ((error_if-nil _ _).0 h)), (λ h. (error_if-nil _ _).1 (neither e h))))
      0 s.industrial_classes
  where
    either :
        (e : CodeListEntry)
        → (ServiceRules.is_blank_option e.code && ServiceRules.is_blank_option e.uri) ≡ false
        → IsFilled e.code ⊎ IsFilled e.uri
    either e h = elim (Bool-cases (ServiceRules.is_blank_option e.code)) [
      | inl blank ↦ inr ((blank_rule e.uri).0 (rw blank at h))
      | inr filled ↦ inl ((blank_rule e.code).0 filled)
    ]

    neither :
        (e : CodeListEntry)
        → IsFilled e.code ⊎ IsFilled e.uri
        → (ServiceRules.is_blank_option e.code && ServiceRules.is_blank_option e.uri) ≡ false
    neither e (inl code) = rw ((blank_rule e.code).1 code)
    neither e (inr uri) = rw ((blank_rule e.uri).1 uri) (ground arith)

pub term_uris_rule :
    (s : Service)
    → (ServiceRules.validate_ontology_term_uris s ≡ [])
      ↔ All (λ (e : CodeListEntry). IsKoko e.uri) s.ontology_terms
unfolding ServiceRules.validate_ontology_term_uris
term_uris_rule s =
    each_from-nil ServiceRules.require_koko (λ e. IsKoko e.uri)
      (λ e i. (
        (λ h. (koko e.uri).0 ((error_if-nil _ _).0 h)),
        (λ h. (error_if-nil _ _).1 ((koko e.uri).1 h)),
      ))
      0 s.ontology_terms
  where
    koko : (o : Option Text) → (ServiceRules.is_not_koko o ≡ false) ↔ IsKoko o
    koko none = ((λ h. tt), (λ h. refl))
    koko (some uri) = ground arith

needed :
    {A : Type 0} (xs : List A) (path : FieldPath)
    → (error_if (is_nil xs) path ≡ []) ↔ (1 ≤ length xs)
needed xs path = (
  (λ h. (is_nil-false xs).0 ((error_if-nil _ _).0 h)),
  (λ h. (error_if-nil _ _).1 ((is_nil-false xs).1 h)),
)

pub classified_rule :
    (s : Service)
    → (ServiceRules.validate_required_classifications s ≡ []) ↔ (
        is_truthy s.general_description_id ≡ false
        → (1 ≤ length s.service_classes)
          × (1 ≤ length s.ontology_terms)
          × (1 ≤ length s.target_groups))
unfolding ServiceRules.validate_required_classifications
classified_rule s = elim (Bool-cases (is_truthy s.general_description_id)) [
  | inl described ↦ rw described ((λ h k. absurd (not_both k)), (λ h. refl))
  | inr plain ↦ rw plain ((λ h _. there h), (λ h. gone (h refl)))
]
  where
    not_both : true ≡ false → ⊥
    not_both e = absurd (cc e)

    errors : List FieldPath
    errors =
        error_if (is_nil s.service_classes) (field (text "serviceClasses"))
        ++ error_if (is_nil s.ontology_terms) (field (text "ontologyTerms"))
        ++ error_if (is_nil s.target_groups) (field (text "targetGroups"))

    there :
        errors ≡ []
        → (1 ≤ length s.service_classes)
          × (1 ≤ length s.ontology_terms)
          × (1 ≤ length s.target_groups)
    there h =
        let last = (both_nil _ _).0 h in
        let first = (both_nil _ _).0 (last.0) in
        (
          (needed s.service_classes _).0 first.0,
          (needed s.ontology_terms _).0 first.1,
          (needed s.target_groups _).0 last.1,
        )

    gone :
        (1 ≤ length s.service_classes)
          × (1 ≤ length s.ontology_terms)
          × (1 ≤ length s.target_groups)
        → errors ≡ []
    gone (classes, terms, groups) = (both_nil _ _).1 (
      (both_nil _ _).1
          ((needed s.service_classes _).1 classes, (needed s.ontology_terms _).1 terms),
      (needed s.target_groups _).1 groups,
    )

pub subclass_of :
    (es : List CodeListEntry) (path : FieldPath)
    → (error_if (not (is_nil es) && all ServiceRules.is_main_class es) path ≡ [])
      ↔ (1 ≤ length es → Exists MayBeSubclass es)
subclass_of [] path = ((λ h k. absurd (omega arith)), (λ h. refl))
subclass_of (e ∷ es) path =
    let some_ = all-false ServiceRules.is_main_class (e ∷ es) in
    (
      (λ h _. some_.0 ((error_if-nil _ _).0 h)),
      (λ h. (error_if-nil _ _).1 (some_.1 (h (omega arith)))),
    )

pub businesses_of :
    (es : List CodeListEntry) (codes : List Text) (path : FieldPath)
    → ((if is_nil es
          then []
          else error_if
              (not (includes codes (text "KR2")) || not (any (starts_with (text "KR2.")) codes))
              path)
        ≡ [])
      ↔ (1 ≤ length es → ForBusinesses codes)
businesses_of [] codes path = ((λ h k. absurd (omega arith)), (λ h. refl))
businesses_of (e ∷ es) codes path =
    ((λ h _. there ((error_if-nil _ _).0 h)), (λ h. (error_if-nil _ _).1 (gone (h (omega arith)))))
  where
    there :
        (not (includes codes (text "KR2")) || not (any (starts_with (text "KR2.")) codes)) ≡ false
        → ForBusinesses codes
    there h =
        let group : includes codes (text "KR2") ≡ true = ground arith in
        let sub : any (starts_with (text "KR2.")) codes ≡ true = ground arith in
        (
          (includes-Mem codes (text "KR2")).0 group,
          (any-Exists (starts_with (text "KR2.")) codes).0 sub,
        )

    gone :
        ForBusinesses codes
        → (not (includes codes (text "KR2")) || not (any (starts_with (text "KR2.")) codes)) ≡ false
    gone (group, sub) = rw (
      (includes-Mem codes (text "KR2")).1 group,
      (any-Exists (starts_with (text "KR2.")) codes).1 sub,
    )

pub status_rule :
    (status : PublishingStatus)
    → (ServiceRules.require_writable_publishing_status (some status) ≡ []) ↔ IsWritable status
unfolding ServiceRules.require_writable_publishing_status
status_rule draft = ground arith
status_rule published = ground arith
status_rule modified = ground arith
status_rule archived = ground arith
status_rule withdrawn = ground arith

pub uris_rule :
    (s : Service)
    → (ServiceRules.validate_uri_fields s ≡ []) ↔ (
        All (λ (e : CodeListEntry). IsFilled e.uri) s.service_classes
        × All (λ (e : CodeListEntry). IsFilled e.uri) s.ontology_terms
        × All (λ (e : CodeListEntry). IsFilled e.uri) s.target_groups
        × All (λ (e : CodeListEntry). IsFilled e.uri) s.life_events)
unfolding ServiceRules.validate_uri_fields
uris_rule s =
    let classes = uri_rule (text "serviceClasses") s.service_classes in
    let terms = uri_rule (text "ontologyTerms") s.ontology_terms in
    let groups = uri_rule (text "targetGroups") s.target_groups in
    let events = uri_rule (text "lifeEvents") s.life_events in
    (
      (λ h.
          let three = (both_nil _ _).0 h in
          let two = (both_nil _ _).0 (three.0) in
          let one = (both_nil _ _).0 (two.0) in
          (classes.0 one.0, terms.0 one.1, groups.0 two.1, events.0 three.1)),
      (λ (c, t, g, e).
          (both_nil _ _).1
            ((both_nil _ _).1 ((both_nil _ _).1 (classes.1 c, terms.1 t), groups.1 g), events.1 e)),
    )
