-- ===== src/Validation/ServiceRules.antt =====
-- `V11ChangeValidator` (src/validation/changeValidator.ts), one function per rule.
use ptv_mcp.Base.{
  ℕ, Bool, true, false, not, ◌&&◌, ◌||◌, Option, none, some, List, [], ◌∷◌, ◌++◌, map, Text, text,
  ltb, if◌then◌else◌, any, all, length, is_empty, starts_with, includes_text,
}
use ptv_mcp.Validation.Domain.{
  LocalizedText, PublishingStatus, modified, withdrawn, CodeListEntry, Service,
}
use ptv_mcp.Validation.Errors.{
  FieldPath, field, entry, ValidationResult, result_of, error_if, is_nil, each, each_from,
  is_truthy, is_blank, includes,
}
use ptv_mcp.Validation.Patterns.{is_koko_uri}

abbrev pub max_service_classes : ℕ
max_service_classes = 4

abbrev pub max_ontology_terms : ℕ
max_ontology_terms = 10

-- `requireName`
unfoldable pub require_name : LocalizedText → List FieldPath
require_name names =
    error_if (not (any (λ (p : Text × Text). not (is_blank p.1)) names)) (field (text "names"))

-- `requireWritablePublishingStatus`
unfoldable pub require_writable_publishing_status : Option PublishingStatus → List FieldPath
require_writable_publishing_status (some modified) = field (text "publishingStatus") ∷ []
require_writable_publishing_status (some withdrawn) = field (text "publishingStatus") ∷ []
require_writable_publishing_status _ = []

-- Rule 2
unfoldable pub validate_organization_id : Service → List FieldPath
validate_organization_id s =
    error_if (is_empty s.organization_id || is_blank s.organization_id)
      (field (text "organizationId"))

abbrev pub service_types : List Text
service_types = text "Service" ∷ text "ProfessionalQualification" ∷ text "PermitOrObligation" ∷ []

-- Rule 3
unfoldable pub validate_service_type : Service → List FieldPath
validate_service_type s =
    error_if (not (includes service_types s.service_type)) (field (text "serviceType"))

-- Rule 4
unfoldable pub validate_languages : List Text → List FieldPath
validate_languages languages = error_if (is_nil languages) (field (text "languages"))

-- Rules 5 and 6
unfoldable pub validate_ontology_terms_limit : Service → List FieldPath
validate_ontology_terms_limit s =
    error_if (ltb max_ontology_terms (length s.ontology_terms)) (field (text "ontologyTerms"))

unfoldable pub validate_service_classes_limit : Service → List FieldPath
validate_service_classes_limit s =
    error_if (ltb max_service_classes (length s.service_classes)) (field (text "serviceClasses"))

-- `!uri || uri.trim() === ''`
abbrev pub is_blank_option : Option Text → Bool
is_blank_option none = true
is_blank_option (some s) = is_blank s

-- Rule 7
abbrev pub require_uri : Text → CodeListEntry → ℕ → List FieldPath
require_uri name e i = error_if (is_blank_option e.uri) (entry name i)

unfoldable pub validate_uri_fields : Service → List FieldPath
validate_uri_fields s =
    each_from (require_uri (text "serviceClasses")) 0 s.service_classes
    ++ each_from (require_uri (text "ontologyTerms")) 0 s.ontology_terms
    ++ each_from (require_uri (text "targetGroups")) 0 s.target_groups
    ++ each_from (require_uri (text "lifeEvents")) 0 s.life_events

-- Rule 8
abbrev pub require_code : CodeListEntry → ℕ → List FieldPath
require_code e i =
    error_if (is_blank_option e.code && is_blank_option e.uri) (entry (text "industrialClasses") i)

unfoldable pub validate_industrial_classes_code : Service → List FieldPath
validate_industrial_classes_code s = each_from require_code 0 s.industrial_classes

-- Rule 9
abbrev pub is_not_koko : Option Text → Bool
is_not_koko none = false
is_not_koko (some uri) = not (is_blank uri) && not (is_koko_uri uri)

abbrev pub require_koko : CodeListEntry → ℕ → List FieldPath
require_koko e i = error_if (is_not_koko e.uri) (entry (text "ontologyTerms") i)

unfoldable pub validate_ontology_term_uris : Service → List FieldPath
validate_ontology_term_uris s = each_from require_koko 0 s.ontology_terms

-- Rule 10
unfoldable pub validate_required_classifications : Service → List FieldPath
validate_required_classifications s =
    if is_truthy s.general_description_id
    then []
    else error_if (is_nil s.service_classes) (field (text "serviceClasses"))
      ++ error_if (is_nil s.ontology_terms) (field (text "ontologyTerms"))
      ++ error_if (is_nil s.target_groups) (field (text "targetGroups"))

-- `!!entry.code && !entry.code.includes('.')`
abbrev pub is_main_class : CodeListEntry → Bool
is_main_class e = elim e.code [
  | none ↦ false
  | some code ↦ not (is_empty code) && not (includes_text (text ".") code)
]

-- Rule 11
unfoldable pub validate_not_only_main_service_classes : Service → List FieldPath
validate_not_only_main_service_classes s =
    error_if (not (is_nil s.service_classes) && all is_main_class s.service_classes)
      (field (text "serviceClasses"))

-- `entry.code ?? ''`
abbrev pub code_of : CodeListEntry → Text
code_of e = elim e.code [ none ↦ [] | some code ↦ code ]

-- Rule 13
unfoldable pub validate_industrial_class_target_groups : Service → List FieldPath
validate_industrial_class_target_groups s =
    if is_nil s.industrial_classes
    then []
    else error_if
        (not (includes (map code_of s.target_groups) (text "KR2"))
          || not (any (starts_with (text "KR2.")) (map code_of s.target_groups)))
        (field (text "targetGroups"))

-- What each rule reports, in the order in which they run.
abbrev pub service_rules : Service → List (List FieldPath)
service_rules s =
    require_name s.names
    ∷ validate_organization_id s
    ∷ validate_service_type s
    ∷ validate_languages s.languages
    ∷ validate_ontology_terms_limit s
    ∷ validate_service_classes_limit s
    ∷ validate_uri_fields s
    ∷ validate_industrial_classes_code s
    ∷ validate_ontology_term_uris s
    ∷ validate_required_classifications s
    ∷ validate_not_only_main_service_classes s
    ∷ require_writable_publishing_status (some s.publishing_status)
    ∷ validate_industrial_class_target_groups s
    ∷ []

unfoldable pub validate_service : Service → ValidationResult
validate_service s = result_of (each (λ e. e) (service_rules s))
