-- ===== src/Validation/OrganizationRules.antt =====
-- `validateOrganization` (src/validation/organizationRules.ts).
use ptv_mcp.Base.{
  ℕ, Bool, true, false, not, ◌&&◌, Option, none, some, List, [], ◌∷◌, ◌++◌, Text, text, text_eq,
  ltb, if◌then◌else◌, filter_by, length, is_empty, trim,
}
use ptv_mcp.Validation.{is_valid_business_code}
use ptv_mcp.Validation.Domain.{LocalizedText, ChannelAddress, Organization}
use ptv_mcp.Validation.Errors.{
  FieldPath, field, in_language, ValidationResult, result_of, error_if, is_nil, each, or_nil,
  is_truthy, in_, languages_of, includes, is_blank,
}
use ptv_mcp.Validation.ServiceRules.{require_writable_publishing_status}
use ptv_mcp.Validation.ContactRules.{check_contact_details}
use ptv_mcp.Validation.ChannelRules.{summary_max, is_postal, check_addresses}

abbrev pub organization_description_max : ℕ
organization_description_max = 2500

abbrev pub writable_organization_types : List Text
writable_organization_types =
    text "State"
    ∷ text "Region"
    ∷ text "RegionalOrganization"
    ∷ text "Municipality"
    ∷ text "Organization"
    ∷ text "Company"
    ∷ []

-- `text(value)`
abbrev pub trimmed : Option Text → Text
trimmed none = []
trimmed (some s) = trim s

-- The languages with a name that is not blank.
unfoldable pub named_languages : LocalizedText → List Text
named_languages names = languages_of (filter_by (λ (p : Text × Text). not (is_blank p.1)) names)

unfoldable pub check_version_text : ℕ → Text → Option LocalizedText → Text → List FieldPath
check_version_text max name texts language =
    let s = trimmed (in_ language (or_nil texts)) in
    if is_empty s
    then in_language name language ∷ []
    else error_if (ltb max (length s)) (in_language name language)

unfoldable pub check_version : Organization → Text → List FieldPath
check_version o language =
    check_version_text summary_max (text "summaries") o.summaries language
    ++ check_version_text organization_description_max (text "descriptions") o.descriptions language

unfoldable pub check_alternative : Organization → Text → List FieldPath
check_alternative o language =
    error_if (is_empty (trimmed (in_ language (or_nil o.alternative_names))))
      (field (text "alternativeNameShownIn"))

-- An address that is not postal is a visiting one.
abbrev pub visiting_of : Option (List ChannelAddress) → List ChannelAddress
visiting_of addresses =
    filter_by (λ (a : ChannelAddress). not (is_postal a.purpose)) (or_nil addresses)

unfoldable pub require_new_organization : Bool → Organization → List FieldPath
require_new_organization false o = []
require_new_organization true o =
    error_if (not (is_truthy o.parent_organization_id)) (field (text "parentOrganizationId"))
    ++ (error_if
          (elim o.organization_type [
            | none ↦ true
            | some type ↦ not (includes writable_organization_types type)
          ])
          (field (text "organizationType"))
        ++ error_if
            (elim o.organization_type [
              | none ↦ false
              | some type ↦ text_eq type (text "Municipality")
            ]
              && not (is_truthy o.municipality))
            (field (text "municipality")))

abbrev pub organization_rules : Organization → Bool → List (List FieldPath)
organization_rules o creating =
    error_if (is_nil (named_languages o.names)) (field (text "names"))
    ∷ each (check_version o) (named_languages o.names)
    ∷ each (check_alternative o) (or_nil o.alternative_name_shown_in)
    ∷ error_if
        (elim o.business_code [
          | none ↦ false
          | some code ↦ not (is_empty code) && not (is_valid_business_code code)
        ])
        (field (text "businessCode"))
    ∷ require_writable_publishing_status o.publishing_status
    ∷ check_contact_details o.web_pages o.phone_numbers o.emails none
    ∷ check_addresses (text "addresses") false o.addresses
    ∷ error_if (ltb 1 (length (visiting_of o.addresses))) (field (text "addresses"))
    ∷ require_new_organization creating o
    ∷ []

unfoldable pub validate_organization : Organization → Bool → ValidationResult
validate_organization o creating = result_of (each (λ e. e) (organization_rules o creating))
