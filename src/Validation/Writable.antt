-- ===== src/Validation/Writable.antt =====
-- A service that the validator accepts (src/validation/changeValidator.ts), said without the validator.
use ptv_mcp.Base.{
  ◌≤◌, ◌≡◌, ◌⊎◌, true, false, Option, none, some, List, map, Text, text, length, All, Mem,
  starts_with,
}
use ptv_mcp.Validation.Domain.{PublishingStatus, draft, published, archived, CodeListEntry, Service}
use ptv_mcp.Validation.Errors.{is_truthy, is_blank}
use ptv_mcp.Validation.Patterns.{is_koko_uri}
use ptv_mcp.Validation.NoErrors.{Exists}
use ptv_mcp.Validation.ServiceRules

-- A field that is there and not blank.
abbrev pub IsFilled : Option Text → Type 0
IsFilled none = ⊥
IsFilled (some s) = is_blank s ≡ false

-- One of the three states that the v11 API writes.
abbrev pub IsWritable : PublishingStatus → Type 0
IsWritable status = (status ≡ draft) ⊎ (status ≡ published) ⊎ (status ≡ archived)

-- A KOKO concept, where there is a URI.
abbrev pub IsKoko : Option Text → Type 0
IsKoko none = Unit
IsKoko (some uri) = (is_blank uri ≡ true) ⊎ (is_koko_uri uri ≡ true)

-- A class whose code is missing, or has a dot.
abbrev pub MayBeSubclass : CodeListEntry → Type 0
MayBeSubclass e = ServiceRules.is_main_class e ≡ false

-- The target groups of businesses are there, by their codes.
abbrev pub ForBusinesses : List Text → Type 0
ForBusinesses codes =
    Mem (text "KR2") codes × Exists (λ code. starts_with (text "KR2.") code ≡ true) codes

pub record WritableService (s : Service) : Type 0 where
  pub named : Exists (λ (p : Text × Text). is_blank p.1 ≡ false) s.names
  pub owned : is_blank s.organization_id ≡ false
  pub typed : Mem s.service_type ServiceRules.service_types
  pub spoken : 1 ≤ length s.languages
  pub few_terms : length s.ontology_terms ≤ 10
  pub few_classes : length s.service_classes ≤ 4
  pub class_uris : All (λ (e : CodeListEntry). IsFilled e.uri) s.service_classes
  pub term_uris : All (λ (e : CodeListEntry). IsFilled e.uri) s.ontology_terms
  pub group_uris : All (λ (e : CodeListEntry). IsFilled e.uri) s.target_groups
  pub event_uris : All (λ (e : CodeListEntry). IsFilled e.uri) s.life_events
  pub codes : All (λ (e : CodeListEntry). IsFilled e.code ⊎ IsFilled e.uri) s.industrial_classes
  pub koko : All (λ (e : CodeListEntry). IsKoko e.uri) s.ontology_terms
  pub classified :
      is_truthy s.general_description_id ≡ false
      → (1 ≤ length s.service_classes)
        × (1 ≤ length s.ontology_terms)
        × (1 ≤ length s.target_groups)
  pub subclass : 1 ≤ length s.service_classes → Exists MayBeSubclass s.service_classes
  pub status : IsWritable s.publishing_status
  pub businesses :
      1 ≤ length s.industrial_classes → ForBusinesses (map ServiceRules.code_of s.target_groups)
