-- ===== src/Validation/RuleTests.antt =====
-- The rules on a service, a web page, an organisation and opening hours.
use ptv_mcp.Base.{
  ◌≡◌, refl, ◌↔◌, inr, true, false, none, some, [], ◌∷◌, Text, text, text_eq, All, trim,
  starts_with, is_space, trim_start, includes_text,
}
use ptv_mcp.Validation.{
  fits, fits_all, weighted_sum, has_check_digit, check_digit, is_valid_business_code,
}
use ptv_mcp.Validation.Domain.{
  published, CodeListEntry, Service, web_page, ServiceChannel, Organization, OpeningTime,
  days_of_the_week, monday,
}
use ptv_mcp.Validation.Errors.{field, entry, each, each_from, in_, or_nil}
use ptv_mcp.Validation.Patterns.{after_prefix, is_koko_uri, is_digits, starts_http}
use ptv_mcp.Validation.ServiceRules.{
  validate_service, require_name, validate_organization_id, validate_service_type,
  validate_languages, validate_ontology_terms_limit, validate_service_classes_limit,
  validate_uri_fields, validate_industrial_classes_code, validate_ontology_term_uris,
  validate_required_classifications, validate_not_only_main_service_classes,
  require_writable_publishing_status, validate_industrial_class_target_groups,
}
use ptv_mcp.Validation.ContactRules.{check_opening_time, check_url, check_contact_details}
use ptv_mcp.Validation.ChannelRules.{
  versions_of, check_urls, check_addresses, require_urls, require_type_fields,
  validate_channel_details, require_new, validate_channel,
}
use ptv_mcp.Validation.OrganizationRules.{
  named_languages, check_version_text, check_version, require_new_organization,
  validate_organization,
}
use ptv_mcp.Validation.Writable.{WritableService}
use ptv_mcp.Validation.Accepted.{validate_service-WritableService}
use ptv_mcp.Validation.Times.{IsSpan, check_opening_time-IsSpan}
use ptv_mcp.Validation.Versions.{HasUrl, web_channel_urls}
use ptv_mcp.Validation.Organizations.{AcceptedOrganization, validate_organization-ok}

abbrev coded : Text → Text → CodeListEntry
coded code uri = record { code = some code; uri = some uri; names = [] }

abbrev sample_service : Service
sample_service = record {
  organization_id = text "o1";
  service_type = text "Service";
  publishing_status = published;
  names = (text "fi", text "Kirjasto") ∷ [];
  service_classes = coded (text "P11.6") (text "ptv:P11.6") ∷ [];
  ontology_terms = coded (text "p1") (text "http://www.yso.fi/onto/koko/p12") ∷ [];
  target_groups = coded (text "KR1") (text "ptv:KR1") ∷ [];
  life_events = [];
  industrial_classes = [];
  languages = text "fi" ∷ [];
  general_description_id = none;
}

abbrev yso_service : Service
yso_service = record sample_service {
  ontology_terms = coded (text "p1") (text "http://www.yso.fi/onto/yso/p12") ∷ [];
}

service_accepted : (validate_service sample_service).errors ≡ []
unfolding validate_service each each_from require_name validate_organization_id
    validate_service_type validate_languages validate_ontology_terms_limit
    validate_service_classes_limit validate_uri_fields validate_industrial_classes_code
    validate_ontology_term_uris validate_required_classifications
    validate_not_only_main_service_classes require_writable_publishing_status
    validate_industrial_class_target_groups is_koko_uri after_prefix is_digits trim trim_start
    is_space text_eq starts_with includes_text
service_accepted = refl

yso_refused : (validate_service yso_service).errors ≡ entry (text "ontologyTerms") 0 ∷ []
unfolding validate_service each each_from require_name validate_organization_id
    validate_service_type validate_languages validate_ontology_terms_limit
    validate_service_classes_limit validate_uri_fields validate_industrial_classes_code
    validate_ontology_term_uris validate_required_classifications
    validate_not_only_main_service_classes require_writable_publishing_status
    validate_industrial_class_target_groups is_koko_uri after_prefix is_digits trim trim_start
    is_space text_eq starts_with includes_text
yso_refused = refl

validate_service-WritableService_example :
    ((validate_service sample_service).valid ≡ true) ↔ WritableService sample_service
validate_service-WritableService_example = validate_service-WritableService sample_service

abbrev nine_to_three : OpeningTime
nine_to_three = record { day_from = monday; day_to = none; from = text "09:00"; to = text "15:30" }

check_opening_time-IsSpan_example :
    (check_opening_time days_of_the_week nine_to_three (field (text "serviceHours")) ≡ [])
    ↔ IsSpan days_of_the_week nine_to_three
check_opening_time-IsSpan_example =
    check_opening_time-IsSpan days_of_the_week nine_to_three (field (text "serviceHours"))

abbrev sample_page : ServiceChannel
sample_page = record {
  organization_id = text "o1";
  channel_type = web_page;
  publishing_status = published;
  names = (text "fi", text "Sivu") ∷ (text "sv", text "Sida") ∷ [];
  summaries = none;
  descriptions = (text "fi", text "Kuvaus") ∷ (text "sv", text "Text") ∷ [];
  languages = text "fi" ∷ [];
  urls = some ((text "fi", text "https://a.fi") ∷ (text "sv", text "HTTP://a.fi/sv") ∷ []);
  web_pages = none;
  phone_numbers = none;
  emails = none;
  support_phones = none;
  support_emails = none;
  service_hours = none;
  addresses = none;
  delivery_addresses = none;
  form_files = none;
  requires_signature = none;
  signature_quantity = none;
}

page_accepted : (validate_channel sample_page true).valid ≡ true
unfolding validate_channel each each_from require_name validate_languages
    require_writable_publishing_status require_new validate_channel_details check_urls check_url
    check_contact_details check_addresses require_type_fields require_urls versions_of in_
    starts_http trim trim_start is_space text_eq starts_with
page_accepted = refl

web_channel_urls_example : All (HasUrl (or_nil sample_page.urls)) (versions_of sample_page.names)
web_channel_urls_example = web_channel_urls sample_page (inr refl) page_accepted

abbrev sample_organization : Organization
sample_organization = record {
  parent_organization_id = none;
  business_code = some (text "0201256-6");
  publishing_status = some published;
  names = (text "fi", text "Seurakunta") ∷ [];
  organization_type = none;
  alternative_names = none;
  alternative_name_shown_in = none;
  summaries = some ((text "fi", text "Lyhyesti") ∷ []);
  descriptions = some ((text "fi", text "Kuvaus") ∷ []);
  municipality = none;
  emails = none;
  phone_numbers = none;
  web_pages = none;
  addresses = none;
}

organization_accepted : (validate_organization sample_organization false).valid ≡ true
unfolding validate_organization each each_from named_languages check_version check_version_text
    check_contact_details check_addresses require_writable_publishing_status
    require_new_organization is_valid_business_code has_check_digit fits fits_all weighted_sum
    check_digit in_ trim trim_start is_space text_eq
organization_accepted = refl

validate_organization-ok_example : AcceptedOrganization sample_organization
validate_organization-ok_example =
    validate_organization-ok sample_organization false organization_accepted
