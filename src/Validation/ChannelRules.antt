-- ===== src/Validation/ChannelRules.antt =====
-- Channels and connections: `validateChannel` (src/validation/changeValidator.ts), and
-- `validateChannelDetails` and `validateConnectionDetails` (src/validation/channelRules.ts).
use ptv_mcp.Base.{
  ℕ, Bool, true, false, not, ◌&&◌, ◌||◌, Option, none, some, List, [], ◌∷◌, ◌++◌, Text, text,
  text_eq, ltb, if◌then◌else◌, filter_by, any, length, is_empty,
}
use ptv_mcp.Validation.Domain.{
  ChannelType, e_channel, phone, printable_form, service_location, web_page, PhoneNumber,
  LocalizedText, ChannelAddress, AddressPurpose, postal, AddressKind, street, foreign,
  post_office_box, FormFile, ServiceChannel, ConnectionDetails,
}
use ptv_mcp.Validation.Errors.{
  FieldPath, field, entry, in_language, ValidationResult, result_of, error_if, is_nil, each,
  each_from, or_nil, is_set, is_given, is_truthy, in_, languages_of, includes,
}
use ptv_mcp.Validation.ServiceRules.{
  require_name, validate_languages, require_writable_publishing_status,
}
use ptv_mcp.Validation.ContactRules.{
  phone_languages, check_url, check_phone, check_address, check_contact_details,
}

abbrev pub summary_max : ℕ
summary_max = 150

abbrev pub connection_text_max : ℕ
connection_text_max = 500

-- The language versions: `Object.keys(names).filter((language) => names[language])`.
unfoldable pub versions_of : LocalizedText → List Text
versions_of names = languages_of (filter_by (λ (p : Text × Text). not (is_empty p.1)) names)

abbrev pub texts_within : ℕ → Text → Option LocalizedText → List FieldPath
texts_within max name texts =
    each (λ (p : Text × Text). error_if (ltb max (length p.1)) (in_language name p.0))
      (or_nil texts)

unfoldable pub check_urls : Option LocalizedText → List FieldPath
check_urls urls =
    each
      (λ (p : Text × Text).
        if is_empty p.1 then [] else check_url p.1 (in_language (text "urls") p.0))
      (or_nil urls)

unfoldable pub check_addresses : Text → Bool → Option (List ChannelAddress) → List FieldPath
check_addresses name delivery addresses =
    each_from (λ a i. check_address a (entry name i) delivery) 0 (or_nil addresses)

-- `channel.signatureQuantity && channel.signatureQuantity > 0`
abbrev pub is_positive : Option ℕ → Bool
is_positive none = false
is_positive (some n) = ltb 0 n

abbrev pub has_url : Option LocalizedText → Text → Bool
has_url urls language = is_truthy (in_ language (or_nil urls))

abbrev pub has_phone : Option (List PhoneNumber) → Text → Bool
has_phone phones language = any (λ (p : PhoneNumber). text_eq p.language language) (or_nil phones)

abbrev pub is_postal : Option AddressPurpose → Bool
is_postal (some postal) = true
is_postal _ = false

unfoldable pub require_urls : Bool → List Text → Option LocalizedText → List FieldPath
require_urls creating versions urls =
    error_if
      (not (is_nil (filter_by (λ l. not (has_url urls l)) versions)) && (creating || is_given urls))
      (field (text "urls"))

abbrev pub versions_without_phone : List Text → Option (List PhoneNumber) → List Text
versions_without_phone versions phones =
    filter_by (λ l. includes phone_languages l && not (has_phone phones l)) versions

unfoldable pub require_phones : Bool → List Text → Option (List PhoneNumber) → List FieldPath
require_phones creating versions phones =
    if creating || is_given phones
    then error_if (is_nil (or_nil phones) || not (is_nil (versions_without_phone versions phones)))
        (field (text "phoneNumbers"))
    else []

unfoldable pub require_visiting : Bool → Option (List ChannelAddress) → List FieldPath
require_visiting creating addresses =
    error_if
      ((creating || is_given addresses)
        && not (any (λ (a : ChannelAddress). not (is_postal a.purpose)) (or_nil addresses)))
      (field (text "addresses"))

unfoldable pub require_files : Bool → Option (List FormFile) → List FieldPath
require_files creating files =
    error_if ((creating || is_given files) && is_nil (or_nil files)) (field (text "formFiles"))

-- What each type must have.
unfoldable pub require_type_fields : ChannelType → Bool → ServiceChannel → List FieldPath
require_type_fields e_channel creating c = require_urls creating (versions_of c.names) c.urls
require_type_fields web_page creating c = require_urls creating (versions_of c.names) c.urls
require_type_fields phone creating c = require_phones creating (versions_of c.names) c.phone_numbers
require_type_fields service_location creating c = require_visiting creating c.addresses
require_type_fields printable_form creating c = require_files creating c.form_files

abbrev pub channel_detail_rules : ServiceChannel → Bool → List (List FieldPath)
channel_detail_rules c creating =
    texts_within summary_max (text "summaries") c.summaries
    ∷ check_urls c.urls
    ∷ each_from (λ file i. check_url file.url (entry (text "formFiles") i)) 0 (or_nil c.form_files)
    ∷ each_from (λ phone i. check_phone phone (entry (text "supportPhones") i)) 0
        (or_nil c.support_phones)
    ∷ check_contact_details c.web_pages c.phone_numbers
        (some (or_nil c.emails ++ or_nil c.support_emails)) c.service_hours
    ∷ check_addresses (text "addresses") false c.addresses
    ∷ check_addresses (text "deliveryAddresses") true c.delivery_addresses
    ∷ error_if (is_set c.requires_signature && not (is_positive c.signature_quantity))
        (field (text "signatureQuantity"))
    ∷ require_type_fields c.channel_type creating c
    ∷ []

unfoldable pub validate_channel_details : ServiceChannel → Bool → List FieldPath
validate_channel_details c creating = each (λ e. e) (channel_detail_rules c creating)

-- What a new channel needs besides.
unfoldable pub require_new : Bool → ServiceChannel → List FieldPath
require_new false c = []
require_new true c =
    each
      (λ l. error_if (not (is_truthy (in_ l c.descriptions))) (in_language (text "descriptions") l))
      (languages_of c.names)
    ++ error_if (is_empty c.organization_id) (field (text "organizationId"))

abbrev pub channel_rules : ServiceChannel → Bool → List (List FieldPath)
channel_rules c creating =
    require_name c.names
    ∷ validate_languages c.languages
    ∷ require_writable_publishing_status (some c.publishing_status)
    ∷ require_new creating c
    ∷ validate_channel_details c creating
    ∷ []

unfoldable pub validate_channel : ServiceChannel → Bool → ValidationResult
validate_channel c creating = result_of (each (λ e. e) (channel_rules c creating))

abbrev pub charge_types : List Text
charge_types = text "Chargeable" ∷ text "FreeOfCharge" ∷ text "Other" ∷ []

abbrev pub is_connection_kind : AddressKind → Bool
is_connection_kind street = true
is_connection_kind post_office_box = true
is_connection_kind foreign = true
is_connection_kind _ = false

unfoldable pub check_connection_address : ChannelAddress → ℕ → List FieldPath
check_connection_address a i =
    if is_connection_kind a.kind
    then check_address a (entry (text "addresses") i) false
    else entry (text "addresses") i ∷ []

abbrev pub connection_rules : ConnectionDetails → List (List FieldPath)
connection_rules d =
    error_if (elim d.charge_type [ none ↦ false | some t ↦ not (includes charge_types t) ])
      (field (text "chargeType"))
    ∷ texts_within connection_text_max (text "descriptions") d.descriptions
    ∷ texts_within connection_text_max (text "chargeDescriptions") d.charge_descriptions
    ∷ check_contact_details d.web_pages d.phone_numbers d.emails d.service_hours
    ∷ each_from check_connection_address 0 (or_nil d.addresses)
    ∷ []

unfoldable pub validate_connection_details : ConnectionDetails → ValidationResult
validate_connection_details d = result_of (each (λ e. e) (connection_rules d))
