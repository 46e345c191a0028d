-- ===== src/Validation/ContactRules.antt =====
-- Contact details, wherever they appear (src/validation/channelRules.ts).
use ptv_mcp.Base.{
  ℕ, Bool, true, false, not, ◌&&◌, ◌||◌, Option, none, some, List, [], ◌∷◌, ◌++◌, Text, text,
  text_eq, ltb, if◌then◌else◌, any, length, is_empty, starts_with,
}
use ptv_mcp.Validation.Domain
use ptv_mcp.Validation.Domain.{
  PhoneNumber, ServiceHour, OpeningTime, LocalizedText, ChannelAddress, LanguageValue, WebLink,
  HourType, exceptional, over_midnight, AddressKind, street, other, foreign, post_office_box,
  no_address,
}
use ptv_mcp.Validation.Errors.{
  FieldPath, field, entry, error_if, is_nil, each, each_from, or_nil, length_of, is_truthy, is_set,
  has_text, includes,
}
use ptv_mcp.Validation.Patterns.{
  is_digit, is_digits, starts_http, without_spaces, is_country_prefix, is_time, is_iso_date,
  is_postal_code, is_email, text_lt,
}

abbrev pub phone_max : ℕ
phone_max = 20

abbrev pub phone_text_max : ℕ
phone_text_max = 300

abbrev pub url_max : ℕ
url_max = 500

abbrev pub hour_info_max : ℕ
hour_info_max = 150

abbrev pub address_info_max : ℕ
address_info_max = 150

abbrev pub phone_languages : List Text
phone_languages = text "fi" ∷ text "sv" ∷ text "en" ∷ []

unfoldable pub check_url : Text → FieldPath → List FieldPath
check_url url path =
    (if not (starts_http [] url) then path ∷ [] else error_if (ltb url_max (length url)) path)
    ++ error_if (starts_http (text "tunnistautuminen.suomi.fi") url) path

-- The rules of numbers that are not Finnish service numbers.
abbrev pub check_normal_number : PhoneNumber → FieldPath → List FieldPath
check_normal_number phone path =
    error_if (starts_with (text "0") (without_spaces phone.number)) path
    ++ elim phone.prefix_number [
      | none ↦ []
      | some prefix ↦ error_if (not (is_empty prefix) && not (is_country_prefix prefix)) path
    ]

unfoldable pub check_phone : PhoneNumber → FieldPath → List FieldPath
check_phone phone path =
    error_if (not (is_digits (without_spaces phone.number))) path
    ++ (error_if (ltb phone_max (length phone.number)) path
        ++ ((if is_set phone.is_finnish_service_number then [] else check_normal_number phone path)
            ++ (error_if (not (includes phone_languages phone.language)) path
                ++ (error_if (ltb phone_text_max (length_of phone.additional_information)) path
                    ++ error_if (ltb phone_text_max (length_of phone.charge_description)) path))))

abbrev pub check_date : Option Text → FieldPath → List FieldPath
check_date none path = []
check_date (some date) path = error_if (not (is_iso_date date)) path

-- `hour.validFrom && hour.validTo && hour.validTo < hour.validFrom`
abbrev pub ends_early : Option Text → Option Text → Bool
ends_early (some from) (some to) = not (is_empty from) && not (is_empty to) && text_lt to from
ends_early _ _ = false

abbrev pub hour_type_eq : HourType → HourType → Bool
hour_type_eq Domain.days_of_the_week Domain.days_of_the_week = true
hour_type_eq exceptional exceptional = true
hour_type_eq over_midnight over_midnight = true
hour_type_eq _ _ = false

unfoldable pub check_opening_time : HourType → OpeningTime → FieldPath → List FieldPath
check_opening_time type time path =
    if not (is_time time.from) || not (is_time time.to)
    then path ∷ []
    else error_if
        (not (hour_type_eq type over_midnight)
          && not (text_lt time.from time.to)
          && not (text_eq time.to (text "00:00")))
        path

abbrev pub too_long : ℕ → FieldPath → Option LocalizedText → List FieldPath
too_long max path texts =
    each (λ (p : Text × Text). error_if (ltb max (length p.1)) path) (or_nil texts)

unfoldable pub check_service_hour : ServiceHour → FieldPath → List FieldPath
check_service_hour hour path =
    check_date hour.valid_from path
    ++ (check_date hour.valid_to path
        ++ (error_if (ends_early hour.valid_from hour.valid_to) path
            ++ (error_if (hour_type_eq hour.type exceptional && not (is_truthy hour.valid_from))
                  path
                ++ (error_if
                      (is_nil (or_nil hour.opening_times)
                        && not (is_set hour.is_always_open)
                        && not (is_set hour.is_reservation)
                        && not (is_set hour.is_closed))
                      path
                    ++ (each (λ time. check_opening_time hour.type time path)
                          (or_nil hour.opening_times)
                        ++ too_long hour_info_max path hour.additional_information)))))

-- What a kind of address needs.
unfoldable pub check_kind : ChannelAddress → FieldPath → AddressKind → List FieldPath
check_kind a path street =
    error_if (not (has_text a.street)) path
    ++ (error_if
          (not (is_truthy a.postal_code)
            || not (elim a.postal_code [ none ↦ false | some code ↦ is_postal_code code ]))
          path
        ++ error_if (any (λ (p : Text × Text). any is_digit p.1) (or_nil a.street)) path)
check_kind a path other =
    error_if (not (is_truthy a.latitude) || not (is_truthy a.longitude)) path
    ++ error_if (not (has_text a.additional_information)) path
check_kind a path foreign = error_if (not (has_text a.text)) path
check_kind a path no_address = error_if (not (has_text a.text)) path
check_kind a path post_office_box = error_if (not (has_text a.post_office_box)) path

-- Where a kind of address may stand: `delivery` tells the addresses of printable forms.
unfoldable pub check_place : AddressKind → FieldPath → Bool → List FieldPath
check_place no_address path false = path ∷ []
check_place other path true = path ∷ []
check_place _ path delivery = []

unfoldable pub check_address : ChannelAddress → FieldPath → Bool → List FieldPath
check_address a path delivery =
    check_kind a path a.kind
    ++ (check_place a.kind path delivery ++ too_long address_info_max path a.additional_information)

unfoldable pub check_contact_details :
    Option (List WebLink)
    → Option (List PhoneNumber)
    → Option (List LanguageValue)
    → Option (List ServiceHour)
    → List FieldPath
check_contact_details pages phones emails hours =
    each_from (λ page i. check_url page.url (entry (text "webPages") i)) 0 (or_nil pages)
    ++ (each_from (λ phone i. check_phone phone (entry (text "phoneNumbers") i)) 0 (or_nil phones)
        ++ (each (λ (e : LanguageValue). error_if (not (is_email e.value)) (field (text "emails")))
              (or_nil emails)
            ++ each_from (λ hour i. check_service_hour hour (entry (text "serviceHours") i)) 0
                (or_nil hours)))
