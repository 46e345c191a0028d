-- ===== src/Validation/Domain.antt =====
-- The domain types that the rules read (src/ptv/domain.ts), as far as they read them. An optional
-- field is an `Option`; fields whose only use is in a message, and ids that no rule looks at, are left
-- out.
use ptv_mcp.Base.{ℕ, Bool, List, Option, Text}

-- `LocalizedText`: the languages that are present, in order.
abbrev pub LocalizedText : Type 0
LocalizedText = List (Text × Text)

pub data PublishingStatus : Type 0 where
  draft published modified archived withdrawn : PublishingStatus

pub record CodeListEntry : Type 0 where
  pub code : Option Text
  pub uri : Option Text
  pub names : LocalizedText

-- `serviceType` is checked against its three values, so it is a text here.
pub record Service : Type 0 where
  pub organization_id : Text
  pub service_type : Text
  pub publishing_status : PublishingStatus
  pub names : LocalizedText
  pub service_classes : List CodeListEntry
  pub ontology_terms : List CodeListEntry
  pub target_groups : List CodeListEntry
  pub life_events : List CodeListEntry
  pub industrial_classes : List CodeListEntry
  pub languages : List Text
  pub general_description_id : Option Text

pub data ChannelType : Type 0 where
  e_channel phone printable_form service_location web_page : ChannelType

pub record LanguageValue : Type 0 where
  pub language : Text
  pub value : Text

pub record PhoneNumber : Type 0 where
  pub language : Text
  pub prefix_number : Option Text
  pub number : Text
  pub is_finnish_service_number : Option Bool
  pub additional_information : Option Text
  pub charge_description : Option Text

pub record WebLink : Type 0 where
  pub language : Text
  pub url : Text
  pub name : Option Text

pub data Weekday : Type 0 where
  monday tuesday wednesday thursday friday saturday sunday : Weekday

pub record OpeningTime : Type 0 where
  pub day_from : Weekday
  pub day_to : Option Weekday
  pub from : Text
  pub to : Text

pub data HourType : Type 0 where
  days_of_the_week exceptional over_midnight : HourType

pub record ServiceHour : Type 0 where
  pub type : HourType
  pub valid_from : Option Text
  pub valid_to : Option Text
  pub is_closed : Option Bool
  pub is_always_open : Option Bool
  pub is_reservation : Option Bool
  pub additional_information : Option LocalizedText
  pub opening_times : Option (List OpeningTime)

pub data AddressKind : Type 0 where
  street other foreign post_office_box no_address : AddressKind

pub data AddressPurpose : Type 0 where
  visiting postal : AddressPurpose

pub record ChannelAddress : Type 0 where
  pub kind : AddressKind
  pub purpose : Option AddressPurpose
  pub street : Option LocalizedText
  pub postal_code : Option Text
  pub post_office_box : Option LocalizedText
  pub latitude : Option Text
  pub longitude : Option Text
  pub additional_information : Option LocalizedText
  pub text : Option LocalizedText

pub record FormFile : Type 0 where
  pub language : Text
  pub url : Text

pub record ServiceChannel : Type 0 where
  pub organization_id : Text
  pub channel_type : ChannelType
  pub publishing_status : PublishingStatus
  pub names : LocalizedText
  pub summaries : Option LocalizedText
  pub descriptions : LocalizedText
  pub languages : List Text
  pub urls : Option LocalizedText
  pub web_pages : Option (List WebLink)
  pub phone_numbers : Option (List PhoneNumber)
  pub emails : Option (List LanguageValue)
  pub support_phones : Option (List PhoneNumber)
  pub support_emails : Option (List LanguageValue)
  pub service_hours : Option (List ServiceHour)
  pub addresses : Option (List ChannelAddress)
  pub delivery_addresses : Option (List ChannelAddress)
  pub form_files : Option (List FormFile)
  pub requires_signature : Option Bool
  pub signature_quantity : Option ℕ

-- `organizationType` is checked against its writable values, so it is a text here.
pub record Organization : Type 0 where
  pub parent_organization_id : Option Text
  pub business_code : Option Text
  pub publishing_status : Option PublishingStatus
  pub names : LocalizedText
  pub organization_type : Option Text
  pub alternative_names : Option LocalizedText
  pub alternative_name_shown_in : Option (List Text)
  pub summaries : Option LocalizedText
  pub descriptions : Option LocalizedText
  pub municipality : Option Text
  pub emails : Option (List LanguageValue)
  pub phone_numbers : Option (List PhoneNumber)
  pub web_pages : Option (List WebLink)
  pub addresses : Option (List ChannelAddress)

pub record ConnectionDetails : Type 0 where
  pub charge_type : Option Text
  pub descriptions : Option LocalizedText
  pub charge_descriptions : Option LocalizedText
  pub service_hours : Option (List ServiceHour)
  pub emails : Option (List LanguageValue)
  pub phone_numbers : Option (List PhoneNumber)
  pub web_pages : Option (List WebLink)
  pub addresses : Option (List ChannelAddress)
