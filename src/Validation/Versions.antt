-- ===== src/Validation/Versions.antt =====
-- Every language version is complete (src/validation/channelRules.ts, validateChannelDetails, and
-- src/validation/organizationRules.ts, validateOrganization).
use ptv_mcp.Base.{
  ℕ, ◌≤◌, ◌≡◌, refl, ◌⊎◌, inl, inr, Bool, true, false, not, ◌&&◌, Option, none, some, List, [], ◌∷◌,
  ◌++◌, arith, Text, text, text_eq, ltb, if◌then◌else◌, Bool-cases, filter_by, length, All, All-map,
  is_empty,
}
use ptv_mcp.Validation.Domain.{ChannelType, e_channel, web_page, LocalizedText, ServiceChannel}
use ptv_mcp.Validation.Errors.{FieldPath, in_language, error_if, is_nil, or_nil, is_truthy, in_}
use ptv_mcp.Validation.Patterns.{starts_http}
use ptv_mcp.Validation.ContactRules.{check_url, url_max}
use ptv_mcp.Validation.NoErrors.{both_nil, error_if-nil, each-nil, is_nil-true, valid_iff}
use ptv_mcp.Validation.ChannelRules.{
  versions_of, check_urls, has_url, require_urls, require_type_fields, channel_detail_rules,
  validate_channel_details, channel_rules, validate_channel,
}

-- A web address that PTV takes, for a language.
pub record HasUrl (urls : LocalizedText) (language : Text) : Type 0 where
  pub url : Text
  pub given : in_ language urls ≡ some url
  pub web : starts_http [] url ≡ true
  pub short : length url ≤ 500
  pub usable_ : starts_http (text "tunnistautuminen.suomi.fi") url ≡ false

filter_by-nil :
    {A : Type 0} (p : A → Bool) (xs : List A) → filter_by p xs ≡ [] → All (λ x. p x ≡ false) xs
filter_by-nil p [] h = tt
filter_by-nil p (x ∷ xs) h = elim (Bool-cases (p x)) [
  | inl hit ↦ absurd (kept (rw hit at h))
  | inr miss ↦ (miss, filter_by-nil p xs (rw miss at h))
]
  where
    kept : x ∷ filter_by p xs ≡ [] → ⊥
    kept e = absurd (cc e)

-- What a lookup finds satisfies what every entry does.
in_-All :
    (P : Text → Type 0) (l : Text) (texts : LocalizedText) (s : Text)
    → All (λ (p : Text × Text). P p.1) texts
    → in_ l texts ≡ some s
    → P s
unfolding in_
in_-All P l [] s all_ h = absurd (cc h)
in_-All P l ((k, t) ∷ texts) s (here, rest) h = elim (Bool-cases (text_eq k l)) [
  | inl same ↦ let e : some t ≡ some s = rw same at h in let u : t ≡ s = cc e in rw (← u) here
  | inr other ↦ in_-All P l texts s rest (rw other at h)
]

-- An address that is not empty and that `checkUrl` takes.
abbrev GoodUrl : Text → Type 0
GoodUrl url =
    is_empty url ≡ false
    → (starts_http [] url ≡ true)
      × (length url ≤ 500)
      × (starts_http (text "tunnistautuminen.suomi.fi") url ≡ false)

url_parts :
    (web bad : Bool) (n : ℕ) (path : FieldPath)
    → (if not web then path ∷ [] else error_if (ltb url_max n) path) ++ error_if bad path ≡ []
    → (web ≡ true) × (n ≤ 500) × (bad ≡ false)
url_parts true bad n path h =
    let parts = (both_nil (error_if (ltb url_max n) path) (error_if bad path)).0 h in
    (
      refl,
      ground (arith, (error_if-nil (ltb url_max n) path).0 parts.0),
      (error_if-nil bad path).0 parts.1,
    )
url_parts false bad n path h = absurd (no h)
  where
    no : path ∷ error_if bad path ≡ [] → ⊥
    no e = absurd (cc e)

url_checked :
    (url : Text) (path : FieldPath)
    → (if is_empty url then [] else check_url url path) ≡ []
    → GoodUrl url
unfolding check_url
url_checked url path h full =
    url_parts (starts_http [] url) (starts_http (text "tunnistautuminen.suomi.fi") url) (length url)
      path (rw full at h)

urls_checked :
    (urls : Option LocalizedText)
    → check_urls urls ≡ []
    → All (λ (p : Text × Text). GoodUrl p.1) (or_nil urls)
unfolding check_urls
urls_checked urls h =
    All-map _ _ (λ p. url_checked p.1 (in_language (text "urls") p.0)) (or_nil urls)
      ((each-nil
          (λ (p : Text × Text).
            if is_empty p.1 then [] else check_url p.1 (in_language (text "urls") p.0))
          (λ p. (if is_empty p.1 then [] else check_url p.1 (in_language (text "urls") p.0)) ≡ [])
          (λ p. ((λ e. e), (λ e. e))) (or_nil urls)).0
        h)

version_url :
    (urls : LocalizedText) (language : Text)
    → All (λ (p : Text × Text). GoodUrl p.1) urls
    → is_truthy (in_ language urls) ≡ true
    → HasUrl urls language
version_url urls language good has = go (in_ language urls) refl has
  where
    go : (o : Option Text) → in_ language urls ≡ o → is_truthy o ≡ true → HasUrl urls language
    go none e h = absurd (cc h)
    go (some url) e h =
        let full : is_empty url ≡ false = ground arith in
        let fine = in_-All GoodUrl language urls url good e full in
        record { url = url; given = e; web = fine.0; short = fine.1; usable_ = fine.2 }

none_missing :
    (p : Text → Bool) (xs : List Text)
    → filter_by (λ x. not (p x)) xs ≡ []
    → All (λ x. p x ≡ true) xs
none_missing p xs h =
    All-map (λ x. not (p x) ≡ false) (λ x. p x ≡ true) (λ x e. ground arith) xs
      (filter_by-nil (λ x. not (p x)) xs h)

complete_urls :
    (versions : List Text) (urls : Option LocalizedText)
    → check_urls urls ≡ []
    → require_urls true versions urls ≡ []
    → All (HasUrl (or_nil urls)) versions
unfolding require_urls
complete_urls versions urls good all_ =
    All-map (λ l. has_url urls l ≡ true) (HasUrl (or_nil urls))
      (λ l. version_url (or_nil urls) l (urls_checked urls good)) versions
      (none_missing (has_url urls) versions (
        (is_nil-true _).0 (
          some_missing (is_nil (filter_by (λ l. not (has_url urls l)) versions))
            ((error_if-nil _ _).0 all_))))
  where
    some_missing : (b : Bool) → (not b && true) ≡ false → b ≡ true
    some_missing b h = ground arith

-- The two types of channel that are a page on the web.
abbrev pub IsWeb : ChannelType → Type 0
IsWeb type = (type ≡ e_channel) ⊎ (type ≡ web_page)

details_checked :
    (c : ServiceChannel)
    → (validate_channel c true).valid ≡ true
    → All (λ errors. errors ≡ []) (channel_detail_rules c true)
unfolding validate_channel validate_channel_details
details_checked c h =
    let (_, (_, (_, (_, (details, _))))) = (valid_iff (channel_rules c true)).0 h in
    (each-nil (λ e. e) (λ errors. errors ≡ []) (λ e. ((λ k. k), (λ k. k)))
        (channel_detail_rules c true)).0
      details

web_fields :
    (type : ChannelType) (c : ServiceChannel)
    → IsWeb type
    → require_type_fields type true c ≡ []
    → require_urls true (versions_of c.names) c.urls ≡ []
unfolding require_type_fields
web_fields type c (inl e) h = rw e at h
web_fields type c (inr e) h = rw e at h

-- A new e-service or web page that is accepted has, for every language version that it is named
-- in, a web address that starts with http:// or https://, has at most 500 characters and is not
-- the login service's.
pub web_channel_urls :
    (c : ServiceChannel)
    → IsWeb c.channel_type
    → (validate_channel c true).valid ≡ true
    → All (HasUrl (or_nil c.urls)) (versions_of c.names)
web_channel_urls c web h =
    let (_, (urls, (_, (_, (_, (_, (_, (_, (type, _))))))))) = details_checked c h in
    complete_urls (versions_of c.names) c.urls urls (web_fields c.channel_type c web type)
