-- ===== src/OAuth/Cimd.antt =====
-- Client metadata, from a registration or from the document that a client id names
-- (src/mcp/oauthService.ts, parseClientMetadata, isCimdClientId and fetchCimdMetadata).
use ptv_mcp.Base.{
  ℕ, zero, suc, ◌*◌, Bool, true, false, not, ◌&&◌, ◌||◌, Option, none, some, List, [], ◌∷◌, Text,
  text, text_eq, ltb, leb, if◌then◌else◌, any, is_empty,
}
use ptv_mcp.Json.{Json, Items, Fields, str, arr, obj, nil, cons, get_field}
use ptv_mcp.OAuth.{OAuthClientMetadata, Url, Response, Platform, Outcome, ok, err, invalid_cimd}
use ptv_mcp.OAuth.Addresses.{is_private_ip}

-- The texts of a list; anything else in it is dropped.
unfoldable pub string_list : Items → List Text
string_list nil = []
string_list (cons (str s) xs) = s ∷ string_list xs
string_list (cons _ xs) = string_list xs

abbrev pub as_text : Option Json → Option Text
as_text (some (str s)) = some s
as_text _ = none

abbrev pub as_texts : Option Json → Option (List Text)
as_texts (some (arr xs)) = some (string_list xs)
as_texts _ = none

unfoldable pub parse_client_metadata : Fields → OAuthClientMetadata
unfolding get_field string_list
parse_client_metadata value = record {
  client_id = as_text (get_field (text "client_id") value);
  client_name = as_text (get_field (text "client_name") value);
  redirect_uris = elim (as_texts (get_field (text "redirect_uris") value)) [
    | none ↦ []
    | some uris ↦ uris
  ];
  grant_types = as_texts (get_field (text "grant_types") value);
  response_types = as_texts (get_field (text "response_types") value);
  token_endpoint_auth_method = as_text (get_field (text "token_endpoint_auth_method") value);
  application_type = as_text (get_field (text "application_type") value);
}

unfoldable pub is_cimd_url : Url → Bool
is_cimd_url url =
    text_eq url.protocol (text "https:")
    && not (text_eq url.pathname (text "/"))
    && is_empty url.username
    && is_empty url.password
    && is_empty url.search
    && is_empty url.hash

unfoldable pub all_texts : Items → Bool
all_texts nil = true
all_texts (cons (str s) xs) = all_texts xs
all_texts (cons _ xs) = false

-- The checks of the document, in front of `parseClientMetadata`.
unfoldable pub is_document_of : Text → Fields → Bool
unfolding get_field all_texts
is_document_of client value =
    elim (as_text (get_field (text "client_id") value)) [
      | none ↦ false
      | some id ↦ text_eq id client
    ]
    && elim (as_text (get_field (text "client_name") value)) [ none ↦ false | some _ ↦ true ]
    && elim (get_field (text "redirect_uris") value) [
      | some (arr uris) ↦ all_texts uris
      | _ ↦ false
    ]

-- `addresses.length === 0 || addresses.some(isPrivateIp)`, else the host may be asked.
unfoldable pub all_public : List Text → Bool
all_public [] = false
all_public (a ∷ as_) = not (any is_private_ip (a ∷ as_))

-- The answer, and the URLs that were asked, in order.
abbrev pub Asked : Type 0
Asked = Outcome OAuthClientMetadata × List Text

abbrev pub asking : Text → Asked → Asked
asking href asked = (asked.0, href ∷ asked.1)

unfoldable pub read_object : Text → Option Json → Outcome OAuthClientMetadata
read_object client (some (obj value)) =
    if is_document_of client value then ok (parse_client_metadata value) else err invalid_cimd
read_object client _ = err invalid_cimd

module _ ⦃platform : Platform⦄ where
  unfoldable pub is_cimd_client_id : Text → Bool
  is_cimd_client_id client = elim (platform.parse_url client) [
    | none ↦ false
    | some url ↦ is_cimd_url url
  ]

  unfoldable pub is_public_host : Url → Bool
  is_public_host url = elim (platform.lookup url.hostname) [
    | none ↦ false
    | some addresses ↦ all_public addresses
  ]

  -- A response that is no redirect.
  unfoldable pub read_document : Text → Response → Outcome OAuthClientMetadata
  read_document client r =
      if not (leb 200 r.status && ltb r.status 300)
        || elim r.content_length [ none ↦ false | some n ↦ ltb (64 * 1024) n ]
      then err invalid_cimd
      else read_object client (platform.parse_json r.body)

  -- `!location`, and the URL that it names from the current one.
  unfoldable pub next_url : Url → Response → Option Url
  next_url current r = elim r.location [
    | none ↦ none
    | some location ↦ if is_empty location then none else platform.resolve_url location current
  ]

  abbrev pub is_redirect : Response → Bool
  is_redirect r = leb 300 r.status && ltb r.status 400

  -- What follows a redirect; `rest` is the loop from the next URL.
  unfoldable pub follow : (Url → Asked) → Option Url → Asked
  follow rest none = (err invalid_cimd, [])
  follow rest (some next) =
      if is_cimd_client_id next.href && is_public_host next
      then rest next
      else (err invalid_cimd, [])

  -- `redirects === 3` is the last round, with none left.
  unfoldable pub after_redirect : ℕ → (Url → Asked) → Url → Response → Asked
  after_redirect zero rest current r = (err invalid_cimd, [])
  after_redirect (suc left) rest current r = follow rest (next_url current r)

  unfoldable pub answered : Text → ℕ → (Url → Asked) → Url → Option Response → Asked
  answered client left rest current none = (err invalid_cimd, [])
  answered client left rest current (some r) =
      if is_redirect r then after_redirect left rest current r else (read_document client r, [])

  -- The loop, with the redirects left.
  unfoldable pub fetch_from : Text → ℕ → Url → Asked
  fetch_from client zero current =
      asking current.href
        (answered client zero (λ _. (err invalid_cimd, [])) current (platform.fetch current.href))
  fetch_from client (suc left) current =
      asking current.href
        (answered client (suc left) (fetch_from client left) current (platform.fetch current.href))

  unfoldable pub fetch_named : Text → Option Url → Asked
  fetch_named client none = (err invalid_cimd, [])
  fetch_named client (some url) =
      if is_cimd_client_id client && is_public_host url
      then fetch_from client 3 url
      else (err invalid_cimd, [])

  unfoldable pub fetch_cimd_metadata : Text → Asked
  fetch_cimd_metadata client = fetch_named client (platform.parse_url client)
