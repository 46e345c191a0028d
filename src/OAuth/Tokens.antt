-- ===== src/OAuth/Tokens.antt =====
-- The signed tokens: access tokens and the choice of an organisation (src/mcp/oauthService.ts).
use ptv_mcp.Base.{ℕ, Option, none, some, [], Text, text, text_eq, if◌then◌else◌, is_empty}
use ptv_mcp.Json.{Fields, str, end, field, get_field}
use ptv_mcp.World.{PtvEnvironment, test, production}
use ptv_mcp.OAuth.{
  Grant, AuthorizationRequest, invalid_token, invalid_selection, verification_failed, Outcome, ok,
  err, Platform,
}
use ptv_mcp.OAuth.Cimd.{as_text}

abbrev pub environment_text : PtvEnvironment → Text
environment_text test = text "test"
environment_text production = text "production"

-- `...(value ? { key: value } : {})`, in front of other claims.
abbrev pub with_filled : Text → Option Text → Fields → Fields
with_filled key none claims = claims
with_filled key (some s) claims = if is_empty s then claims else field key (str s) claims

-- `setSubject`, and the claims of `issueAccessToken`.
unfoldable pub access_claims : Grant → Text → Fields
access_claims g client = field (text "client_id") (str client) (
    field (text "scope") (str g.scope) (
      with_filled (text "tenant_id") g.tenant_id (
        field (text "environment") (str (environment_text g.environment)) (
          field (text "read_api_version") (str g.read_api_version) (
            with_filled (text "write_api_version") g.write_api_version
              (field (text "sub") (str g.user_id) end))))))

-- What an access token says.
pub record Access : Type 0 where
  pub sub : Text
  pub client_id : Option Text
  pub scope : Text
  pub tenant_id : Option Text
  pub environment : Option PtvEnvironment
  pub read_api_version : Option Text
  pub write_api_version : Option Text

unfoldable pub environment_of : Option Text → Option PtvEnvironment
environment_of none = none
environment_of (some s) =
    if text_eq s (text "test")
    then some test
    else if text_eq s (text "production")
    then some production
    else none

abbrev pub or_empty : Option Text → Text
or_empty none = []
or_empty (some s) = s

unfoldable pub read_access : Fields → Option Text → Outcome Access
read_access claims none = err invalid_token
read_access claims (some sub) = ok (record {
  sub = sub;
  client_id = as_text (get_field (text "client_id") claims);
  scope = or_empty (as_text (get_field (text "scope") claims));
  tenant_id = as_text (get_field (text "tenant_id") claims);
  environment = environment_of (as_text (get_field (text "environment") claims));
  read_api_version = as_text (get_field (text "read_api_version") claims);
  write_api_version = as_text (get_field (text "write_api_version") claims);
})

-- The claims of `createTenantSelectionToken`.
unfoldable pub selection_claims : Text → AuthorizationRequest → Fields
selection_claims user r = field (text "kind") (str (text "tenant_selection")) (
    field (text "client_id") (str r.client_id) (
      field (text "redirect_uri") (str r.redirect_uri) (
        field (text "code_challenge") (str r.code_challenge) (
          field (text "scope") (str r.scope)
            (with_filled (text "state") r.state (field (text "sub") (str user) end))))))

pub record TenantSelection : Type 0 where
  pub user_id : Text
  pub client_id : Text
  pub redirect_uri : Text
  pub code_challenge : Text
  pub scope : Text
  pub state : Option Text

-- The claims that have to be texts, in the order in which they are checked.
unfoldable pub selection_of :
    Option Text
    → Option Text
    → Option Text
    → Option Text
    → Option Text
    → Option Text
    → Option Text
    → Outcome TenantSelection
selection_of (some kind) (some sub) (some client) (some uri) (some challenge) (some scope) state =
    if text_eq kind (text "tenant_selection")
    then ok (record {
      user_id = sub;
      client_id = client;
      redirect_uri = uri;
      code_challenge = challenge;
      scope = scope;
      state = state;
    })
    else err invalid_selection
selection_of _ _ _ _ _ _ _ = err invalid_selection

abbrev pub claim : Text → Fields → Option Text
claim key claims = as_text (get_field key claims)

unfoldable pub read_selection : Fields → Outcome TenantSelection
unfolding selection_of
read_selection claims =
    selection_of (claim (text "kind") claims) (claim (text "sub") claims)
      (claim (text "client_id") claims) (claim (text "redirect_uri") claims)
      (claim (text "code_challenge") claims) (claim (text "scope") claims)
      (claim (text "state") claims)

module _ ⦃platform : Platform⦄ where
  unfoldable pub issue_access_token : Grant → Text → ℕ → Text
  issue_access_token g client now = platform.sign (access_claims g client) now

  -- Every failed verification is `invalid_token`.
  unfoldable pub verify_access_token : Text → Outcome Access
  verify_access_token token = elim (platform.verify token) [
    | none ↦ err invalid_token
    | some claims ↦ read_access claims (as_text (get_field (text "sub") claims))
  ]

  unfoldable pub create_tenant_selection_token : Text → AuthorizationRequest → ℕ → Text
  create_tenant_selection_token user r now = platform.sign (selection_claims user r) now

  unfoldable pub verify_tenant_selection_token : Text → Outcome TenantSelection
  verify_tenant_selection_token token = elim (platform.verify token) [
    | none ↦ err verification_failed
    | some claims ↦ read_selection claims
  ]
