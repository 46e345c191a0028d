-- ===== src/OAuth.antt =====
-- The OAuth server for MCP clients (src/mcp/oauthService.ts): its tables, and what it takes from the
-- platform. The service's tables have no tenant filter, and no other service reads them.
use ptv_mcp.Base.{ℕ, Bool, List, Option, Text}
use ptv_mcp.Json.{Json, Fields}
use ptv_mcp.World.{PtvEnvironment}
pub mod Addresses
pub mod Cimd
pub mod Tokens
pub mod Grants
mod Exchange
mod Access
mod Decimals
mod Outside
mod Fetched
mod Once
mod Mapped
mod Tests

-- What an access token is issued for.
pub record Grant : Type 0 where
  pub user_id : Text
  pub scope : Text
  pub tenant_id : Option Text
  pub environment : PtvEnvironment
  pub read_api_version : Text
  pub write_api_version : Option Text

-- `oauth_authorization_codes`
pub record CodeRow : Type 0 where
  pub id : Text
  pub code_hash : Text
  pub client_id : Text
  pub redirect_uri : Text
  pub code_challenge : Text
  pub grant : Grant
  pub expires_at : ℕ
  pub consumed_at : Option ℕ

-- `oauth_refresh_tokens`
pub record GrantToken : Type 0 where
  pub token_hash : Text
  pub client_id : Text
  pub grant : Grant
  pub expires_at : ℕ
  pub revoked_at : Option ℕ

pub record OAuthClientMetadata : Type 0 where
  pub client_id : Option Text
  pub client_name : Option Text
  pub redirect_uris : List Text
  pub grant_types : Option (List Text)
  pub response_types : Option (List Text)
  pub token_endpoint_auth_method : Option Text
  pub application_type : Option Text

-- `oauth_clients`
pub record ClientRow : Type 0 where
  pub client_id : Text
  pub client_name : Option Text
  pub redirect_uris : List Text
  pub grant_types : List Text
  pub response_types : List Text
  pub token_endpoint_auth_method : Text
  pub application_type : Text

pub record AuthorizationRequest : Type 0 where
  pub client_id : Text
  pub redirect_uri : Text
  pub code_challenge : Text
  pub state : Option Text
  pub scope : Text
  pub tenant_id : Option Text
  pub environment : Option PtvEnvironment
  pub read_api_version : Option Text
  pub write_api_version : Option Text

pub record OAuthDb : Type 0 where
  pub now : ℕ
  pub seed : ℕ
  pub clients : List ClientRow
  pub codes : List CodeRow
  pub refresh_tokens : List GrantToken

pub data OAuthError : Type 0 where
  redirect_uris_required : OAuthError
  invalid_grant : OAuthError
  invalid_selection : OAuthError
  invalid_token : OAuthError
  -- What the token library throws.
  verification_failed : OAuthError
  invalid_client : OAuthError
  invalid_cimd : OAuthError
  tenant_required : OAuthError

pub data Outcome (A : Type 0) : Type 0 where
  ok : A → Outcome A
  err : OAuthError → Outcome A

-- `new URL(…)`
pub record Url : Type 0 where
  pub href : Text
  pub protocol : Text
  pub hostname : Text
  pub pathname : Text
  pub username : Text
  pub password : Text
  pub search : Text
  pub hash : Text

-- `content_length` is the header as a number, if it is there and is one.
pub record Response : Type 0 where
  pub status : ℕ
  pub location : Option Text
  pub content_length : Option ℕ
  pub body : Text

-- URLs, name resolution, HTTP, JSON, hashing, random values and JSON web tokens. A call that throws
-- is `none`; `sign` and `verify` fix the algorithm, the issuer, the audience and the key.
pub record Platform : Type 0 where
  pub parse_url : Text → Option Url
  pub resolve_url : Text → Url → Option Url
  pub lookup : Text → Option (List Text)
  pub fetch : Text → Option Response
  pub parse_json : Text → Option Json
  pub generate_opaque_token : ℕ → Text
  pub random_uuid : ℕ → Text
  pub hash_token : Text → Text
  pub pkce_digest : Text → Text
  pub sign : Fields → ℕ → Text
  pub verify : Text → Option Fields
