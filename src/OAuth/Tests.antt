-- ===== src/OAuth/Tests.antt =====
-- The OAuth server on one client, and a stand-in for the platform.
use ptv_mcp.Base.{
  ◌≡◌, refl, true, false, none, some, List, [], ◌∷◌, text, text_eq, if◌then◌else◌, starts_with,
  includes_text,
}
use ptv_mcp.World.{test}
use ptv_mcp.OAuth.{Grant, CodeRow, OAuthDb, Url, Platform, ok, err, invalid_grant}
use ptv_mcp.OAuth.Addresses.{is_private_ip}
use ptv_mcp.OAuth.Cimd.{fetch_cimd_metadata}
use ptv_mcp.OAuth.Tokens.{access_claims, issue_access_token, verify_access_token}
use ptv_mcp.OAuth.Grants.{
  TokenResponse, exchange_code, exchange_row, issue_tokens, consume_code, token_response,
  is_allowed_grant,
}
use ptv_mcp.OAuth.Exchange.{Exchanged, exchange_code-ok}
use ptv_mcp.OAuth.Access.{access_to, access_token_round_trip}
use ptv_mcp.OAuth.Fetched.{Careful, fetched_carefully}
use ptv_mcp.OAuth.Once.{OAuthEvent, run_all, code_once}
use ptv_mcp.Validation.Patterns.{is_digits}

abbrev sample_grant : Grant
sample_grant = record {
  user_id = text "u1";
  scope = text "ptv";
  tenant_id = some (text "t1");
  environment = test;
  read_api_version = text "v11";
  write_api_version = none;
}

abbrev sample_url : Url
sample_url = record {
  href = text "https://app.example/id";
  protocol = text "https:";
  hostname = text "app.example";
  pathname = text "/id";
  username = [];
  password = [];
  search = [];
  hash = [];
}

-- One page that redirects to itself, and a signature that holds the claims of the sample grant.
instance abbrev sample_platform : Platform
sample_platform = record {
  parse_url = λ s. if text_eq s (text "https://app.example/id") then some sample_url else none;
  resolve_url = λ s current. some current;
  lookup = λ host. some (text "93.184.216.34" ∷ []);
  fetch = λ href.
      some
        (record { status = 302; location = some (text "/id"); content_length = none; body = [] });
  parse_json = λ s. none;
  generate_opaque_token = λ n. n ∷ [];
  random_uuid = λ n. n ∷ [];
  hash_token = λ s. s;
  pkce_digest = λ s. s;
  sign = λ claims now. [];
  verify = λ token. some (access_claims sample_grant (text "c1"));
}

ten_is_private : is_private_ip (text "10.0.0.1") ≡ true
unfolding is_private_ip is_digits includes_text starts_with
ten_is_private = refl

example_is_public : is_private_ip (text "93.184.216.34") ≡ false
unfolding is_private_ip is_digits includes_text starts_with
example_is_public = refl

abbrev sample_code : CodeRow
sample_code = record {
  id = text "1";
  code_hash = text "code";
  client_id = text "c1";
  redirect_uri = text "https://a";
  code_challenge = text "v";
  grant = sample_grant;
  expires_at = 2000;
  consumed_at = none;
}

abbrev sample_db : OAuthDb
sample_db = record {
  now = 1000;
  seed = 5;
  clients = [];
  codes = sample_code ∷ [];
  refresh_tokens = [];
}

abbrev exchanged_db : OAuthDb
exchanged_db = (issue_tokens sample_code (text "c1") (consume_code sample_code sample_db)).1

abbrev sample_response : TokenResponse
sample_response = token_response sample_grant (text "c1") (some (5 ∷ [])) 1000

exchanged :
    exchange_code (text "code") (text "c1") (text "https://a") (text "v") sample_db
    ≡ (ok sample_response, exchanged_db)
unfolding exchange_code exchange_row issue_tokens is_allowed_grant consume_code text_eq
exchanged = refl

exchange_code-ok_example :
    Exchanged
      (text "code")
      (text "c1")
      (text "https://a")
      (text "v")
      sample_response
      sample_db
      exchanged_db
exchange_code-ok_example =
    exchange_code-ok (text "code") (text "c1") (text "https://a") (text "v") sample_response
      sample_db exchanged_db exchanged

abbrev some_events : List OAuthEvent
some_events = OAuthEvent.exchange_late sample_code (text "c1") ∷ OAuthEvent.clock 1500 ∷ []

code_once_example :
    exchange_code
      (text "code")
      (text "c1")
      (text "https://a")
      (text "v")
      (run_all some_events exchanged_db)
    ≡ (err invalid_grant, run_all some_events exchanged_db)
code_once_example =
    code_once (text "code") (text "c1") (text "https://a") (text "v") sample_response sample_db
      exchanged_db exchanged some_events (text "c1") (text "https://a") (text "v")

access_token_round_trip_example :
    verify_access_token (issue_access_token sample_grant (text "c1") 1000)
    ≡ ok (access_to sample_grant (text "c1"))
access_token_round_trip_example = access_token_round_trip sample_grant (text "c1") 1000 refl

fetched_carefully_example : Careful 4 (fetch_cimd_metadata (text "https://app.example/id"))
fetched_carefully_example = fetched_carefully (text "https://app.example/id")
