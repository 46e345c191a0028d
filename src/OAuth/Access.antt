-- ===== src/OAuth/Access.antt =====
-- What the signed tokens say is what they were issued for (src/mcp/oauthService.ts).
use ptv_mcp.Base.{
  ℕ, ◌≡◌, refl, Option, none, some, [], ◌∷◌, Text, text, text_eq, if◌then◌else◌, is_empty,
}
use ptv_mcp.Json.{get_field}
use ptv_mcp.World.{PtvEnvironment, test, production}
use ptv_mcp.OAuth.{Grant, AuthorizationRequest, ok, Platform}
use ptv_mcp.OAuth.Tokens.{
  environment_text, access_claims, Access, environment_of, read_access, issue_access_token,
  verify_access_token, selection_claims, read_selection, create_tenant_selection_token,
  verify_tenant_selection_token, claim,
}

-- An empty text is left out.
abbrev pub if_filled : Option Text → Option Text
if_filled none = none
if_filled (some s) = if is_empty s then none else some s

abbrev pub access_to : Grant → Text → Access
access_to g client = record {
  sub = g.user_id;
  client_id = some client;
  scope = g.scope;
  tenant_id = if_filled g.tenant_id;
  environment = some g.environment;
  read_api_version = some g.read_api_version;
  write_api_version = if_filled g.write_api_version;
}

read_environment : (e : PtvEnvironment) → environment_of (some (environment_text e)) ≡ some e
unfolding environment_of text_eq
read_environment test = refl
read_environment production = refl

reads_back :
    (g : Grant) (client : Text) (tenant write : Option Text)
    → g.tenant_id ≡ tenant
    → g.write_api_version ≡ write
    → read_access (access_claims g client) (claim (text "sub") (access_claims g client))
      ≡ ok (access_to g client)
unfolding read_access access_claims get_field text_eq
reads_back g client none none t w = rw (t, w, read_environment g.environment)
reads_back g client none (some []) t w = rw (t, w, read_environment g.environment)
reads_back g client none (some (c ∷ s)) t w = rw (t, w, read_environment g.environment)
reads_back g client (some []) none t w = rw (t, w, read_environment g.environment)
reads_back g client (some []) (some []) t w = rw (t, w, read_environment g.environment)
reads_back g client (some []) (some (c ∷ s)) t w = rw (t, w, read_environment g.environment)
reads_back g client (some (c ∷ s)) none t w = rw (t, w, read_environment g.environment)
reads_back g client (some (c ∷ s)) (some []) t w = rw (t, w, read_environment g.environment)
reads_back g client (some (c ∷ s)) (some (d ∷ u)) t w = rw (t, w, read_environment g.environment)

module _ ⦃platform : Platform⦄ where
  -- If the claims of a signed access token verify to themselves, an access token says the user,
  -- client, scope, environment and versions of the grant that it was issued for, and its
  -- organisation and write version unless they are missing or empty.
  pub access_token_round_trip :
      (g : Grant) (client : Text) (now : ℕ)
      → platform.verify (platform.sign (access_claims g client) now) ≡ some (access_claims g client)
      → verify_access_token (issue_access_token g client now) ≡ ok (access_to g client)
  unfolding verify_access_token issue_access_token
  access_token_round_trip g client now lawful =
      rw (lawful, verify_access_token)
        (reads_back g client g.tenant_id g.write_api_version refl refl)

  selection_reads_back :
      (user : Text) (r : AuthorizationRequest) (state : Option Text)
      → r.state ≡ state
      → read_selection (selection_claims user r)
        ≡ ok (record {
          user_id = user;
          client_id = r.client_id;
          redirect_uri = r.redirect_uri;
          code_challenge = r.code_challenge;
          scope = r.scope;
          state = if_filled r.state;
        })
  unfolding read_selection selection_claims get_field text_eq
  selection_reads_back user r none e = rw e
  selection_reads_back user r (some []) e = rw e
  selection_reads_back user r (some (c ∷ s)) e = rw e

  pub selection_round_trip :
      (user : Text) (r : AuthorizationRequest) (now : ℕ)
      → platform.verify (platform.sign (selection_claims user r) now)
        ≡ some (selection_claims user r)
      → verify_tenant_selection_token (create_tenant_selection_token user r now)
        ≡ ok (record {
          user_id = user;
          client_id = r.client_id;
          redirect_uri = r.redirect_uri;
          code_challenge = r.code_challenge;
          scope = r.scope;
          state = if_filled r.state;
        })
  unfolding verify_tenant_selection_token create_tenant_selection_token
  selection_round_trip user r now lawful =
      rw (lawful, verify_tenant_selection_token) (selection_reads_back user r r.state refl)
