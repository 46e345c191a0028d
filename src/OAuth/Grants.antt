-- ===== src/OAuth/Grants.antt =====
-- Clients, authorization codes and refresh tokens (src/mcp/oauthService.ts). The clock stands still
-- within a call.
use ptv_mcp.Base.{
  ℕ, ◌+◌, ◌*◌, Bool, true, false, not, ◌&&◌, ◌||◌, Option, none, some, List, [], ◌∷◌, ◌++◌, Text,
  text, text_eq, ltb, if◌then◌else◌, find, update_where, is_empty,
}
use ptv_mcp.World.{PtvEnvironment}
use ptv_mcp.OAuth.{
  Grant, CodeRow, GrantToken, OAuthClientMetadata, ClientRow, AuthorizationRequest, OAuthDb,
  redirect_uris_required, invalid_grant, invalid_client, tenant_required, invalid_selection,
  Outcome, ok, err, Platform,
}
use ptv_mcp.OAuth.Cimd.{is_cimd_client_id, fetch_cimd_metadata}
use ptv_mcp.OAuth.Tokens.{issue_access_token}
use ptv_mcp.Validation.Errors.{includes}

abbrev pub is_filled : Option Text → Bool
is_filled none = false
is_filled (some s) = not (is_empty s)

abbrev pub or_else : {A : Type 0} → Option A → A → A
or_else none a = a
or_else (some b) a = b

unfoldable pub is_allowed_without_tenant : Option Text → Option Text → Bool
is_allowed_without_tenant none write = false
is_allowed_without_tenant (some read) write = text_eq read (text "v11") && not (is_filled write)

-- `requireAllowedGrant` throws unless this holds.
unfoldable pub is_allowed_grant : Grant → Bool
unfolding is_allowed_without_tenant
is_allowed_grant g =
    is_filled g.tenant_id || is_allowed_without_tenant (some g.read_api_version) g.write_api_version

abbrev pub has_client_id : Text → ClientRow → Bool
has_client_id id c = text_eq c.client_id id

abbrev pub has_code : Text → CodeRow → Bool
has_code hash c = text_eq c.code_hash hash

abbrev pub has_token : Text → GrantToken → Bool
has_token hash t = text_eq t.token_hash hash

-- `WHERE id = … AND consumed_at IS NULL`
abbrev pub is_open_code : Text → CodeRow → Bool
is_open_code id c = text_eq c.id id && elim c.consumed_at [ none ↦ true | some _ ↦ false ]

abbrev pub used_row : ℕ → CodeRow → CodeRow
used_row now c = record c { consumed_at = some now }

-- INSERT … ON CONFLICT (client_id) DO UPDATE.
unfoldable pub upsert_client : ClientRow → List ClientRow → List ClientRow
upsert_client c [] = c ∷ []
upsert_client c (d ∷ ds) =
    let rest = upsert_client c ds in if text_eq d.client_id c.client_id then c ∷ ds else d ∷ rest

abbrev pub code_ttl : ℕ
code_ttl = 60 * 1000

abbrev pub grant_token_ttl : ℕ
grant_token_ttl = 30 * 24 * 60 * 60 * 1000

abbrev pub access_ttl_seconds : ℕ
access_ttl_seconds = 3600

pub record TokenResponse : Type 0 where
  pub access_token : Text
  pub expires_in : ℕ
  pub refresh_token : Option Text
  pub scope : Text

module _ ⦃platform : Platform⦄ where
  abbrev pub client_row : OAuthClientMetadata → ℕ → ClientRow
  client_row m seed = record {
    client_id = or_else m.client_id (text "urn:ptv-mcp:client:" ++ platform.random_uuid seed);
    client_name = m.client_name;
    redirect_uris = m.redirect_uris;
    grant_types = or_else m.grant_types (text "authorization_code" ∷ text "refresh_token" ∷ []);
    response_types = or_else m.response_types (text "code" ∷ []);
    token_endpoint_auth_method = or_else m.token_endpoint_auth_method (text "none");
    application_type = or_else m.application_type (text "web");
  }

  unfoldable pub register_uris :
      OAuthClientMetadata → List Text → OAuthDb → Outcome ClientRow × OAuthDb
  register_uris m [] db = (err redirect_uris_required, db)
  register_uris m (_ ∷ _) db = (
    ok (client_row m db.seed),
    record db { seed = db.seed + 1; clients = upsert_client (client_row m db.seed) db.clients },
  )

  unfoldable pub register_client : OAuthClientMetadata → OAuthDb → Outcome ClientRow × OAuthDb
  register_client m db = register_uris m m.redirect_uris db

  abbrev pub registered : Text → Option ClientRow → Bool
  registered uri none = false
  registered uri (some c) = includes c.redirect_uris uri

  abbrev pub names_uri : Text → Outcome OAuthClientMetadata → Outcome Bool
  names_uri uri (err e) = err e
  names_uri uri (ok m) = ok (includes m.redirect_uris uri)

  unfoldable pub validate_client : Text → Text → OAuthDb → Outcome Bool
  validate_client client uri db =
      if is_cimd_client_id client
      then names_uri uri (fetch_cimd_metadata client).0
      else ok (registered uri (find (has_client_id client) db.clients))

  -- The grant that a request selects, with `!request.tenantId` and the default of a write version.
  abbrev pub requested_grant : Text → AuthorizationRequest → PtvEnvironment → Text → Grant
  requested_grant user r environment read = record {
    user_id = user;
    scope = r.scope;
    tenant_id = r.tenant_id;
    environment = environment;
    read_api_version = read;
    write_api_version = r.write_api_version;
  }

  abbrev pub code_row : AuthorizationRequest → Grant → OAuthDb → CodeRow
  code_row r grant db = record {
    id = platform.random_uuid (db.seed + 1);
    code_hash = platform.hash_token (platform.generate_opaque_token db.seed);
    client_id = r.client_id;
    redirect_uri = r.redirect_uri;
    code_challenge = r.code_challenge;
    grant = grant;
    expires_at = db.now + code_ttl;
    consumed_at = none;
  }

  unfoldable pub issue_code :
      AuthorizationRequest → Grant → Outcome Bool → OAuthDb → Outcome Text × OAuthDb
  issue_code r grant (err e) db = (err e, db)
  issue_code r grant (ok false) db = (err invalid_client, db)
  issue_code r grant (ok true) db = (
    ok (platform.generate_opaque_token db.seed),
    record db { seed = db.seed + 2; codes = db.codes ++ code_row r grant db ∷ [] },
  )

  unfoldable pub create_for_grant : AuthorizationRequest → Grant → OAuthDb → Outcome Text × OAuthDb
  create_for_grant r grant db =
      if not (is_filled grant.tenant_id)
        && not (is_allowed_without_tenant r.read_api_version r.write_api_version)
      then (err tenant_required, db)
      else issue_code r grant (validate_client r.client_id r.redirect_uri db) db

  unfoldable pub create_selected :
      Text
      → AuthorizationRequest
      → Option PtvEnvironment
      → Option Text
      → OAuthDb
      → Outcome Text × OAuthDb
  create_selected user r (some environment) (some read) db =
      if is_empty read
      then (err invalid_selection, db)
      else create_for_grant r (requested_grant user r environment read) db
  create_selected user r _ _ db = (err invalid_selection, db)

  unfoldable pub create_authorization_code :
      Text → AuthorizationRequest → OAuthDb → Outcome Text × OAuthDb
  create_authorization_code user r db = create_selected user r r.environment r.read_api_version db

  unfoldable pub token_response : Grant → Text → Option Text → ℕ → TokenResponse
  token_response g client refresh now = record {
    access_token = issue_access_token g client now;
    expires_in = access_ttl_seconds;
    refresh_token = refresh;
    scope = g.scope;
  }

  -- The code matches the request: not used, in time, of this client and redirect, and by its verifier.
  abbrev pub matches : Text → Text → Text → ℕ → CodeRow → Bool
  matches client uri verifier now c =
      elim c.consumed_at [ none ↦ true | some _ ↦ false ]
      && not (ltb c.expires_at now)
      && text_eq c.client_id client
      && text_eq c.redirect_uri uri
      && text_eq (platform.pkce_digest verifier) c.code_challenge

  unfoldable pub consume_code : CodeRow → OAuthDb → OAuthDb
  consume_code c db = record db {
    codes = update_where (is_open_code c.id) (used_row db.now) db.codes;
  }

  abbrev pub grant_token_row : CodeRow → Text → OAuthDb → GrantToken
  grant_token_row c client db = record {
    token_hash = platform.hash_token (platform.generate_opaque_token db.seed);
    client_id = client;
    grant = c.grant;
    expires_at = db.now + grant_token_ttl;
    revoked_at = none;
  }

  -- What follows the UPDATE of the code.
  unfoldable pub issue_tokens : CodeRow → Text → OAuthDb → Outcome TokenResponse × OAuthDb
  issue_tokens c client db =
      if is_allowed_grant c.grant
      then (
        ok (token_response c.grant client (some (platform.generate_opaque_token db.seed)) db.now),
        record db {
          seed = db.seed + 1;
          refresh_tokens = db.refresh_tokens ++ grant_token_row c client db ∷ [];
        },
      )
      else (err invalid_grant, db)

  unfoldable pub exchange_row :
      Text → Text → Text → Option CodeRow → OAuthDb → Outcome TokenResponse × OAuthDb
  exchange_row client uri verifier none db = (err invalid_grant, db)
  exchange_row client uri verifier (some c) db =
      if matches client uri verifier db.now c
      then issue_tokens c client (consume_code c db)
      else (err invalid_grant, db)

  unfoldable pub exchange_code :
      Text → Text → Text → Text → OAuthDb → Outcome TokenResponse × OAuthDb
  exchange_code code client uri verifier db =
      exchange_row client uri verifier (find (has_code (platform.hash_token code)) db.codes) db

  abbrev pub token_matches : Text → ℕ → GrantToken → Bool
  token_matches client now t =
      elim t.revoked_at [ none ↦ true | some _ ↦ false ]
      && not (ltb t.expires_at now)
      && text_eq t.client_id client

  unfoldable pub refresh_row : Text → Option GrantToken → OAuthDb → Outcome TokenResponse
  refresh_row client none db = err invalid_grant
  refresh_row client (some t) db =
      if token_matches client db.now t && is_allowed_grant t.grant
      then ok (token_response t.grant client none db.now)
      else err invalid_grant

  -- The refresh token stays as it is.
  unfoldable pub refresh_grant : Text → Text → OAuthDb → Outcome TokenResponse
  refresh_grant raw client db =
      refresh_row client (find (has_token (platform.hash_token raw)) db.refresh_tokens) db
