-- ===== src/OAuth/Exchange.antt =====
-- An authorization code is exchanged once (src/mcp/oauthService.ts, exchangeCode).
use ptv_mcp.Base.{
  ℕ, ◌+◌, ◌≤◌, ◌≡◌, refl, ◌∙◌, inl, inr, Bool, true, false, none, some, [], ◌∷◌, ◌++◌, arith, Text,
  text_eq_iff, text_eq_refl, Bool-cases, Option-cases, find, update_where, find-update_where,
}
use ptv_mcp.OAuth.{CodeRow, OAuthDb, invalid_grant, Outcome, ok, err, Platform}
use ptv_mcp.OAuth.Tokens.{issue_access_token}
use ptv_mcp.OAuth.Grants.{
  is_allowed_grant, has_code, is_open_code, used_row, TokenResponse, token_response, matches,
  consume_code, grant_token_row, issue_tokens, exchange_row, exchange_code,
}

abbrev pub is_used : CodeRow → Bool
is_used c = elim c.consumed_at [ none ↦ false | some _ ↦ true ]

module _ ⦃platform : Platform⦄ where
  pub record Exchanged (code client uri verifier : Text) (r : TokenResponse) (db db' : OAuthDb)
      : Type 0 where
    pub row : CodeRow
    pub found : find (has_code (platform.hash_token code)) db.codes ≡ some row
    pub unused : is_used row ≡ false
    pub in_time : db.now ≤ row.expires_at
    pub client_id : row.client_id ≡ client
    pub redirect_uri : row.redirect_uri ≡ uri
    pub verified : platform.pkce_digest verifier ≡ row.code_challenge
    pub allowed : is_allowed_grant row.grant ≡ true
    pub access : r.access_token ≡ issue_access_token row.grant client db.now
    pub used : find (has_code (platform.hash_token code)) db'.codes ≡ some (used_row db.now row)
    pub raw : Text
    pub answered : r.refresh_token ≡ some raw
    pub stored :
        db'.refresh_tokens
        ≡ db.refresh_tokens
          ++ record {
            token_hash = platform.hash_token raw;
            client_id = client;
            grant = row.grant;
            expires_at = db.now + 2592000000;
            revoked_at = none;
          }
            ∷ []

  -- What `matches` tests.
  pub record MatchesRequest (client uri verifier : Text) (now : ℕ) (c : CodeRow) : Type 0 where
    pub unused : is_used c ≡ false
    pub in_time : now ≤ c.expires_at
    pub client_id : c.client_id ≡ client
    pub redirect_uri : c.redirect_uri ≡ uri
    pub verified : platform.pkce_digest verifier ≡ c.code_challenge

  matches-ok :
      (client uri verifier : Text) (now : ℕ) (c : CodeRow)
      → matches client uri verifier now c ≡ true
      → MatchesRequest client uri verifier now c
  matches-ok client uri verifier now c h = record {
    unused = ground arith;
    in_time = ground arith;
    client_id = (text_eq_iff c.client_id client).0 (ground arith);
    redirect_uri = (text_eq_iff c.redirect_uri uri).0 (ground arith);
    verified = (text_eq_iff (platform.pkce_digest verifier) c.code_challenge).0 (ground arith);
  }

  open_is_updated : (c : CodeRow) → is_used c ≡ false → is_open_code c.id c ≡ true
  open_is_updated c h = rw (text_eq_refl c.id) (ground arith)

  module _ (code client uri verifier : Text) (r : TokenResponse) (db db' : OAuthDb) where
    issued :
        (c : CodeRow)
        → find (has_code (platform.hash_token code)) db.codes ≡ some c
        → MatchesRequest client uri verifier db.now c
        → issue_tokens c client (consume_code c db) ≡ (ok r, db')
        → Exchanged code client uri verifier r db db'
    unfolding issue_tokens consume_code token_response
    issued c found fine h = elim (Bool-cases (is_allowed_grant c.grant)) [
      | inr refused ↦ absurd (no (rw refused at h))
      | inl allowed ↦ done allowed (rw allowed at h)
    ]
      where
        no :
            {w : OAuthDb}
            → ◌≡◌ {A = Outcome TokenResponse × OAuthDb} (err invalid_grant, w) (ok r, db')
            → ⊥
        no e = absurd (cc e)

        after : OAuthDb
        after = record db {
          seed = db.seed + 1;
          codes = update_where (is_open_code c.id) (used_row db.now) db.codes;
          refresh_tokens = db.refresh_tokens ++ grant_token_row c client db ∷ [];
        }

        done :
            is_allowed_grant c.grant ≡ true
            → ◌≡◌ {A = Outcome TokenResponse × OAuthDb}
                (
                  ok (
                      token_response c.grant client
                        (some (platform.generate_opaque_token db.seed))
                        db.now),
                  after,
                )
                (ok r, db')
            → Exchanged code client uri verifier r db db'
        done allowed e =
            let s : db' ≡ after = cc e in
            let a : r.access_token ≡ issue_access_token c.grant client db.now = cc e in
            rw s (record {
              row = c;
              found = found;
              unused = fine.unused;
              in_time = fine.in_time;
              client_id = fine.client_id;
              redirect_uri = fine.redirect_uri;
              verified = fine.verified;
              allowed = allowed;
              access = a;
              used =
                  find-update_where (has_code (platform.hash_token code)) (is_open_code c.id)
                    (used_row db.now) (λ u. refl) db.codes c found
                  ∙ rw (open_is_updated c fine.unused);
              raw = platform.generate_opaque_token db.seed;
              answered = cc e;
              stored = refl;
            })

    matched :
        (c : CodeRow)
        → find (has_code (platform.hash_token code)) db.codes ≡ some c
        → exchange_row client uri verifier (some c) db ≡ (ok r, db')
        → Exchanged code client uri verifier r db db'
    unfolding exchange_row
    matched c found h = elim (Bool-cases (matches client uri verifier db.now c)) [
      | inl fits_ ↦ issued c found (matches-ok client uri verifier db.now c fits_) (rw fits_ at h)
      | inr other ↦ absurd (no (rw other at h))
    ]
      where
        no : ◌≡◌ {A = Outcome TokenResponse × OAuthDb} (err invalid_grant, db) (ok r, db') → ⊥
        no e = absurd (cc e)

    -- If exchanging an authorization code succeeds, the code was stored, unused and in time, was
    -- issued to this client and redirect address, the verifier hashes to its challenge, and its
    -- grant names an organisation or reads v11 only; the code is then used, the access token is
    -- issued for the stored grant, and a refresh token is added that is the one in the answer, for
    -- this client and the same grant, not revoked, with thirty days to live.
    pub exchange_code-ok :
        exchange_code code client uri verifier db ≡ (ok r, db')
        → Exchanged code client uri verifier r db db'
    unfolding exchange_code
    exchange_code-ok h = elim (Option-cases (find (has_code (platform.hash_token code)) db.codes)) [
      | inl none_ ↦ absurd (no (rw none_ at h))
      | inr (c, found) ↦ matched c found (rw found at h)
    ]
      where
        no : exchange_row client uri verifier none db ≡ (ok r, db') → ⊥
        no e = unfold exchange_row in absurd (cc e)
