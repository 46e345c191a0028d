-- ===== src/OAuth/Once.antt =====
-- An authorization code works once, in any sequence of requests (src/mcp/oauthService.ts).
use ptv_mcp.Base.{
  ℕ, ◌≡◌, refl, ap, ◌∙◌, inl, inr, Bool, true, false, not, ◌&&◌, Option, none, some, List, [], ◌∷◌,
  arith, Text, text_eq, Bool-cases, find, update_where, Grows, Grows-refl, Grows-trans,
  Grows-append, update_where-Grows, find-Grows, is_empty,
}
use ptv_mcp.OAuth.{
  Grant, CodeRow, OAuthClientMetadata, AuthorizationRequest, OAuthDb, invalid_grant, Outcome, ok,
  err, Platform,
}
use ptv_mcp.World.{PtvEnvironment}
use ptv_mcp.OAuth.Grants.{
  is_allowed_grant, has_code, is_open_code, used_row, TokenResponse, matches, consume_code,
  issue_tokens, exchange_row, exchange_code, register_uris, register_client, issue_code,
  create_for_grant, create_selected, create_authorization_code, requested_grant, code_row,
  is_filled, is_allowed_without_tenant,
}
use ptv_mcp.OAuth.Exchange.{is_used, exchange_code-ok}

-- A request, or the late half of an exchange whose code was read in an earlier state.
pub data OAuthEvent : Type 0 where
  clock : ℕ → OAuthEvent
  register : OAuthClientMetadata → OAuthEvent
  authorize : Text → AuthorizationRequest → OAuthEvent
  exchange : Text → Text → Text → Text → OAuthEvent
  exchange_late : CodeRow → Text → OAuthEvent

module _ ⦃platform : Platform⦄ where
  unfoldable pub run : OAuthEvent → OAuthDb → OAuthDb
  run (clock time) db = record db { now = time }
  run (register m) db = (register_client m db).1
  run (authorize user r) db = (create_authorization_code user r db).1
  run (exchange code client uri verifier) db = (exchange_code code client uri verifier db).1
  run (exchange_late c client) db = (issue_tokens c client (consume_code c db)).1

  unfoldable pub run_all : List OAuthEvent → OAuthDb → OAuthDb
  run_all [] db = db
  run_all (e ∷ es) db = run_all es (run e db)

-- A code keeps its hash, and stays used.
pub record CodeKept (x y : CodeRow) : Type 0 where
  pub code_hash : y.code_hash ≡ x.code_hash
  pub used : is_used x ≡ true → is_used y ≡ true

CodeKept-refl : (x : CodeRow) → CodeKept x x
CodeKept-refl x = record { code_hash = refl; used = λ h. h }

CodeKept-trans : (x y z : CodeRow) → CodeKept x y → CodeKept y z → CodeKept x z
CodeKept-trans x y z h k = record {
  code_hash = k.code_hash ∙ h.code_hash;
  used = λ e. k.used (h.used e);
}

abbrev Kept : OAuthDb → OAuthDb → Type 0
Kept db db' = Grows CodeKept db.codes db'.codes

Kept-refl : (db : OAuthDb) → Kept db db
Kept-refl db = Grows-refl CodeKept CodeKept-refl db.codes

Kept-trans : (a b c : OAuthDb) → Kept a b → Kept b c → Kept a c
Kept-trans a b c h k = Grows-trans CodeKept CodeKept-trans a.codes b.codes c.codes h k

module _ ⦃platform : Platform⦄ where
  register_uris-Kept :
      (m : OAuthClientMetadata) (uris : List Text) (db : OAuthDb)
      → Kept db (register_uris m uris db).1
  unfolding register_uris
  register_uris-Kept m [] db = Kept-refl db
  register_uris-Kept m (uri ∷ uris) db = Kept-refl db

  register_client-Kept : (m : OAuthClientMetadata) (db : OAuthDb) → Kept db (register_client m db).1
  unfolding register_client
  register_client-Kept m db = register_uris-Kept m m.redirect_uris db

  issue_code-Kept :
      (r : AuthorizationRequest) (g : Grant) (o : Outcome Bool) (db : OAuthDb)
      → Kept db (issue_code r g o db).1
  unfolding issue_code
  issue_code-Kept r g (err e) db = Kept-refl db
  issue_code-Kept r g (ok false) db = Kept-refl db
  issue_code-Kept r g (ok true) db =
      Grows-append CodeKept CodeKept-refl db.codes (code_row r g db ∷ [])

  create_for_grant-Kept :
      (r : AuthorizationRequest) (g : Grant) (db : OAuthDb) → Kept db (create_for_grant r g db).1
  unfolding create_for_grant
  create_for_grant-Kept r g db =
      elim (Bool-cases (
        not (is_filled g.tenant_id)
        && not (is_allowed_without_tenant r.read_api_version r.write_api_version))) [
          | inl refused ↦ rw refused (Kept-refl db)
          | inr fine ↦ rw fine (issue_code-Kept r g _ db)
        ]

  create_selected-Kept :
      (user : Text) (r : AuthorizationRequest) (e : Option PtvEnvironment) (read : Option Text)
      (db : OAuthDb)
      → Kept db (create_selected user r e read db).1
  unfolding create_selected
  create_selected-Kept user r none read db = Kept-refl db
  create_selected-Kept user r (some e) none db = Kept-refl db
  create_selected-Kept user r (some e) (some read) db = elim (Bool-cases (is_empty read)) [
    | inl empty ↦ rw empty (Kept-refl db)
    | inr full ↦ rw full (create_for_grant-Kept r (requested_grant user r e read) db)
  ]

  issue_tokens-Kept :
      (c : CodeRow) (client : Text) (db : OAuthDb)
      → Kept db (issue_tokens c client (consume_code c db)).1
  unfolding issue_tokens consume_code
  issue_tokens-Kept c client db = elim (Bool-cases (is_allowed_grant c.grant)) [
    | inl allowed ↦ rw allowed consumed
    | inr refused ↦ rw refused consumed
  ]
    where
      consumed :
          Grows CodeKept db.codes (update_where (is_open_code c.id) (used_row db.now) db.codes)
      consumed =
          update_where-Grows CodeKept CodeKept-refl (is_open_code c.id) (used_row db.now)
            (λ x. record { code_hash = refl; used = λ h. refl }) db.codes

  exchange_row-Kept :
      (client uri verifier : Text) (o : Option CodeRow) (db : OAuthDb)
      → Kept db (exchange_row client uri verifier o db).1
  unfolding exchange_row
  exchange_row-Kept client uri verifier none db = Kept-refl db
  exchange_row-Kept client uri verifier (some c) db =
      elim (Bool-cases (matches client uri verifier db.now c)) [
        | inl fine ↦ rw fine (issue_tokens-Kept c client db)
        | inr other ↦ rw other (Kept-refl db)
      ]

  exchange_code-Kept :
      (code client uri verifier : Text) (db : OAuthDb)
      → Kept db (exchange_code code client uri verifier db).1
  unfolding exchange_code
  exchange_code-Kept code client uri verifier db = exchange_row-Kept client uri verifier _ db

  create_authorization_code-Kept :
      (user : Text) (r : AuthorizationRequest) (db : OAuthDb)
      → Kept db (create_authorization_code user r db).1
  unfolding create_authorization_code
  create_authorization_code-Kept user r db =
      create_selected-Kept user r r.environment r.read_api_version db

  run-Kept : (e : OAuthEvent) (db : OAuthDb) → Kept db (run e db)
  unfolding run
  run-Kept (clock time) db = Kept-refl db
  run-Kept (register m) db = register_client-Kept m db
  run-Kept (authorize user r) db = create_authorization_code-Kept user r db
  run-Kept (exchange code client uri verifier) db = exchange_code-Kept code client uri verifier db
  run-Kept (exchange_late c client) db = issue_tokens-Kept c client db

  run_all-Kept : (es : List OAuthEvent) (db : OAuthDb) → Kept db (run_all es db)
  unfolding run_all
  run_all-Kept [] db = Kept-refl db
  run_all-Kept (e ∷ es) db =
      Kept-trans db (run e db) (run_all es (run e db)) (run-Kept e db) (run_all-Kept es (run e db))

  used_refused :
      (code client uri verifier : Text) (db : OAuthDb) (c : CodeRow)
      → find (has_code (platform.hash_token code)) db.codes ≡ some c
      → is_used c ≡ true
      → exchange_code code client uri verifier db ≡ (err invalid_grant, db)
  unfolding exchange_code exchange_row
  used_refused code client uri verifier db c found used =
      let no : matches client uri verifier db.now c ≡ false = ground arith in rw (found, no)

  -- After an authorization code was exchanged, every exchange of it is refused and changes
  -- nothing, by whatever client, redirect and verifier, in every state that later requests lead
  -- to; late statements of exchanges that read the code earlier are among those requests.
  pub code_once :
      (code client uri verifier : Text) (r : TokenResponse) (db db' : OAuthDb)
      → exchange_code code client uri verifier db ≡ (ok r, db')
      → (events : List OAuthEvent) (client' uri' verifier' : Text)
      → exchange_code code client' uri' verifier' (run_all events db')
        ≡ (err invalid_grant, run_all events db')
  code_once code client uri verifier r db db' h events client' uri' verifier' =
      let x = exchange_code-ok code client uri verifier r db db' h in
      let (c, found, kept) =
        find-Grows CodeKept (has_code (platform.hash_token code))
          (λ x y k. ap (λ (s : Text). text_eq s (platform.hash_token code)) k.code_hash) db'.codes
          (run_all events db').codes _ (run_all-Kept events db') x.used in
      used_refused code client' uri' verifier' (run_all events db') c found (kept.used refl)
