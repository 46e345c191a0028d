-- ===== src/Auth/Rotation.antt =====
-- A refresh token is exchanged for a session once (src/auth/authService.ts, refresh and issueSession).
use ptv_mcp.Base.{
  ℕ, Option, ◌+◌, ◌≤◌, ◌≡◌, refl, ◌∙◌, inl, inr, Bool, true, false, none, some, [], ◌∷◌, ◌++◌,
  arith, Text, text_eq, text_eq_refl, ltb, Option-cases, find, find-update_where, find-append,
  find-append_none, find-none, text_eq_comm,
}
use ptv_mcp.Auth.{RefreshToken, AuthDb, Crypto, invalid_or_expired_token, ok, err, Session}
use ptv_mcp.Auth.Service.{
  is_some, has_hash, is_token, replaced_row, session_row, rotated, issue_session, refresh_record,
  refresh,
}
use ptv_mcp.Auth.Reset.{HasNoSession, revoke_all-HasNoSession}

module _ ⦃crypto : Crypto⦄ where
  abbrev hash_of : Text → RefreshToken → Bool
  hash_of raw = has_hash (crypto.hash_token raw)

  -- What a successful exchange was: the old token, then replaced.
  pub record Rotated (raw : Text) (session : Session) (db db' : AuthDb) : Type 0 where
    pub old : RefreshToken
    pub found : find (has_hash (crypto.hash_token raw)) db.refresh_tokens ≡ some old
    pub live : is_some old.revoked_at ≡ false
    pub in_time : db.now ≤ old.expires_at
    pub replaced :
        find (has_hash (crypto.hash_token raw)) db'.refresh_tokens
        ≡ some (replaced_row db.now (crypto.random_uuid (db.seed + 1)) old)
    pub access : session.access_token ≡ crypto.sign_access_token old.user_id db.now
    pub answer : session.refresh_token ≡ crypto.generate_opaque_token db.seed
    pub tokens : db'.refresh_tokens ≡ rotated old.user_id (some old.id) db
    pub users : db'.users ≡ db.users

  module _ (db : AuthDb) (old : RefreshToken) where
    abbrev set_ : RefreshToken → RefreshToken
    set_ = replaced_row db.now (crypto.random_uuid (db.seed + 1))

    old_replaced :
        (raw : Text)
        → find (hash_of raw) db.refresh_tokens ≡ some old
        → find (hash_of raw) (rotated old.user_id (some old.id) db) ≡ some (set_ old)
    old_replaced raw found =
        find-update_where (hash_of raw) (is_token old.id) set_ (λ u. refl) _ old
          (find-append (hash_of raw) db.refresh_tokens (session_row old.user_id db ∷ []) old found)
        ∙ rw (text_eq_refl old.id)

    new_issued :
        (raw : Text)
        → find (hash_of raw) db.refresh_tokens ≡ some old
        → find (hash_of (crypto.generate_opaque_token db.seed)) db.refresh_tokens ≡ none
        → find (is_token (crypto.random_uuid (db.seed + 1))) db.refresh_tokens ≡ none
        → find
            (hash_of (crypto.generate_opaque_token db.seed))
            (rotated old.user_id (some old.id) db)
          ≡ some (session_row old.user_id db)
    new_issued raw found fresh fresh_id =
        find-update_where (hash_of (crypto.generate_opaque_token db.seed)) (is_token old.id) set_
          (λ u. refl) (db.refresh_tokens ++ session_row old.user_id db ∷ [])
          (session_row old.user_id db)
          (find-append_none (hash_of (crypto.generate_opaque_token db.seed)) db.refresh_tokens _
              fresh
            ∙ rw (text_eq_refl (crypto.hash_token (crypto.generate_opaque_token db.seed))))
        ∙ rw other
      where
        other : text_eq (crypto.random_uuid (db.seed + 1)) old.id ≡ false
        other =
            text_eq_comm (crypto.random_uuid (db.seed + 1)) old.id
            ∙ find-none (hash_of raw) (is_token (crypto.random_uuid (db.seed + 1)))
                db.refresh_tokens old fresh_id found

  module _ (raw : Text) (session : Session) (db db' : AuthDb) where
    exchanged :
        (old : RefreshToken)
        → find (hash_of raw) db.refresh_tokens ≡ some old
        → refresh_record (some old) db ≡ (ok session, db')
        → Rotated raw session db db'
    unfolding refresh_record issue_session
    exchanged old found h =
        let live : is_some old.revoked_at ≡ false = ground arith in
        let in_time : db.now ≤ old.expires_at = ground arith in
        let expired : ltb old.expires_at db.now ≡ false = ground arith in
        let e = rw (live, expired) at h in
        let answer : session.refresh_token ≡ crypto.generate_opaque_token db.seed = cc e in
        let access : session.access_token ≡ crypto.sign_access_token old.user_id db.now = cc e in
        let after : db' ≡ record db {
          seed = db.seed + 2;
          refresh_tokens = rotated old.user_id (some old.id) db;
        } =
          cc e in
        rw after (record {
          old = old;
          found = found;
          live = live;
          in_time = in_time;
          replaced = old_replaced db old raw found;
          access = access;
          answer = answer;
          tokens = refl;
          users = refl;
        })

    pub refresh-Rotated : refresh raw db ≡ (ok session, db') → Rotated raw session db db'
    unfolding refresh
    refresh-Rotated h = elim (Option-cases (find (hash_of raw) db.refresh_tokens)) [
      | inl none_ ↦ absurd (failed (rw none_ at h))
      | inr (old, found) ↦ exchanged old found (rw found at h)
    ]
      where
        failed : refresh_record none db ≡ (ok session, db') → ⊥
        failed e = unfold refresh_record in cc e

  -- The row that a client with the raw token `raw` holds: live, of the user, for thirty days.
  pub record Renewed (raw id user : Text) (db db' : AuthDb) : Type 0 where
    pub row : RefreshToken
    pub found :
        find (λ t. text_eq t.token_hash (crypto.hash_token raw)) db'.refresh_tokens ≡ some row
    pub id_ : row.id ≡ id
    pub of_user : row.user_id ≡ user
    pub live : row.revoked_at ≡ none
    pub not_replaced : row.replaced_by_token_id ≡ none
    pub lifetime : row.expires_at ≡ db.now + 2592000000

  -- The old row: revoked now, replaced by the new one, and otherwise as it was.
  pub record Retired (raw id : Text) (old : RefreshToken) (db db' : AuthDb) : Type 0 where
    pub row : RefreshToken
    pub found :
        find (λ t. text_eq t.token_hash (crypto.hash_token raw)) db'.refresh_tokens ≡ some row
    pub revoked : row.revoked_at ≡ some db.now
    pub replaced : row.replaced_by_token_id ≡ some id
    pub same_id : row.id ≡ old.id
    pub same_user : row.user_id ≡ old.user_id
    pub same_expiry : row.expires_at ≡ old.expires_at

  -- A session that a refresh token was exchanged for: the old token, and the two rows afterwards.
  pub record Exchanged (raw : Text) (session : Session) (db db' : AuthDb) : Type 0 where
    pub old : RefreshToken
    pub found :
        find (λ t. text_eq t.token_hash (crypto.hash_token raw)) db.refresh_tokens ≡ some old
    pub live : old.revoked_at ≡ none
    pub in_time : db.now ≤ old.expires_at
    pub id : Text
    pub retired : Retired raw id old db db'
    pub renewed : Renewed session.refresh_token id old.user_id db db'
    pub access : session.access_token ≡ crypto.sign_access_token old.user_id db.now
    pub users : db'.users ≡ db.users

  -- If the next random token and id are in no row and exchanging a refresh token succeeds, then
  -- the token was neither revoked nor expired; its row is now revoked at the time of the call and
  -- replaced by the new row's id, with its id, user and expiry kept; the new token's row is of the
  -- same user, neither revoked nor replaced, and expires thirty days later; the access token is
  -- signed for that user, and no account changed.
  pub refresh-ok :
      (raw : Text) (session : Session) (db db' : AuthDb)
      → find (has_hash (crypto.hash_token (crypto.generate_opaque_token db.seed))) db.refresh_tokens
        ≡ none
      → find (is_token (crypto.random_uuid (db.seed + 1))) db.refresh_tokens ≡ none
      → refresh raw db ≡ (ok session, db')
      → Exchanged raw session db db'
  refresh-ok raw session db db' fresh fresh_id h =
      let r = refresh-Rotated raw session db db' h in
      record {
        old = r.old;
        found = r.found;
        live = no_time r.old.revoked_at r.live;
        in_time = r.in_time;
        id = crypto.random_uuid (db.seed + 1);
        retired = record {
          row = replaced_row db.now (crypto.random_uuid (db.seed + 1)) r.old;
          found = r.replaced;
          revoked = refl;
          replaced = refl;
          same_id = refl;
          same_user = refl;
          same_expiry = refl;
        };
        renewed = record {
          row = session_row r.old.user_id db;
          found = rw (r.answer, r.tokens) (new_issued db r.old raw r.found fresh fresh_id);
          id_ = refl;
          of_user = refl;
          live = refl;
          not_replaced = refl;
          lifetime = refl;
        };
        access = r.access;
        users = r.users;
      }
    where
      no_time : (o : Option ℕ) → is_some o ≡ false → o ≡ none
      no_time none e = refl
      no_time (some t) e = cc e

  -- A token that was already exchanged or revoked: refused, and every session of its user ends.
  pub refresh-reused :
      (raw : Text) (db : AuthDb) (t : RefreshToken)
      → find (has_hash (crypto.hash_token raw)) db.refresh_tokens ≡ some t
      → is_some t.revoked_at ≡ true
      → ((refresh raw db).0 ≡ err invalid_or_expired_token)
        × HasNoSession t.user_id (refresh raw db).1
  unfolding refresh refresh_record
  refresh-reused raw db t found gone = rw (found, gone) (refl, revoke_all-HasNoSession t.user_id db)
