-- ===== src/Auth/Service/Sessions.antt =====
-- Credentials, sessions and refresh tokens (src/auth/authService.ts).
use ptv_mcp.Base.{
  ◌+◌, ◌&&◌, List, [], ◌∷◌, ◌++◌, Option, none, some, Text, ltb, find, update_where, if◌then◌else◌,
}
use ptv_mcp.Auth.{
  Account, RefreshToken, AuthDb, Crypto, invalid_credentials, invalid_or_expired_token, Session, ok,
  err, AuthCall, ◌>>=◌, ◌>>◌, refresh_token_ttl, access_token_ttl_seconds,
}
use ptv_mcp.Auth.Service.Statements.{
  is_some, has_email, is_user, has_hash, is_token, is_live_of, revoked_row, replaced_row,
  assert_not_locked, record_failed_login, clear_failures, revoke_all_refresh_tokens,
}

module _ ⦃crypto : Crypto⦄ where
  unfoldable pub check_password : Account → Text → Option Text → AuthCall Text
  check_password user password none db = (err invalid_credentials, db)
  check_password user password (some hash) db =
      if crypto.verify_password hash password
      then (ok user.id, clear_failures user db)
      else (err invalid_credentials, record_failed_login user.id user.failed_login_attempts db)

  unfoldable pub check_account : Text → Option Account → AuthCall Text
  check_account password none db = (err invalid_credentials, db)
  check_account password (some user) db =
      (do assert_not_locked user; check_password user password user.password_hash) db

  -- The password checks whose only purpose is to take time are left out.
  unfoldable pub verify_credentials : Text → Text → AuthCall Text
  verify_credentials email password db = check_account password (find (has_email email) db.users) db

  -- The row that `issueSession` inserts.
  abbrev pub session_row : Text → AuthDb → RefreshToken
  session_row user db = record {
    id = crypto.random_uuid (db.seed + 1);
    user_id = user;
    token_hash = crypto.hash_token (crypto.generate_opaque_token db.seed);
    expires_at = db.now + refresh_token_ttl;
    revoked_at = none;
    replaced_by_token_id = none;
  }

  -- The table after `issueSession`: the new row, and the old one marked as replaced.
  abbrev pub rotated : Text → Option Text → AuthDb → List RefreshToken
  rotated user none db = db.refresh_tokens ++ session_row user db ∷ []
  rotated user (some old) db =
      update_where (is_token old) (replaced_row db.now (crypto.random_uuid (db.seed + 1)))
        (db.refresh_tokens ++ session_row user db ∷ [])

  unfoldable pub issue_session : Text → Option Text → AuthCall Session
  issue_session user replaces db = (
    ok (record {
      access_token = crypto.sign_access_token user db.now;
      refresh_token = crypto.generate_opaque_token db.seed;
      expires_in = access_token_ttl_seconds;
    }),
    record db { seed = db.seed + 2; refresh_tokens = rotated user replaces db },
  )

  unfoldable pub login : Text → Text → AuthCall Session
  login email password = do user ← verify_credentials email password; issue_session user none

  unfoldable pub check_sign_in : Option Account → AuthCall (Unit {0})
  check_sign_in none db = (err invalid_credentials, db)
  check_sign_in (some user) db = assert_not_locked user db

  unfoldable pub assert_can_sign_in : Text → AuthCall (Unit {0})
  assert_can_sign_in user db = check_sign_in (find (is_user user) db.users) db

  unfoldable pub create_session : Text → AuthCall Session
  create_session user = do assert_can_sign_in user; issue_session user none

  unfoldable pub refresh_record : Option RefreshToken → AuthCall Session
  refresh_record none db = (err invalid_or_expired_token, db)
  refresh_record (some t) db =
      if is_some t.revoked_at
      then (err invalid_or_expired_token, revoke_all_refresh_tokens t.user_id db)
      else if ltb t.expires_at db.now
      then (err invalid_or_expired_token, db)
      else issue_session t.user_id (some t.id) db

  unfoldable pub refresh : Text → AuthCall Session
  refresh raw db = refresh_record (find (has_hash (crypto.hash_token raw)) db.refresh_tokens) db

  unfoldable pub logout : Text → Text → AuthDb → AuthDb
  logout user raw db = record db {
    refresh_tokens =
        update_where (λ t. has_hash (crypto.hash_token raw) t && is_live_of user t)
          (revoked_row db.now) db.refresh_tokens;
  }
