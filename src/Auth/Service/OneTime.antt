-- ===== src/Auth/Service/OneTime.antt =====
-- Registration, the verification of addresses and password resets (src/auth/authService.ts).
use ptv_mcp.Base.{
  ℕ, ◌+◌, [], ◌∷◌, ◌++◌, Option, none, some, Text, find, update_where, if◌then◌else◌,
}
use ptv_mcp.Auth.{
  Account, OneTimeToken, verification_email, password_reset_email, AuthDb, Crypto,
  email_already_registered, invalid_or_expired_token, ok, err, AuthCall, ◌>>=◌, ◌>>◌,
  email_verification_ttl, password_reset_ttl,
}
use ptv_mcp.Auth.Service.Statements.{
  is_some, has_email, is_user, once_has_hash, is_once, verified_row, password_row, consumed_row,
  usable, revoke_all_refresh_tokens,
}

module _ ⦃crypto : Crypto⦄ where
  abbrev pub once_row : Text → ℕ → AuthDb → OneTimeToken
  once_row user ttl db = record {
    id = crypto.random_uuid (db.seed + 1);
    user_id = user;
    token_hash = crypto.hash_token (crypto.generate_opaque_token db.seed);
    expires_at = db.now + ttl;
    consumed_at = none;
  }

  unfoldable pub issue_email_verification_token : Text → Text → AuthDb → AuthDb
  issue_email_verification_token user email db = record db {
    seed = db.seed + 2;
    verification_tokens = db.verification_tokens ++ once_row user email_verification_ttl db ∷ [];
    sent = db.sent ++ verification_email email (crypto.generate_opaque_token db.seed) ∷ [];
  }

  abbrev pub new_account : Text → Text → Text → AuthDb → Account
  new_account email name password db = record {
    id = crypto.random_uuid (db.seed + 1);
    email = email;
    name = name;
    password_hash = some (crypto.hash_password db.seed password);
    email_verified_at = none;
    failed_login_attempts = 0;
    locked_until = none;
  }

  -- The INSERT, with the unique constraint on `email` and the `catch` of its violation. Other
  -- requests may run between the check of `register` and this statement.
  unfoldable pub insert_user : Text → Text → Text → AuthCall Account
  insert_user email name password db =
      if is_some (find (has_email email) db.users) then (err email_already_registered, db) else (
        ok (new_account email name password db),
        record db {
          seed = db.seed + 2;
          users = db.users ++ new_account email name password db ∷ [];
        },
      )

  unfoldable pub assert_email_free : Text → AuthCall (Unit {0})
  assert_email_free email db = (
    if is_some (find (has_email email) db.users) then err email_already_registered else ok tt,
    db,
  )

  unfoldable pub register : Text → Text → Text → AuthCall Text
  register email name password = do
    assert_email_free email
    user ← insert_user email name password
    λ db. (ok user.id, issue_email_verification_token user.id user.email db)

  unfoldable pub verify_email_record : Option OneTimeToken → AuthCall (Unit {0})
  verify_email_record none db = (err invalid_or_expired_token, db)
  verify_email_record (some t) db = (
    ok tt,
    record db {
      verification_tokens =
          update_where (is_once t.id) (consumed_row db.now) db.verification_tokens;
      users = update_where (is_user t.user_id) (verified_row db.now) db.users;
    },
  )

  unfoldable pub verify_email : Text → AuthCall (Unit {0})
  verify_email raw db =
      verify_email_record
        (usable db.now (find (once_has_hash (crypto.hash_token raw)) db.verification_tokens)) db

  unfoldable pub send_reset : Option Account → AuthDb → AuthDb
  send_reset none db = db
  send_reset (some user) db = record db {
    seed = db.seed + 2;
    reset_tokens = db.reset_tokens ++ once_row user.id password_reset_ttl db ∷ [];
    sent = db.sent ++ password_reset_email user.email (crypto.generate_opaque_token db.seed) ∷ [];
  }

  unfoldable pub request_password_reset : Text → AuthDb → AuthDb
  request_password_reset email db = send_reset (find (has_email email) db.users) db

  unfoldable pub set_password : OneTimeToken → Text → AuthDb → AuthDb
  set_password t password db = record db {
    seed = db.seed + 1;
    reset_tokens = update_where (is_once t.id) (consumed_row db.now) db.reset_tokens;
    users =
        update_where (is_user t.user_id) (password_row (crypto.hash_password db.seed password))
          db.users;
  }

  unfoldable pub reset_password_record : Text → Option OneTimeToken → AuthCall (Unit {0})
  reset_password_record password none db = (err invalid_or_expired_token, db)
  reset_password_record password (some t) db =
      (ok tt, revoke_all_refresh_tokens t.user_id (set_password t password db))

  unfoldable pub reset_password : Text → Text → AuthCall (Unit {0})
  reset_password raw password db =
      reset_password_record password
        (usable db.now (find (once_has_hash (crypto.hash_token raw)) db.reset_tokens)) db
