-- ===== src/Auth/Reach.antt =====
-- Every request keeps the tables (src/auth/authService.ts).
use ptv_mcp.Base.{
  ◌+◌, refl, inl, inr, Option, none, some, List, [], ◌∷◌, ◌++◌, arith, Text, ltb, Bool-cases,
  Option-cases, find, Grows, Grows-trans, Grows-append, update_where-Grows,
}
use ptv_mcp.Auth.{Account, RefreshToken, OneTimeToken, AuthDb, Crypto}
use ptv_mcp.Auth.Service.{
  is_some, is_user, has_email, is_token, is_once, verified_row, password_row, revoked_row,
  replaced_row, consumed_row, assert_not_locked, check_password, check_account, verify_credentials,
  session_row, rotated, issue_session, login, check_sign_in, assert_can_sign_in, create_session,
  refresh_record, refresh, logout, issue_email_verification_token, new_account, insert_user,
  assert_email_free, register, verify_email_record, verify_email, send_reset,
  request_password_reset, set_password, reset_password_record, reset_password,
}
use ptv_mcp.Auth.Events.{AuthEvent, run, run_all}
use ptv_mcp.Auth.Later.{
  TokenKept, OnceKept, TokenKept-refl, TokenKept-trans, OnceKept-refl, Later, Later-refl,
  Later-trans, update-IsSound, append-IsSound,
}
use ptv_mcp.Auth.Steps.{
  tokens_Later, record_failed_login-Later, clear_failures-Later, revoke_all-Later, bind_Later,
  locked_Later,
}

module _ ⦃crypto : Crypto⦄ where
  check_password-Later :
      (user : Account) (password : Text) (stored : Option Text) (db : AuthDb)
      → Later db (check_password user password stored db).1
  unfolding check_password
  check_password-Later user password none db = Later-refl db
  check_password-Later user password (some hash) db =
      elim (Bool-cases (crypto.verify_password hash password)) [
        | inl right ↦ rw right (clear_failures-Later db user)
        | inr wrong ↦ rw wrong (record_failed_login-Later db user.id user.failed_login_attempts)
      ]

  check_account-Later :
      (password : Text) (o : Option Account) (db : AuthDb)
      → Later db (check_account password o db).1
  unfolding check_account
  check_account-Later password none db = Later-refl db
  check_account-Later password (some user) db =
      bind_Later (assert_not_locked user) (λ _. check_password user password user.password_hash) db
        (locked_Later user db) (λ _. check_password-Later user password user.password_hash)

  verify_credentials-Later :
      (email password : Text) (db : AuthDb) → Later db (verify_credentials email password db).1
  unfolding verify_credentials
  verify_credentials-Later email password db = check_account-Later password _ db

  rotated-Grows :
      (user : Text) (replaces : Option Text) (db : AuthDb)
      → Grows TokenKept db.refresh_tokens (rotated user replaces db)
  rotated-Grows user none db =
      Grows-append TokenKept TokenKept-refl db.refresh_tokens (session_row user db ∷ [])
  rotated-Grows user (some old) db =
      Grows-trans TokenKept TokenKept-trans db.refresh_tokens
        (db.refresh_tokens ++ session_row user db ∷ []) _
        (Grows-append TokenKept TokenKept-refl db.refresh_tokens (session_row user db ∷ []))
        (update_where-Grows TokenKept TokenKept-refl (is_token old) (replaced_row db.now _)
          (λ t. record { token_hash = refl; user_id = refl; revoked = λ h. refl })
          (db.refresh_tokens ++ session_row user db ∷ []))

  issue_session-Later :
      (user : Text) (replaces : Option Text) (db : AuthDb)
      → Later db (issue_session user replaces db).1
  unfolding issue_session
  issue_session-Later user replaces db =
      tokens_Later db _ (db.seed + 2) (rotated-Grows user replaces db)

  login-Later : (email password : Text) (db : AuthDb) → Later db (login email password db).1
  unfolding login
  login-Later email password db =
      bind_Later (verify_credentials email password) (λ user. issue_session user none) db
        (verify_credentials-Later email password db) (λ user. issue_session-Later user none)

  check_sign_in-Later : (o : Option Account) (db : AuthDb) → Later db (check_sign_in o db).1
  unfolding check_sign_in
  check_sign_in-Later none db = Later-refl db
  check_sign_in-Later (some user) db = locked_Later user db

  create_session-Later : (user : Text) (db : AuthDb) → Later db (create_session user db).1
  unfolding create_session assert_can_sign_in
  create_session-Later user db =
      bind_Later (assert_can_sign_in user) (λ _. issue_session user none) db
        (check_sign_in-Later _ db) (λ _. issue_session-Later user none)

  refresh_record-Later : (o : Option RefreshToken) (db : AuthDb) → Later db (refresh_record o db).1
  unfolding refresh_record
  refresh_record-Later none db = Later-refl db
  refresh_record-Later (some t) db = elim (Bool-cases (is_some t.revoked_at)) [
    | inl gone ↦ rw gone (revoke_all-Later db t.user_id)
    | inr live ↦ elim (Bool-cases (ltb t.expires_at db.now)) [
      | inl late ↦ rw (live, late) (Later-refl db)
      | inr early ↦ rw (live, early) (issue_session-Later t.user_id (some t.id) db)
    ]
  ]

  refresh-Later : (raw : Text) (db : AuthDb) → Later db (refresh raw db).1
  unfolding refresh
  refresh-Later raw db = refresh_record-Later _ db

  logout-Later : (user raw : Text) (db : AuthDb) → Later db (logout user raw db)
  unfolding logout
  logout-Later user raw db = tokens_Later db _ db.seed (
      update_where-Grows TokenKept TokenKept-refl _ (revoked_row db.now)
        (λ t. record { token_hash = refl; user_id = refl; revoked = λ h. refl }) db.refresh_tokens)

  insert_user-Later :
      (email name password : Text) (db : AuthDb) → Later db (insert_user email name password db).1
  unfolding insert_user
  insert_user-Later email name password db = elim (Option-cases (find (has_email email) db.users)) [
    | inl free ↦ rw free (record {
      tokens = (Later-refl db).tokens;
      resets = (Later-refl db).resets;
      users =
          λ s. append-IsSound db.users (new_account email name password db) s free (omega arith);
    })
    | inr (user, taken) ↦ rw taken (Later-refl db)
  ]

  register-Later :
      (email name password : Text) (db : AuthDb) → Later db (register email name password db).1
  unfolding register assert_email_free issue_email_verification_token
  register-Later email name password db =
      bind_Later (assert_email_free email) _ db (Later-refl db) (λ _ v.
        bind_Later (insert_user email name password) _ v (insert_user-Later email name password v)
          (λ user u. record {
            tokens = (Later-refl u).tokens;
            resets = (Later-refl u).resets;
            users = λ s. s;
          }))

  verify_email-Later : (raw : Text) (db : AuthDb) → Later db (verify_email raw db).1
  unfolding verify_email
  verify_email-Later raw db = go _
    where
      go : (o : Option OneTimeToken) → Later db (verify_email_record o db).1
      go none = unfold verify_email_record in Later-refl db
      go (some t) =
          unfold verify_email_record in
          record {
            tokens = (Later-refl db).tokens;
            resets = (Later-refl db).resets;
            users =
                update-IsSound (is_user t.user_id) (verified_row db.now) (λ u. refl) (λ u h. h)
                  db.users;
          }

  forgot-Later : (email : Text) (db : AuthDb) → Later db (request_password_reset email db)
  unfolding request_password_reset
  forgot-Later email db = go _
    where
      go : (o : Option Account) → Later db (send_reset o db)
      go none = unfold send_reset in Later-refl db
      go (some user) =
          unfold send_reset in
          record {
            tokens = (Later-refl db).tokens;
            resets = Grows-append OnceKept OnceKept-refl db.reset_tokens _;
            users = λ s. s;
          }

  set_password-Later :
      (t : OneTimeToken) (password : Text) (db : AuthDb) → Later db (set_password t password db)
  unfolding set_password
  set_password-Later t password db = record {
    tokens = (Later-refl db).tokens;
    resets =
        update_where-Grows OnceKept OnceKept-refl (is_once t.id) (consumed_row db.now)
          (λ u. record { token_hash = refl; consumed = λ h. refl }) db.reset_tokens;
    users =
        update-IsSound (is_user t.user_id) (password_row _) (λ u. refl) (λ u h. omega arith)
          db.users;
  }

  reset_password-Later :
      (raw password : Text) (db : AuthDb) → Later db (reset_password raw password db).1
  unfolding reset_password
  reset_password-Later raw password db = go _
    where
      go : (o : Option OneTimeToken) → Later db (reset_password_record password o db).1
      go none = unfold reset_password_record in Later-refl db
      go (some t) =
          unfold reset_password_record in
          Later-trans db (set_password t password db) _ (set_password-Later t password db)
            (revoke_all-Later (set_password t password db) t.user_id)

  run-Later : (e : AuthEvent) (db : AuthDb) → Later db (run e db)
  unfolding run
  run-Later (AuthEvent.clock time) db = record {
    tokens = (Later-refl db).tokens;
    resets = (Later-refl db).resets;
    users = λ s. s;
  }
  run-Later (AuthEvent.sign_in email password) db = login-Later email password db
  run-Later (AuthEvent.check_credentials email password) db =
      verify_credentials-Later email password db
  run-Later (AuthEvent.session user) db = create_session-Later user db
  run-Later (AuthEvent.exchange raw) db = refresh-Later raw db
  run-Later (AuthEvent.reissue user old) db = issue_session-Later user (some old) db
  run-Later (AuthEvent.sign_out user raw) db = logout-Later user raw db
  run-Later (AuthEvent.sign_up email name password) db = register-Later email name password db
  run-Later (AuthEvent.insert_late email name password) db =
      insert_user-Later email name password db
  run-Later (AuthEvent.verify_address raw) db = verify_email-Later raw db
  run-Later (AuthEvent.forgot email) db = forgot-Later email db
  run-Later (AuthEvent.reset raw password) db = reset_password-Later raw password db

  pub run_all-Later : (es : List AuthEvent) (db : AuthDb) → Later db (run_all es db)
  unfolding run_all
  run_all-Later [] db = Later-refl db
  run_all-Later (e ∷ es) db =
      Later-trans db (run e db) (run_all es (run e db)) (run-Later e db)
        (run_all-Later es (run e db))
