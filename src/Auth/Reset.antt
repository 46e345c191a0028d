-- ===== src/Auth/Reset.antt =====
-- Resetting a password (src/auth/authService.ts, requestPasswordReset and resetPassword).
use ptv_mcp.Base.{
  ℕ, ◌+◌, ◌≤◌, ◌≡◌, refl, ◌∙◌, true, false, Option, none, some, [], ◌∷◌, ◌++◌, arith, Text, text_eq,
  text_eq_iff, text_eq_refl, find, update_where, All, find-update_where, find-append_none,
  All-update_where,
}
use ptv_mcp.Auth.{
  Account, RefreshToken, OneTimeToken, password_reset_email, AuthDb, Crypto, ok, password_reset_ttl,
}
use ptv_mcp.Auth.Service.{
  is_some, has_email, is_user, password_row, is_live_of, revoked_row, once_has_hash, is_once,
  consumed_row, once_row, usable, clear_failures, verify_credentials, revoke_all_refresh_tokens,
  send_reset, request_password_reset, set_password, reset_password_record, reset_password,
}
use ptv_mcp.Auth.Rows.{right_password, found_after}
use ptv_mcp.Auth.Lockout.{at_time}

-- Every session of a user has ended.
abbrev pub HasNoSession : Text → AuthDb → Type 0
HasNoSession user db =
    All (λ (t : RefreshToken). t.user_id ≡ user → is_some t.revoked_at ≡ true) db.refresh_tokens

pub revoke_all-HasNoSession :
    (user : Text) (db : AuthDb) → HasNoSession user (revoke_all_refresh_tokens user db)
unfolding revoke_all_refresh_tokens
revoke_all-HasNoSession user db =
    All-update_where (λ (t : RefreshToken). t.user_id ≡ user → is_some t.revoked_at ≡ true)
      (is_live_of user) (revoked_row db.now) (λ t h k. refl) missed db.refresh_tokens
  where
    missed :
        (t : RefreshToken)
        → is_live_of user t ≡ false
        → t.user_id ≡ user
        → is_some t.revoked_at ≡ true
    missed t h k =
        let same : text_eq t.user_id user ≡ true = (text_eq_iff t.user_id user).1 k in ground arith

usable-ok :
    (now : ℕ) (o : Option OneTimeToken) (t : OneTimeToken)
    → usable now o ≡ some t
    → (o ≡ some t) × (is_some t.consumed_at ≡ false) × (now ≤ t.expires_at)
usable-ok now none t h = cc
usable-ok now (some s) t h = ground arith

module _ ⦃crypto : Crypto⦄ where
  pub record PasswordReset (raw password : Text) (db db' : AuthDb) : Type 0 where
    pub token : OneTimeToken
    pub found : find (once_has_hash (crypto.hash_token raw)) db.reset_tokens ≡ some token
    pub unused : is_some token.consumed_at ≡ false
    pub in_time : db.now ≤ token.expires_at
    pub used :
        find (once_has_hash (crypto.hash_token raw)) db'.reset_tokens
        ≡ some (consumed_row db.now token)
    pub signed_out : HasNoSession token.user_id db'
    pub users :
        db'.users
        ≡ update_where
            (is_user token.user_id)
            (password_row (crypto.hash_password db.seed password))
            db.users

  reset_with :
      (raw password : Text) (db : AuthDb) (o : Option OneTimeToken) (db' : AuthDb)
      → usable db.now (find (once_has_hash (crypto.hash_token raw)) db.reset_tokens) ≡ o
      → reset_password_record password o db ≡ (ok tt, db')
      → PasswordReset raw password db db'
  unfolding reset_password_record
  reset_with raw password db none db' e h = absurd (cc h)
  reset_with raw password db (some t) db' e h =
      let s : db' ≡ revoke_all_refresh_tokens t.user_id (set_password t password db) = cc h in
      let was = usable-ok db.now _ t e in
      rw s (record {
        token = t;
        found = was.0;
        unused = was.1;
        in_time = was.2;
        used = consumed (was.0);
        signed_out = revoke_all-HasNoSession t.user_id (set_password t password db);
        users = unfold revoke_all_refresh_tokens set_password in refl;
      })
    where
      consumed :
          find (once_has_hash (crypto.hash_token raw)) db.reset_tokens ≡ some t
          → find
              (once_has_hash (crypto.hash_token raw))
              (revoke_all_refresh_tokens t.user_id (set_password t password db)).reset_tokens
            ≡ some (consumed_row db.now t)
      consumed found =
          unfold revoke_all_refresh_tokens set_password in
          find-update_where (once_has_hash (crypto.hash_token raw)) (is_once t.id)
            (consumed_row db.now) (λ u. refl) db.reset_tokens t found
          ∙ rw (text_eq_refl t.id)

  -- If resetting a password succeeds, the token was stored, unused and not expired, it is stored
  -- as used at that time, exactly the token's user gets the new hash with no failures and no lock,
  -- and that user has no session left.
  pub reset_password-ok :
      (raw password : Text) (db db' : AuthDb)
      → reset_password raw password db ≡ (ok tt, db')
      → PasswordReset raw password db db'
  unfolding reset_password
  reset_password-ok raw password db db' h = reset_with raw password db _ db' refl h

module _ ⦃crypto : Crypto⦄ where
  -- The token that the next mail holds, the state when its link is followed, and that after the reset.
  abbrev pub mailed : AuthDb → Text
  mailed db = crypto.generate_opaque_token db.seed

  abbrev pub requested : Text → ℕ → AuthDb → AuthDb
  requested email later db = at_time later (request_password_reset email db)

  abbrev pub changed : Text → Account → Text → ℕ → AuthDb → AuthDb
  changed email user password later db =
      revoke_all_refresh_tokens user.id
        (set_password (once_row user.id password_reset_ttl db) password (requested email later db))

  -- The account with its new password.
  abbrev pub renewed : Text → Account → Text → ℕ → AuthDb → Account
  renewed email user password later db =
      password_row (crypto.hash_password (requested email later db).seed password) user

module _ ⦃crypto : Crypto⦄ (email password : Text) (db : AuthDb) (user : Account) (later : ℕ)
    (lawful : (salt : ℕ) (p : Text) → crypto.verify_password (crypto.hash_password salt p) p ≡ true)
    (fresh : find
        (once_has_hash (crypto.hash_token (crypto.generate_opaque_token db.seed)))
        db.reset_tokens
      ≡ none)
    (found : find (has_email email) db.users ≡ some user)
    (in_time : later ≤ db.now + password_reset_ttl) where
  mail_token :
      (requested email later db).reset_tokens
      ≡ db.reset_tokens ++ once_row user.id password_reset_ttl db ∷ []
  unfolding request_password_reset send_reset
  mail_token = rw found

  same_users : (requested email later db).users ≡ db.users
  unfolding request_password_reset send_reset
  same_users = rw found

  finds_token :
      usable later (
        find
          (once_has_hash (crypto.hash_token (mailed db)))
          (requested email later db).reset_tokens)
      ≡ some (once_row user.id password_reset_ttl db)
  finds_token =
      rw
        (
          mail_token,
          find-append_none (once_has_hash (crypto.hash_token (mailed db))) db.reset_tokens
              (once_row user.id password_reset_ttl db ∷ []) fresh,
          text_eq_refl (crypto.hash_token (mailed db)),
        )
        (ground arith)

  resets :
      reset_password (mailed db) password (requested email later db)
      ≡ (ok tt, changed email user password later db)
  unfolding reset_password reset_password_record
  resets = rw finds_token

  signs_in : verify_credentials email password (changed email user password later db) ≡ (
    ok user.id,
    clear_failures (renewed email user password later db) (changed email user password later db),
  )
  signs_in =
      right_password email password (crypto.hash_password (requested email later db).seed password)
        (changed email user password later db) (renewed email user password later db) changed_user
        (ground arith) refl (lawful (requested email later db).seed password)
    where
      changed_user :
          find (has_email email) (changed email user password later db).users
          ≡ some (renewed email user password later db)
      changed_user =
          unfold revoke_all_refresh_tokens set_password in
          found_after email (requested email later db) user (rw same_users found) (password_row _)
            (λ u. refl)

  -- If a password verifies against its own hash, the next random token is new and the address has
  -- an account, then the mailed token, used within its hour, sets the password: signing in with it
  -- then succeeds as that account, and every older session of the user has ended.
  pub password_reset_round_trip :
      (reset_password (mailed db) password (requested email later db)
        ≡ (ok tt, changed email user password later db))
      × (verify_credentials email password (changed email user password later db) ≡ (
        ok user.id,
        clear_failures
            (renewed email user password later db)
            (changed email user password later db),
      ))
      × HasNoSession user.id (changed email user password later db)
      × ((requested email later db).sent
          ≡ db.sent ++ password_reset_email user.email (mailed db) ∷ [])
  unfolding request_password_reset send_reset
  password_reset_round_trip = (
    resets,
    signs_in,
    revoke_all-HasNoSession user.id
        (set_password (once_row user.id password_reset_ttl db) password (requested email later db)),
    rw found,
  )
