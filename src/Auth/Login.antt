-- ===== src/Auth/Login.antt =====
-- Signing in and resetting a password (src/auth/authService.ts, verifyCredentials and resetPassword).
use ptv_mcp.Base.{
  ◌≡◌, refl, inl, inr, true, ltb, ◌||◌, Option, none, some, arith, Text, Bool-cases, Option-cases,
  find,
}
use ptv_mcp.Auth.{Account, AuthDb, Crypto, Answer, invalid_credentials, ok, err}
use ptv_mcp.Auth.Service.{
  is_some, has_email, assert_not_locked, clear_failures, check_password, check_account,
  verify_credentials,
}
use ptv_mcp.Auth.Rows.{IsOpen, open_runs, after_success}

module _ ⦃crypto : Crypto⦄ where
  -- What a successful password check was: the account, and what it leaves.
  pub record SignedIn (email password id : Text) (db db' : AuthDb) : Type 0 where
    pub user : Account
    pub hash : Text
    pub found : find (has_email email) db.users ≡ some user
    pub is_id : id ≡ user.id
    pub hashed : user.password_hash ≡ some hash
    pub verified : crypto.verify_password hash password ≡ true
    pub opened : IsOpen db.now user
    pub cleared :
        find (has_email email) db'.users
        ≡ some (record user { failed_login_attempts = 0; locked_until = none })
    -- Tokens of every kind, mails, the clock and the random values are as they were.
    pub rest : db' ≡ record db { users = db'.users }

  cleared_rest :
      (user : Account) (db : AuthDb)
      → clear_failures user db ≡ record db { users = (clear_failures user db).users }
  unfolding clear_failures
  cleared_rest user db =
      elim (Bool-cases (ltb 0 user.failed_login_attempts || is_some user.locked_until)) [
        | inl dirty ↦ rw dirty
        | inr clean ↦ rw clean
      ]

  module _ (email password id : Text) (db db' : AuthDb) where
    checked_hash :
        (user : Account) (hash : Text)
        → find (has_email email) db.users ≡ some user
        → IsOpen db.now user
        → user.password_hash ≡ some hash
        → check_password user password (some hash) db ≡ (ok id, db')
        → SignedIn email password id db db'
    unfolding check_password
    checked_hash user hash found opened has h =
        elim (Bool-cases (crypto.verify_password hash password)) [
          | inl right ↦ done right (rw right at h)
          | inr wrong ↦ absurd (failed (rw wrong at h))
        ]
      where
        done :
            crypto.verify_password hash password ≡ true
            → ◌≡◌ {A = Answer Text × AuthDb} (ok user.id, clear_failures user db) (ok id, db')
            → SignedIn email password id db db'
        done right e =
            let s : db' ≡ clear_failures user db = cc e in
            record {
              user = user;
              hash = hash;
              found = found;
              is_id = cc e;
              hashed = has;
              verified = right;
              opened = opened;
              cleared = rw s (after_success email db user found);
              rest = rw s (cleared_rest user db);
            }

        failed :
            {w : AuthDb}
            → ◌≡◌ {A = Answer Text × AuthDb} (err invalid_credentials, w) (ok id, db')
            → ⊥
        failed e = cc

    by_hash :
        (user : Account)
        → find (has_email email) db.users ≡ some user
        → IsOpen db.now user
        → (stored : Option Text) → user.password_hash ≡ stored
        → check_password user password stored db ≡ (ok id, db')
        → SignedIn email password id db db'
    by_hash user found opened none has h = absurd (unfold check_password in cc h)
    by_hash user found opened (some hash) has h = checked_hash user hash found opened has h

    checked_open :
        (user : Account)
        → find (has_email email) db.users ≡ some user
        → IsOpen db.now user
        → check_account password (some user) db ≡ (ok id, db')
        → SignedIn email password id db db'
    unfolding check_account
    checked_open user found opened h =
        by_hash user found opened user.password_hash refl (rw (open_runs user db opened) at h)

    not_locked :
        (user : Account) → check_account password (some user) db ≡ (ok id, db') → IsOpen db.now user
    unfolding check_account assert_not_locked
    not_locked user h = ground arith

    -- If a check of an address and a password succeeds, the answer is the id of the account with
    -- that address, which was not locked, has a password, and whose hash the password verifies
    -- against; afterwards that account has no failures and no lock and is otherwise as it was, and
    -- nothing but the accounts changed: no token of any kind, no mail.
    pub verify_credentials-ok :
        verify_credentials email password db ≡ (ok id, db') → SignedIn email password id db db'
    unfolding verify_credentials
    verify_credentials-ok h = elim (Option-cases (find (has_email email) db.users)) [
      | inl no_user ↦ absurd (failed (rw no_user at h))
      | inr (user, found) ↦ known user found (rw found at h)
    ]
      where
        failed : check_account password none db ≡ (ok id, db') → ⊥
        failed e = unfold check_account in cc e

        known :
            (user : Account)
            → find (has_email email) db.users ≡ some user
            → check_account password (some user) db ≡ (ok id, db')
            → SignedIn email password id db db'
        known user found e = checked_open user found (not_locked user e) e
