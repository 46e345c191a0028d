-- ===== src/Auth/Rows.antt =====
-- What the branches of a password check do to the account that was found (src/auth/authService.ts,
-- verifyCredentials and recordFailedLogin).
use ptv_mcp.Base.{
  ℕ, ◌+◌, ◌<◌, ◌≡◌, refl, ap, ◌∙◌, inl, inr, true, false, ◌||◌, none, some, arith, Text,
  text_eq_refl, ltb, lt→ltb, if◌then◌else◌, Bool-cases, Option-cases, find, update_where,
  find-update_where,
}
use ptv_mcp.Auth.{Account, AuthDb, Crypto, invalid_credentials, account_locked, ok, err}
use ptv_mcp.Auth.Service.{
  is_some, has_email, is_user, failed_row, assert_not_locked, lock_after, record_failed_login,
  clear_failures, check_password, check_account, verify_credentials,
}

-- The account is not locked at a time.
abbrev pub IsOpen : ℕ → Account → Type 0
IsOpen now user = ltb now (elim user.locked_until [ none ↦ 0 | some until ↦ until ]) ≡ false

pub open_runs :
    (user : Account) (db : AuthDb) → IsOpen db.now user → assert_not_locked user db ≡ (ok tt, db)
unfolding assert_not_locked
open_runs user db h = elim (Option-cases user.locked_until) [
  | inl no_lock ↦ rw no_lock
  | inr (until, lock) ↦ rw lock (rw (rw lock at h))
]

pub locked_stops :
    (user : Account) (until : ℕ) (db : AuthDb)
    → user.locked_until ≡ some until
    → db.now < until
    → assert_not_locked user db ≡ (err (account_locked until), db)
unfolding assert_not_locked
locked_stops user until db lock h = rw lock (rw (lt→ltb db.now until h))

module _ ⦃crypto : Crypto⦄ (email password hash : Text) (db : AuthDb) (user : Account)
    (found : find (has_email email) db.users ≡ some user) (opened : IsOpen db.now user)
    (has : user.password_hash ≡ some hash) where
  checks_password :
      verify_credentials email password db ≡ check_password user password (some hash) db
  unfolding verify_credentials check_account
  checks_password = rw found (rw (open_runs user db opened, has))

  pub wrong_password :
      crypto.verify_password hash password ≡ false
      → verify_credentials email password db
        ≡ (err invalid_credentials, record_failed_login user.id user.failed_login_attempts db)
  unfolding check_password
  wrong_password wrong = checks_password ∙ rw wrong

  pub right_password :
      crypto.verify_password hash password ≡ true
      → verify_credentials email password db ≡ (ok user.id, clear_failures user db)
  unfolding check_password
  right_password right = checks_password ∙ rw right

module _ (email : Text) (db : AuthDb) (user : Account)
    (found : find (has_email email) db.users ≡ some user) where
  pub found_after :
      (f : Account → Account)
      → ((u : Account) → has_email email (f u) ≡ has_email email u)
      → find (has_email email) (update_where (is_user user.id) f db.users) ≡ some (f user)
  found_after f same =
      find-update_where (has_email email) (is_user user.id) f same db.users user found
      ∙ rw (text_eq_refl user.id)

  pub after_failure :
      find (has_email email) (record_failed_login user.id user.failed_login_attempts db).users
      ≡ some (
          failed_row
            (if is_some (lock_after (user.failed_login_attempts + 1) db.now)
              then 0
              else user.failed_login_attempts + 1)
            (lock_after (user.failed_login_attempts + 1) db.now)
            user)
  unfolding record_failed_login
  after_failure = found_after (failed_row _ _) (λ u. refl)

  pub after_success :
      find (has_email email) (clear_failures user db).users ≡ some (failed_row 0 none user)
  unfolding clear_failures
  after_success =
      elim (Bool-cases (ltb 0 user.failed_login_attempts || is_some user.locked_until)) [
        | inl dirty ↦ rw dirty (found_after (failed_row 0 none) (λ u. refl))
        | inr clean ↦ rw clean (found ∙ ap some (same_account clean))
      ]
    where
      same_account :
          (ltb 0 user.failed_login_attempts || is_some user.locked_until) ≡ false
          → user ≡ failed_row 0 none user
      same_account clean = ground arith
