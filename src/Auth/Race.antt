-- ===== src/Auth/Race.antt =====
-- Login attempts that read the account before any of them writes its count (src/auth/authService.ts,
-- verifyCredentials and recordFailedLogin).
use ptv_mcp.Base.{
  ℕ, ◌+◌, ◌<◌, ◌≡◌, refl, ◌∙◌, none, some, List, [], ◌∷◌, arith, Text, text_eq_refl, find,
  find-update_where, false,
}
use ptv_mcp.Auth.{Account, AuthDb, Crypto, invalid_credentials, err, lockout_threshold}
use ptv_mcp.Auth.Service.{
  has_email, is_user, failed_row, lock_after, record_failed_login, verify_credentials,
}
use ptv_mcp.Auth.Lockout.{at_time}
use ptv_mcp.Auth.Rows.{wrong_password}

-- The write of an attempt that read the account as `user`, at its own time.
abbrev pub late_failure : Account → ℕ → AuthDb → AuthDb
late_failure user time db = record_failed_login user.id user.failed_login_attempts (at_time time db)

abbrev pub late_failures : Account → List ℕ → AuthDb → AuthDb
late_failures user [] db = db
late_failures user (t ∷ ts) db = late_failures user ts (late_failure user t db)

module _ (email : Text) (user : Account)
    (few : user.failed_login_attempts + 1 < lockout_threshold) where
  abbrev once_failed : Account
  once_failed = record user {
    failed_login_attempts = user.failed_login_attempts + 1;
    locked_until = none;
  }

  no_lock : (time : ℕ) → lock_after (user.failed_login_attempts + 1) time ≡ none
  unfolding lock_after
  no_lock time = ground (arith, few)

  one_write :
      (time : ℕ) (row : Account) (db : AuthDb)
      → find (has_email email) db.users ≡ some row
      → row.id ≡ user.id
      → find (has_email email) (late_failure user time db).users
        ≡ some (failed_row (user.failed_login_attempts + 1) none row)
  unfolding record_failed_login
  one_write time row db found same = rw (no_lock time) (
      find-update_where (has_email email) (is_user user.id)
        (failed_row (user.failed_login_attempts + 1) none) (λ u. refl) db.users row found
      ∙ rw (same, text_eq_refl user.id))

  later_writes :
      (times : List ℕ) (db : AuthDb)
      → find (has_email email) db.users ≡ some once_failed
      → find (has_email email) (late_failures user times db).users ≡ some once_failed
  later_writes [] db found = found
  later_writes (t ∷ ts) db found =
      later_writes ts (late_failure user t db) (one_write t once_failed db found refl)

module _ ⦃crypto : Crypto⦄ where
  -- If an account has a password, no lock and at least two failures less than the threshold, and a
  -- password is wrong for it, then each attempt with that password on one state of the database is
  -- refused and makes the write that follows from that read; and when such writes come one after
  -- the other, one or more and each at its own time, the account counts one failure more than
  -- before and has no lock.
  pub failures_lost :
      (email password hash : Text) (db : AuthDb) (user : Account) (first : ℕ) (times : List ℕ)
      → find (has_email email) db.users ≡ some user
      → user.password_hash ≡ some hash
      → user.locked_until ≡ none
      → user.failed_login_attempts + 1 < lockout_threshold
      → crypto.verify_password hash password ≡ false
      → ((time : ℕ)
          → verify_credentials email password (at_time time db)
            ≡ (err invalid_credentials, late_failure user time db))
        × (find (has_email email) (late_failures user (first ∷ times) db).users
            ≡ some (record user {
              failed_login_attempts = user.failed_login_attempts + 1;
              locked_until = none;
            }))
  failures_lost email password hash db user first times found has unlocked few wrong = (
    λ time.
        wrong_password email password hash (at_time time db) user found (rw unlocked (ground arith))
          has wrong,
    later_writes email user few times (late_failure user first db)
        (one_write email user few first user db found refl),
  )
