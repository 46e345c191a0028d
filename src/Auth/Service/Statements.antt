-- ===== src/Auth/Service/Statements.antt =====
-- The statements of AuthService on rows (src/auth/authService.ts), and its private helpers.
use ptv_mcp.Base.{
  ℕ, ◌+◌, Bool, true, false, not, ◌&&◌, ◌||◌, Option, none, some, Text, text_eq, ltb, leb,
  update_where, if◌then◌else◌,
}
use ptv_mcp.Auth.{
  Account, RefreshToken, OneTimeToken, AuthDb, account_locked, ok, err, AuthCall, lockout_threshold,
  lockout_duration,
}

abbrev pub is_some : {A : Type 0} → Option A → Bool
is_some none = false
is_some (some _) = true

-- The WHERE clauses.
abbrev pub has_email : Text → Account → Bool
has_email email u = text_eq u.email email

abbrev pub is_user : Text → Account → Bool
is_user id u = text_eq u.id id

abbrev pub has_hash : Text → RefreshToken → Bool
has_hash hash t = text_eq t.token_hash hash

abbrev pub is_token : Text → RefreshToken → Bool
is_token id t = text_eq t.id id

abbrev pub is_live_of : Text → RefreshToken → Bool
is_live_of user t = text_eq t.user_id user && not (is_some t.revoked_at)

abbrev pub once_has_hash : Text → OneTimeToken → Bool
once_has_hash hash t = text_eq t.token_hash hash

abbrev pub is_once : Text → OneTimeToken → Bool
is_once id t = text_eq t.id id

-- The SET clauses.
abbrev pub failed_row : ℕ → Option ℕ → Account → Account
failed_row attempts until u = record u { failed_login_attempts = attempts; locked_until = until }

abbrev pub verified_row : ℕ → Account → Account
verified_row now u = record u { email_verified_at = some now }

abbrev pub password_row : Text → Account → Account
password_row hash u = record u {
  password_hash = some hash;
  failed_login_attempts = 0;
  locked_until = none;
}

abbrev pub revoked_row : ℕ → RefreshToken → RefreshToken
revoked_row now t = record t { revoked_at = some now }

abbrev pub replaced_row : ℕ → Text → RefreshToken → RefreshToken
replaced_row now id t = record t { revoked_at = some now; replaced_by_token_id = some id }

abbrev pub consumed_row : ℕ → OneTimeToken → OneTimeToken
consumed_row now t = record t { consumed_at = some now }

-- `!record || record.consumedAt !== null || record.expiresAt < this.now()`, else the record.
abbrev pub usable : ℕ → Option OneTimeToken → Option OneTimeToken
usable now none = none
usable now (some t) = if is_some t.consumed_at || ltb t.expires_at now then none else some t

-- `user.lockedUntil && user.lockedUntil > this.now()`
unfoldable pub assert_not_locked : Account → AuthCall (Unit {0})
assert_not_locked user db = elim user.locked_until [
  | none ↦ (ok tt, db)
  | some until ↦ (if ltb db.now until then err (account_locked until) else ok tt, db)
]

-- `lockedUntil` of `recordFailedLogin`.
unfoldable pub lock_after : ℕ → ℕ → Option ℕ
lock_after attempts now =
    if leb lockout_threshold attempts then some (now + lockout_duration) else none

unfoldable pub record_failed_login : Text → ℕ → AuthDb → AuthDb
unfolding lock_after
record_failed_login user current db =
    let attempts = current + 1 in
    let until = lock_after attempts db.now in
    record db {
      users =
          update_where (is_user user) (failed_row (if is_some until then 0 else attempts) until)
            db.users;
    }

-- `if (user.failedLoginAttempts > 0 || user.lockedUntil)` reset the two.
unfoldable pub clear_failures : Account → AuthDb → AuthDb
clear_failures user db =
    if ltb 0 user.failed_login_attempts || is_some user.locked_until
    then record db { users = update_where (is_user user.id) (failed_row 0 none) db.users }
    else db

unfoldable pub revoke_all_refresh_tokens : Text → AuthDb → AuthDb
revoke_all_refresh_tokens user db = record db {
  refresh_tokens = update_where (is_live_of user) (revoked_row db.now) db.refresh_tokens;
}
