-- ===== src/Auth.antt =====
-- Accounts and web sessions: the tables and errors of src/auth/authService.ts, and its calls as a
-- monad. The service reads `users` and the token tables with no tenant, apart from the other services.
use ptv_mcp.Base.{ℕ, ◌*◌, Bool, true, false, List, [], Option, Text}
pub mod Service
mod Rows
mod Lockout
mod Login
mod Reset
mod Rotation
mod Events
mod Later
mod Steps
mod Reach
mod Once
mod Race
mod Samples
mod Tests

-- `users`
pub record Account : Type 0 where
  pub id : Text
  pub email : Text
  pub name : Text
  pub password_hash : Option Text
  pub email_verified_at : Option ℕ
  pub failed_login_attempts : ℕ
  pub locked_until : Option ℕ

-- `refresh_tokens`
pub record RefreshToken : Type 0 where
  pub id : Text
  pub user_id : Text
  pub token_hash : Text
  pub expires_at : ℕ
  pub revoked_at : Option ℕ
  pub replaced_by_token_id : Option Text

-- `email_verification_tokens` and `password_reset_tokens`, which have the same columns.
pub record OneTimeToken : Type 0 where
  pub id : Text
  pub user_id : Text
  pub token_hash : Text
  pub expires_at : ℕ
  pub consumed_at : Option ℕ

-- What the mailer was asked to send.
pub data Mail : Type 0 where
  verification_email password_reset_email : Text → Text → Mail

pub record AuthDb : Type 0 where
  pub now : ℕ
  pub seed : ℕ
  pub users : List Account
  pub refresh_tokens : List RefreshToken
  pub verification_tokens : List OneTimeToken
  pub reset_tokens : List OneTimeToken
  pub sent : List Mail

-- Random values are drawn by the seed. What the service relies on: a password verifies against its
-- own hash, whatever the salt.
pub record Crypto : Type 0 where
  pub random_uuid : ℕ → Text
  pub generate_opaque_token : ℕ → Text
  pub hash_token : Text → Text
  pub hash_password : ℕ → Text → Text
  pub verify_password : Text → Text → Bool
  pub sign_access_token : Text → ℕ → Text

pub data AuthError : Type 0 where
  email_already_registered : AuthError
  invalid_credentials : AuthError
  account_locked : ℕ → AuthError
  invalid_or_expired_token : AuthError

pub record Session : Type 0 where
  pub access_token : Text
  pub refresh_token : Text
  pub expires_in : ℕ

pub data Answer (A : Type 0) : Type 0 where
  ok : A → Answer A
  err : AuthError → Answer A

abbrev pub AuthCall : Type 0 → Type 0
AuthCall A = AuthDb → Answer A × AuthDb

abbrev pub continue : {A B : Type 0} → (A → AuthCall B) → Answer A → AuthDb → Answer B × AuthDb
continue f (ok a) db = f a db
continue f (err e) db = (err e, db)

infixl 5 ◌>>=◌ ◌>>◌
abbrev pub ◌>>=◌ : {A B : Type 0} → AuthCall A → (A → AuthCall B) → AuthCall B
◌>>=◌ m f db = continue f (m db).0 (m db).1

abbrev pub ◌>>◌ : {A B : Type 0} → AuthCall A → AuthCall B → AuthCall B
m >> k = m >>= λ _. k

-- Durations in milliseconds, the access token's in seconds.
abbrev pub refresh_token_ttl : ℕ
refresh_token_ttl = 30 * 24 * 60 * 60 * 1000

abbrev pub email_verification_ttl : ℕ
email_verification_ttl = 24 * 60 * 60 * 1000

abbrev pub password_reset_ttl : ℕ
password_reset_ttl = 60 * 60 * 1000

abbrev pub lockout_threshold : ℕ
lockout_threshold = 5

abbrev pub lockout_duration : ℕ
lockout_duration = 15 * 60 * 1000

abbrev pub access_token_ttl_seconds : ℕ
access_token_ttl_seconds = 15 * 60
