-- ===== src/Auth/Samples.antt =====
-- A small database and a transparent stand-in for the cryptography.
use ptv_mcp.Base.{[], ◌∷◌, none, some, Text, text, text_eq}
use ptv_mcp.Auth.{Account, RefreshToken, AuthDb, Crypto}

instance abbrev pub sample_crypto : Crypto
sample_crypto = record {
  random_uuid = λ n. n ∷ text "id";
  generate_opaque_token = λ n. n ∷ text "token";
  hash_token = λ raw. raw;
  hash_password = λ salt password. password;
  verify_password = λ hash password. text_eq hash password;
  sign_access_token = λ user now. user;
}

abbrev pub anna : Account
anna = record {
  id = text "u1";
  email = text "anna@example.org";
  name = text "Anna";
  password_hash = some (text "kissa");
  email_verified_at = none;
  failed_login_attempts = 3;
  locked_until = none;
}

abbrev pub bo : Account
bo = record anna { id = text "u2"; email = text "bo@example.org"; name = text "Bo" }

abbrev pub token_of : Account → Text → RefreshToken
token_of user raw = record {
  id = raw;
  user_id = user.id;
  token_hash = raw;
  expires_at = 5000;
  revoked_at = none;
  replaced_by_token_id = none;
}

abbrev pub sample_db : AuthDb
sample_db = record {
  now = 1000;
  seed = 7;
  users = anna ∷ bo ∷ [];
  refresh_tokens = token_of bo (text "b1") ∷ token_of anna (text "a1") ∷ [];
  verification_tokens = [];
  reset_tokens =
      record {
        id = text "r1";
        user_id = anna.id;
        token_hash = text "r1";
        expires_at = 2000;
        consumed_at = none;
      }
      ∷ [];
  sent = [];
}
