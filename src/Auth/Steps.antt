-- ===== src/Auth/Steps.antt =====
-- Changes of one table, and calls in sequence (src/auth/authService.ts).
use ptv_mcp.Base.{
  ℕ, ◌+◌, ◌<◌, refl, inl, inr, ◌||◌, none, List, arith, Text, ltb, if◌then◌else◌, Bool-cases,
  Option-cases, Grows, update_where-Grows,
}
use ptv_mcp.Auth.{
  Account, RefreshToken, AuthDb, Answer, AuthCall, ok, err, continue, ◌>>=◌, lockout_threshold,
}
use ptv_mcp.Auth.Service.{
  is_some, is_user, is_live_of, failed_row, revoked_row, assert_not_locked, lock_after,
  record_failed_login, clear_failures, revoke_all_refresh_tokens,
}
use ptv_mcp.Auth.Later.{
  TokenKept, TokenKept-refl, IsSound, Later, Later-refl, Later-trans, update-IsSound,
}

-- Changes of one table.
module _ (db : AuthDb) where
  pub users_Later :
      (us : List Account) → (IsSound db.users → IsSound us) → Later db (record db { users = us })
  users_Later us h = record {
    tokens = (Later-refl db).tokens;
    resets = (Later-refl db).resets;
    users = h;
  }

  pub tokens_Later :
      (ts : List RefreshToken) (seed : ℕ)
      → Grows TokenKept db.refresh_tokens ts
      → Later db (record db { seed = seed; refresh_tokens = ts })
  tokens_Later ts seed h = record { tokens = h; resets = (Later-refl db).resets; users = λ s. s }

  pub record_failed_login-Later :
      (user : Text) (current : ℕ) → Later db (record_failed_login user current db)
  unfolding record_failed_login
  record_failed_login-Later user current =
      users_Later _ (update-IsSound (is_user user) _ (λ u. refl) (λ u h. few) db.users)
    where
      few :
          (if is_some (lock_after (current + 1) db.now) then 0 else current + 1) < lockout_threshold
      few = unfold lock_after in ground arith

  pub clear_failures-Later : (user : Account) → Later db (clear_failures user db)
  unfolding clear_failures
  clear_failures-Later user =
      elim (Bool-cases (ltb 0 user.failed_login_attempts || is_some user.locked_until)) [
        | inl dirty ↦ rw dirty (
            users_Later _ (
              update-IsSound (is_user user.id) (failed_row 0 none) (λ u. refl) (λ u h. omega arith)
                db.users))
        | inr clean ↦ rw clean (Later-refl db)
      ]

  pub revoke_all-Later : (user : Text) → Later db (revoke_all_refresh_tokens user db)
  unfolding revoke_all_refresh_tokens
  revoke_all-Later user = tokens_Later _ db.seed (
      update_where-Grows TokenKept TokenKept-refl (is_live_of user) (revoked_row db.now)
        (λ t. record { token_hash = refl; user_id = refl; revoked = λ h. refl }) db.refresh_tokens)

-- A call whose steps keep the tables.
pub bind_Later :
    {A B : Type 0} (m : AuthCall A) (f : A → AuthCall B) (db : AuthDb)
    → Later db (m db).1
    → ((a : A) (v : AuthDb) → Later v (f a v).1)
    → Later db ((m >>= f) db).1
bind_Later {A} {B} m f db first rest = step (m db).0 (m db).1 first
  where
    step : (r : Answer A) (v : AuthDb) → Later db v → Later db (continue f r v).1
    step (ok a) v h = Later-trans db v (f a v).1 h (rest a v)
    step (err e) v h = h

pub locked_Later : (user : Account) (db : AuthDb) → Later db (assert_not_locked user db).1
unfolding assert_not_locked
locked_Later user db = elim (Option-cases user.locked_until) [
  | inl none_ ↦ rw none_ (Later-refl db)
  | inr (until, lock) ↦ rw lock (Later-refl db)
]
