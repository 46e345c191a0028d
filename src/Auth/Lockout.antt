-- ===== src/Auth/Lockout.antt =====
-- Wrong passwords lock an account (src/auth/authService.ts, verifyCredentials).
use ptv_mcp.Base.{
  ℕ, suc, ◌+◌, ◌<◌, ◌≡◌, refl, ap, ◌∙◌, false, none, some, List, [], ◌∷◌, arith, Text,
  if◌then◌else◌, find, length, All,
}
use ptv_mcp.Auth.{Account, AuthDb, Crypto, account_locked, err, lockout_threshold, lockout_duration}
use ptv_mcp.Auth.Service.{
  is_some, has_email, failed_row, lock_after, record_failed_login, check_account,
  verify_credentials,
}
use ptv_mcp.Auth.Rows.{locked_stops, wrong_password, after_failure}

-- The attempts on one account that others leave alone, each at its own time.
pub record Guess : Type 0 where
  pub time : ℕ
  pub password : Text

abbrev pub at_time : ℕ → AuthDb → AuthDb
at_time time db = record db { now = time }

module _ ⦃crypto : Crypto⦄ where
  unfoldable pub guess : Text → Guess → AuthDb → AuthDb
  guess email g db = (verify_credentials email g.password (at_time g.time db)).1

  unfoldable pub guess_all : Text → List Guess → AuthDb → AuthDb
  guess_all email [] db = db
  guess_all email (g ∷ gs) db = guess_all email gs (guess email g db)

  abbrev pub IsWrong : Text → Guess → Type 0
  IsWrong hash g = crypto.verify_password hash g.password ≡ false

module _ ⦃crypto : Crypto⦄ (email hash : Text) where
  -- The account that a search by the address finds, with its count of failures and no lock.
  pub record Counting (attempts : ℕ) (db : AuthDb) : Type 0 where
    pub user : Account
    pub found : find (has_email email) db.users ≡ some user
    pub hashed : user.password_hash ≡ some hash
    pub counted : user.failed_login_attempts ≡ attempts
    pub unlocked : user.locked_until ≡ none

  guess_runs :
      (g : Guess) (attempts : ℕ) (db : AuthDb) (c : Counting attempts db)
      → IsWrong hash g
      → guess email g db
        ≡ record_failed_login c.user.id c.user.failed_login_attempts (at_time g.time db)
  unfolding guess
  guess_runs g attempts db c wrong =
      ap (λ r. r.1)
        (wrong_password email g.password hash (at_time g.time db) c.user c.found
          (rw c.unlocked (ground arith)) c.hashed wrong)

  guess-found :
      (g : Guess) (attempts : ℕ) (db : AuthDb) (c : Counting attempts db)
      → IsWrong hash g
      → find (has_email email) (guess email g db).users
        ≡ some (
            failed_row
              (if is_some (lock_after (attempts + 1) g.time) then 0 else attempts + 1)
              (lock_after (attempts + 1) g.time)
              c.user)
  guess-found g attempts db c wrong =
      rw (guess_runs g attempts db c wrong)
        (rw (← c.counted) (after_failure email (at_time g.time db) c.user c.found))

  guess-Counting :
      (g : Guess) (attempts : ℕ) (db : AuthDb)
      → Counting attempts db
      → IsWrong hash g
      → attempts + 1 < lockout_threshold
      → Counting (attempts + 1) (guess email g db)
  guess-Counting g attempts db c wrong few = record {
    user = failed_row (attempts + 1) none c.user;
    found = guess-found g attempts db c wrong ∙ rw (no_lock) refl;
    hashed = c.hashed;
    counted = refl;
    unlocked = refl;
  }
    where
      no_lock : lock_after (attempts + 1) g.time ≡ none
      no_lock = unfold lock_after in ground arith

  guess_all-Counting :
      (gs : List Guess) (attempts : ℕ) (db : AuthDb)
      → Counting attempts db
      → All (IsWrong hash) gs
      → attempts + length gs < lockout_threshold
      → Counting (attempts + length gs) (guess_all email gs db)
  unfolding guess_all
  guess_all-Counting [] attempts db c wrong few =
      let e : attempts ≡ attempts + 0 = omega arith in rw (← e) c
  guess_all-Counting (g ∷ gs) attempts db c wrong few =
      let e : attempts + 1 + length gs ≡ attempts + suc (length gs) = omega arith in
      rw (← e) (
        guess_all-Counting gs (attempts + 1) (guess email g db)
          (guess-Counting g attempts db c wrong.0 (omega arith)) wrong.1 (omega arith))

  last_locks :
      (g : Guess) (attempts : ℕ) (db : AuthDb) (c : Counting attempts db)
      → IsWrong hash g
      → attempts + 1 ≡ lockout_threshold
      → find (has_email email) (guess email g db).users
        ≡ some (failed_row 0 (some (g.time + lockout_duration)) c.user)
  last_locks g attempts db c wrong enough = guess-found g attempts db c wrong ∙ rw locks refl
    where
      locks : lock_after (attempts + 1) g.time ≡ some (g.time + lockout_duration)
      locks = unfold lock_after in ground arith

  -- If wrong passwords for an unlocked account bring its failures to five, each attempt at a time
  -- of its own, then until fifteen minutes after the last of them every attempt on it is refused
  -- as locked, with the right password too, and changes nothing.
  pub locked_out :
      (gs : List Guess) (g : Guess) (attempts : ℕ) (db : AuthDb)
      → Counting attempts db
      → All (IsWrong hash) (g ∷ gs)
      → attempts + length gs + 1 ≡ lockout_threshold
      → (password : Text) (time : ℕ) → time < g.time + lockout_duration
      → let after = at_time time (guess email g (guess_all email gs db)) in
        verify_credentials email password after
        ≡ (err (account_locked (g.time + lockout_duration)), after)
  locked_out gs g attempts db c wrong enough password time early =
      refused (last_locks g (attempts + length gs) (guess_all email gs db) counting wrong.0 enough)
    where
      counting : Counting (attempts + length gs) (guess_all email gs db)
      counting = guess_all-Counting gs attempts db c wrong.1 (omega arith)

      refused :
          find (has_email email) (guess email g (guess_all email gs db)).users
            ≡ some (failed_row 0 (some (g.time + lockout_duration)) counting.user)
          → verify_credentials email password (at_time time (guess email g (guess_all email gs db)))
            ≡ (
              err (account_locked (g.time + lockout_duration)),
              at_time time (guess email g (guess_all email gs db)),
            )
      refused h =
          unfold verify_credentials check_account in
          rw (
            h,
            locked_stops (failed_row 0 (some (g.time + lockout_duration)) counting.user)
                (g.time + lockout_duration) (at_time time (guess email g (guess_all email gs db)))
                refl early,
          )
