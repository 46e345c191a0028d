-- ===== src/Auth/Tests.antt =====
-- The account service on a small database.
use ptv_mcp.Base.{
  none, ℕ, ◌+◌, ◌≡◌, refl, some, List, [], ◌∷◌, arith, Text, text, text_eq, text_eq_refl, find,
}
use ptv_mcp.Auth.{
  invalid_credentials, AuthDb, Session, ok, err, invalid_or_expired_token, account_locked,
  password_reset_email, lockout_duration,
}
use ptv_mcp.Auth.Service.{
  has_email, verify_credentials, check_account, assert_not_locked, check_password, clear_failures,
  refresh, refresh_record, issue_session, reset_password, reset_password_record,
}
use ptv_mcp.Auth.Samples.{anna, token_of, sample_db, sample_crypto}
use ptv_mcp.Auth.Lockout.{Guess, Counting, at_time, guess, guess_all, locked_out}
use ptv_mcp.Auth.Login.{SignedIn, verify_credentials-ok}
use ptv_mcp.Auth.Reset.{
  HasNoSession, mailed, requested, changed, renewed, password_reset_round_trip,
}
use ptv_mcp.Auth.Rotation.{Exchanged, refresh-ok}
use ptv_mcp.Auth.Events.{AuthEvent, run_all}
use ptv_mcp.Auth.Later.{IsSound}
use ptv_mcp.Auth.Once.{refresh_once, reset_once, run_all-IsSound}
use ptv_mcp.Auth.Race.{late_failure, late_failures, failures_lost}

abbrev address : Text
address = text "anna@example.org"

counting : Counting address (text "kissa") 3 sample_db
unfolding text_eq
counting = record { user = anna; found = refl; hashed = refl; counted = refl; unlocked = refl }

wrong_guess : ℕ → Guess
wrong_guess time = record { time = time; password = text "koira" }

locked_out_example :
    let after = at_time 5000 (
      guess address
        (record { time = 1200; password = text "koira" })
        (guess_all address (record { time = 1100; password = text "koira" } ∷ []) sample_db)) in
    verify_credentials address (text "kissa") after
    ≡ (err (account_locked (1200 + lockout_duration)), after)
unfolding text_eq
locked_out_example =
    locked_out address (text "kissa") (record { time = 1100; password = text "koira" } ∷ [])
      (record { time = 1200; password = text "koira" }) 3 sample_db counting (refl, (refl, tt))
      (omega arith) (text "kissa") 5000 (omega arith)

signed_in :
    verify_credentials address (text "kissa") sample_db
    ≡ (ok (text "u1"), clear_failures anna sample_db)
unfolding verify_credentials check_account assert_not_locked check_password text_eq
signed_in = refl

verify_credentials-ok_example :
    SignedIn address (text "kissa") (text "u1") sample_db (clear_failures anna sample_db)
verify_credentials-ok_example =
    verify_credentials-ok address (text "kissa") (text "u1") sample_db
      (clear_failures anna sample_db) signed_in

abbrev new_session : Session
new_session = record {
  access_token = text "u1";
  refresh_token = 7 ∷ text "token";
  expires_in = 900;
}

abbrev exchanged_db : AuthDb
exchanged_db = (issue_session (text "u1") (some (text "a1")) sample_db).1

exchanged : refresh (text "a1") sample_db ≡ (ok new_session, exchanged_db)
unfolding refresh refresh_record issue_session text_eq
exchanged = refl

refresh-ok_example : Exchanged (text "a1") new_session sample_db exchanged_db
unfolding text_eq
refresh-ok_example = refresh-ok (text "a1") new_session sample_db exchanged_db refl refl exchanged

abbrev some_events : List AuthEvent
some_events = AuthEvent.reissue (text "u1") (text "a1") ∷ AuthEvent.exchange (text "b1") ∷ []

refresh_once_example :
    ((refresh (text "a1") (run_all some_events exchanged_db)).0 ≡ err invalid_or_expired_token)
    × HasNoSession (text "u1") (refresh (text "a1") (run_all some_events exchanged_db)).1
unfolding text_eq
refresh_once_example =
    refresh_once (text "a1") new_session sample_db exchanged_db (token_of anna (text "a1")) refl
      exchanged some_events

abbrev reset_db : AuthDb
reset_db = (reset_password (text "r1") (text "hevonen") sample_db).1

was_reset : reset_password (text "r1") (text "hevonen") sample_db ≡ (ok tt, reset_db)
unfolding reset_password reset_password_record text_eq
was_reset = refl

abbrev later_db : AuthDb
later_db = requested address 3000 sample_db

abbrev after_reset : AuthDb
after_reset = changed address anna (text "hevonen") 3000 sample_db

password_reset_round_trip_example :
    (reset_password (mailed sample_db) (text "hevonen") later_db ≡ (ok tt, after_reset))
    × (verify_credentials address (text "hevonen") after_reset ≡ (
      ok (text "u1"),
      clear_failures (renewed address anna (text "hevonen") 3000 sample_db) after_reset,
    ))
    × HasNoSession (text "u1") after_reset
    × (later_db.sent ≡ password_reset_email address (mailed sample_db) ∷ [])
unfolding text_eq
password_reset_round_trip_example =
    password_reset_round_trip address (text "hevonen") sample_db anna 3000
      (λ salt p. text_eq_refl p) refl refl (omega arith)

reset_once_example :
    reset_password (text "r1") (text "koira") (run_all some_events reset_db)
    ≡ (err invalid_or_expired_token, run_all some_events reset_db)
reset_once_example =
    reset_once (text "r1") (text "hevonen") sample_db reset_db was_reset some_events (text "koira")

sample_db-IsSound : IsSound sample_db.users
unfolding text_eq
sample_db-IsSound = record { unique = ((refl, tt), (tt, tt)); bounded = omega arith }

run_all-IsSound_example : IsSound (run_all some_events sample_db).users
run_all-IsSound_example = run_all-IsSound some_events sample_db sample_db-IsSound

failures_lost_example :
    ((time : ℕ)
      → verify_credentials address (text "koira") (at_time time sample_db)
        ≡ (err invalid_credentials, late_failure anna time sample_db))
    × (find
          (has_email address)
          (late_failures anna (1100 ∷ 1101 ∷ 1102 ∷ 1103 ∷ 1104 ∷ []) sample_db).users
        ≡ some (record anna { failed_login_attempts = 4; locked_until = none }))
unfolding text_eq
failures_lost_example =
    failures_lost address (text "koira") (text "kissa") sample_db anna 1100
      (1101 ∷ 1102 ∷ 1103 ∷ 1104 ∷ []) refl refl refl (omega arith) refl
