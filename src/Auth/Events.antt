-- ===== src/Auth/Events.antt =====
-- Any sequence of requests to the account service (src/auth/authService.ts), and what it keeps.
use ptv_mcp.Base.{ℕ, some, List, [], ◌∷◌, Text}
use ptv_mcp.Auth.{AuthDb, Crypto}
use ptv_mcp.Auth.Service
use ptv_mcp.Auth.Service.{is_some, is_user, has_email, failed_row, password_row}

-- A request, run at once, or the late half of one whose check ran in an earlier state: `insert_late`
-- is the INSERT of a registration, `reissue` the statements of a refresh.
pub data AuthEvent : Type 0 where
  clock : ℕ → AuthEvent
  sign_in check_credentials : Text → Text → AuthEvent
  session exchange verify_address forgot : Text → AuthEvent
  reissue sign_out reset : Text → Text → AuthEvent
  sign_up insert_late : Text → Text → Text → AuthEvent

module _ ⦃crypto : Crypto⦄ where
  unfoldable pub run : AuthEvent → AuthDb → AuthDb
  run (clock time) db = record db { now = time }
  run (sign_in email password) db = (Service.login email password db).1
  run (check_credentials email password) db = (Service.verify_credentials email password db).1
  run (session user) db = (Service.create_session user db).1
  run (exchange raw) db = (Service.refresh raw db).1
  run (reissue user old) db = (Service.issue_session user (some old) db).1
  run (sign_out user raw) db = Service.logout user raw db
  run (sign_up email name password) db = (Service.register email name password db).1
  run (insert_late email name password) db = (Service.insert_user email name password db).1
  run (verify_address raw) db = (Service.verify_email raw db).1
  run (forgot email) db = Service.request_password_reset email db
  run (reset raw password) db = (Service.reset_password raw password db).1

  unfoldable pub run_all : List AuthEvent → AuthDb → AuthDb
  run_all [] db = db
  run_all (e ∷ es) db = run_all es (run e db)
