-- ===== src/Auth/Once.antt =====
-- Tokens work once, however requests interleave (src/auth/authService.ts).
use ptv_mcp.Base.{
  ◌≡◌, refl, ap, ◌∙◌, subst, inl, inr, Bool, true, false, ◌&&◌, some, List, arith, Text, text_eq,
  text_eq_iff, if◌then◌else◌, Bool-cases, find, find-test, Grows, update_where-Grows_if, find-Grows,
  find-update_where,
}
use ptv_mcp.Auth.{RefreshToken, AuthDb, Crypto, invalid_or_expired_token, ok, err, Session}
use ptv_mcp.Auth.Service.{
  is_some, has_hash, once_has_hash, is_live_of, revoked_row, reset_password_record, refresh, logout,
  reset_password,
}
use ptv_mcp.Auth.Rotation.{refresh-Rotated, refresh-reused}
use ptv_mcp.Auth.Reset.{HasNoSession, reset_password-ok}
use ptv_mcp.Auth.Events.{AuthEvent, run_all}
use ptv_mcp.Auth.Later.{TokenKept, OnceKept, IsSound}
use ptv_mcp.Auth.Reach.{run_all-Later}

module _ ⦃crypto : Crypto⦄ where
  -- After a refresh token was exchanged for a session, exchanging it again is refused in every
  -- state that later requests lead to, and that second attempt leaves the token's user with no
  -- session; late statements of requests that were checked earlier are among those requests.
  pub refresh_once :
      (raw : Text) (session : Session) (db db' : AuthDb) (t : RefreshToken)
      → find (has_hash (crypto.hash_token raw)) db.refresh_tokens ≡ some t
      → refresh raw db ≡ (ok session, db')
      → (events : List AuthEvent)
      → ((refresh raw (run_all events db')).0 ≡ err invalid_or_expired_token)
        × HasNoSession t.user_id (refresh raw (run_all events db')).1
  refresh_once raw session db db' t was h events =
      let r = refresh-Rotated raw session db db' h in
      let same : r.old ≡ t = cc (r.found, was) in
      let (u, found, kept) =
        find-Grows TokenKept (has_hash (crypto.hash_token raw))
          (λ x y k. ap (λ (s : Text). text_eq s (crypto.hash_token raw)) k.token_hash)
          db'.refresh_tokens (run_all events db').refresh_tokens _ (run_all-Later events db').tokens
          r.replaced in
      let again = refresh-reused raw (run_all events db') u found (kept.revoked refl) in
      let owner : u.user_id ≡ t.user_id =
        kept.user_id ∙ ap (λ (x : RefreshToken). x.user_id) same in
      (again.0, subst (λ x. HasNoSession x (refresh raw (run_all events db')).1) owner again.1)

  -- After a password reset, the same token is refused and changes nothing, whatever the new
  -- password, in every state that later requests lead to.
  pub reset_once :
      (raw password : Text) (db db' : AuthDb)
      → reset_password raw password db ≡ (ok tt, db')
      → (events : List AuthEvent) (other : Text)
      → reset_password raw other (run_all events db')
        ≡ (err invalid_or_expired_token, run_all events db')
  unfolding reset_password reset_password_record
  reset_once raw password db db' h events other =
      let r = reset_password-ok raw password db db' h in
      let (t, found, kept) =
        find-Grows OnceKept (once_has_hash (crypto.hash_token raw))
          (λ x y k. ap (λ (s : Text). text_eq s (crypto.hash_token raw)) k.token_hash)
          db'.reset_tokens (run_all events db').reset_tokens _ (run_all-Later events db').resets
          r.used in
      rw (found, kept.consumed refl)

  -- Whatever requests run, and whatever insertions of registrations that were checked earlier, no
  -- two accounts get one address and every account stays below five counted failures.
  pub run_all-IsSound :
      (events : List AuthEvent) (db : AuthDb) → IsSound db.users → IsSound (run_all events db).users
  run_all-IsSound events db h = (run_all-Later events db).users h

  -- A token of another user is left as it was.
  abbrev pub OthersKept : Text → RefreshToken → RefreshToken → Type 0
  OthersKept user x y = text_eq x.user_id user ≡ false → y ≡ x

  -- Logging out with one's own refresh token makes exchanging it fail, and leaves the tokens of
  -- other users as they were.
  pub logout-ok :
      (user raw : Text) (db : AuthDb) (t : RefreshToken)
      → find (has_hash (crypto.hash_token raw)) db.refresh_tokens ≡ some t
      → t.user_id ≡ user
      → ((refresh raw (logout user raw db)).0 ≡ err invalid_or_expired_token)
        × Grows (OthersKept user) db.refresh_tokens (logout user raw db).refresh_tokens
  unfolding logout
  logout-ok user raw db t found own = (
    elim (Bool-cases (is_some t.revoked_at)) [
      | inl gone ↦ (refresh-reused raw (logout user raw db) t (now_is t (missed gone)) gone).0
      | inr live ↦
          (refresh-reused raw (logout user raw db) (revoked_row db.now t)
            (now_is (revoked_row db.now t) (rw (is_hit live))) refl).0
    ],
    update_where-Grows_if (OthersKept user) (λ x _. refl) hit (revoked_row db.now) others
        db.refresh_tokens,
  )
    where
      hit : RefreshToken → Bool
      hit x = has_hash (crypto.hash_token raw) x && is_live_of user x

      is_hit : is_some t.revoked_at ≡ false → hit t ≡ true
      is_hit live = rw (
        find-test (has_hash (crypto.hash_token raw)) db.refresh_tokens t found,
        (text_eq_iff t.user_id user).1 own,
        live,
      )

      missed : is_some t.revoked_at ≡ true → (if hit t then revoked_row db.now t else t) ≡ t
      missed gone = rw gone (ground arith)

      others : (x : RefreshToken) → hit x ≡ true → OthersKept user x (revoked_row db.now x)
      others x h other = ground arith

      now_is :
          (u : RefreshToken)
          → (if hit t then revoked_row db.now t else t) ≡ u
          → find (has_hash (crypto.hash_token raw)) (logout user raw db).refresh_tokens ≡ some u
      now_is u e =
          find-update_where (has_hash (crypto.hash_token raw)) hit (revoked_row db.now) (λ x. refl)
            db.refresh_tokens t found
          ∙ ap some e
