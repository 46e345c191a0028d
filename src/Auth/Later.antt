-- ===== src/Auth/Later.antt =====
-- What requests keep of the tables of accounts and tokens (src/auth/authService.ts).
use ptv_mcp.Base.{
  ◌<◌, ◌≡◌, refl, ◌∙◌, inl, inr, Bool, true, false, none, some, List, [], ◌∷◌, ◌++◌, text_eq,
  if◌then◌else◌, Bool-cases, find, update_where, All, All-append, Grows, Grows-refl, Grows-trans,
  text_eq_comm, update_where-All,
}
use ptv_mcp.Auth.{Account, RefreshToken, OneTimeToken, AuthDb, lockout_threshold}
use ptv_mcp.Auth.Service.{is_some, has_email}

-- A refresh token keeps its hash and owner, and stays revoked.
pub record TokenKept (x y : RefreshToken) : Type 0 where
  pub token_hash : y.token_hash ≡ x.token_hash
  pub user_id : y.user_id ≡ x.user_id
  pub revoked : is_some x.revoked_at ≡ true → is_some y.revoked_at ≡ true

-- A one-time token keeps its hash, and stays consumed.
pub record OnceKept (x y : OneTimeToken) : Type 0 where
  pub token_hash : y.token_hash ≡ x.token_hash
  pub consumed : is_some x.consumed_at ≡ true → is_some y.consumed_at ≡ true

-- No two accounts with one address, and fewer failures than lock an account.
abbrev pub UniqueEmails : List Account → Type 0
UniqueEmails [] = Unit
UniqueEmails (u ∷ us) = All (λ (v : Account). text_eq v.email u.email ≡ false) us × UniqueEmails us

abbrev pub BelowThreshold : Account → Type 0
BelowThreshold u = u.failed_login_attempts < lockout_threshold

pub record IsSound (users : List Account) : Type 0 where
  pub unique : UniqueEmails users
  pub bounded : All BelowThreshold users

pub record Later (db db' : AuthDb) : Type 0 where
  pub tokens : Grows TokenKept db.refresh_tokens db'.refresh_tokens
  pub resets : Grows OnceKept db.reset_tokens db'.reset_tokens
  pub users : IsSound db.users → IsSound db'.users

pub TokenKept-refl : (x : RefreshToken) → TokenKept x x
TokenKept-refl x = record { token_hash = refl; user_id = refl; revoked = λ h. h }

pub OnceKept-refl : (x : OneTimeToken) → OnceKept x x
OnceKept-refl x = record { token_hash = refl; consumed = λ h. h }

pub TokenKept-trans : (x y z : RefreshToken) → TokenKept x y → TokenKept y z → TokenKept x z
TokenKept-trans x y z h k = record {
  token_hash = k.token_hash ∙ h.token_hash;
  user_id = k.user_id ∙ h.user_id;
  revoked = λ e. k.revoked (h.revoked e);
}

OnceKept-trans : (x y z : OneTimeToken) → OnceKept x y → OnceKept y z → OnceKept x z
OnceKept-trans x y z h k = record {
  token_hash = k.token_hash ∙ h.token_hash;
  consumed = λ e. k.consumed (h.consumed e);
}

pub Later-refl : (db : AuthDb) → Later db db
Later-refl db = record {
  tokens = Grows-refl TokenKept TokenKept-refl db.refresh_tokens;
  resets = Grows-refl OnceKept OnceKept-refl db.reset_tokens;
  users = λ h. h;
}

pub Later-trans : (a b c : AuthDb) → Later a b → Later b c → Later a c
Later-trans a b c h k = record {
  tokens =
      Grows-trans TokenKept TokenKept-trans a.refresh_tokens b.refresh_tokens c.refresh_tokens
        h.tokens k.tokens;
  resets =
      Grows-trans OnceKept OnceKept-trans a.reset_tokens b.reset_tokens c.reset_tokens h.resets
        k.resets;
  users = λ s. k.users (h.users s);
}

kept_email :
    (p : Account → Bool) (f : Account → Account)
    → ((u : Account) → (f u).email ≡ u.email)
    → (u : Account) → (if p u then f u else u).email ≡ u.email
kept_email p f same u = elim (Bool-cases (p u)) [ inl hit ↦ rw hit (same u) | inr miss ↦ rw miss ]

-- Updates that keep the address and the bound keep the invariant.
update-UniqueEmails :
    (p : Account → Bool) (f : Account → Account)
    → ((u : Account) → (f u).email ≡ u.email)
    → (us : List Account) → UniqueEmails us
    → UniqueEmails (update_where p f us)
update-UniqueEmails p f same [] h = tt
update-UniqueEmails p f same (u ∷ us) (apart, rest) = (
  rw (kept_email p f same u) (
      update_where-All (λ (v : Account). text_eq v.email u.email ≡ false) p f (λ v h. rw (same v) h)
        us apart),
  update-UniqueEmails p f same us rest,
)

pub update-IsSound :
    (p : Account → Bool) (f : Account → Account)
    → ((u : Account) → (f u).email ≡ u.email)
    → ((u : Account) → BelowThreshold u → BelowThreshold (f u))
    → (us : List Account) → IsSound us
    → IsSound (update_where p f us)
update-IsSound p f same below us h = record {
  unique = update-UniqueEmails p f same us h.unique;
  bounded = update_where-All BelowThreshold p f below us h.bounded;
}

append-UniqueEmails :
    (us : List Account) (v : Account)
    → UniqueEmails us
    → find (has_email v.email) us ≡ none
    → UniqueEmails (us ++ v ∷ [])
append-UniqueEmails [] v h free = (tt, tt)
append-UniqueEmails (u ∷ us) v (apart, rest) free = elim (Bool-cases (text_eq u.email v.email)) [
  | inl same ↦ let e : some u ≡ none = rw same at free in cc e
  | inr other ↦ (
    All-append (λ (w : Account). text_eq w.email u.email ≡ false) us (v ∷ []) apart
        (text_eq_comm v.email u.email ∙ other, tt),
    append-UniqueEmails us v rest (rw other at free),
  )
]

pub append-IsSound :
    (us : List Account) (v : Account)
    → IsSound us
    → find (has_email v.email) us ≡ none
    → BelowThreshold v
    → IsSound (us ++ v ∷ [])
append-IsSound us v h free below = record {
  unique = append-UniqueEmails us v h.unique free;
  bounded = All-append BelowThreshold us (v ∷ []) h.bounded (below, tt);
}
