-- ===== src/Auth.antt =====
-- Accounts and refresh tokens (backend/app/auth/service.py and repository.py). The hash of a password, the
-- signature of a token and its hash are libraries: parameters, with the tokens that are drawn as arguments.
pub mod Dead
pub mod Once
use cloud_drive.Prelude.{
  ℕ, ◌+◌, ◌*◌, ◌<◌, Bool, true, false, not, ◌&&◌, ◌||◌, Option, none, some, List, [], ◌∷◌, ◌++◌,
  map, Text, leb, ◌==◌, keep, is_some, if◌then◌else◌,
}
use cloud_drive.Naming.{strip}
use cloud_drive.Model.{Uuid, Time, ErrorCode, Error, app_error, User, RefreshToken, Db}
use cloud_drive.Exec.{
  Result, ok, err, one_or_none, Exec, pure, raise, query, gets, required, guard, refuse, when,
  modify, ◌>>=◌, ◌>>◌,
}
use cloud_drive.Quota.{find_user}
use cloud_drive.Share.{get_by_email}

abbrev pub unauthorized : Error
unauthorized = app_error ErrorCode.unauthorized 401

abbrev pub token_revoked : Error
token_revoked = app_error ErrorCode.refresh_token_revoked 401

unfoldable pub has_hash : ℕ → RefreshToken → Bool
has_hash hash t = t.token_hash == hash

unfoldable pub get_by_hash : ℕ → Db → Result (Option RefreshToken)
get_by_hash hash db = one_or_none (keep (has_hash hash) db.tokens)

unfoldable pub revoked_row : Uuid → Time → RefreshToken → RefreshToken
revoked_row token_id now t = if t.id == token_id then record t { revoked_at = some now } else t

unfoldable pub mark_revoked : Option RefreshToken → Uuid → Time → Db → Db
mark_revoked none token_id now db = db
mark_revoked (some t) token_id now db = record db {
  tokens = map (revoked_row token_id now) db.tokens;
}

unfoldable pub revoke : Time → Uuid → Exec (Unit {0})
revoke now token_id = do
  found ← query (λ db. one_or_none (keep (λ t. t.id == token_id) db.tokens))
  modify (mark_revoked found token_id now)

abbrev pub new_token : Uuid → Uuid → ℕ → Time → Time → RefreshToken
new_token new_id user hash expires now = record {
  id = new_id;
  user_id = user;
  token_hash = hash;
  expires_at = expires;
  revoked_at = none;
  created_at = now;
}

unfoldable pub create_token : Uuid → Uuid → ℕ → Time → Time → Exec (Unit {0})
create_token new_id user hash expires now =
    modify (λ db. record db { tokens = db.tokens ++ new_token new_id user hash expires now ∷ [] })

-- What a call draws: the id of the row and the text of the new refresh token.
pub record Drawn : Type 0 where
  pub row_id : Uuid
  pub token : Text

-- `expires_at` of a new refresh token, so many days from now
abbrev pub token_expiry : Time → ℕ → Time
token_expiry now days = now + days * 86400

unfoldable pub is_usable : Option User → Bool
is_usable none = false
is_usable (some u) = u.is_active

-- `token.strip().lower()` on the letters of ASCII
unfoldable pub lower : Text → Text
lower [] = []
lower (c ∷ s) = (if leb 65 c && leb c 90 then c + 32 else c) ∷ lower s

-- The account of a registration.
abbrev pub new_user : Uuid → Time → Text → Text → ℕ → ℕ → User
new_user new_id now email username hash quota = record {
  id = new_id;
  email = email;
  username = username;
  password_hash = hash;
  quota_bytes = quota;
  used_bytes = 0;
  is_active = true;
  is_admin = false;
  must_change_password = false;
  created_at = now;
  updated_at = now;
}

abbrev pub with_password : Uuid → ℕ → Time → User → User
with_password user hash now u =
    if u.id == user
    then record u { password_hash = hash; must_change_password = true; updated_at = now }
    else u

unfoldable pub reset_password : Uuid → ℕ → Time → Exec (Unit {0})
reset_password user hash now =
    modify (λ db. record db { users = map (with_password user hash now) db.users })

module _ (hash_password : Text → ℕ) (verify_password : Text → ℕ → Bool) (hash_token : Text → ℕ)
    (decode_refresh_token : Time → Text → Option Uuid) (days : ℕ) where
  unfoldable pub register : Uuid → Time → ℕ → Text → Text → Text → Exec User
  register new_id now default_quota email username password = do
    existing ← gets (λ db. get_by_email email db.users)
    refuse (is_some existing) (app_error ErrorCode.email_already_exists 409)
    let u : User = new_user new_id now email username (hash_password password) default_quota
    modify (λ db. record db { users = db.users ++ u ∷ [] })
    pure u

  unfoldable pub login : Drawn → Time → Text → Text → Exec User
  login drawn now email password = do
    found ← gets (λ db. get_by_email email db.users)
    u ← required (app_error ErrorCode.invalid_credentials 401) found
    guard (verify_password password u.password_hash) (app_error ErrorCode.invalid_credentials 401)
    guard u.is_active (app_error ErrorCode.user_inactive 403)
    create_token drawn.row_id u.id (hash_token drawn.token) (token_expiry now days) now
    pure u

  -- The old token is revoked before the account is looked at, and the new one is given last.
  unfoldable pub refresh : Drawn → Time → Text → Exec User
  refresh drawn now token = do
    user_id ← required unauthorized (decode_refresh_token now token)
    found ← query (get_by_hash (hash_token token))
    rt ← required token_revoked found
    refuse (is_some rt.revoked_at) token_revoked
    refuse (leb rt.expires_at now) unauthorized
    revoke now rt.id
    account ← gets (λ db. find_user db.users user_id)
    u ← required unauthorized account
    guard u.is_active unauthorized
    create_token drawn.row_id u.id (hash_token drawn.token) (token_expiry now days) now
    pure u

  abbrev pub revoke_live : Time → Option RefreshToken → Exec (Unit {0})
  revoke_live now none = pure tt
  revoke_live now (some rt) = when (not (is_some rt.revoked_at)) (revoke now rt.id)

  unfoldable pub logout : Time → Text → Exec (Unit {0})
  logout now token = do found ← query (get_by_hash (hash_token token)); revoke_live now found

  abbrev pub reset_found : Time → Text → Option User → Exec (Unit {0})
  reset_found now password none = pure tt
  reset_found now password (some u) =
      when u.is_active (reset_password u.id (hash_password password) now)

  -- The password that is drawn is sent by e-mail, which is left out.
  unfoldable pub forgot_password : Time → Text → Text → Exec (Unit {0})
  unfolding lower
  forgot_password now password email = do
    found ← gets (λ db. get_by_email (lower (strip email)) db.users)
    reset_found now password found

  unfoldable pub get_current_user : Uuid → Exec User
  get_current_user user_id = do
    found ← gets (λ db. find_user db.users user_id)
    required unauthorized found
