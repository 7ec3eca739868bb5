-- ===== src/Auth/Once.antt =====
-- Sequences of calls on accounts, and the tokens that they leave.
use cloud_drive.Prelude.{
  arith, ℕ, ◌≡◌, inl, inr, Bool, false, Option, none, some, List, [], ◌∷◌, Text, All, ◌==◌, is_some,
  Bool-cases, Option-cases,
}
use cloud_drive.Model.{Uuid, Time, Error, User, Db}
use cloud_drive.Exec.{ok, err, Result-cases}
use cloud_drive.Naming.{strip}
use cloud_drive.Share.{get_by_email}
use cloud_drive.Auth.{
  get_by_hash, create_token, Drawn, token_expiry, new_token, register, login, refresh, logout,
  forgot_password, reset_password, lower,
}
use cloud_drive.Auth.Dead.{
  IsDead, mark_revoked-IsDead, found_revoked-IsDead, get_by_hash-IsDead, new_row-IsDead,
  revoke-cases, refresh_keeps, refresh_kills, dead_fails,
}

-- A call of the service, with what it draws and the time.
pub data AuthCall : Type 0 where
  registers : Uuid → Time → ℕ → Text → Text → Text → AuthCall
  logs_in : Drawn → Time → Text → Text → AuthCall
  refreshes : Drawn → Time → Text → AuthCall
  logs_out : Time → Text → AuthCall
  resets : Time → Text → Text → AuthCall

module _ (hash_password : Text → ℕ) (verify_password : Text → ℕ → Bool) (hash_token : Text → ℕ)
    (decode_refresh_token : Time → Text → Option Uuid) (days : ℕ) where
  unfoldable pub do_call : AuthCall → Db → Db
  do_call (registers i now quota email name password) db =
      (register hash_password verify_password hash_token decode_refresh_token days i now quota email
        name password db).1
  do_call (logs_in drawn now email password) db =
      (login hash_password verify_password hash_token decode_refresh_token days drawn now email
        password db).1
  do_call (refreshes drawn now token) db =
      (refresh hash_password verify_password hash_token decode_refresh_token days drawn now token
        db).1
  do_call (logs_out now token) db =
      (logout hash_password verify_password hash_token decode_refresh_token days now token db).1
  do_call (resets now password email) db =
      (forgot_password hash_password verify_password hash_token decode_refresh_token days now
        password email db).1

  unfoldable pub do_calls : List AuthCall → Db → Db
  do_calls [] db = db
  do_calls (c ∷ cs) db = do_calls cs (do_call c db)

  -- The call does not draw a token with the hash.
  abbrev pub IsFresh : ℕ → AuthCall → Type 0
  IsFresh hash (logs_in drawn now email password) = (hash_token drawn.token == hash) ≡ false
  IsFresh hash (refreshes drawn now token) = (hash_token drawn.token == hash) ≡ false
  IsFresh hash c = Unit

  login_keeps :
      (hash : ℕ) (drawn : Drawn) (now : Time) (email password : Text) (db : Db)
      → (hash_token drawn.token == hash) ≡ false
      → IsDead hash db
      → IsDead hash
          (login hash_password verify_password hash_token decode_refresh_token days drawn now email
            password db).1
  unfolding login create_token
  login_keeps hash drawn now email password db fresh h =
      elim (Option-cases (get_by_email email db.users)) [
        | inl e ↦ rw (e, login) h
        | inr (u, e) ↦ elim (Bool-cases (verify_password password u.password_hash)) [
          | inr f ↦ rw (e, f, login) h
          | inl f ↦ elim (Bool-cases u.is_active) [
            | inr g ↦ rw (e, f, g, login) h
            | inl g ↦
                rw (e, f, g, login)
                  (new_row-IsDead hash
                    (new_token drawn.row_id u.id (hash_token drawn.token) (token_expiry now days)
                      now)
                    db.tokens fresh h)
          ]
        ]
      ]

  logout_keeps :
      (hash : ℕ) (now : Time) (token : Text) (db : Db)
      → IsDead hash db
      → IsDead hash
          (logout hash_password verify_password hash_token decode_refresh_token days now token db).1
  unfolding logout
  logout_keeps hash now token db h = elim (Result-cases (get_by_hash (hash_token token) db)) [
    | inl (bad, e) ↦ rw (e, logout) h
    | inr (none, e) ↦ rw (e, logout) h
    | inr (some rt, e) ↦ elim (Bool-cases (is_some rt.revoked_at)) [
      | inl f ↦ rw (e, f, logout) h
      | inr f ↦ elim (revoke-cases now rt.id db) [
        | inl (bad, g) ↦ rw (e, f, g, logout) h
        | inr (o, rows, g) ↦ rw (e, f, g, logout) (mark_revoked-IsDead hash o rt.id now db h)
      ]
    ]
  ]

  register_keeps :
      (hash : ℕ) (i : Uuid) (now : Time) (quota : ℕ) (email name password : Text) (db : Db)
      → IsDead hash db
      → IsDead hash
          (register hash_password verify_password hash_token decode_refresh_token days i now quota
            email name password db).1
  unfolding register
  register_keeps hash i now quota email name password db h =
      elim (Option-cases (get_by_email email db.users)) [
        | inl e ↦ rw (e, register) h
        | inr (u, e) ↦ rw (e, register) h
      ]

  reset_keeps :
      (hash : ℕ) (now : Time) (password email : Text) (db : Db)
      → IsDead hash db
      → IsDead hash
          (forgot_password hash_password verify_password hash_token decode_refresh_token days now
            password email db).1
  unfolding forgot_password reset_password
  reset_keeps hash now password email db h =
      elim (Option-cases (get_by_email (lower (strip email)) db.users)) [
        | inl e ↦ rw (e, forgot_password) h
        | inr (u, e) ↦ elim (Bool-cases u.is_active) [
          | inl f ↦ rw (e, f, forgot_password) h
          | inr f ↦ rw (e, f, forgot_password) h
        ]
      ]

  do_calls-IsDead :
      (hash : ℕ) (cs : List AuthCall) (db : Db)
      → All (IsFresh hash) cs
      → IsDead hash db
      → IsDead hash (do_calls cs db)
  unfolding do_calls do_call
  do_calls-IsDead hash [] db fresh h = h
  do_calls-IsDead hash (registers i now quota email name password ∷ cs) db fresh h =
      do_calls-IsDead hash cs _ fresh.1 (register_keeps hash i now quota email name password db h)
  do_calls-IsDead hash (logs_in drawn now email password ∷ cs) db fresh h =
      do_calls-IsDead hash cs _ fresh.1 (login_keeps hash drawn now email password db fresh.0 h)
  do_calls-IsDead hash (refreshes drawn now token ∷ cs) db fresh h =
      do_calls-IsDead hash cs _ fresh.1 (
        refresh_keeps hash_password verify_password hash_token decode_refresh_token days hash drawn
          now token db fresh.0 h)
  do_calls-IsDead hash (logs_out now token ∷ cs) db fresh h =
      do_calls-IsDead hash cs _ fresh.1 (logout_keeps hash now token db h)
  do_calls-IsDead hash (resets now password email ∷ cs) db fresh h =
      do_calls-IsDead hash cs _ fresh.1 (reset_keeps hash now password email db h)

  logout_kills :
      (now : Time) (token : Text) (db : Db)
      → let out =
          logout hash_password verify_password hash_token decode_refresh_token days now token db in
        out.0 ≡ ok tt → IsDead (hash_token token) out.1
  unfolding logout
  logout_kills now token db = elim (Result-cases (get_by_hash (hash_token token) db)) [
    | inl (bad, e) ↦ rw (e, logout) (λ went. absurd (ground arith))
    | inr (none, e) ↦ rw (e, logout) (λ went. get_by_hash-IsDead (hash_token token) none db e tt)
    | inr (some rt, e) ↦ elim (Bool-cases (is_some rt.revoked_at)) [
      | inl f ↦ rw (e, f, logout) (λ went. get_by_hash-IsDead (hash_token token) (some rt) db e f)
      | inr f ↦ elim (revoke-cases now rt.id db) [
        | inl (bad, g) ↦ rw (e, f, g, logout) (λ went. absurd (ground arith))
        | inr (o, rows, g) ↦
            rw (e, f, g, logout)
              (λ went. found_revoked-IsDead (hash_token token) rt o now db e rows)
      ]
    ]
  ]

  -- A refresh token that was exchanged for a new one never works again: after any further registrations,
  -- logins, refreshes, logouts and password resets, at any times, exchanging it fails and changes nothing,
  -- if no new token has its hash.
  pub refresh-once :
      (drawn : Drawn) (now : Time) (token : Text) (db : Db) (u : User) (cs : List AuthCall)
      (again : Drawn) (later : Time)
      → (hash_token drawn.token == hash_token token) ≡ false
      → (refresh hash_password verify_password hash_token decode_refresh_token days drawn now token
          db).0
        ≡ ok u
      → All (IsFresh (hash_token token)) cs
      → let used =
          (refresh hash_password verify_password hash_token decode_refresh_token days drawn now
            token db).1 in
        let db' = do_calls cs used in
        (e : Error) × (refresh hash_password verify_password hash_token decode_refresh_token days
            again later token db'
          ≡ (err e, db'))
  refresh-once drawn now token db u cs again later fresh went calls =
      let dead =
        refresh_kills hash_password verify_password hash_token decode_refresh_token days drawn now
          token db u fresh went in
      dead_fails hash_password verify_password hash_token decode_refresh_token days again later
        token _ (do_calls-IsDead (hash_token token) cs _ calls dead)

  -- After a logout that went through, the refresh token never works: after any further registrations,
  -- logins, refreshes, logouts and password resets, at any times, exchanging it fails and changes nothing,
  -- if no new token has its hash.
  pub logout-refresh :
      (now : Time) (token : Text) (db : Db) (cs : List AuthCall) (again : Drawn) (later : Time)
      → (logout hash_password verify_password hash_token decode_refresh_token days now token db).0
        ≡ ok tt
      → All (IsFresh (hash_token token)) cs
      → let left =
          (logout hash_password verify_password hash_token decode_refresh_token days now token
            db).1 in
        let db' = do_calls cs left in
        (e : Error) × (refresh hash_password verify_password hash_token decode_refresh_token days
            again later token db'
          ≡ (err e, db'))
  logout-refresh now token db cs again later went calls =
      dead_fails hash_password verify_password hash_token decode_refresh_token days again later
        token _ (do_calls-IsDead (hash_token token) cs _ calls (logout_kills now token db went))
