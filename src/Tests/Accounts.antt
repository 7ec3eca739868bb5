-- ===== src/Tests/Accounts.antt =====
-- A refresh token that is used once.
use cloud_drive.Prelude.{ℕ, ◌≡◌, refl, Bool, true, Option, some, List, [], ◌∷◌, Text, length, keep}
use cloud_drive.Model.{Uuid, Time, Error, Db}
use cloud_drive.Exec.{err, one_or_none}
use cloud_drive.Quota.{find_user}
use cloud_drive.Auth.{
  has_hash, get_by_hash, revoked_row, mark_revoked, revoke, new_token, create_token, Drawn, refresh,
  logout,
}
use cloud_drive.Auth.Once.{AuthCall, logs_in, logs_out, do_calls, refresh-once, logout-refresh}
use cloud_drive.Tests.{drive_db, account}

-- The hash is the length of the token, and every token is the user 7's.
abbrev hash_token : Text → ℕ
hash_token token = length token

abbrev decode : Time → Text → Option Uuid
decode now token = some 7

abbrev verify : Text → ℕ → Bool
verify password hash = true

abbrev token_db : Db
token_db = record drive_db { tokens = new_token 70 7 1 500 100 ∷ [] }

abbrev second : Drawn
second = record { row_id = 71; token = 1 ∷ 2 ∷ [] }

abbrev third : Drawn
third = record { row_id = 72; token = 1 ∷ 2 ∷ 3 ∷ [] }

abbrev calls : List AuthCall
calls = logs_in third 250 (7 ∷ []) [] ∷ logs_out 260 (1 ∷ 2 ∷ []) ∷ []

refresh-once_example :
    let used = (refresh hash_token verify hash_token decode 30 second 200 (9 ∷ []) token_db).1 in
    let db' = do_calls hash_token verify hash_token decode 30 calls used in
    (e : Error) × (refresh hash_token verify hash_token decode 30 third 300 (9 ∷ []) db'
      ≡ (err e, db'))
unfolding refresh get_by_hash has_hash keep one_or_none revoke find_user create_token mark_revoked
    revoked_row
refresh-once_example =
    refresh-once hash_token verify hash_token decode 30 second 200 (9 ∷ []) token_db (account 7 100)
      calls third 300 refl refl (refl, (tt, tt))

logout-refresh_example :
    let left = (logout hash_token verify hash_token decode 30 200 (9 ∷ []) token_db).1 in
    let db' = do_calls hash_token verify hash_token decode 30 calls left in
    (e : Error) × (refresh hash_token verify hash_token decode 30 third 300 (9 ∷ []) db'
      ≡ (err e, db'))
unfolding logout get_by_hash has_hash keep one_or_none revoke
logout-refresh_example =
    logout-refresh hash_token verify hash_token decode 30 200 (9 ∷ []) token_db calls third 300 refl
      (refl, (tt, tt))
