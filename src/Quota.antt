-- ===== src/Quota.antt =====
-- QuotaService of backend/app/users/service.py over SQLUserRepository: the bytes that a user may
-- store and those that are in use.
pub mod Laws
use cloud_drive.Prelude.{
  ℕ, ◌+◌, ◌-◌, Bool, not, ◌&&◌, Option, none, some, List, [], ◌∷◌, any, ltb, ◌==◌, if◌then◌else◌,
}
use cloud_drive.Model.{
  Uuid, Time, DriveItem, FileVersion, User, Db, not_found_error, quota_exceeded_error,
}
use cloud_drive.Exec.{Result, ok, err, Exec, modify}
use cloud_drive.Read.{Read, pure, gets, required, refuse, ◌>>=◌, ◌>>◌}

unfoldable pub find_user : List User → Uuid → Option User
find_user [] i = none
find_user (u ∷ users) i = if u.id == i then some u else find_user users i

-- `UPDATE users SET used_bytes = ..., updated_at = now WHERE id = i`
unfoldable pub update_used : Time → Uuid → (ℕ → ℕ) → List User → List User
update_used now i f [] = []
update_used now i f (u ∷ users) =
    (if u.id == i then record u { used_bytes = f u.used_bytes; updated_at = now } else u)
    ∷ update_used now i f users

-- The available space is the integer `quota_bytes - used_bytes`, which may be negative: it is less
-- than what is needed exactly if the quota is less than what would be used.
unfoldable pub assert_has_space : Uuid → ℕ → Read (Unit {0})
assert_has_space i needed = do
  found ← gets (λ db. find_user db.users i)
  user ← required not_found_error found
  refuse (ltb user.quota_bytes (user.used_bytes + needed)) quota_exceeded_error

-- A delta is a natural number here, so the test `delta < 0` never raises.
unfoldable pub add_used_bytes : Time → Uuid → ℕ → Exec (Unit {0})
add_used_bytes now i delta =
    modify (λ db. record db { users = update_used now i (λ n. n + delta) db.users })

-- `GREATEST(0, used_bytes - delta)`
unfoldable pub subtract_used_bytes : Time → Uuid → ℕ → Exec (Unit {0})
subtract_used_bytes now i delta =
    modify (λ db. record db { users = update_used now i (λ n. n - delta) db.users })

-- `available = max(0, quota_bytes - used_bytes)`
unfoldable pub available_bytes : Uuid → Read ℕ
available_bytes i = do
  found ← gets (λ db. find_user db.users i)
  user ← required not_found_error found
  pure (user.quota_bytes - user.used_bytes)

-- A version counts if its file is a live item of the user.
unfoldable pub counted_bytes : Uuid → List DriveItem → List FileVersion → ℕ
counted_bytes i items [] = 0
counted_bytes i items (v ∷ versions) =
    (if any (λ it. it.id == v.file_id && (it.owner_id == i && not it.is_deleted)) items
      then v.size_bytes
      else 0)
    + counted_bytes i items versions

unfoldable pub recalculate_used_bytes : Time → Uuid → Exec ℕ
recalculate_used_bytes now i db =
    let total = counted_bytes i db.items db.versions in
    (ok total, record db { users = update_used now i (λ _. total) db.users })
