-- ===== src/Session/Reserve.antt =====
-- The space that open sessions have been promised.
use cloud_drive.Prelude.{
  ℕ, ◌+◌, ◌≤◌, ◌≡◌, refl, ◌⊎◌, inl, inr, true, Text, ◌&&◌, Option, some, List, [], ◌∷◌, ◌++◌, arith,
  ltb, ◌==◌, if◌then◌else◌, ==_refl,
}
use cloud_drive.Model.{Uuid, Time, UploadSession, User, Db, file_too_large_error}
use cloud_drive.Exec.{Result, ok, IsRefused}
use cloud_drive.Exec.Steps.{step_query, step_refuse}
use cloud_drive.Naming.{safe_filename}
use cloud_drive.Quota.{find_user, assert_has_space}
use cloud_drive.Quota.Laws.{has_space}
use cloud_drive.Upload.{check_target}
use cloud_drive.Session.{
  Limits, is_active, new_session, create_session, reserved_bytes, sum_active_total_size,
}

reserved_bytes-append :
    (user : Uuid) (s : UploadSession) (sessions : List UploadSession)
    → reserved_bytes user (sessions ++ s ∷ [])
      ≡ reserved_bytes user sessions
        + (if s.user_id == user && is_active s.status then s.total_size else 0)
unfolding reserved_bytes
reserved_bytes-append user s [] = ground arith
reserved_bytes-append user s (x ∷ sessions) = omega (arith, reserved_bytes-append user s sessions)

-- The new session is what the call returns, and all that changes is that its row is added.
pub record IsOpened (user : Uuid) (total_size : ℕ) (db : Db) (r : Result UploadSession × Db)
    : Type 0 where
  pub session : UploadSession
  pub returned : r ≡ (ok session, record db { sessions = db.sessions ++ session ∷ [] })
  pub promised : session.total_size ≡ total_size
  pub owned : session.user_id ≡ user
  pub open_session : is_active session.status ≡ true

-- Opening a session raises and nothing changes, or the session's row is added and
-- returned, open and of the size asked for, and at that moment the bytes in use and those promised to
-- all unfinished sessions of the user, the new one included, are within the quota.
pub create_session-room :
    (limits : Limits) (new_id : Uuid) (now : Time) (user : Uuid) (parent : Option Uuid)
    (name : Text) (total_size : ℕ) (mime : Option Text) (db : Db)
    → let r = create_session limits new_id now user parent name total_size mime db in
      IsRefused db r
      ⊎ (IsOpened user total_size db r
          × ((u : User) × (find_user r.1.users user ≡ some u)
              × (u.used_bytes + sum_active_total_size user r.1 ≤ u.quota_bytes)))
unfolding create_session sum_active_total_size new_session
create_session-room limits new_id now user parent raw total_size mime db =
    let Q : Result UploadSession × Db → Type 0 = λ r.
      IsRefused db r
      ⊎ (IsOpened user total_size db r
          × ((u : User) × (find_user r.1.users user ≡ some u)
              × (u.used_bytes + reserved_bytes user r.1.sessions ≤ u.quota_bytes))) in
    step_query Q db (safe_filename raw) _ (λ bad _. inl (bad, refl))
      λ name _.
        step_refuse Q db file_too_large_error (ltb limits.max_file_size total_size) _
          (λ _. inl (file_too_large_error, refl))
          λ _.
            step_query Q db (check_target user parent db) _ (λ bad _. inl (bad, refl))
              λ _ _.
                step_query Q db
                  (assert_has_space user (total_size + reserved_bytes user db.sessions) db) _
                  (λ bad _. inl (bad, refl))
                  λ _ room.
                    let (u, found, fits) =
                      has_space user (total_size + reserved_bytes user db.sessions) db room in
                    inr (
                      record {
                        session = new_session limits new_id now user parent name total_size mime;
                        returned = refl;
                        promised = refl;
                        owned = refl;
                        open_session = refl;
                      },
                      (
                        u,
                        found,
                        ground (
                          arith,
                          fits,
                          reserved_bytes-append user
                              (new_session limits new_id now user parent name total_size mime)
                              db.sessions,
                          ==_refl user,
                        ),
                      ),
                    )
