-- ===== src/Tests/Links.antt =====
-- The theorems on public links, at the small drive with a link to the folder 1.
use cloud_drive.Prelude.{ℕ, ◌≡◌, refl, ◌⊎◌, ◌==◌, Bool, true, none, some, [], ◌∷◌, arith}
use cloud_drive.Model.{LinkPermission, ShareLink, Db}
use cloud_drive.Exec.{err, ok, IsRefused}
use cloud_drive.Link.{
  link_invalid, Claims, Throttling, Authorized, authorize, open_session, create_folder, upload,
  rename, move, trash, find_token,
}
use cloud_drive.Link.Throttle.{IsGood, authorize-IsGood, open_session-locked}
use cloud_drive.Link.{deactivate_link}
use cloud_drive.Link.Revoke.{authorize-deactivate_link}
use cloud_drive.Items.{find}
use cloud_drive.Drive.Writes.{LiesIn, LiesAsIn, IsTrashed}
use cloud_drive.Link.Writes.{IsKept, writes-MayWrite}
use cloud_drive.Tests.{drive_db}

abbrev guest_link : ShareLink
guest_link = record {
  id = 60;
  item_id = 1;
  token_hash = 77;
  permission = LinkPermission.editor;
  password_hash = some 5;
  expires_at = some 900;
  is_active = true;
  created_by = 7;
  created_at = 100;
  attempt_window_start = some 190;
  attempt_count = 5;
  locked_until = none;
}

abbrev link_db : Db
link_db = record drive_db { links = guest_link ∷ [] }

abbrev claims : Claims
claims = record {
  link_id = 60;
  root_item_id = 1;
  permission = LinkPermission.editor;
  chain_started_at = 150;
}

abbrev throttling : Throttling
throttling = record { attempt_limit = 5; lockout_seconds = 900 }

-- Password hashes that are the passwords.
abbrev verify_equal : ℕ → ℕ → Bool
verify_equal p h = p == h

writes-MayWrite_example :
    IsKept 200
      (some claims)
      link_db
      2
      9
      (LiesIn 2)
      (create_folder 9 200 (some claims) 2 (97 ∷ []) link_db)
    × IsKept 200
        (some claims)
        link_db
        2
        9
        (LiesIn 2)
        (upload (λ bytes. 0) 9 90 91 200 (some claims) 2 (97 ∷ []) (5 ∷ []) 1 none link_db)
    × IsKept 200
        (some claims)
        link_db
        3
        3
        (LiesAsIn link_db)
        (rename 200 (some claims) 3 (97 ∷ []) link_db)
    × (IsKept 200 (some claims) link_db 3 3 (LiesIn 2) (move 200 (some claims) 3 2 link_db)
        × IsKept 200 (some claims) link_db 2 3 (LiesIn 2) (move 200 (some claims) 3 2 link_db))
    × IsKept 200 (some claims) link_db 3 3 (IsTrashed link_db) (trash 200 (some claims) 3 link_db)
writes-MayWrite_example =
    writes-MayWrite 200 (some claims) link_db 3 2 9 (97 ∷ []) (λ bytes. 0) 90 91 (5 ∷ []) 1 none
      (unfold find in refl)

authorize-IsGood_example :
    (authorize 200 (some claims) link_db ≡ (err link_invalid, link_db))
    ⊎ ((auth : Authorized) × (authorize 200 (some claims) link_db ≡ (ok auth, link_db))
        × ((some claims ≡ some auth.claims) × IsGood 200 link_db auth))
authorize-IsGood_example = authorize-IsGood 200 (some claims) link_db

open_session-locked_example :
    ((open_session verify_equal throttling 200 77 (some 4) link_db).0 ≡ err link_invalid)
    × (open_session verify_equal throttling 500 77
          (some 5)
          (open_session verify_equal throttling 200 77 (some 4) link_db).1
        ≡ (err link_invalid, (open_session verify_equal throttling 200 77 (some 4) link_db).1))
open_session-locked_example =
    open_session-locked verify_equal throttling 200 500 77 5 4 190 (some 5) guest_link link_db
      (unfold find_token in refl) refl refl refl refl refl (omega arith) (omega arith) (omega arith)

authorize-deactivate_link_example :
    let r = deactivate_link 7 60 link_db in
    IsRefused link_db r
    ⊎ ((r.0 ≡ ok tt) × (authorize 200 (some claims) r.1 ≡ (err link_invalid, r.1)))
authorize-deactivate_link_example = authorize-deactivate_link 7 claims 200 link_db
