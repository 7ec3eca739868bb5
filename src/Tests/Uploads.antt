-- ===== src/Tests/Uploads.antt =====
-- The theorems on resumable uploads, at a session with two chunks.
use cloud_drive.Prelude.{
  ℕ, ◌≡◌, ◌≤◌, ◌+◌, ◌⊎◌, refl, none, some, List, [], ◌∷◌, mem, keep, length-keep,
}
use cloud_drive.Model.{UploadStatus, UploadSession, UploadChunk, chunk_key, DriveItem, User, Db}
use cloud_drive.Exec.{ok, IsRefused}
use cloud_drive.Items.{name_rows, find}
use cloud_drive.Naming.Free.{IsNameUnique}
use cloud_drive.Blobs.{joined, find_blob, key_eq}
use cloud_drive.Quota.{find_user}
use cloud_drive.Session.{
  Limits, missing_below, create_session, upload_chunk, complete_session, get_for_user, find_session,
  chunks_of, by_index, insert_by_index, sum_active_total_size,
}
use cloud_drive.Upload.{upload_simple}
use cloud_drive.Upload.Stored.{IsRaised, IsUploaded, upload_simple-IsUploaded}
use cloud_drive.Session.Reserve.{IsOpened, create_session-room}
use cloud_drive.Session.Accept.{IsStored, upload_chunk-IsStored}
use cloud_drive.Session.Order.{IsOrdered}
use cloud_drive.Session.Complete.{IsMerged, complete_session-IsMerged}
use cloud_drive.Tests.{drive_db, beach}

abbrev limits : Limits
limits = record { chunk_size = 2; max_file_size = 100; retention_seconds = 1000 }

abbrev session : UploadSession
session = record {
  id = 80;
  user_id = 7;
  parent_id = some 2;
  filename = 97 ∷ [];
  mime_type = none;
  total_size = 3;
  chunk_size = 2;
  total_chunks = 2;
  status = UploadStatus.uploading;
  checksum_sha256 = none;
  drive_item_id = none;
  error_code = none;
  created_at = 100;
  updated_at = 100;
  expires_at = 1100;
}

abbrev sent : ℕ → ℕ → UploadChunk
sent index size = record {
  session_id = 80;
  chunk_index = index;
  size = size;
  checksum_sha256 = none;
  storage_key = chunk_key 7 80 index;
  created_at = 100;
}

abbrev upload_db : Db
upload_db = record drive_db {
  items = beach ∷ [];
  sessions = session ∷ [];
  chunks = sent 1 1 ∷ sent 0 2 ∷ [];
  blobs =
      record { key = chunk_key 7 80 0; bytes = 5 ∷ 6 ∷ []; modified_at = 100 }
      ∷ record { key = chunk_key 7 80 1; bytes = 9 ∷ []; modified_at = 100 }
      ∷ [];
}

-- A stand-in for the hash: the first byte.
abbrev first_byte : List ℕ → ℕ
first_byte [] = 0
first_byte (b ∷ bytes) = b

create_session-room_example :
    let r = create_session limits 81 200 7 none (97 ∷ []) 50 none upload_db in
    IsRefused upload_db r
    ⊎ (IsOpened 7 50 upload_db r
        × ((u : User) × (find_user r.1.users 7 ≡ some u)
            × (u.used_bytes + sum_active_total_size 7 r.1 ≤ u.quota_bytes)))
create_session-room_example = create_session-room limits 81 200 7 none (97 ∷ []) 50 none upload_db

upload_chunk-IsStored_example :
    let r = upload_chunk first_byte 200 7 80 1 (8 ∷ []) upload_db in
    IsRefused upload_db r
    ⊎ ((s : UploadSession) × (get_for_user 80 7 upload_db.sessions ≡ some s)
        × IsStored 7 1 (8 ∷ []) s r)
upload_chunk-IsStored_example = upload_chunk-IsStored first_byte 200 7 80 1 (8 ∷ []) upload_db

upload-IsNameUnique : IsNameUnique upload_db.items
unfolding name_rows
upload-IsNameUnique name parent owner = length-keep _ (beach ∷ [])

complete_session-IsMerged_example :
    let r = complete_session first_byte 9 90 91 200 7 80 upload_db in
    IsOrdered (chunks_of 80 upload_db)
    × (IsRaised upload_db r
        ⊎ ((it : DriveItem) × (r.0 ≡ ok it)
            × IsMerged first_byte 7 session (5 ∷ 6 ∷ 9 ∷ []) it r.1))
unfolding find by_index insert_by_index get_for_user find_session missing_below mem chunks_of keep
    joined find_blob key_eq
complete_session-IsMerged_example =
    complete_session-IsMerged first_byte 9 90 91 200 7 80 upload_db session (5 ∷ 6 ∷ 9 ∷ [])
      upload-IsNameUnique refl refl refl refl refl (refl, (refl, tt))

upload_simple-IsUploaded_example :
    let r = upload_simple first_byte 9 90 91 200 7 none (97 ∷ []) (5 ∷ 6 ∷ []) 2 none upload_db in
    IsRaised upload_db r ⊎ IsUploaded first_byte 200 7 none (5 ∷ 6 ∷ []) upload_db r
upload_simple-IsUploaded_example =
    upload_simple-IsUploaded first_byte 9 90 91 200 7 none (97 ∷ []) (5 ∷ 6 ∷ []) 2 none upload_db
