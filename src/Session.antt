-- ===== src/Session.antt =====
-- UploadSessionService of backend/app/upload/session_service.py: resumable uploads in chunks.
mod Rows
pub mod Chunks
pub mod Order
pub mod Reserve
pub mod Accept
pub mod Complete
unfoldable pub use Rows.{
  is_active, is_terminal, find_session, get_for_user, insert_by_index, by_index, chunks_of,
  insert_chunk, completed_indexes, upsert_chunk, update_session, set_status, reserved_bytes,
  sum_active_total_size, list_expired, delete_chunks, delete_session,
}
use cloud_drive.Prelude.{
  ℕ, zero, suc, ◌+◌, ◌-◌, ◌*◌, ◌/◌, Text, Bool, true, false, not, ◌&&◌, Option, none, some, List,
  [], ◌∷◌, ◌++◌, map, keep, any, mem, length, ltb, leb, ◌==◌, if◌then◌else◌,
}
use cloud_drive.Model.{
  Uuid, Time, StorageKey, chunk_key, UploadStatus, UploadSession, UploadChunk, DriveItem, Action,
  Db, not_found_error, invalid_operation_error, file_too_large_error, key_not_found,
}
use cloud_drive.Exec.{
  Result, ok, err, Exec, pure, raise, query, gets, required, guard, refuse, when, modify, ◌>>=◌,
  ◌>>◌,
}
use cloud_drive.Naming.{safe_filename, split_name, free_name}
use cloud_drive.Quota.{assert_has_space}
use cloud_drive.Blobs.{save_stream, delete, concat, find_blob}
use cloud_drive.Prefs.{log}
use cloud_drive.Upload.{make_storage_key, or_delete, check_target, create_file}

-- The settings that the service is built with.
pub record Limits : Type 0 where
  pub chunk_size : ℕ
  pub max_file_size : ℕ
  pub retention_seconds : ℕ

-- `-(-total_size // chunk_size)`
unfoldable pub chunk_count : ℕ → ℕ → ℕ
chunk_count total_size chunk_size = (total_size + (chunk_size - 1)) / chunk_size

unfoldable pub get_or_404 : Uuid → Uuid → Exec UploadSession
get_or_404 user session_id = do
  found ← gets (λ db. get_for_user session_id user db.sessions)
  required not_found_error found

unfoldable pub new_session :
    Limits → Uuid → Time → Uuid → Option Uuid → Text → ℕ → Option Text → UploadSession
unfolding chunk_count
new_session limits new_id now user parent filename total_size mime = record {
  id = new_id;
  user_id = user;
  parent_id = parent;
  filename = filename;
  mime_type = mime;
  total_size = total_size;
  chunk_size = limits.chunk_size;
  total_chunks = chunk_count total_size limits.chunk_size;
  status = UploadStatus.pending;
  checksum_sha256 = none;
  drive_item_id = none;
  error_code = none;
  created_at = now;
  updated_at = now;
  expires_at = now + limits.retention_seconds;
}

unfoldable pub create_session :
    Limits → Uuid → Time → Uuid → Option Uuid → Text → ℕ → Option Text → Exec UploadSession
create_session limits new_id now user parent raw_name total_size mime = do
  filename ← query (λ _. safe_filename raw_name)
  refuse (ltb limits.max_file_size total_size) file_too_large_error
  query (check_target user parent)
  reserved ← gets (sum_active_total_size user)
  query (assert_has_space user (total_size + reserved))
  let s = new_session limits new_id now user parent filename total_size mime
  modify (λ db. record db { sessions = db.sessions ++ s ∷ [] })
  pure s

unfoldable pub get_session : Uuid → Uuid → Exec (UploadSession × List ℕ)
get_session user session_id = do
  s ← get_or_404 user session_id
  indexes ← gets (completed_indexes s.id)
  pure (s, indexes)

unfoldable pub upload_chunk : (List ℕ → ℕ) → Time → Uuid → Uuid → ℕ → List ℕ → Exec (Unit {0})
upload_chunk sha now user session_id index bytes = do
  s ← get_or_404 user session_id
  refuse (is_terminal s.status) invalid_operation_error
  refuse (leb s.total_chunks index) invalid_operation_error
  let k = chunk_key user s.id index
  size ← save_stream now k bytes
  upsert_chunk now s.id index size k (sha bytes)
  when (elim s.status [ UploadStatus.pending ↦ true | _ ↦ false ])
      (set_status now s.id UploadStatus.uploading)

-- `[i for i in range(n) if i not in present]`, from the last index down
unfoldable pub missing_below : ℕ → List ℕ → List ℕ
missing_below zero present = []
missing_below (suc n) present =
    let rest = missing_below n present in if mem n present then rest else n ∷ rest

unfoldable pub discard_blobs : List UploadChunk → Exec (Unit {0})
discard_blobs [] = pure tt
discard_blobs (c ∷ chunks) = do delete c.storage_key; discard_blobs chunks

unfoldable pub discard_chunks : List UploadChunk → Exec (Unit {0})
discard_chunks [] = pure tt
discard_chunks (c ∷ chunks) = do discard_blobs (c ∷ chunks); delete_chunks c.session_id

-- The content that stands under the key, read back for its hash.
unfoldable pub checksum_of : (List ℕ → ℕ) → StorageKey → Exec ℕ
checksum_of sha k = do
  found ← gets (λ db. find_blob k db.blobs)
  blob ← required key_not_found found
  pure (sha blob.bytes)

-- `_create_item`: the first free name at completion, and the file's rows.
unfoldable pub create_item :
    Uuid → Uuid → Time → UploadSession → Uuid → StorageKey → ℕ → ℕ → Exec DriveItem
create_item item_id version_id now s user k size checksum = do
  name ← query (free_name s.filename s.parent_id user)
  create_file item_id version_id now user s.parent_id name (split_name s.filename).1 s.mime_type k
      size checksum

-- The body of the `try`.
unfoldable pub merge_item :
    (List ℕ → ℕ) → Uuid → Uuid → Time → UploadSession → Uuid → StorageKey → ℕ → Exec (DriveItem × ℕ)
merge_item sha item_id version_id now s user k size = do
  checksum ← checksum_of sha k
  it ← create_item item_id version_id now s user k size checksum
  pure (it, checksum)

unfoldable pub complete_session :
    (List ℕ → ℕ) → Uuid → Uuid → Uuid → Time → Uuid → Uuid → Exec DriveItem
complete_session sha item_id blob_id version_id now user session_id = do
  s ← get_or_404 user session_id
  refuse (is_terminal s.status) invalid_operation_error
  chunks ← gets (chunks_of s.id)
  guard
      (elim (missing_below s.total_chunks (map (λ c. c.chunk_index) chunks)) [
        | [] ↦ true
        | _ ↦ false
      ])
      invalid_operation_error
  let k = make_storage_key user blob_id
  size ← concat now (map (λ c. c.storage_key) chunks) k
  (it, checksum) ← or_delete k (merge_item sha item_id version_id now s user k size)
  discard_chunks chunks
  update_session s.id (λ row. record row {
    status = UploadStatus.completed;
    checksum_sha256 = some checksum;
    drive_item_id = some it.id;
    updated_at = now;
  })
  log user Action.upload (some it.id)
  pure it

unfoldable pub cancel_session : Time → Uuid → Uuid → Exec (Unit {0})
cancel_session now user session_id = do
  s ← get_or_404 user session_id
  refuse (elim s.status [ UploadStatus.completed ↦ true | _ ↦ false ]) invalid_operation_error
  if (elim s.status [ UploadStatus.cancelled ↦ true | _ ↦ false ]) then pure tt else do
    chunks ← gets (chunks_of s.id)
    discard_chunks chunks
    set_status now s.id UploadStatus.cancelled

unfoldable pub reclaim_sessions : List UploadSession → Exec (Unit {0})
reclaim_sessions [] = pure tt
reclaim_sessions (s ∷ expired) = do
  chunks ← gets (chunks_of s.id)
  discard_chunks chunks
  delete_session s.id
  reclaim_sessions expired

unfoldable pub cleanup_expired : Time → Exec ℕ
cleanup_expired now = do
  expired ← gets (list_expired now)
  reclaim_sessions expired
  pure (length expired)
