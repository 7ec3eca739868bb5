-- ===== src/Session/Rows.antt =====
-- SQLUploadSessionRepository of backend/app/upload/session_repository.py.
use cloud_drive.Prelude.{
  ℕ, ◌+◌, Bool, true, false, not, ◌&&◌, Option, none, some, List, [], ◌∷◌, map, keep, ltb, leb,
  ◌==◌, if◌then◌else◌,
}
use cloud_drive.Model.{Uuid, Time, StorageKey, UploadStatus, UploadSession, UploadChunk, Db}
use cloud_drive.Exec.{Exec, modify}

-- ACTIVE_STATUSES
abbrev pub is_active : UploadStatus → Bool
is_active UploadStatus.pending = true
is_active UploadStatus.uploading = true
is_active _ = false

-- TERMINAL_STATUSES
abbrev pub is_terminal : UploadStatus → Bool
is_terminal UploadStatus.completed = true
is_terminal UploadStatus.failed = true
is_terminal UploadStatus.cancelled = true
is_terminal _ = false

unfoldable pub find_session : List UploadSession → Uuid → Option UploadSession
find_session [] i = none
find_session (s ∷ sessions) i = if s.id == i then some s else find_session sessions i

-- The session with this id, if it is the user's.
unfoldable pub get_for_user : Uuid → Uuid → List UploadSession → Option UploadSession
get_for_user i user sessions = elim (find_session sessions i) [
  | none ↦ none
  | some s ↦ if s.user_id == user then some s else none
]

-- ORDER BY chunk_index
unfoldable pub insert_by_index : UploadChunk → List UploadChunk → List UploadChunk
insert_by_index c [] = c ∷ []
insert_by_index c (d ∷ chunks) =
    let rest = insert_by_index c chunks in
    if leb c.chunk_index d.chunk_index then c ∷ d ∷ chunks else d ∷ rest

unfoldable pub by_index : List UploadChunk → List UploadChunk
by_index [] = []
by_index (c ∷ chunks) = insert_by_index c (by_index chunks)

unfoldable pub chunks_of : Uuid → Db → List UploadChunk
chunks_of i db = by_index (keep (λ c. c.session_id == i) db.chunks)

unfoldable pub completed_indexes : Uuid → Db → List ℕ
completed_indexes i db = map (λ c. c.chunk_index) (chunks_of i db)

-- ON CONFLICT (session_id, chunk_index) DO UPDATE
unfoldable pub insert_chunk : UploadChunk → List UploadChunk → List UploadChunk
insert_chunk c [] = c ∷ []
insert_chunk c (d ∷ chunks) =
    let rest = insert_chunk c chunks in
    if c.session_id == d.session_id && c.chunk_index == d.chunk_index then c ∷ chunks else d ∷ rest

unfoldable pub upsert_chunk : Time → Uuid → ℕ → ℕ → StorageKey → ℕ → Exec (Unit {0})
upsert_chunk now session_id index size k checksum =
    let c : UploadChunk = record {
      session_id = session_id;
      chunk_index = index;
      size = size;
      checksum_sha256 = some checksum;
      storage_key = k;
      created_at = now;
    } in
    modify (λ db. record db { chunks = insert_chunk c db.chunks })

unfoldable pub update_rows :
    Uuid → (UploadSession → UploadSession) → List UploadSession → List UploadSession
update_rows i f [] = []
update_rows i f (s ∷ sessions) = (if s.id == i then f s else s) ∷ update_rows i f sessions

unfoldable pub update_session : Uuid → (UploadSession → UploadSession) → Exec (Unit {0})
unfolding update_rows
update_session i f = modify (λ db. record db { sessions = update_rows i f db.sessions })

abbrev pub set_status : Time → Uuid → UploadStatus → Exec (Unit {0})
set_status now i status = update_session i (λ s. record s { status = status; updated_at = now })

-- The bytes promised to the user's unfinished sessions.
unfoldable pub reserved_bytes : Uuid → List UploadSession → ℕ
reserved_bytes user [] = 0
reserved_bytes user (s ∷ sessions) =
    (if s.user_id == user && is_active s.status then s.total_size else 0)
    + reserved_bytes user sessions

unfoldable pub sum_active_total_size : Uuid → Db → ℕ
sum_active_total_size user db = reserved_bytes user db.sessions

unfoldable pub list_expired : Time → Db → List UploadSession
list_expired now db = keep (λ s. ltb s.expires_at now && is_active s.status) db.sessions

unfoldable pub delete_chunks : Uuid → Exec (Unit {0})
delete_chunks i =
    modify (λ db. record db { chunks = keep (λ c. not (c.session_id == i)) db.chunks })

-- The chunk rows go with their session.
unfoldable pub delete_session : Uuid → Exec (Unit {0})
delete_session i = modify (λ db. record db {
  sessions = keep (λ s. not (s.id == i)) db.sessions;
  chunks = keep (λ c. not (c.session_id == i)) db.chunks;
})
