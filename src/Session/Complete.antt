-- ===== src/Session/Complete.antt =====
-- What completing an upload gives.
use cloud_drive.Prelude.{
  ℕ, ◌≡◌, refl, ap, ◌∙◌, ◌⊎◌, inl, inr, true, false, some, none, Text, List, [], ◌∷◌, ◌++◌, map,
  keep, length, arith, All, ◌==◌, ==_refl, Bool-cases,
}
use cloud_drive.Model.{
  ItemType, Uuid, Time, Action, UploadStatus, UploadSession, UploadChunk, DriveItem, StorageKey,
  file_key, chunk_key, Blob, Db,
}
use cloud_drive.Exec.{Result, ok, err, Exec, pure, continue, ◌>>◌}
use cloud_drive.Blobs.{
  key_eq, find_blob, without_blob, is_chunk, joined, concat, save_stream, delete,
}
use cloud_drive.Items.{find, new_item}
use cloud_drive.Items.Rows.{find-append, find-update_row}
use cloud_drive.Versions.{create_row}
use cloud_drive.Quota.{add_used_bytes}
use cloud_drive.Prefs.{log}
use cloud_drive.Naming.{split_name}
use cloud_drive.Naming.Free.{IsNameUnique, free_name-IsFree}
use cloud_drive.Upload.{make_storage_key, create_file, undo, with_content, extension_of}
use cloud_drive.Upload.File.{step_create_file}
use cloud_drive.Upload.Stored.{IsRaised}
use cloud_drive.Session.Order.{IsOrdered, by_index-IsOrdered}
use cloud_drive.Session.{
  is_terminal, get_for_user, get_or_404, chunks_of, missing_below, discard_blobs, discard_chunks,
  delete_chunks, checksum_of, create_item, merge_item, complete_session, update_session,
}

-- An object under the key of a chunk is not one under the key of a file.
file-key_eq :
    (j k l : StorageKey)
    → is_chunk j ≡ true
    → is_chunk k ≡ false
    → key_eq j l ≡ true
    → key_eq k l ≡ false
unfolding key_eq
file-key_eq (file_key u i n) k l chunk file same = absurd (ground arith)
file-key_eq (chunk_key u i n) (chunk_key v j m) l chunk file same = absurd (ground arith)
file-key_eq (chunk_key u i n) (file_key v j m) (file_key w h o) chunk file same =
    absurd (ground arith)
file-key_eq (chunk_key u i n) (file_key v j m) (chunk_key w h o) chunk file same = refl

discard_blobs-ok : (chunks : List UploadChunk) (db : Db) → (discard_blobs chunks db).0 ≡ ok tt
unfolding discard_blobs delete
discard_blobs-ok [] db = refl
discard_blobs-ok (c ∷ chunks) db = discard_blobs-ok chunks (delete c.storage_key db).1

discard_chunks-ok : (chunks : List UploadChunk) (db : Db) → (discard_chunks chunks db).0 ≡ ok tt
unfolding discard_chunks delete_chunks
discard_chunks-ok [] db = refl
discard_chunks-ok (c ∷ chunks) db = rw (discard_blobs-ok (c ∷ chunks) db)

concat-joined :
    (now : Time) (keys : List StorageKey) (k : StorageKey) (db : Db) (bytes : List ℕ)
    → joined keys db.blobs ≡ ok bytes
    → concat now keys k db ≡ (ok (length bytes), (save_stream now k bytes db).1)
unfolding concat save_stream
concat-joined now keys k db bytes h = rw (concat, h)

-- Removing the objects of chunks keeps every other object and all items.
find_blob-without_blob :
    (j k : StorageKey) (blobs : List Blob)
    → is_chunk j ≡ true
    → is_chunk k ≡ false
    → find_blob k (without_blob j blobs) ≡ find_blob k blobs
unfolding find_blob without_blob keep
find_blob-without_blob j k [] chunk file = refl
find_blob-without_blob j k (b ∷ blobs) chunk file = elim (Bool-cases (key_eq j b.key)) [
  | inr e ↦ ground (arith, find_blob-without_blob j k blobs chunk file)
  | inl e ↦
      let other = file-key_eq j k b.key chunk file e in
      ground (arith, find_blob-without_blob j k blobs chunk file)
]

discard_blobs-keeps :
    (chunks : List UploadChunk) (k : StorageKey) (db : Db)
    → All (λ c. is_chunk c.storage_key ≡ true) chunks
    → is_chunk k ≡ false
    → ((discard_blobs chunks db).1.items ≡ db.items)
      × (find_blob k (discard_blobs chunks db).1.blobs ≡ find_blob k db.blobs)
unfolding discard_blobs delete
discard_blobs-keeps [] k db h file = (refl, refl)
discard_blobs-keeps (c ∷ chunks) k db h file =
    let (items, found) = discard_blobs-keeps chunks k (delete c.storage_key db).1 h.1 file in
    (items, found ∙ find_blob-without_blob c.storage_key k db.blobs h.0 file)

discard_chunks-keeps :
    (chunks : List UploadChunk) (k : StorageKey) (db : Db)
    → All (λ c. is_chunk c.storage_key ≡ true) chunks
    → is_chunk k ≡ false
    → ((discard_chunks chunks db).1.items ≡ db.items)
      × (find_blob k (discard_chunks chunks db).1.blobs ≡ find_blob k db.blobs)
unfolding discard_chunks delete_chunks
discard_chunks-keeps [] k db h file = (refl, refl)
discard_chunks-keeps (c ∷ chunks) k db h file =
    rw (discard_blobs-ok (c ∷ chunks) db) (discard_blobs-keeps (c ∷ chunks) k db h file)

-- The file that an upload becomes: a row of the table whose key gives the chunks' bytes.
pub record IsMerged (sha : List ℕ → ℕ) (user : Uuid) (s : UploadSession) (bytes : List ℕ)
    (it : DriveItem) (after : Db) : Type 0 where
  pub size : it.size_bytes ≡ length bytes
  pub checksum : it.checksum_sha256 ≡ some (sha bytes)
  pub place : it.parent_id ≡ s.parent_id
  pub owned : it.owner_id ≡ user
  pub row : find after.items it.id ≡ some it
  pub key : StorageKey
  pub keyed : it.storage_key ≡ some key
  pub file : is_chunk key ≡ false
  pub blob : Blob
  pub found : find_blob key after.blobs ≡ some blob
  pub stored : blob.bytes ≡ bytes

-- The merge raises and charges nobody, or it gives the file.
abbrev IsDone : (List ℕ → ℕ) → Uuid → UploadSession → List ℕ → Db → Result DriveItem × Db → Type 0
IsDone sha user s bytes db r =
    IsRaised db r ⊎ ((it : DriveItem) × (r.0 ≡ ok it) × IsMerged sha user s bytes it r.1)

module _ (sha : List ℕ → ℕ) (item_id blob_id version_id : Uuid) (now : Time) (user : Uuid) (db : Db)
    (s : UploadSession) (bytes : List ℕ) where
  file_of : Text → Result DriveItem × Db
  file_of name =
      create_file item_id version_id now user s.parent_id name (split_name s.filename).1 s.mime_type
        (make_storage_key user blob_id) (length bytes) (sha bytes)
        (save_stream now (make_storage_key user blob_id) bytes db).1

  file_of-IsDone :
      (name : Text) → find db.items item_id ≡ none → IsDone sha user s bytes db (file_of name)
  unfolding file_of new_item create_row add_used_bytes save_stream find_blob key_eq
  file_of-IsDone name fresh =
      let k = make_storage_key user blob_id in
      let it = new_item item_id now user s.parent_id ItemType.file name user in
      let f =
        with_content (length bytes) s.mime_type (extension_of (split_name s.filename).1) (sha bytes)
          k in
      step_create_file item_id version_id now user s.parent_id name (split_name s.filename).1
        s.mime_type k (length bytes) (sha bytes) (IsDone sha user s bytes db)
        (save_stream now k bytes db).1 (λ e. inl (e, refl, refl, refl))
        (λ e. inl (e, refl, refl, refl))
        (inr (
          f it,
          refl,
          record {
            size = refl;
            checksum = refl;
            place = refl;
            owned = refl;
            row = ground (
              arith,
              find-update_row f item_id item_id (db.items ++ it ∷ []) (λ _. refl),
              find-append db.items it item_id fresh,
              ==_refl item_id,
            );
            key = k;
            keyed = refl;
            file = refl;
            blob = record { key = k; bytes = bytes; modified_at = now };
            found = rw (==_refl user, ==_refl blob_id);
            stored = refl;
          },
        ))

  merge_item-file_of :
      IsNameUnique db.items
      → (name : Text) × (merge_item sha item_id version_id now s user
            (make_storage_key user blob_id)
            (length bytes)
            (save_stream now (make_storage_key user blob_id) bytes db).1
          ≡ continue (file_of name).0 (λ it after. (ok (it, sha bytes), after)) (file_of name).1)
  unfolding merge_item checksum_of create_item save_stream find_blob key_eq file_of
  merge_item-file_of unique =
      let after : Db = (save_stream now (make_storage_key user blob_id) bytes db).1 in
      let (name, e, _, _) = free_name-IsFree s.parent_id user after unique s.filename in
      (name, rw (==_refl user, ==_refl blob_id, e))

  -- What follows the merge.
  rest : List UploadChunk → DriveItem × ℕ → Exec DriveItem
  rest chunks (it, checksum) = do
    discard_chunks chunks
    update_session s.id (λ row. record row {
      status = UploadStatus.completed;
      checksum_sha256 = some checksum;
      drive_item_id = some it.id;
      updated_at = now;
    })
    log user Action.upload (some it.id)
    pure it

  merged-IsDone :
      (chunks : List UploadChunk) (k : StorageKey) (r : Result DriveItem × Db)
      → All (λ c. is_chunk c.storage_key ≡ true) chunks
      → IsDone sha user s bytes db r
      → let m =
          undo {A = DriveItem × ℕ} k (continue r.0 (λ it after. (ok (it, sha bytes), after)) r.1) in
        IsDone sha user s bytes db (continue m.0 (rest chunks) m.1)
  unfolding undo delete rest update_session log
  merged-IsDone chunks k (err e, after) h (inl (bad, _, users, versions)) =
      inl (e, refl, users, versions)
  merged-IsDone chunks k (err e, after) h (inr (it, eq, m)) = absurd (ground (arith, eq))
  merged-IsDone chunks k (ok it, after) h (inl (bad, eq, _, _)) = absurd (ground (arith, eq))
  merged-IsDone chunks k (ok it, after) h (inr (it', eq, m)) =
      let same : it' ≡ it = ground (arith, eq) in
      let (items, blobs) = discard_chunks-keeps chunks m.key after h m.file in
      rw (discard_chunks-ok chunks after) (
        inr (
          it',
          rw same,
          record {
            size = m.size;
            checksum = m.checksum;
            place = m.place;
            owned = m.owned;
            row = ap (λ xs. find xs it'.id) items ∙ m.row;
            key = m.key;
            keyed = m.keyed;
            file = m.file;
            blob = m.blob;
            found = blobs ∙ m.found;
            stored = m.stored;
          },
        ))

-- Where an open session of the user has all its chunks, their objects are there under keys of chunks,
-- names are unique and the new id is not that of a row, the chunks are taken in the order of their
-- indexes, and completing the session raises and charges nobody, or it returns a row of the table:
-- it is the user's, in the folder of the session, its size and checksum are those of the chunks' bytes
-- one after the other, and those bytes stand under its key.
pub complete_session-IsMerged :
    (sha : List ℕ → ℕ) (item_id blob_id version_id : Uuid) (now : Time) (user session_id : Uuid)
    (db : Db) (s : UploadSession) (bytes : List ℕ)
    → IsNameUnique db.items
    → find db.items item_id ≡ none
    → get_for_user session_id user db.sessions ≡ some s
    → is_terminal s.status ≡ false
    → missing_below s.total_chunks (map (λ c. c.chunk_index) (chunks_of s.id db)) ≡ []
    → joined (map (λ c. c.storage_key) (chunks_of s.id db)) db.blobs ≡ ok bytes
    → All (λ c. is_chunk c.storage_key ≡ true) (chunks_of s.id db)
    → let r = complete_session sha item_id blob_id version_id now user session_id db in
      IsOrdered (chunks_of s.id db)
      × (IsRaised db r ⊎ ((it : DriveItem) × (r.0 ≡ ok it) × IsMerged sha user s bytes it r.1))
unfolding complete_session get_or_404 rest
complete_session-IsMerged sha item_id blob_id version_id now user session_id db s bytes unique fresh
      found going whole all_there keys =
    let (name, merge) =
      merge_item-file_of sha item_id blob_id version_id now user db s bytes unique in
    (
      unfold chunks_of in by_index-IsOrdered (keep (λ c. c.session_id == s.id) db.chunks),
      rw
          (
            found,
            going,
            whole,
            concat-joined now (map (λ c. c.storage_key) (chunks_of s.id db))
                (make_storage_key user blob_id) db bytes all_there,
            merge,
          )
          (merged-IsDone sha item_id blob_id version_id now user db s bytes (chunks_of s.id db)
            (make_storage_key user blob_id)
            (file_of sha item_id blob_id version_id now user db s bytes name) keys
            (file_of-IsDone sha item_id blob_id version_id now user db s bytes name fresh)),
    )
