-- ===== src/Session/Accept.antt =====
-- What a chunk that is sent leaves behind.
use cloud_drive.Prelude.{
  ℕ, ◌<◌, ◌≡◌, refl, ◌∙◌, ◌⊎◌, inl, inr, Bool, true, false, some, List, [], ◌∷◌, map, keep, length,
  mem, arith, leb, ◌==◌, ==_refl, Bool-cases, Option-cases,
}
use cloud_drive.Model.{
  Uuid, Time, UploadSession, UploadChunk, chunk_key, Blob, Db, not_found_error,
  invalid_operation_error,
}
use cloud_drive.Exec.{Result, ok, when, IsRefused}
use cloud_drive.Blobs.{key_eq, find_blob, save_stream}
use cloud_drive.Session.Order.{mem-by_index}
use cloud_drive.Session.{
  is_terminal, get_for_user, get_or_404, insert_chunk, upsert_chunk, completed_indexes, chunks_of,
  upload_chunk, update_session,
}

-- After a chunk was put in, its index is among those of its session.
mem-insert_chunk :
    (c : UploadChunk) (chunks : List UploadChunk)
    → mem c.chunk_index (
        map (λ d. d.chunk_index) (keep (λ d. d.session_id == c.session_id) (insert_chunk c chunks)))
      ≡ true
unfolding mem keep insert_chunk
mem-insert_chunk c [] = ground (arith, ==_refl c.session_id, ==_refl c.chunk_index)
mem-insert_chunk c (d ∷ chunks) =
    ground (arith, mem-insert_chunk c chunks, ==_refl c.session_id, ==_refl c.chunk_index)

-- The chunk was stored under its key, and its index is listed.
pub record IsStored (user index : ℕ) (bytes : List ℕ) (s : UploadSession)
    (r : Result (Unit {0}) × Db) : Type 0 where
  pub returned : r.0 ≡ ok tt
  pub open_session : is_terminal s.status ≡ false
  pub in_range : index < s.total_chunks
  pub blob : Blob
  pub found : find_blob (chunk_key user s.id index) r.1.blobs ≡ some blob
  pub content : blob.bytes ≡ bytes
  pub listed : mem index (completed_indexes s.id r.1) ≡ true

module _ (now : Time) (user index checksum : ℕ) (bytes : List ℕ) (s : UploadSession) (db : Db)
    (going : is_terminal s.status ≡ false) (fits : leb s.total_chunks index ≡ false)
    (f : UploadSession → UploadSession) where
  written : Db
  written =
      (upsert_chunk now s.id index (length bytes) (chunk_key user s.id index) checksum
        (save_stream now (chunk_key user s.id index) bytes db).1).1

  now_listed : mem index (completed_indexes s.id written) ≡ true
  unfolding written upsert_chunk save_stream completed_indexes chunks_of
  now_listed = mem-by_index index _ ∙ mem-insert_chunk _ db.chunks

  -- With the change of the session's status, or without it.
  when-IsStored : (b : Bool) → IsStored user index bytes s (when b (update_session s.id f) written)
  unfolding written upsert_chunk save_stream update_session find_blob key_eq completed_indexes
      chunks_of
  when-IsStored true = record {
    returned = refl;
    open_session = going;
    in_range = ground arith;
    blob = record { key = chunk_key user s.id index; bytes = bytes; modified_at = now };
    found = ground (arith, ==_refl user, ==_refl s.id, ==_refl index);
    content = refl;
    listed = now_listed;
  }
  when-IsStored false = record {
    returned = refl;
    open_session = going;
    in_range = ground arith;
    blob = record { key = chunk_key user s.id index; bytes = bytes; modified_at = now };
    found = ground (arith, ==_refl user, ==_refl s.id, ==_refl index);
    content = refl;
    listed = now_listed;
  }

-- Sending a chunk raises and nothing changes, or its session is the user's and not ended, its index is in
-- range, and afterwards the bytes sent stand under its key, in place of those of an earlier attempt,
-- and its index is listed as complete.
pub upload_chunk-IsStored :
    (sha : List ℕ → ℕ) (now : Time) (user session_id : Uuid) (index : ℕ) (bytes : List ℕ) (db : Db)
    → let r = upload_chunk sha now user session_id index bytes db in
      IsRefused db r
      ⊎ ((s : UploadSession) × (get_for_user session_id user db.sessions ≡ some s)
          × IsStored user index bytes s r)
unfolding upload_chunk get_or_404 written save_stream upsert_chunk
upload_chunk-IsStored sha now user session_id index bytes db =
    elim (Option-cases (get_for_user session_id user db.sessions)) [
      | inl e ↦ inl (not_found_error, rw e)
      | inr (s, e) ↦ elim (Bool-cases (is_terminal s.status)) [
        | inl ended ↦ inl (invalid_operation_error, rw (e, ended))
        | inr going ↦ elim (Bool-cases (leb s.total_chunks index)) [
          | inl out ↦ inl (invalid_operation_error, rw (e, going, out))
          | inr fits ↦ inr (
            s,
            e,
            rw (e, going, fits)
                (when-IsStored now user index (sha bytes) bytes s db going fits _ _),
          )
        ]
      ]
    ]
