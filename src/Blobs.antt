-- ===== src/Blobs.antt =====
-- The storage provider (backend/app/storage): objects by key, each with its bytes. The local backend
-- writes to a temporary file and renames it, so that a write happens as a whole.
use cloud_drive.Prelude.{
  ℕ, ◌&&◌, Bool, true, false, not, Option, none, some, List, [], ◌∷◌, ◌++◌, keep, any, length, ◌==◌,
  if◌then◌else◌,
}
use cloud_drive.Model.{Time, StorageKey, file_key, chunk_key, Blob, Db, key_not_found}
use cloud_drive.Exec.{Result, ok, err, Exec, bind_result, modify}

unfoldable pub key_eq : StorageKey → StorageKey → Bool
key_eq (file_key u i n) (file_key v j m) = u == v && (i == j && n == m)
key_eq (file_key u i n) (chunk_key v j m) = false
key_eq (chunk_key u i n) (file_key v j m) = false
key_eq (chunk_key u i n) (chunk_key v j m) = u == v && (i == j && n == m)

unfoldable pub find_blob : StorageKey → List Blob → Option Blob
find_blob k [] = none
find_blob k (b ∷ blobs) = if key_eq k b.key then some b else find_blob k blobs

unfoldable pub without_blob : StorageKey → List Blob → List Blob
without_blob k = keep (λ b. not (key_eq k b.key))

unfoldable pub exists : StorageKey → Db → Bool
exists k db = any (λ b. key_eq k b.key) db.blobs

-- Writing replaces what stood under the key; the number of bytes written is returned.
unfoldable pub save_stream : Time → StorageKey → List ℕ → Exec ℕ
save_stream now k bytes db = (
  ok (length bytes),
  record db {
    blobs = record { key = k; bytes = bytes; modified_at = now } ∷ without_blob k db.blobs;
  },
)

-- The bytes of the sources, one after the other; a missing one raises before anything is written.
unfoldable pub joined : List StorageKey → List Blob → Result (List ℕ)
joined [] blobs = ok []
joined (k ∷ keys) blobs = elim (find_blob k blobs) [
  | none ↦ err key_not_found
  | some b ↦ bind_result (joined keys blobs) (λ rest. ok (b.bytes ++ rest))
]

unfoldable pub concat : Time → List StorageKey → StorageKey → Exec ℕ
unfolding save_stream
concat now sources target db = elim (joined sources db.blobs) [
  | err e ↦ (err e, db)
  | ok bytes ↦ save_stream now target bytes db
]

-- Deleting a key that is not there does nothing.
unfoldable pub delete : StorageKey → Exec (Unit {0})
delete k = modify (λ db. record db { blobs = without_blob k db.blobs })

-- The chunks of uploads in progress are not listed.
abbrev pub is_chunk : StorageKey → Bool
is_chunk (file_key u i n) = false
is_chunk (chunk_key u i n) = true

unfoldable pub list_objects : Db → List Blob
list_objects db = keep (λ b. not (is_chunk b.key)) db.blobs
