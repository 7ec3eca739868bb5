-- ===== src/Upload.antt =====
-- backend/app/upload/service.py: the upload of a whole file. `uuid4()` gives `item_id`,
-- `blob_id` and `version_id`; `sha` is the SHA-256 of a content. The search index is left out.
pub mod File
pub mod Stored
pub mod Names
pub mod Shape
pub mod Writes
use cloud_drive.Prelude.{ℕ, Text, Option, none, some, List, [], ◌∷◌, ◌==◌, if◌then◌else◌}
use cloud_drive.Model.{
  Uuid, Time, ItemType, is_folder, StorageKey, file_key, DriveItem, Db, not_found_error,
  bad_operation,
}
use cloud_drive.Exec.{
  Result, ok, err, Exec, pure, query, gets, raise_if, modify, bind_result, ◌>>=◌, ◌>>◌,
}
use cloud_drive.Read
use cloud_drive.Read.{Read}
use cloud_drive.Items.{get_by_id, create, update_row, row_error}
use cloud_drive.Permission.{assert_can_edit}
use cloud_drive.Naming.{safe_filename, split_name, free_name}
use cloud_drive.Quota.{assert_has_space, add_used_bytes}
use cloud_drive.Blobs.{save_stream, delete}
use cloud_drive.Versions.{create_row}
use cloud_drive.Drive.{live}

-- `_make_storage_key`
abbrev pub make_storage_key : Uuid → Uuid → StorageKey
make_storage_key user blob_id = file_key user blob_id 1

-- `ext.lstrip(".") if ext else None`
unfoldable pub lstrip_dots : Text → Text
lstrip_dots [] = []
lstrip_dots (c ∷ s) = let rest = lstrip_dots s in if c == 46 then rest else c ∷ s

unfoldable pub extension_of : Text → Option Text
unfolding lstrip_dots
extension_of [] = none
extension_of (c ∷ ext) = some (lstrip_dots (c ∷ ext))

-- The fields that are set on the new row.
abbrev pub with_content : ℕ → Option Text → Option Text → ℕ → StorageKey → DriveItem → DriveItem
with_content size mime ext checksum k it = record it {
  mime_type = mime;
  extension = ext;
  size_bytes = size;
  storage_key = some k;
  checksum_sha256 = some checksum;
}

unfoldable pub fill : DriveItem → (DriveItem → DriveItem) → Exec (Unit {0})
fill it f = do
  refused ← gets (row_error (f it))
  raise_if refused
  modify (λ db. record db { items = update_row it.id f db.items })

-- `try: ... except Exception: storage.delete(key); raise`
unfoldable pub undo : {A : Type 0} → StorageKey → Result A × Db → Result A × Db
undo k (ok a, s) = (ok a, s)
undo k (err e, s) = (err e, (delete k s).1)

abbrev pub or_delete : {A : Type 0} → StorageKey → Exec A → Exec A
or_delete k m db = undo k (m db)

-- The folder is there, is a folder, and may be edited.
unfoldable pub check_target : Uuid → Option Uuid → Read (Unit {0})
check_target user none db = ok tt
check_target user (some p) db =
    bind_result (Read.required not_found_error (live (get_by_id db p)) db) (λ parent.
      bind_result (Read.guard (is_folder parent.item_type) bad_operation db)
        (λ _. assert_can_edit user parent db))

-- The row of the file, its first version, and the bytes charged to the user.
unfoldable pub create_file :
    Uuid
    → Uuid
    → Time
    → Uuid
    → Option Uuid
    → Text
    → Text
    → Option Text
    → StorageKey
    → ℕ
    → ℕ
    → Exec DriveItem
create_file item_id version_id now user parent name ext mime k size checksum = do
  it ← create item_id now user parent ItemType.file name user
  fill it (with_content size mime (extension_of ext) checksum k)
  create_row version_id it.id 1 k size (some checksum) user
  add_used_bytes now user size
  pure (with_content size mime (extension_of ext) checksum k it)

unfoldable pub upload_simple :
    (List ℕ → ℕ)
    → Uuid
    → Uuid
    → Uuid
    → Time
    → Uuid
    → Option Uuid
    → Text
    → List ℕ
    → ℕ
    → Option Text
    → Exec DriveItem
upload_simple sha item_id blob_id version_id now user parent raw_name content size_bytes mime = do
  filename ← query (λ _. safe_filename raw_name)
  query (check_target user parent)
  query (assert_has_space user size_bytes)
  name ← query (free_name filename parent user)
  let k = make_storage_key user blob_id
  size ← save_stream now k content
  or_delete k (
      create_file item_id version_id now user parent name (split_name filename).1 mime k size
        (sha content))
