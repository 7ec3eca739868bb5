-- ===== src/Versions.antt =====
-- backend/app/file_version: the versions of a file's content, numbered from 1.
use cloud_drive.Prelude.{ℕ, ◌+◌, max, not, Option, List, [], ◌∷◌, ◌++◌, keep, ◌==◌}
use cloud_drive.Model.{Uuid, StorageKey, FileVersion, DriveItem, is_folder, Db, bad_operation}
use cloud_drive.Exec.{ok, Exec, query, refuse, gets, modify, ◌>>=◌, ◌>>◌}
use cloud_drive.Permission.{assert_can_edit}

unfoldable pub version_rows : Uuid → List FileVersion → List FileVersion
version_rows f = keep (λ v. v.file_id == f)

-- `coalesce(max(version_no), 0)`
unfoldable pub max_no : List FileVersion → ℕ
max_no [] = 0
max_no (v ∷ rows) = max v.version_no (max_no rows)

unfoldable pub get_max_version_no : Uuid → Db → ℕ
get_max_version_no f db = max_no (version_rows f db.versions)

unfoldable pub create_row : Uuid → Uuid → ℕ → StorageKey → ℕ → Option ℕ → Uuid → Exec FileVersion
create_row new_id f number k size checksum by db =
    let v : FileVersion = record {
      id = new_id;
      file_id = f;
      version_no = number;
      storage_key = k;
      size_bytes = size;
      checksum_sha256 = checksum;
      created_by = by;
    } in
    (ok v, record db { versions = db.versions ++ v ∷ [] })

unfoldable pub delete_by_file : Uuid → Exec (Unit {0})
delete_by_file f =
    modify (λ db. record db { versions = keep (λ v. not (v.file_id == f)) db.versions })

unfoldable pub create_version :
    Uuid → Uuid → DriveItem → StorageKey → ℕ → Option ℕ → Exec FileVersion
create_version new_id user it k size checksum = do
  refuse (is_folder it.item_type) bad_operation
  query (assert_can_edit user it)
  last ← gets (get_max_version_no it.id)
  create_row new_id it.id (last + 1) k size checksum user
