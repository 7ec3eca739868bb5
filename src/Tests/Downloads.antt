-- ===== src/Tests/Downloads.antt =====
-- An archive of a shared folder.
use cloud_drive.Prelude.{refl, text_eq, some, [], ◌∷◌, All, any, Distinct}
use cloud_drive.Model.{file_key, Db}
use cloud_drive.Naming.{numbered, rfind}
use cloud_drive.Naming.Decimal.{show}
use cloud_drive.Blobs.{exists, key_eq}
use cloud_drive.Items.{find}
use cloud_drive.Permission.{assert_at_least, get_permission, permission_loop, has_at_least}
use cloud_drive.Download.{
  archive, ArchiveResult, archive_loop, archive_name, collect_item, maybe_add, stored_key, dedupe,
  dedupe_loop, base_suffix, is_used, rpartition,
}
use cloud_drive.Download.Archive.{MayDownload, archive-MayDownload}
use cloud_drive.Tests.{drive_db, photos, summer, beach, notes}

-- The file has content, and the owner asks for it twice.
abbrev packed_db : Db
packed_db = record drive_db {
  items = photos ∷ summer ∷ record beach { storage_key = some (file_key 7 3 1) } ∷ notes ∷ [];
  blobs = record { key = file_key 7 3 1; bytes = []; modified_at = 100 } ∷ [];
}

abbrev packed_twice : ArchiveResult
packed_twice = record {
  filename = 98 ∷ 32 ∷ 31561 ∷ 32 ∷ 50 ∷ 32 ∷ 38917 ∷ 46 ∷ 122 ∷ 105 ∷ 112 ∷ [];
  top_names = (98 ∷ 32 ∷ 40 ∷ 49 ∷ 41 ∷ 46 ∷ 106 ∷ []) ∷ (98 ∷ 46 ∷ 106 ∷ []) ∷ [];
  files =
      (98 ∷ 46 ∷ 106 ∷ [], file_key 7 3 1)
      ∷ (98 ∷ 32 ∷ 40 ∷ 49 ∷ 41 ∷ 46 ∷ 106 ∷ [], file_key 7 3 1)
      ∷ [];
}

archive-MayDownload_example :
    Distinct packed_twice.top_names × All (MayDownload 7 packed_db) packed_twice.files
unfolding archive archive_loop archive_name collect_item maybe_add stored_key dedupe dedupe_loop
    base_suffix is_used rpartition numbered rfind show any exists key_eq find text_eq
    assert_at_least get_permission permission_loop has_at_least
archive-MayDownload_example =
    archive-MayDownload (λ items. items) (λ items it at. at) 7 packed_db (3 ∷ 3 ∷ []) packed_twice
      refl
