-- ===== src/Upload/File.antt =====
-- The rule for the rows of a new file: the database raises at the new row or at its content, or the
-- rows are written.
use cloud_drive.Prelude.{ℕ, Text, Option, some, [], ◌∷◌, ◌++◌, inl, inr, Option-cases}
use cloud_drive.Model.{Uuid, Time, Error, ItemType, StorageKey, DriveItem, Db}
use cloud_drive.Exec.{Result, err, pure, ◌>>◌}
use cloud_drive.Items.{new_item, row_error, update_row}
use cloud_drive.Items.Flush.{step_create}
use cloud_drive.Versions.{create_row}
use cloud_drive.Quota.{add_used_bytes}
use cloud_drive.Upload.{extension_of, with_content, fill, create_file}

module _ (item_id version_id : Uuid) (now : Time) (user : Uuid) (parent : Option Uuid)
    (name ext : Text) (mime : Option Text) (k : StorageKey) (size checksum : ℕ) where
  abbrev pub bare : DriveItem
  bare = new_item item_id now user parent ItemType.file name user

  abbrev pub filled : DriveItem → DriveItem
  filled = with_content size mime (extension_of ext) checksum k

  pub step_create_file {ℓ} :
      (Q : Result DriveItem × Db → Type ℓ) (db : Db)
      → ((e : Error) → Q (err e, db))
      → ((e : Error) → Q (err e, record db { items = db.items ++ bare ∷ [] }))
      → Q (
          (create_row version_id bare.id 1 k size (some checksum) user
              >> add_used_bytes now user size
              >> pure (filled bare))
            (record db { items = update_row bare.id filled (db.items ++ bare ∷ []) }))
      → Q (create_file item_id version_id now user parent name ext mime k size checksum db)
  unfolding create_file fill create_row add_used_bytes
  step_create_file Q db bad half good =
      let added : Db = record db { items = db.items ++ bare ∷ [] } in
      step_create Q db bad item_id now user parent ItemType.file name user _
        (elim (Option-cases (row_error (filled bare) added)) [
          | inl e ↦ rw e good
          | inr (refused, e) ↦ rw e (half refused)
        ])
