-- ===== src/Upload/Writes.antt =====
-- Which row an upload writes.
use cloud_drive.Prelude.{
  ◌≡◌, refl, inl, inr, ℕ, Text, Option, none, some, List, [], ◌∷◌, ◌++◌, length, arith, ==_refl,
}
use cloud_drive.Model.{Uuid, Time, ItemType, StorageKey, DriveItem, Db}
use cloud_drive.Exec.{Result, ok, err}
use cloud_drive.Exec.Steps.{step_query}
use cloud_drive.Items.{find, new_item}
use cloud_drive.Items.Rows.{find-append, find-update_row}
use cloud_drive.Items.Written.{Wrote, append-IsWritten}
use cloud_drive.Naming.{safe_filename, split_name, free_name}
use cloud_drive.Blobs.{save_stream, delete}
use cloud_drive.Versions.{create_row}
use cloud_drive.Quota.{assert_has_space, add_used_bytes}
use cloud_drive.Drive.Writes.{LiesIn}
use cloud_drive.Upload.File.{step_create_file}
use cloud_drive.Upload.{
  make_storage_key, extension_of, with_content, undo, check_target, create_file, upload_simple,
}

undo-Wrote :
    (k : StorageKey) (db : Db) (i : Uuid) (P : DriveItem → Type 0) (r : Result DriveItem × Db)
    → Wrote db i P r
    → Wrote db i P (undo k r)
unfolding undo delete
undo-Wrote k db i P (ok a, after) h = h
undo-Wrote k db i P (err e, after) h = h

pub upload_simple-Wrote :
    (sha : List ℕ → ℕ) (item_id blob_id version_id : Uuid) (now : Time) (user p : Uuid)
    (name : Text) (content : List ℕ) (size_bytes : ℕ) (mime : Option Text) (db : Db)
    → find db.items item_id ≡ none
    → Wrote db item_id (LiesIn p) (
        upload_simple sha item_id blob_id version_id now user
          (some p)
          name
          content
          size_bytes
          mime
          db)
unfolding upload_simple save_stream new_item create_row add_used_bytes
upload_simple-Wrote sha item_id blob_id version_id now user p raw content size_bytes mime db fresh =
    let Q : Result DriveItem × Db → Type 0 = Wrote db item_id (LiesIn p) in
    step_query Q db (safe_filename raw) _ (λ _ _. inl refl)
      λ filename _.
        step_query Q db (check_target user (some p) db) _ (λ _ _. inl refl)
          λ _ _.
            step_query Q db (assert_has_space user size_bytes db) _ (λ _ _. inl refl)
              λ _ _.
                step_query Q db (free_name filename (some p) user db) _ (λ _ _. inl refl)
                  λ name _.
                    let k = make_storage_key user blob_id in
                    let ext = (split_name filename).1 in
                    let it = new_item item_id now user (some p) ItemType.file name user in
                    let f = with_content (length content) mime (extension_of ext) (sha content) k in
                    undo-Wrote k db item_id (LiesIn p)
                      (create_file item_id version_id now user (some p) name ext mime k
                        (length content) (sha content) (save_stream now k content db).1)
                      (step_create_file item_id version_id now user (some p) name ext mime k
                        (length content) (sha content) Q (save_stream now k content db).1
                        (λ _. inl refl)
                        (λ _. inr (append-IsWritten (LiesIn p) db.items it fresh refl))
                        (inr (
                          λ j ne. ground (
                            arith,
                            find-update_row f item_id j (db.items ++ it ∷ []) (λ _. refl),
                            find-append db.items it j fresh,
                          ),
                          f it,
                          ground (
                            arith,
                            find-update_row f item_id item_id (db.items ++ it ∷ []) (λ _. refl),
                            find-append db.items it item_id fresh,
                            ==_refl item_id,
                          ),
                          refl,
                        )))
