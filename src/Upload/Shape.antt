-- ===== src/Upload/Shape.antt =====
-- The tree of items under an upload.
use cloud_drive.Prelude.{
  ℕ, ◌≡◌, refl, inl, inr, true, Text, Option, none, some, List, [], ◌∷◌, ◌++◌, arith, length,
  Option-cases,
}
use cloud_drive.Model.{Uuid, Time, ItemType, StorageKey, DriveItem, is_folder, Db}
use cloud_drive.Exec.{Result, ok, err}
use cloud_drive.Exec.Steps.{step_query}
use cloud_drive.Items.{find, new_item}
use cloud_drive.Tree.Shape.{IsTree, IsTree-append, IsTree-keep}
use cloud_drive.Naming.{safe_filename, split_name, free_name}
use cloud_drive.Blobs.{save_stream, delete}
use cloud_drive.Versions.{create_row}
use cloud_drive.Quota.{assert_has_space, add_used_bytes}
use cloud_drive.Upload.File.{step_create_file}
use cloud_drive.Upload.{
  make_storage_key, extension_of, with_content, undo, check_target, create_file, upload_simple,
}

-- A target that the check lets pass is a folder of the table.
target_goes :
    (user : Uuid) (target : Option Uuid) (db : Db)
    → check_target user target db ≡ ok tt
    → (p : Uuid) → target ≡ some p
    → (g : DriveItem) × (find db.items p ≡ some g) × (is_folder g.item_type ≡ true)
unfolding check_target
target_goes user none db h p e = absurd (ground arith)
target_goes user (some q) db h p e = elim (Option-cases (find db.items q)) [
  | inl gone ↦ absurd (ground arith)
  | inr (g, there) ↦ (g, ground arith, ground arith)
]

undo-IsTree :
    {A : Type 0} (k : StorageKey) (r : Result A × Db) → IsTree r.1.items → IsTree (undo k r).1.items
unfolding undo delete
undo-IsTree k (ok a, db) h = h
undo-IsTree k (err e, db) h = h

-- An upload of a file, whether it returns or raises, leaves a table of items that is a tree a tree, if the
-- new id is not that of a row.
pub upload_simple-IsTree :
    (sha : List ℕ → ℕ) (item_id blob_id version_id : Uuid) (now : Time) (user : Uuid)
    (parent : Option Uuid) (name : Text) (content : List ℕ) (size_bytes : ℕ) (mime : Option Text)
    (db : Db)
    → find db.items item_id ≡ none
    → IsTree db.items
    → IsTree
        (upload_simple sha item_id blob_id version_id now user parent name content size_bytes mime
          db).1.items
unfolding upload_simple save_stream new_item create_row add_used_bytes
upload_simple-IsTree sha item_id blob_id version_id now user parent raw content size_bytes mime db
      fresh tree =
    let Q : Result DriveItem × Db → Type 0 = λ r. IsTree r.1.items in
    step_query Q db (safe_filename raw) _ (λ _ _. tree)
      λ filename _.
        step_query Q db (check_target user parent db) _ (λ _ _. tree)
          λ _ checked.
            step_query Q db (assert_has_space user size_bytes db) _ (λ _ _. tree)
              λ _ _.
                step_query Q db (free_name filename parent user db) _ (λ _ _. tree)
                  λ name _.
                    let it = new_item item_id now user parent ItemType.file name user in
                    let added : IsTree (db.items ++ it ∷ []) =
                      IsTree-append db.items it fresh
                        (λ p e. target_goes user parent db checked p e) tree in
                    let k = make_storage_key user blob_id in
                    let ext = (split_name filename).1 in
                    undo-IsTree k
                      (create_file item_id version_id now user parent name ext mime k
                        (length content) (sha content) (save_stream now k content db).1)
                      (step_create_file item_id version_id now user parent name ext mime k
                        (length content) (sha content) Q (save_stream now k content db).1
                        (λ _. tree) (λ _. added)
                        (IsTree-keep (db.items ++ it ∷ []) item_id
                          (with_content (length content) mime (extension_of ext) (sha content) k)
                          (λ _. refl) (λ _. refl) (λ _. refl) added))
