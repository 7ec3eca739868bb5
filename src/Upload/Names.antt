-- ===== src/Upload/Names.antt =====
-- The names in a folder where a file is uploaded.
use cloud_drive.Prelude.{
  ℕ, ◌≡◌, refl, sym, subst, inl, inr, false, Text, Option, none, List, [], ◌∷◌, ◌++◌, arith, keep,
  length, ◌==◌, Bool-cases,
}
use cloud_drive.Model.{Uuid, Time, ItemType, StorageKey, DriveItem, Db}
use cloud_drive.Exec.{Result, ok, err, Ensures, Ensures-ok}
use cloud_drive.Exec.Steps.{step_query}
use cloud_drive.Items.{name_rows, name_exists_in_parent, new_item, update_row}
use cloud_drive.Naming.{safe_filename, split_name, free_name}
use cloud_drive.Naming.Free.{IsNameUnique, free_name-IsFree}
use cloud_drive.Drive.Names.{no_rows, append-IsNameUnique}
use cloud_drive.Blobs.{save_stream, delete}
use cloud_drive.Versions.{create_row}
use cloud_drive.Quota.{assert_has_space, add_used_bytes}
use cloud_drive.Upload.File.{step_create_file}
use cloud_drive.Upload.{
  make_storage_key, extension_of, with_content, undo, check_target, create_file, upload_simple,
}

module _ (size : ℕ) (mime ext : Option Text) (checksum : ℕ) (k : StorageKey) where
  -- The content of a row is no part of its name.
  length-name_rows-with_content :
      (i : Uuid) (items : List DriveItem) (name : Text) (parent : Option Uuid) (owner : Uuid)
      → length (
          name_rows name parent owner none
            (update_row i (with_content size mime ext checksum k) items))
        ≡ length (name_rows name parent owner none items)
  unfolding name_rows keep update_row
  length-name_rows-with_content i [] name parent owner = refl
  length-name_rows-with_content i (it ∷ items) name parent owner =
      let more = length-name_rows-with_content i items name parent owner in
      elim (Bool-cases (it.id == i)) [
        | inl e ↦ rw e (ground (arith, more))
        | inr e ↦ rw e (ground (arith, more))
      ]

  with_content-IsNameUnique :
      (i : Uuid) (items : List DriveItem)
      → IsNameUnique items
      → IsNameUnique (update_row i (with_content size mime ext checksum k) items)
  with_content-IsNameUnique i items unique name parent owner =
      omega
        (arith, length-name_rows-with_content i items name parent owner, unique name parent owner)

free_name-none :
    (name r : Text) (parent : Option Uuid) (owner : Uuid) (db : Db)
    → IsNameUnique db.items
    → free_name name parent owner db ≡ ok r
    → name_exists_in_parent r parent owner none db ≡ ok false
free_name-none name r parent owner db unique e =
    let (s, found, free, own) = free_name-IsFree parent owner db unique name in
    let P : Text → Type 0 = λ t. name_exists_in_parent t parent owner none db ≡ ok false in
    Ensures-ok P _ r e (subst (Ensures P) (sym found) free)

undo-IsNameUnique :
    {A : Type 0} (k : StorageKey) (r : Result A × Db)
    → IsNameUnique r.1.items
    → IsNameUnique (undo k r).1.items
unfolding undo delete
undo-IsNameUnique k (ok a, db) h = h
undo-IsNameUnique k (err e, db) h = h

-- An upload stores its file under a name that the owner has nowhere else in that folder: whether the call
-- returns or raises, an owner has one live row at most for each name in a folder, if so before.
pub upload_simple-IsNameUnique :
    (sha : List ℕ → ℕ) (item_id blob_id version_id : Uuid) (now : Time) (user : Uuid)
    (parent : Option Uuid) (name : Text) (content : List ℕ) (size_bytes : ℕ) (mime : Option Text)
    (db : Db)
    → IsNameUnique db.items
    → IsNameUnique
        (upload_simple sha item_id blob_id version_id now user parent name content size_bytes mime
          db).1.items
unfolding upload_simple save_stream new_item create_row add_used_bytes
upload_simple-IsNameUnique sha item_id blob_id version_id now user parent raw content size_bytes
      mime db unique =
    let Q : Result DriveItem × Db → Type 0 = λ r. IsNameUnique r.1.items in
    step_query Q db (safe_filename raw) _ (λ _ _. unique)
      λ filename _.
        step_query Q db (check_target user parent db) _ (λ _ _. unique)
          λ _ _.
            step_query Q db (assert_has_space user size_bytes db) _ (λ _ _. unique)
              λ _ _.
                step_query Q db (free_name filename parent user db) _ (λ _ _. unique)
                  λ name e.
                    let it = new_item item_id now user parent ItemType.file name user in
                    let free = free_name-none filename name parent user db unique e in
                    let added : IsNameUnique (db.items ++ it ∷ []) =
                      append-IsNameUnique it db.items (no_rows name parent user db free) unique in
                    let k = make_storage_key user blob_id in
                    let ext = (split_name filename).1 in
                    undo-IsNameUnique k
                      (create_file item_id version_id now user parent name ext mime k
                        (length content) (sha content) (save_stream now k content db).1)
                      (step_create_file item_id version_id now user parent name ext mime k
                        (length content) (sha content) Q (save_stream now k content db).1
                        (λ _. unique) (λ _. added)
                        (with_content-IsNameUnique (length content) mime
                          (extension_of (split_name filename).1) (sha content) k item_id
                          (db.items ++ it ∷ []) added))
