-- ===== src/Upload/Stored.antt =====
-- What an upload of a whole file leaves behind.
use cloud_drive.Prelude.{
  ℕ, ◌+◌, ◌≡◌, refl, ◌⊎◌, inl, inr, Text, Option, some, List, length, arith, ==_refl,
}
use cloud_drive.Model.{ItemType, Uuid, Time, Error, StorageKey, DriveItem, User, Blob, Db}
use cloud_drive.Exec.{Result, ok, err}
use cloud_drive.Exec.Steps.{step_query}
use cloud_drive.Items.{new_item}
use cloud_drive.Naming.{safe_filename, split_name, free_name}
use cloud_drive.Blobs.{key_eq, find_blob, save_stream, delete}
use cloud_drive.Versions.{create_row}
use cloud_drive.Quota.{find_user, assert_has_space, add_used_bytes}
use cloud_drive.Quota.Laws.{has_space, find_user-update_used}
use cloud_drive.Upload.File.{step_create_file}
use cloud_drive.Upload.{
  make_storage_key, extension_of, with_content, undo, check_target, create_file, upload_simple,
}

-- The file of an upload: its bytes stand under its key, and the user is charged for them.
pub record IsUploaded (sha : List ℕ → ℕ) (now : Time) (user : Uuid) (parent : Option Uuid)
    (content : List ℕ) (db : Db) (r : Result DriveItem × Db) : Type 0 where
  pub item : DriveItem
  pub returned : r.0 ≡ ok item
  pub size : item.size_bytes ≡ length content
  pub checksum : item.checksum_sha256 ≡ some (sha content)
  pub place : item.parent_id ≡ parent
  pub key : StorageKey
  pub keyed : item.storage_key ≡ some key
  pub blob : Blob
  pub found : find_blob key r.1.blobs ≡ some blob
  pub stored : blob.bytes ≡ content
  pub account : User
  pub before : find_user db.users user ≡ some account
  pub charged :
      find_user r.1.users user
      ≡ some (record account { used_bytes = account.used_bytes + length content; updated_at = now })

-- The upload raised: nobody was charged, and there is no version of the file.
abbrev pub IsRaised : {A : Type 0} → Db → Result A × Db → Type 0
IsRaised db r = (e : Error) × (r.0 ≡ err e) × (r.1.users ≡ db.users) × (r.1.versions ≡ db.versions)

abbrev IsDone :
    (List ℕ → ℕ) → Time → Uuid → Option Uuid → List ℕ → Db → Result DriveItem × Db → Type 0
IsDone sha now user parent content db r =
    IsRaised db r ⊎ IsUploaded sha now user parent content db r

module _ (sha : List ℕ → ℕ) (item_id blob_id version_id : Uuid) (now : Time) (user : Uuid)
    (parent : Option Uuid) (name ext : Text) (mime : Option Text) (content : List ℕ) (db : Db)
    (u : User) where
  created-IsUploaded :
      find_user db.users user ≡ some u
      → let k = make_storage_key user blob_id in
        IsDone sha now user parent content db (
          create_file item_id version_id now user parent name ext mime k
            (length content)
            (sha content)
            (save_stream now k content db).1)
  unfolding new_item create_row add_used_bytes save_stream find_blob key_eq
  created-IsUploaded there =
      let k = make_storage_key user blob_id in
      step_create_file item_id version_id now user parent name ext mime k (length content)
        (sha content) (IsDone sha now user parent content db) (save_stream now k content db).1
        (λ e. inl (e, refl, refl, refl)) (λ e. inl (e, refl, refl, refl))
        (inr record {
          item =
              with_content (length content) mime (extension_of ext) (sha content)
                (make_storage_key user blob_id)
                (new_item item_id now user parent ItemType.file name user);
          returned = refl;
          size = refl;
          checksum = refl;
          place = refl;
          key = make_storage_key user blob_id;
          keyed = refl;
          blob = record { key = make_storage_key user blob_id; bytes = content; modified_at = now };
          found = rw (==_refl user, ==_refl blob_id);
          stored = refl;
          account = u;
          before = there;
          charged = ground (
            arith,
            find_user-update_used now user user (λ n. n + length content) db.users,
            ==_refl user,
          );
        })

undone :
    (sha : List ℕ → ℕ) (now : Time) (user : Uuid) (parent : Option Uuid) (content : List ℕ)
    (db : Db) (k : StorageKey) (r : Result DriveItem × Db)
    → IsDone sha now user parent content db r
    → IsDone sha now user parent content db (undo k r)
unfolding undo delete
undone sha now user parent content db k (ok it, after) h = h
undone sha now user parent content db k (err e, after) (inl (bad, _, users, versions)) =
    inl (e, refl, users, versions)
undone sha now user parent content db k (err e, after) (inr up) =
    absurd (ground (arith, up.returned))

-- An upload raises, charges nobody and leaves no version, or it returns a file: its bytes stand under
-- its key, its size and checksum are theirs, it is in the folder asked for, and the user, who is there,
-- is charged for the bytes stored.
pub upload_simple-IsUploaded :
    (sha : List ℕ → ℕ) (item_id blob_id version_id : Uuid) (now : Time) (user : Uuid)
    (parent : Option Uuid) (name : Text) (content : List ℕ) (size_bytes : ℕ) (mime : Option Text)
    (db : Db)
    → let r =
        upload_simple sha item_id blob_id version_id now user parent name content size_bytes mime
          db in
      IsRaised db r ⊎ IsUploaded sha now user parent content db r
unfolding upload_simple save_stream
upload_simple-IsUploaded sha item_id blob_id version_id now user parent raw content size_bytes mime
      db =
    let Q : Result DriveItem × Db → Type 0 = IsDone sha now user parent content db in
    let bad : (e : Error) → Q (err e, db) = λ e. inl (e, refl, refl, refl) in
    step_query Q db (safe_filename raw) _ (λ e _. bad e)
      λ filename _.
        step_query Q db (check_target user parent db) _ (λ e _. bad e)
          λ _ _.
            step_query Q db (assert_has_space user size_bytes db) _ (λ e _. bad e)
              λ _ room.
                step_query Q db (free_name filename parent user db) _ (λ e _. bad e)
                  λ name _.
                    let (u, there, _) = has_space user size_bytes db room in
                    undone sha now user parent content db (make_storage_key user blob_id) _ (
                      created-IsUploaded sha item_id blob_id version_id now user parent name
                        (split_name filename).1 mime content db u there)
