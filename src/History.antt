-- ===== src/History.antt =====
-- Sequences of requests on a drive, as the routers under backend/app carry them out one after the
-- other: what holds in every state that they reach.
use cloud_drive.Prelude.{ℕ, List, ◌≡◌, Text, Option, none, Bool}
use cloud_drive.Model.{Uuid, Time, Db}
use cloud_drive.Exec.Steps.{step_query}
use cloud_drive.Items.{find}
use cloud_drive.Prefs.{upsert_preference, log}
use cloud_drive.Tree.Shape.{IsTree}
use cloud_drive.Drive.{create_folder, rename, move, set_starred, get_viewable}
use cloud_drive.Drive.Shape.{move-IsTree, create_folder-IsTree, rename-IsTree}
use cloud_drive.Upload.{upload_simple}
use cloud_drive.Upload.Shape.{upload_simple-IsTree}
use cloud_drive.Trash.{trash_item, restore}
use cloud_drive.Trash.Shape.{trash_item-IsTree, restore-IsTree}
use cloud_drive.Link
use cloud_drive.Link.{Claims}
use cloud_drive.Link.Shape.{
  guest_create_folder-IsTree, guest_rename-IsTree, guest_move-IsTree, guest_trash-IsTree,
  guest_upload-IsTree,
}

-- One request, by any user or by a guest with a link's credential, with any arguments. The state after a refusal counts too.
pub data Step (db : Db) : Db → Type 0 where
  creates :
      (new_id : Uuid) (now : Time) (user : Uuid) (parent : Option Uuid) (name : Text)
      → find db.items new_id ≡ none
      → Step db (create_folder new_id now user parent name db).1
  renames :
      (now : Time) (user item_id : Uuid) (name : Text) → Step db (rename now user item_id name db).1
  moves :
      (now : Time) (user item_id : Uuid) (target : Option Uuid)
      → Step db (move now user item_id target db).1
  uploads :
      (sha : List ℕ → ℕ) (item_id blob_id version_id : Uuid) (now : Time) (user : Uuid)
      (parent : Option Uuid) (name : Text) (content : List ℕ) (size : ℕ) (mime : Option Text)
      → find db.items item_id ≡ none
      → Step db
          (upload_simple sha item_id blob_id version_id now user parent name content size mime db).1
  stars :
      (now : Time) (user item_id : Uuid) (starred : Bool)
      → Step db (set_starred now user item_id starred db).1
  trashes : (now : Time) (user item_id : Uuid) → Step db (trash_item now user item_id db).1
  guest_creates :
      (new_id : Uuid) (now : Time) (credential : Option Claims) (parent : Uuid) (name : Text)
      → find db.items new_id ≡ none
      → Step db (Link.create_folder new_id now credential parent name db).1
  guest_renames :
      (now : Time) (credential : Option Claims) (item_id : Uuid) (name : Text)
      → Step db (Link.rename now credential item_id name db).1
  guest_moves :
      (now : Time) (credential : Option Claims) (item_id parent : Uuid)
      → Step db (Link.move now credential item_id parent db).1
  guest_trashes :
      (now : Time) (credential : Option Claims) (item_id : Uuid)
      → Step db (Link.trash now credential item_id db).1
  guest_uploads :
      (sha : List ℕ → ℕ) (item_id blob_id version_id : Uuid) (now : Time)
      (credential : Option Claims) (parent : Uuid) (name : Text) (content : List ℕ) (size : ℕ)
      (mime : Option Text)
      → find db.items item_id ≡ none
      → Step db
          (Link.upload sha item_id blob_id version_id now credential parent name content size mime
            db).1
  restores : (now : Time) (user item_id : Uuid) → Step db (restore now user item_id db).1

pub data Reaches (db : Db) : Db → Type 0 where
  start : Reaches db db
  next : {mid after : Db} → Reaches db mid → Step mid after → Reaches db after

set_starred-IsTree :
    (now : Time) (user item_id : Uuid) (starred : Bool) (db : Db)
    → IsTree db.items
    → IsTree (set_starred now user item_id starred db).1.items
unfolding set_starred upsert_preference log
set_starred-IsTree now user item_id starred db tree =
    step_query (λ r. IsTree r.1.items) db (get_viewable item_id user db) _ (λ _ _. tree) λ _ _. tree

Step-IsTree : (db after : Db) → Step db after → IsTree db.items → IsTree after.items
Step-IsTree db after (creates i now user parent name fresh) tree =
    create_folder-IsTree i now user parent name db fresh tree
Step-IsTree db after (renames now user i name) tree = rename-IsTree now user i name db tree
Step-IsTree db after (moves now user i target) tree = move-IsTree now user i target db tree
Step-IsTree db after (uploads sha i blob version now user parent name content size mime fresh)
      tree =
    upload_simple-IsTree sha i blob version now user parent name content size mime db fresh tree
Step-IsTree db after (stars now user i starred) tree = set_starred-IsTree now user i starred db tree
Step-IsTree db after (trashes now user i) tree = trash_item-IsTree now user i db tree
Step-IsTree db after (guest_creates i now credential parent name fresh) tree =
    guest_create_folder-IsTree i now credential parent name db fresh tree
Step-IsTree db after (guest_renames now credential i name) tree =
    guest_rename-IsTree now credential i name db tree
Step-IsTree db after (guest_moves now credential i parent) tree =
    guest_move-IsTree now credential i parent db tree
Step-IsTree db after (guest_trashes now credential i) tree =
    guest_trash-IsTree now credential i db tree
Step-IsTree db after
      (guest_uploads sha i blob version now credential parent name content size mime fresh) tree =
    guest_upload-IsTree sha i blob version now credential parent name content size mime db fresh
      tree
Step-IsTree db after (restores now user i) tree = restore-IsTree now user i db tree

-- Whatever requests are made to create folders, upload files, and rename, move, star, trash and restore
-- items, in whatever order, by whatever users, and by guests of public links to create folders,
-- to upload files and to rename, move and trash items, from a table of items that is a tree, each state
-- reached is a tree, if each new folder or file gets an id that is not that of a row.
pub Reaches-IsTree : (db after : Db) → Reaches db after → IsTree db.items → IsTree after.items
Reaches-IsTree db after start tree = tree
Reaches-IsTree db after (next {mid} run step) tree =
    Step-IsTree mid after step (Reaches-IsTree db mid run tree)
