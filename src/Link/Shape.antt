-- ===== src/Link/Shape.antt =====
-- The tree of items under the writes of a guest.
use cloud_drive.Prelude.{
  ℕ, List, ◌≡◌, ◌==◌, inl, inr, Text, Option, none, some, Option-cases, Bool-cases,
}
use cloud_drive.Model.{Uuid, Time, DriveItem, is_folder, Db, bad_operation, Error}
use cloud_drive.Exec.{Result, ok, err, Exec, continue, ◌>>=◌, ◌>>◌}
use cloud_drive.Exec.Steps.{step_guard, step_refuse}
use cloud_drive.Items.{find}
use cloud_drive.Tree.Shape.{IsTree}
use cloud_drive.Drive
use cloud_drive.Drive.Shape.{move-IsTree, create_folder-IsTree, rename-IsTree}
use cloud_drive.Trash.{trash_item}
use cloud_drive.Trash.Shape.{trash_item-IsTree}
use cloud_drive.Upload.{upload_simple}
use cloud_drive.Upload.Shape.{upload_simple-IsTree}
use cloud_drive.Link.{
  Claims, Authorized, authorize, is_editor, resolve_in_subtree, assert_can_edit, reload,
  create_folder, rename, move, trash, upload,
}
use cloud_drive.Link.Throttle.{IsGood, authorize-IsGood}
use cloud_drive.Link.Subtree.{resolved, live-found}

-- A property that holds where the guest is refused holds of a write, if it does of what comes next.
module _ {B : Type 0} (Q : Result B × Db → Type 0) (now : Time) (credential : Option Claims)
    (db : Db) (bad : (e : Error) → Q (err e, db)) where
  resolving :
      (auth : Authorized) (i : Uuid) (rest : DriveItem → Exec B)
      → IsGood now db auth
      → ((it : DriveItem) → Q (rest it db))
      → Q ((resolve_in_subtree auth i >>= rest) db)
  resolving auth i rest good go =
      elim (resolved auth i db (live-found db good.link.item_id auth.root good.shares)) [
        | inl (e, eq) ↦ rw eq (bad e)
        | inr (it, eq, _) ↦ rw eq (go it)
      ]

  entering :
      (i : Uuid) (rest : Authorized → DriveItem → Exec B)
      → ((auth : Authorized) (it : DriveItem) → IsGood now db auth → Q (rest auth it db))
      → Q (
          (do
            auth ← authorize now credential
            assert_can_edit auth
            it ← resolve_in_subtree auth i
            rest auth it)
            db)
  entering i rest go = elim (authorize-IsGood now credential db) [
    | inl e ↦ rw e (bad _)
    | inr (auth, eq, (given, good)) ↦ elim (Bool-cases (is_editor auth.permission)) [
      | inl edits ↦ rw (eq, edits) (resolving auth i (rest auth) good (λ it. go auth it good))
      | inr not_ ↦ rw (eq, not_) (bad _)
    ]
  ]

abbrev Q : {A : Type 0} → Result A × Db → Type 0
Q r = IsTree r.1.items

reloaded :
    {A : Type 0} (i : A → Uuid) (r : Result A × Db) → Q r → Q (continue r.0 (λ a. reload (i a)) r.1)
unfolding reload
reloaded i (ok a, db) h = elim (Option-cases (find db.items (i a))) [
  | inl gone ↦ rw gone h
  | inr (it, found) ↦ rw found h
]
reloaded i (err e, db) h = h

dropped : {A : Type 0} (r : Result A × Db) → Q r → Q (continue r.0 (λ _ s. (ok tt, s)) r.1)
dropped (ok a, db) h = h
dropped (err e, db) h = h

pub guest_create_folder-IsTree :
    (new_id : Uuid) (now : Time) (credential : Option Claims) (parent : Uuid) (name : Text)
    (db : Db)
    → find db.items new_id ≡ none
    → IsTree db.items
    → IsTree (create_folder new_id now credential parent name db).1.items
unfolding create_folder
guest_create_folder-IsTree new_id now credential parent name db fresh tree =
    entering Q now credential db (λ _. tree) parent _
      λ auth p good.
        step_guard Q db bad_operation (is_folder p.item_type) _ (λ _. tree)
          λ _.
            reloaded (λ made. made.id)
              (Drive.create_folder new_id now auth.root.owner_id (some p.id) name db)
              (create_folder-IsTree new_id now auth.root.owner_id (some p.id) name db fresh tree)

pub guest_rename-IsTree :
    (now : Time) (credential : Option Claims) (i : Uuid) (name : Text) (db : Db)
    → IsTree db.items
    → IsTree (rename now credential i name db).1.items
unfolding rename
guest_rename-IsTree now credential i name db tree =
    entering Q now credential db (λ _. tree) i _
      λ auth it good.
        reloaded (λ _. it.id) (Drive.rename now auth.root.owner_id it.id name db)
          (rename-IsTree now auth.root.owner_id it.id name db tree)

pub guest_move-IsTree :
    (now : Time) (credential : Option Claims) (i target : Uuid) (db : Db)
    → IsTree db.items
    → IsTree (move now credential i target db).1.items
unfolding move
guest_move-IsTree now credential i target db tree =
    entering Q now credential db (λ _. tree) i _
      λ auth it good.
        resolving Q now credential db (λ _. tree) auth target _ good
          λ p.
            step_guard Q db bad_operation (is_folder p.item_type) _ (λ _. tree)
              λ _.
                reloaded (λ _. it.id) (Drive.move now auth.root.owner_id it.id (some p.id) db)
                  (move-IsTree now auth.root.owner_id it.id (some p.id) db tree)

pub guest_trash-IsTree :
    (now : Time) (credential : Option Claims) (i : Uuid) (db : Db)
    → IsTree db.items
    → IsTree (trash now credential i db).1.items
unfolding trash
guest_trash-IsTree now credential i db tree =
    entering Q now credential db (λ _. tree) i _
      λ auth it good.
        step_refuse Q db bad_operation (it.id == auth.root.id) _ (λ _. tree)
          λ _.
            dropped (trash_item now auth.root.owner_id it.id db)
              (trash_item-IsTree now auth.root.owner_id it.id db tree)

pub guest_upload-IsTree :
    (sha : List ℕ → ℕ) (item_id blob_id version_id : Uuid) (now : Time) (credential : Option Claims)
    (parent : Uuid) (name : Text) (content : List ℕ) (size : ℕ) (mime : Option Text) (db : Db)
    → find db.items item_id ≡ none
    → IsTree db.items
    → IsTree
        (upload sha item_id blob_id version_id now credential parent name content size mime
          db).1.items
unfolding upload
guest_upload-IsTree sha i blob version now credential parent name content size mime db fresh tree =
    entering Q now credential db (λ _. tree) parent _
      λ auth p good.
        step_guard Q db bad_operation (is_folder p.item_type) _ (λ _. tree)
          λ _.
            reloaded (λ made. made.id)
              (upload_simple sha i blob version now auth.root.owner_id (some p.id) name content size
                mime db)
              (upload_simple-IsTree sha i blob version now auth.root.owner_id (some p.id) name
                content size mime db fresh tree)
