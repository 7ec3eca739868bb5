-- ===== src/Trash/Shape.antt =====
-- The tree of items under the operations of the trash.
use cloud_drive.Prelude.{
  ◌≡◌, ◌≢◌, refl, sym, ◌⊎◌, inl, inr, Text, text_eq, true, option_eq, Option, none, some, arith,
  Bool-cases, Option-cases, ◌==◌,
}
use mathlib.Core.Path.{subst}
use cloud_drive.Model.{Uuid, Time, DriveItem, Db, not_found_error, forbidden_error, bad_operation}
use cloud_drive.Exec.{Result, ok, err, continue}
use cloud_drive.Exec.Steps.{step_query, step_required, step_refuse, step_guard}
use cloud_drive.Items.{
  find, get_by_id, update_row, row_error, update_name, update_parent, with_name, with_parent,
}
use cloud_drive.Items.Rows.{find-update_row}
use cloud_drive.Items.Flush.{step_change}
use cloud_drive.Naming.{free_name}
use cloud_drive.Tree.{Avoids, stop}
use cloud_drive.Tree.Shape.{IsTree, IsTree-keep, IsTree-reparent}
use cloud_drive.Trash.{
  trash_item, restore, restore_parent, rehome, rename_back, mark_deleted, mark_restored,
}
use cloud_drive.Trash.Rows.{as_deleted, as_restored}

abbrev Q : {A : Type 0} → Result A × Db → Type 0
Q r = IsTree r.1.items

-- Trashing an item, allowed or refused, leaves a table of items that is a tree a tree.
pub trash_item-IsTree :
    (now : Time) (user item_id : Uuid) (db : Db)
    → IsTree db.items
    → IsTree (trash_item now user item_id db).1.items
unfolding trash_item mark_deleted
trash_item-IsTree now user item_id db tree =
    step_required Q db not_found_error (get_by_id db item_id) _ (λ _. tree)
      λ it found.
        step_guard Q db forbidden_error (it.owner_id == user) _ (λ _. tree)
          λ _.
            step_refuse Q db bad_operation it.is_deleted _ (λ _. tree)
              λ _. rw found (
                IsTree-keep db.items item_id (as_deleted now) (λ _. refl) (λ _. refl) (λ _. refl)
                  tree)

rename_back-IsTree :
    (now : Time) (user item_id : Uuid) (name : Text) (it : DriveItem) (db : Db)
    → IsTree db.items
    → IsTree (rename_back now user item_id name it db).1.items
unfolding rename_back update_name
rename_back-IsTree now user item_id name it db tree = elim (Bool-cases (text_eq name it.name)) [
  | inl e ↦ rw e tree
  | inr e ↦ rw e (
      step_change Q db (λ _. tree) item_id (with_name name user now)
        λ _ _.
          IsTree-keep db.items item_id (with_name name user now) (λ _. refl) (λ _. refl) (λ _. refl)
            tree)
]

renamed-IsTree :
    (now : Time) (user item_id : Uuid) (name : Text) (r : Result DriveItem × Db)
    → IsTree r.1.items
    → IsTree (continue r.0 (rename_back now user item_id name) r.1).1.items
renamed-IsTree now user item_id name (ok it, db) tree =
    rename_back-IsTree now user item_id name it db tree
renamed-IsTree now user item_id name (err e, db) tree = tree

-- The old folder, or the root.
restore_parent-cases :
    (o : Option Uuid) (db : Db) → (restore_parent o db ≡ none) ⊎ (restore_parent o db ≡ o)
unfolding restore_parent
restore_parent-cases none db = inl refl
restore_parent-cases (some p) db = elim (Option-cases (find db.items p)) [
  | inl e ↦ inl (rw (e, restore_parent))
  | inr (f, e) ↦ elim (Bool-cases f.is_deleted) [
    | inl d ↦ inl (rw (e, restore_parent, d))
    | inr d ↦ inr (rw (e, restore_parent, d))
  ]
]

rehome-IsTree :
    (now : Time) (user item_id : Uuid) (parent : Option Uuid) (it : DriveItem) (db : Db)
    → (parent ≡ none) ⊎ (parent ≡ it.parent_id)
    → find db.items item_id ≢ none
    → IsTree db.items
    → IsTree (rehome now user item_id parent it db).1.items
unfolding rehome update_parent
rehome-IsTree now user item_id parent it db (inr same) there tree =
    let is : option_eq parent it.parent_id ≡ true = ground arith in rw is tree
rehome-IsTree now user item_id parent it db (inl top) there tree =
    elim (Bool-cases (option_eq parent it.parent_id)) [
      | inl e ↦ rw e tree
      | inr e ↦ rw e (
          step_change Q db (λ _. tree) item_id (with_parent parent user now)
            λ _ _.
              IsTree-reparent db.items item_id (with_parent parent user now) (λ _. refl) (λ _. refl)
                parent (λ _. refl) (λ p at. absurd (ground arith))
                (subst (λ o. Avoids db.items item_id o) (sym top) stop) there tree)
    ]

-- Restoring an item, allowed or refused, leaves a table of items that is a tree a tree.
pub restore-IsTree :
    (now : Time) (user item_id : Uuid) (db : Db)
    → IsTree db.items
    → IsTree (restore now user item_id db).1.items
unfolding restore mark_restored
restore-IsTree now user item_id db tree =
    step_required Q db not_found_error (get_by_id db item_id) _ (λ _. tree)
      λ it found.
        step_guard Q db forbidden_error (it.owner_id == user) _ (λ _. tree)
          λ _.
            step_guard Q db bad_operation it.is_deleted _ (λ _. tree)
              λ _.
                step_query Q db (free_name it.name (restore_parent it.parent_id db) user db) _
                  (λ _ _. tree)
                  λ name _. elim (Option-cases (row_error (as_restored now it) db)) [
                    | inr (refused, e) ↦ rw (found, e) tree
                    | inl e ↦
                        rw (found, e)
                          (renamed-IsTree now user item_id name _ (
                            rehome-IsTree now user item_id (restore_parent it.parent_id db)
                              (as_restored now it)
                              (record db { items = update_row item_id (as_restored now) db.items })
                              (restore_parent-cases it.parent_id db)
                              (λ gone. ground (
                                arith,
                                find-update_row (as_restored now) item_id item_id db.items
                                    (λ _. refl),
                              ))
                              (IsTree-keep db.items item_id (as_restored now) (λ _. refl)
                                (λ _. refl) (λ _. refl) tree)))
                  ]
