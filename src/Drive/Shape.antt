-- ===== src/Drive/Shape.antt =====
-- The tree of items under the operations of the drive.
use cloud_drive.Prelude.{
  ◌≡◌, ◌∙◌, refl, ap, Text, text_eq, inl, inr, true, Option, none, some, arith, Bool-cases,
  Option-cases,
}
use mathlib.Core.Path.{subst}
use cloud_drive.Model.{Uuid, Time, ItemType, DriveItem, is_folder, Db, name_conflict_error}
use cloud_drive.Exec.{ok}
use cloud_drive.Exec.Steps.{step_query, step_refuse}
use cloud_drive.Items.{find, with_parent, with_name, new_item, update_name, name_exists_in_parent}
use cloud_drive.Items.Flush.{step_create, step_update}
use cloud_drive.Naming.{validate_name}
use cloud_drive.Prefs.{log}
use cloud_drive.Tree.{Avoids, stop}
use cloud_drive.Tree.Shape.{IsTree, IsTree-keep, IsTree-reparent, IsTree-append}
use cloud_drive.Drive.{get_editable, check_parent, create_folder, rename, move}
use cloud_drive.Drive.Moves.{MayGo, to_root, into, move_cases}
use cloud_drive.Drive.Cycles.{descendant-Answer, Avoids-file}
use cloud_drive.Items.Rows.{find-id}

-- An allowed destination is a folder from which no walk leads back to the item.
MayGo-Avoids :
    (db : Db) (it : DriveItem) (target : Option Uuid)
    → IsTree db.items
    → find db.items it.id ≡ some it
    → MayGo db it target
    → Avoids db.items it.id target
MayGo-Avoids db it none tree found to_root = stop
MayGo-Avoids db it (some p) tree found (into f there isf test) =
    elim (Bool-cases (is_folder it.item_type)) [
      | inl folder ↦ elim (descendant-Answer db it.id tree.forest p) [
        | inl below ↦ absurd (ground (arith, test folder))
        | inr (no_, avoids) ↦ avoids
      ]
      | inr file ↦
          Avoids-file db it.id it found file tree.folders (λ q g e at. ground (arith))
            (tree.forest p)
    ]

MayGo-folder :
    (db : Db) (it : DriveItem) (target : Option Uuid)
    → MayGo db it target
    → (p : Uuid) → target ≡ some p
    → (g : DriveItem) × (find db.items p ≡ some g) × (is_folder g.item_type ≡ true)
MayGo-folder db it none to_root p e = absurd (ground arith)
MayGo-folder db it (some q) (into f there isf test) p e = (f, ground arith, isf)

-- A move, allowed or refused, leaves a table of items that is a tree a tree: in particular no folder
-- gets below itself.
pub move-IsTree :
    (now : Time) (user item_id : Uuid) (target : Option Uuid) (db : Db)
    → IsTree db.items
    → IsTree (move now user item_id target db).1.items
move-IsTree now user item_id target db tree =
    move_cases now user item_id db IsTree target tree λ it found may.
      let same : it.id ≡ item_id = find-id db.items item_id it found in
      let here_it : find db.items it.id ≡ some it = ap (find db.items) same ∙ found in
      IsTree-reparent db.items item_id (with_parent target user now) (λ _. refl) (λ _. refl) target
        (λ _. refl) (MayGo-folder db it target may)
        (subst (λ c. Avoids db.items c target) same (MayGo-Avoids db it target tree here_it may))
        (λ gone. ground arith) tree

parent_checked :
    (user p : Uuid) (db : Db)
    → check_parent user (some p) db ≡ ok tt
    → (g : DriveItem) × (find db.items p ≡ some g) × (is_folder g.item_type ≡ true)
unfolding check_parent
parent_checked user p db h = elim (Option-cases (find db.items p)) [
  | inl e ↦ absurd (ground arith)
  | inr (g, e) ↦ (g, e, ground arith)
]

parent_goes :
    (user : Uuid) (target : Option Uuid) (db : Db)
    → check_parent user target db ≡ ok tt
    → (p : Uuid) → target ≡ some p
    → (g : DriveItem) × (find db.items p ≡ some g) × (is_folder g.item_type ≡ true)
parent_goes user none db h p e = absurd (ground arith)
parent_goes user (some q) db h p e =
    let (g, there, isf) = parent_checked user q db h in (g, ground arith, isf)

-- Making a folder, allowed or refused, leaves a table of items that is a tree a tree, if the new id is
-- not that of a row.
pub create_folder-IsTree :
    (new_id : Uuid) (now : Time) (user : Uuid) (parent : Option Uuid) (name : Text) (db : Db)
    → find db.items new_id ≡ none
    → IsTree db.items
    → IsTree (create_folder new_id now user parent name db).1.items
unfolding create_folder log new_item
create_folder-IsTree new_id now user parent raw db fresh tree =
    step_query (λ r. IsTree r.1.items) db (validate_name raw) _ (λ e _. tree)
      λ name _.
        step_query (λ r. IsTree r.1.items) db (check_parent user parent db) _ (λ e _. tree)
          λ _ checked.
            step_query (λ r. IsTree r.1.items) db (name_exists_in_parent name parent user none db) _
              (λ e _. tree)
              λ taken _.
                step_refuse (λ r. IsTree r.1.items) db name_conflict_error taken _ (λ _. tree)
                  λ _.
                    step_create (λ r. IsTree r.1.items) db (λ _. tree) new_id now user parent
                      ItemType.folder name user _
                      (IsTree-append db.items
                        (new_item new_id now user parent ItemType.folder name user) fresh
                        (λ p e. parent_goes user parent db checked p e) tree)

-- A rename, allowed or refused, leaves a table of items that is a tree a tree.
pub rename-IsTree :
    (now : Time) (user item_id : Uuid) (name : Text) (db : Db)
    → IsTree db.items
    → IsTree (rename now user item_id name db).1.items
unfolding rename update_name log
rename-IsTree now user item_id raw db tree =
    step_query (λ r. IsTree r.1.items) db (validate_name raw) _ (λ e _. tree)
      λ name _.
        step_query (λ r. IsTree r.1.items) db (get_editable item_id user db) _ (λ e _. tree)
          λ it editable. elim (Bool-cases (text_eq it.name name)) [
            | inl same ↦ rw same tree
            | inr other ↦ rw other (
                step_query (λ r. IsTree r.1.items) db
                  (name_exists_in_parent name it.parent_id user (some item_id) db) _ (λ e _. tree)
                  λ taken _.
                    step_refuse (λ r. IsTree r.1.items) db name_conflict_error taken _ (λ _. tree)
                      λ _.
                        step_update (λ r. IsTree r.1.items) db (λ _. tree) item_id
                          (with_name name user now) _
                          λ _ _.
                            IsTree-keep db.items item_id (with_name name user now) (λ _. refl)
                              (λ _. refl) (λ _. refl) tree)
          ]
