-- ===== src/Drive/Writes.antt =====
-- Which row the operations of the owner write.
use cloud_drive.Prelude.{
  ◌≡◌, refl, ap, ◌∙◌, inl, inr, Text, text_eq, none, some, true, Bool-cases, ◌==◌,
}
use cloud_drive.Model.{
  Uuid, Time, ItemType, DriveItem, Db, not_found_error, forbidden_error, bad_operation,
  name_conflict_error,
}
use cloud_drive.Exec.{Result, err}
use cloud_drive.Exec.Steps.{step_query, step_required, step_refuse, step_guard}
use cloud_drive.Items.{
  find, get_by_id, new_item, with_name, with_parent, update_name, name_exists_in_parent,
}
use cloud_drive.Items.Rows.{find-id}
use cloud_drive.Items.Flush.{step_create, step_update}
use cloud_drive.Items.Written.{Wrote, append-IsWritten, update_row-IsWritten}
use cloud_drive.Naming.{validate_name}
use cloud_drive.Prefs.{log}
use cloud_drive.Drive.{get_editable, check_parent, create_folder, rename, move}
use cloud_drive.Drive.Moves.{move_cases}
use cloud_drive.Trash.{trash_item, as_deleted, mark_deleted}

-- The new row lies in the folder asked for.
abbrev pub LiesIn : Uuid → DriveItem → Type 0
LiesIn p it = it.parent_id ≡ some p

-- The row lies where the row with its id lay.
abbrev pub LiesAsIn : Db → DriveItem → Type 0
LiesAsIn db it =
    (old : DriveItem) × (find db.items it.id ≡ some old) × (it.parent_id ≡ old.parent_id)

abbrev pub IsTrashed : Db → DriveItem → Type 0
IsTrashed db it = LiesAsIn db it × (it.is_deleted ≡ true)

pub create_folder-Wrote :
    (new_id : Uuid) (now : Time) (user p : Uuid) (name : Text) (db : Db)
    → find db.items new_id ≡ none
    → Wrote db new_id (LiesIn p) (create_folder new_id now user (some p) name db)
unfolding create_folder log new_item
create_folder-Wrote new_id now user p raw db fresh =
    let Q : Result DriveItem × Db → Type 0 = Wrote db new_id (LiesIn p) in
    step_query Q db (validate_name raw) _ (λ _ _. inl refl)
      λ name _.
        step_query Q db (check_parent user (some p) db) _ (λ _ _. inl refl)
          λ _ _.
            step_query Q db (name_exists_in_parent name (some p) user none db) _ (λ _ _. inl refl)
              λ taken _.
                step_refuse Q db name_conflict_error taken _ (λ _. inl refl)
                  λ _.
                    step_create Q db (λ _. inl refl) new_id now user (some p) ItemType.folder name
                      user _
                      (inr (
                        append-IsWritten (LiesIn p) db.items
                          (new_item new_id now user (some p) ItemType.folder name user) fresh refl))

pub rename-Wrote :
    (now : Time) (user i : Uuid) (name : Text) (db : Db)
    → Wrote db i (LiesAsIn db) (rename now user i name db)
unfolding rename update_name log
rename-Wrote now user i raw db =
    let Q : Result DriveItem × Db → Type 0 = Wrote db i (LiesAsIn db) in
    step_query Q db (validate_name raw) _ (λ _ _. inl refl)
      λ name _.
        step_query Q db (get_editable i user db) _ (λ _ _. inl refl)
          λ it editable. elim (Bool-cases (text_eq it.name name)) [
            | inl same ↦ rw same (inl refl)
            | inr other ↦ rw other (
                step_query Q db (name_exists_in_parent name it.parent_id user (some i) db) _
                  (λ _ _. inl refl)
                  λ taken _.
                    step_refuse Q db name_conflict_error taken _ (λ _. inl refl)
                      λ _.
                        step_update Q db (λ _. inl refl) i (with_name name user now) _
                          λ x there. inr (
                            update_row-IsWritten (LiesAsIn db) db.items i (with_name name user now)
                              x (λ _. refl) there
                              (x, ap (find db.items) (find-id db.items i x there) ∙ there, refl)))
          ]

pub move-Wrote :
    (now : Time) (user i p : Uuid) (db : Db) → Wrote db i (LiesIn p) (move now user i (some p) db)
move-Wrote now user i p db =
    move_cases now user i db
      (λ items.
        Wrote {A = DriveItem} db i (LiesIn p) (err not_found_error, record db { items = items }))
      (some p) (inl refl)
      λ it found _. inr (
        update_row-IsWritten (LiesIn p) db.items i (with_parent (some p) user now) it (λ _. refl)
          found refl)

pub trash_item-Wrote :
    (now : Time) (user i : Uuid) (db : Db) → Wrote db i (IsTrashed db) (trash_item now user i db)
unfolding trash_item mark_deleted
trash_item-Wrote now user i db =
    let Q : Result DriveItem × Db → Type 0 = Wrote db i (IsTrashed db) in
    step_required Q db not_found_error (get_by_id db i) _ (λ _. inl refl)
      λ it found.
        step_guard Q db forbidden_error (it.owner_id == user) _ (λ _. inl refl)
          λ _.
            step_refuse Q db bad_operation it.is_deleted _ (λ _. inl refl)
              λ _. rw found (
                inr (
                  update_row-IsWritten (IsTrashed db) db.items i (as_deleted now) it (λ _. refl)
                    found
                    ((it, ap (find db.items) (find-id db.items i it found) ∙ found, refl), refl)))
