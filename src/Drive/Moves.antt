-- ===== src/Drive/Moves.antt =====
-- What a move does to the table.
use cloud_drive.Prelude.{◌≡◌, inl, inr, true, false, Option, none, some, List, arith, Option-cases}
use cloud_drive.Model.{Uuid, Time, DriveItem, is_folder, Db, name_conflict_error}
use cloud_drive.Exec.{ok}
use cloud_drive.Items.Flush.{step_update}
use cloud_drive.Exec.Steps.{step_query, step_refuse}
use cloud_drive.Items.{find, update_row, with_parent, name_exists_in_parent, update_parent}
use cloud_drive.Items.Rows.{find-id}
use cloud_drive.Prefs.{log}
use cloud_drive.Drive.{get_editable, check_parent, check_destination, is_descendant_or_self, move}

-- The destination of an allowed move of `it`.
pub data MayGo (db : Db) (it : DriveItem) : Option Uuid → Type 0 where
  to_root : MayGo db it none
  into :
      {p : Uuid} (f : DriveItem)
      → find db.items p ≡ some f
      → is_folder f.item_type ≡ true
      → (is_folder it.item_type ≡ true → is_descendant_or_self it.id p db ≡ ok false)
      → MayGo db it (some p)

pub editable_found :
    (user item_id : Uuid) (db : Db) (it : DriveItem)
    → get_editable item_id user db ≡ ok it
    → find db.items item_id ≡ some it
unfolding get_editable
editable_found user item_id db it h = ground arith

check_destination-MayGo :
    (user item_id : Uuid) (it : DriveItem) (target : Option Uuid) (db : Db)
    → it.id ≡ item_id
    → check_destination user item_id it target db ≡ ok tt
    → MayGo db it target
unfolding check_destination check_parent
check_destination-MayGo user item_id it none db same h = to_root
check_destination-MayGo user item_id it (some p) db same h = elim (Option-cases (find db.items p)) [
  | inl e ↦ absurd (ground arith)
  | inr (f, e) ↦ into f e (ground arith) (λ isf. rw same (ground arith))
]

module _ (now : Time) (user item_id : Uuid) (db : Db) where
  -- A property of the table holds after a move if it holds before, and after an allowed change of
  -- the parent.
  pub move_cases :
      (P : List DriveItem → Type 0) (target : Option Uuid)
      → P db.items
      → ((it : DriveItem)
          → find db.items item_id ≡ some it
          → MayGo db it target
          → P (update_row item_id (with_parent target user now) db.items))
      → P (move now user item_id target db).1.items
  unfolding move update_parent log
  move_cases P target before after =
      step_query (λ r. P r.1.items) db (get_editable item_id user db) _ (λ e _. before)
        λ it editable.
          step_query (λ r. P r.1.items) db (check_destination user item_id it target db) _
            (λ e _. before)
            λ _ checked.
              step_query (λ r. P r.1.items) db
                (name_exists_in_parent it.name target user (some item_id) db) _ (λ e _. before)
                λ taken _.
                  step_refuse (λ r. P r.1.items) db name_conflict_error taken _ (λ _. before)
                    λ _.
                      let found = editable_found user item_id db it editable in
                      step_update (λ r. P r.1.items) db (λ _. before) item_id
                        (with_parent target user now) _
                        λ _ _. after it found (
                          check_destination-MayGo user item_id it target db
                            (find-id db.items item_id it found) checked)
