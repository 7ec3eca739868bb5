-- ===== src/Drive/Names.antt =====
-- The names in a folder where a row is added.
use cloud_drive.Prelude.{
  ◌+◌, ◌≡◌, refl, ap, sym, ◌∙◌, inl, inr, Text, eq_of_text_eq, true, false, Option, none, List, [],
  ◌∷◌, ◌++◌, arith, keep, length, is_some, if◌then◌else◌, Bool-cases,
}
use cloud_drive.Model.{Uuid, Time, ItemType, DriveItem, Db, name_conflict_error}
use cloud_drive.Exec.{Result, ok, one_or_none, bind_result}
use cloud_drive.Items.Flush.{step_create}
use cloud_drive.Exec.Steps.{step_query, step_refuse}
use cloud_drive.Items.{is_at, name_rows, name_exists_in_parent, new_item}
use cloud_drive.Naming.{validate_name}
use cloud_drive.Naming.Free.{IsNameUnique}
use cloud_drive.Prefs.{log}
use cloud_drive.Drive.{check_parent, create_folder}

length-name_rows-append :
    (it : DriveItem) (name : Text) (parent : Option Uuid) (owner : Uuid) (items : List DriveItem)
    → length (name_rows name parent owner none (items ++ it ∷ []))
      ≡ length (name_rows name parent owner none items)
        + (if is_at name parent owner it then 1 else 0)
unfolding name_rows keep
length-name_rows-append it name parent owner [] = ground arith
length-name_rows-append it name parent owner (x ∷ items) =
    ground (arith, length-name_rows-append it name parent owner items)

asked_none :
    (rows : List DriveItem)
    → bind_result (one_or_none rows) (λ o. ok (is_some o)) ≡ ok false
    → length rows ≡ 0
unfolding one_or_none
asked_none [] h = refl
asked_none (x ∷ []) h = absurd (ground arith)
asked_none (x ∷ y ∷ rows) h = absurd (ground arith)

-- The query says no: there is no such row.
pub no_rows :
    (name : Text) (parent : Option Uuid) (owner : Uuid) (db : Db)
    → name_exists_in_parent name parent owner none db ≡ ok false
    → length (name_rows name parent owner none db.items) ≡ 0
unfolding name_exists_in_parent
no_rows name parent owner db h = asked_none (name_rows name parent owner none db.items) h

is_at_cases :
    (it : DriveItem) (name : Text) (parent : Option Uuid) (owner : Uuid)
    → is_at name parent owner it ≡ true
    → (it.name ≡ name) × ((it.parent_id ≡ parent) × (it.owner_id ≡ owner))
is_at_cases it name parent owner h =
    (eq_of_text_eq it.name name (ground arith), (ground arith, ground arith))

-- A row at a place where no row is leaves names unique.
pub append-IsNameUnique :
    (it : DriveItem) (items : List DriveItem)
    → length (name_rows it.name it.parent_id it.owner_id none items) ≡ 0
    → IsNameUnique items
    → IsNameUnique (items ++ it ∷ [])
append-IsNameUnique it items new unique name parent owner =
    elim (Bool-cases (is_at name parent owner it)) [
      | inr other ↦
          ground
            (arith, length-name_rows-append it name parent owner items, unique name parent owner)
      | inl at ↦
          let (n, (p, o)) = is_at_cases it name parent owner at in
          let empty : length (name_rows name parent owner none items) ≡ 0 =
            sym (ap (λ x. length (name_rows x parent owner none items)) n)
            ∙ (sym (ap (λ x. length (name_rows it.name x owner none items)) p)
                ∙ (sym (ap (λ x. length (name_rows it.name it.parent_id x none items)) o) ∙ new)) in
          ground (arith, length-name_rows-append it name parent owner items)
    ]

-- A folder is made only where the owner has no live row of that name in that folder: whether the
-- call returns or raises, an owner has one live row at most for each name in a folder, if so before.
pub create_folder-IsNameUnique :
    (new_id : Uuid) (now : Time) (user : Uuid) (parent : Option Uuid) (name : Text) (db : Db)
    → IsNameUnique db.items
    → IsNameUnique (create_folder new_id now user parent name db).1.items
unfolding create_folder log new_item
create_folder-IsNameUnique new_id now user parent raw db unique =
    let Q : Result DriveItem × Db → Type 0 = λ r. IsNameUnique r.1.items in
    step_query Q db (validate_name raw) _ (λ _ _. unique)
      λ name _.
        step_query Q db (check_parent user parent db) _ (λ _ _. unique)
          λ _ _.
            step_query Q db (name_exists_in_parent name parent user none db) _ (λ _ _. unique)
              λ taken eq.
                step_refuse Q db name_conflict_error taken _ (λ _. unique)
                  λ free.
                    step_create Q db (λ _. unique) new_id now user parent ItemType.folder name user
                      _
                      (append-IsNameUnique
                        (new_item new_id now user parent ItemType.folder name user) db.items
                        (unfold new_item in no_rows name parent user db (eq ∙ ap ok free)) unique)
