-- ===== src/Items/Flush.antt =====
-- One rule for each write of a row of items: the database raises and nothing changes, or the row is
-- written.
use cloud_drive.Prelude.{◌≡◌, Text, Option, some, [], ◌∷◌, ◌++◌, inl, inr, Option-cases}
use cloud_drive.Model.{Uuid, Time, Error, ItemType, DriveItem, Db, assertion_failed}
use cloud_drive.Exec.{Result, ok, err, Exec, ◌>>=◌}
use cloud_drive.Items.{find, new_item, row_error, create, update_row, update_item}

module _ {ℓ} {B : Type 0} (Q : Result B × Db → Type ℓ) (db : Db)
    (bad : (e : Error) → Q (err e, db)) where
  pub step_create :
      (new_id : Uuid) (now : Time) (owner : Uuid) (parent : Option Uuid) (type : ItemType)
      (name : Text) (by : Uuid) (k : DriveItem → Exec B)
      → let it = new_item new_id now owner parent type name by in
        Q (k it (record db { items = db.items ++ it ∷ [] }))
        → Q ((create new_id now owner parent type name by >>= k) db)
  unfolding create
  step_create new_id now owner parent type name by k good =
      elim (Option-cases (row_error (new_item new_id now owner parent type name by) db)) [
        | inl e ↦ rw e good
        | inr (refused, e) ↦ rw e (bad refused)
      ]

  pub step_update :
      (i : Uuid) (f : DriveItem → DriveItem) (k : DriveItem → Exec B)
      → ((it : DriveItem)
          → find db.items i ≡ some it
          → Q (k (f it) (record db { items = update_row i f db.items })))
      → Q ((update_item i f >>= k) db)
  unfolding update_item
  step_update i f k good = elim (Option-cases (find db.items i)) [
    | inl gone ↦ rw gone (bad assertion_failed)
    | inr (it, there) ↦ elim (Option-cases (row_error (f it) db)) [
      | inl e ↦ rw (there, e) (good it there)
      | inr (refused, e) ↦ rw (there, e) (bad refused)
    ]
  ]

-- A change of a row that ends a method.
pub step_change {ℓ} :
    (Q : Result DriveItem × Db → Type ℓ) (db : Db)
    → ((e : Error) → Q (err e, db))
    → (i : Uuid) (f : DriveItem → DriveItem)
    → ((it : DriveItem)
        → find db.items i ≡ some it
        → Q (ok (f it), record db { items = update_row i f db.items }))
    → Q (update_item i f db)
unfolding update_item
step_change Q db bad i f good = elim (Option-cases (find db.items i)) [
  | inl gone ↦ rw gone (bad assertion_failed)
  | inr (it, there) ↦ elim (Option-cases (row_error (f it) db)) [
    | inl e ↦ rw (there, e) (good it there)
    | inr (refused, e) ↦ rw (there, e) (bad refused)
  ]
]
