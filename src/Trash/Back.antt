-- ===== src/Trash/Back.antt =====
-- The row of a restored item.
use cloud_drive.Prelude.{
  ◌≡◌, refl, ap, sym, subst, ◌∙◌, ◌⊎◌, inl, inr, Text, text_eq, true, false, option_eq, Option,
  none, some, arith, ==_refl, Bool-cases, Option-cases, ◌==◌,
}
use cloud_drive.Model.{
  Uuid, Time, DriveItem, Db, Error, not_found_error, forbidden_error, bad_operation,
}
use cloud_drive.Exec.{Result, ok, err, continue}
use cloud_drive.Exec.Steps.{step_query, step_required, step_guard}
use cloud_drive.Items.{
  find, get_by_id, update_row, row_error, update_name, update_parent, with_name, with_parent,
}
use cloud_drive.Items.Rows.{find-update_row}
use cloud_drive.Items.Flush.{step_change}
use cloud_drive.Naming.{free_name}
use cloud_drive.Trash.{restore, restore_parent, rehome, rename_back, mark_restored, as_restored}

-- A change returns the row that is then in the table, which has a property, or it raises.
abbrev Returns : Uuid → (DriveItem → Type 0) → Result DriveItem × Db → Type 0
Returns i P r =
    ((e : Error) × (r.0 ≡ err e))
    ⊎ ((row : DriveItem) × (r.0 ≡ ok row) × (find r.1.items i ≡ some row) × P row)

changed :
    (i : Uuid) (f : DriveItem → DriveItem) (it x : DriveItem) (db : Db)
    → ((y : DriveItem) → (f y).id ≡ y.id)
    → find db.items i ≡ some it
    → find db.items i ≡ some x
    → find (update_row i f db.items) i ≡ some (f x)
changed i f it x db same a b = ground (arith, find-update_row f i i db.items same, ==_refl i)

-- Live, the user's, and at the place.
abbrev IsAt : Uuid → Option Uuid → DriveItem → Type 0
IsAt user parent row = (row.is_deleted ≡ false) × ((row.owner_id ≡ user) × (row.parent_id ≡ parent))

eq_of_option_eq : (o p : Option Uuid) → option_eq o p ≡ true → p ≡ o
eq_of_option_eq none none h = refl
eq_of_option_eq none (some b) h = absurd (ground arith)
eq_of_option_eq (some a) none h = absurd (ground arith)
eq_of_option_eq (some a) (some b) h = ground arith

module _ (now : Time) (user i : Uuid) (parent : Option Uuid) where
  rehomed :
      (it : DriveItem) (db : Db)
      → find db.items i ≡ some it
      → it.is_deleted ≡ false
      → it.owner_id ≡ user
      → Returns i (IsAt user parent) (rehome now user i parent it db)
  unfolding rehome update_parent
  rehomed it db there live own = elim (Bool-cases (option_eq parent it.parent_id)) [
    | inl e ↦ rw e (inr (it, refl, there, (live, (own, eq_of_option_eq parent it.parent_id e))))
    | inr e ↦ rw e (
        step_change (Returns i (IsAt user parent)) db (λ e. inl (e, refl)) i
          (with_parent parent user now)
          λ x found. inr (
            with_parent parent user now x,
            refl,
            changed i (with_parent parent user now) it x db (λ _. refl) there found,
            (ground arith, (ground arith, refl)),
          ))
  ]

  renamed :
      (name : Text) (it : DriveItem) (db : Db)
      → find db.items i ≡ some it
      → IsAt user parent it
      → Returns i (IsAt user parent) (rename_back now user i name it db)
  unfolding rename_back update_name
  renamed name it db there at = elim (Bool-cases (text_eq name it.name)) [
    | inl e ↦ rw e (inr (it, refl, there, at))
    | inr e ↦ rw e (
        step_change (Returns i (IsAt user parent)) db (λ e. inl (e, refl)) i
          (with_name name user now)
          λ x found. inr (
            with_name name user now x,
            refl,
            changed i (with_name name user now) it x db (λ _. refl) there found,
            (ground arith, (ground arith, ground arith)),
          ))
  ]

  then_renamed :
      (name : Text) (r : Result DriveItem × Db)
      → Returns i (IsAt user parent) r
      → Returns i (IsAt user parent) (continue r.0 (rename_back now user i name) r.1)
  then_renamed name (err e, db) h = inl (e, refl)
  then_renamed name (ok it, db) (inl (e, eq)) = absurd (ground (arith, eq))
  then_renamed name (ok it, db) (inr (row, eq, there, at)) =
      let same : row ≡ it = ground (arith, eq) in
      renamed name it db (there ∙ ap some same) (
        ap (λ x. x.is_deleted) (sym same) ∙ at.0,
        (ap (λ x. x.owner_id) (sym same) ∙ at.1.0, ap (λ x. x.parent_id) (sym same) ∙ at.1.1),
      )

-- The root, or the old folder, which is live.
abbrev pub IsPlace : Option Uuid → Db → Option Uuid → Type 0
IsPlace old db parent =
    (parent ≡ none)
    ⊎ ((p : Uuid) × (f : DriveItem) × (parent ≡ some p)
        × (old ≡ some p)
        × (find db.items p ≡ some f)
        × (f.is_deleted ≡ false))

restore_parent-IsPlace : (o : Option Uuid) (db : Db) → IsPlace o db (restore_parent o db)
unfolding restore_parent
restore_parent-IsPlace none db = inl refl
restore_parent-IsPlace (some p) db = elim (Option-cases (find db.items p)) [
  | inl e ↦ inl (rw (e, restore_parent))
  | inr (f, e) ↦ elim (Bool-cases f.is_deleted) [
    | inl d ↦ inl (rw (e, restore_parent, d))
    | inr d ↦ inr (p, f, rw (e, restore_parent, d), refl, e, d)
  ]
]

-- A trashed item of the user is back: its row is live, in its old folder if that is live, and else at
-- the root.
pub record IsBack (user item_id : Uuid) (db : Db) (r : Result DriveItem × Db) : Type 0 where
  pub old : DriveItem
  pub before : find db.items item_id ≡ some old
  pub trashed : old.is_deleted ≡ true
  pub owned : old.owner_id ≡ user
  pub row : DriveItem
  pub returned : r.0 ≡ ok row
  pub found : find r.1.items item_id ≡ some row
  pub live : row.is_deleted ≡ false
  pub kept : row.owner_id ≡ user
  pub place : IsPlace old.parent_id db row.parent_id

-- Restoring an item raises, or the item was in the trash and is the user's, and the call returns its row
-- of the table, which is live and lies in its old folder, itself live, or at the root.
pub restore-IsBack :
    (now : Time) (user item_id : Uuid) (db : Db)
    → let r = restore now user item_id db in
      ((e : Error) × (r.0 ≡ err e)) ⊎ IsBack user item_id db r
unfolding restore mark_restored
restore-IsBack now user item_id db =
    let Q : Result DriveItem × Db → Type 0 =
      λ r. ((e : Error) × (r.0 ≡ err e)) ⊎ IsBack user item_id db r in
    step_required Q db not_found_error (get_by_id db item_id) _ (λ _. inl (_, refl))
      λ it there.
        step_guard Q db forbidden_error (it.owner_id == user) _ (λ _. inl (_, refl))
          λ own.
            step_guard Q db bad_operation it.is_deleted _ (λ _. inl (_, refl))
              λ gone.
                step_query Q db (free_name it.name (restore_parent it.parent_id db) user db) _
                  (λ e _. inl (e, refl))
                  λ name _. elim (Option-cases (row_error (as_restored now it) db)) [
                    | inr (refused, e) ↦ rw (there, e) (inl (refused, refl))
                    | inl e ↦
                        rw (there, e)
                          (back it there (ground arith) gone _ (
                            then_renamed now user item_id (restore_parent it.parent_id db) name _ (
                              rehomed now user item_id (restore_parent it.parent_id db)
                                (as_restored now it)
                                (record db {
                                  items = update_row item_id (as_restored now) db.items;
                                })
                                (changed item_id (as_restored now) it it db (λ _. refl) there there)
                                refl (ground arith))))
                  ]
  where
    back :
        (it : DriveItem)
        → find db.items item_id ≡ some it
        → it.owner_id ≡ user
        → it.is_deleted ≡ true
        → (r : Result DriveItem × Db)
        → Returns item_id (IsAt user (restore_parent it.parent_id db)) r
        → ((e : Error) × (r.0 ≡ err e)) ⊎ IsBack user item_id db r
    back it there own gone r (inl bad) = inl bad
    back it there own gone r (inr (row, eq, found, at)) = inr (record {
      old = it;
      before = there;
      trashed = gone;
      owned = own;
      row = row;
      returned = eq;
      found = found;
      live = at.0;
      kept = at.1.0;
      place = subst (IsPlace it.parent_id db) (sym at.1.1) (restore_parent-IsPlace it.parent_id db);
    })
