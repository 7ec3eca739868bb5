-- ===== src/Trash/Rows.antt =====
-- SQLTrashRepository of backend/app/trash/repository.py, `delete_by_item` of
-- backend/app/permission/repository.py and `is_referenced_by_snapshot` of
-- backend/app/snapshot/repository.py.
use cloud_drive.Prelude.{
  ℕ, zero, suc, ◌+◌, Bool, true, false, not, ◌&&◌, Option, none, some, List, [], ◌∷◌, ◌++◌, map,
  keep, any, mem, length, option_eq, ◌==◌, if◌then◌else◌,
}
use cloud_drive.Model.{
  Uuid, Time, StorageKey, DriveItem, FileVersion, UploadSession, Activity, Db, no_result,
  foreign_key_violation, diverges,
}
use cloud_drive.Exec.{
  Result, ok, err, Exec, pure, gets, required, modify, raise_if, bind_result, ◌>>=◌, ◌>>◌,
}
use cloud_drive.Items.{get_by_id, update_row, row_error}
use cloud_drive.Blobs.{key_eq}
use cloud_drive.Versions.{version_rows}

-- `scalar_one()`, then a change of the row in place.
abbrev change_one : Uuid → (DriveItem → DriveItem) → Exec DriveItem
change_one i f = do
  found ← gets (λ db. get_by_id db i)
  it ← required no_result found
  modify (λ db. record db { items = update_row i f db.items })
  pure (f it)

abbrev pub as_deleted : Time → DriveItem → DriveItem
as_deleted now it = record it { is_deleted = true; deleted_at = some now; updated_at = now }

abbrev pub as_restored : Time → DriveItem → DriveItem
as_restored now it = record it { is_deleted = false; deleted_at = none; updated_at = now }

unfoldable pub mark_deleted : Time → Uuid → Exec DriveItem
mark_deleted now i = change_one i (as_deleted now)

unfoldable pub mark_restored : Time → Uuid → Exec DriveItem
mark_restored now i = do
  found ← gets (λ db. get_by_id db i)
  it ← required no_result found
  refused ← gets (row_error (as_restored now it))
  raise_if refused
  modify (λ db. record db { items = update_row i (as_restored now) db.items })
  pure (as_restored now it)

unfoldable pub get_all_deleted : Uuid → Db → List DriveItem
get_all_deleted owner db = keep (λ it. it.owner_id == owner && it.is_deleted) db.items

-- `None` in place of a reference to the row `i`
abbrev cleared : Uuid → Option Uuid → Option Uuid
cleared i o = if option_eq o (some i) then none else o

-- The foreign keys: a child keeps its folder in place; versions, shares, links and preferences go
-- with the item; sessions and the log drop the reference.
unfoldable pub hard_delete : Uuid → Exec (Unit {0})
hard_delete i db =
    if any (λ it. option_eq it.parent_id (some i) && not (it.id == i)) db.items
    then (err foreign_key_violation, db)
    else (
      ok tt,
      record db {
        items = keep (λ it. not (it.id == i)) db.items;
        versions = keep (λ v. not (v.file_id == i)) db.versions;
        shares = keep (λ s. not (s.item_id == i)) db.shares;
        links = keep (λ l. not (l.item_id == i)) db.links;
        prefs = keep (λ p. not (p.item_id == i)) db.prefs;
        sessions =
            map
              (λ (s : UploadSession). record s {
                parent_id = cleared i s.parent_id;
                drive_item_id = cleared i s.drive_item_id;
              })
              db.sessions;
        activity = map (λ (a : Activity). record a { item_id = cleared i a.item_id }) db.activity;
      },
    )

-- `WHERE parent_id IN queue`
unfoldable pub children_of : List Uuid → List DriveItem → List DriveItem
children_of queue = keep (λ it. elim it.parent_id [ none ↦ false | some p ↦ mem p queue ])

-- The `while queue` loop, on fuel: one level of the tree in each round.
unfoldable pub descendants_loop : ℕ → List DriveItem → List Uuid → Result (List DriveItem)
descendants_loop zero items queue = err diverges
descendants_loop (suc fuel) items [] = ok []
descendants_loop (suc fuel) items (i ∷ queue) =
    let children = children_of (i ∷ queue) items in
    bind_result (descendants_loop fuel items (map (λ it. it.id) children))
      (λ rest. ok (children ++ rest))

unfoldable pub get_children_recursive : Uuid → Db → Result (List DriveItem)
get_children_recursive i db = descendants_loop (length db.items + 3) db.items (i ∷ [])

unfoldable pub delete_shares : Uuid → Exec (Unit {0})
delete_shares i = modify (λ db. record db { shares = keep (λ s. not (s.item_id == i)) db.shares })

unfoldable pub versions_of : Uuid → Db → List FileVersion
versions_of f db = version_rows f db.versions

unfoldable pub sum_sizes : List FileVersion → ℕ
sum_sizes [] = 0
sum_sizes (v ∷ versions) = v.size_bytes + sum_sizes versions

unfoldable pub is_referenced_by_snapshot : StorageKey → Db → Bool
is_referenced_by_snapshot k db =
    any (λ e. elim e.storage_key [ none ↦ false | some j ↦ key_eq k j ]) db.entries
