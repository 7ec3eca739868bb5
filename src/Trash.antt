-- ===== src/Trash.antt =====
-- TrashService of backend/app/trash/service.py over SQLTrashRepository, wired with the snapshot
-- references and no activity log, as backend/app/trash/router.py wires it.
mod Rows
pub mod Shape
pub mod Back
unfoldable pub use Rows.{
  as_deleted, as_restored, mark_deleted, mark_restored, get_all_deleted, hard_delete, children_of,
  descendants_loop, get_children_recursive, delete_shares, versions_of, sum_sizes,
  is_referenced_by_snapshot,
}
use cloud_drive.Prelude.{
  ℕ, suc, ◌+◌, Text, text_eq, option_eq, Bool, true, false, not, ◌&&◌, ◌||◌, Option, none, some,
  List, [], ◌∷◌, ◌++◌, map, keep, mem, length, ltb, ◌==◌, if◌then◌else◌,
}
use mathlib.Core.List.{reverse}
use cloud_drive.Model.{
  Uuid, Time, ItemType, is_folder, StorageKey, DriveItem, Db, not_found_error, forbidden_error,
  bad_operation,
}
use cloud_drive.Exec.{
  Result, ok, err, Exec, pure, query, gets, required, guard, refuse, when, ◌>>=◌, ◌>>◌,
}
use cloud_drive.Items.{get_by_id, update_parent, update_name}
use cloud_drive.Naming.{free_name}
use cloud_drive.Versions.{delete_by_file}
use cloud_drive.Blobs.{exists, delete}
use cloud_drive.Quota.{subtract_used_bytes}

unfoldable pub trash_item : Time → Uuid → Uuid → Exec DriveItem
trash_item now user item_id = do
  found ← gets (λ db. get_by_id db item_id)
  it ← required not_found_error found
  guard (it.owner_id == user) forbidden_error
  refuse it.is_deleted bad_operation
  mark_deleted now item_id

-- The old folder, or the root if that folder is gone or in the trash.
unfoldable pub restore_parent : Option Uuid → Db → Option Uuid
restore_parent none db = none
restore_parent (some p) db = elim (get_by_id db p) [
  | none ↦ none
  | some f ↦ if f.is_deleted then none else some p
]

-- `if parent_id != item.parent_id`, `if name != item.name`
unfoldable pub rehome : Time → Uuid → Uuid → Option Uuid → DriveItem → Exec DriveItem
rehome now user item_id parent it =
    if option_eq parent it.parent_id then pure it else update_parent now item_id parent user

unfoldable pub rename_back : Time → Uuid → Uuid → Text → DriveItem → Exec DriveItem
rename_back now user item_id name it =
    if text_eq name it.name then pure it else update_name now item_id name user

unfoldable pub restore : Time → Uuid → Uuid → Exec DriveItem
restore now user item_id = do
  found ← gets (λ db. get_by_id db item_id)
  it ← required not_found_error found
  guard (it.owner_id == user) forbidden_error
  guard it.is_deleted bad_operation
  parent ← gets (restore_parent it.parent_id)
  name ← query (free_name it.name parent user)
  back ← mark_restored now item_id
  moved ← rehome now user item_id parent back
  rename_back now user item_id name moved

-- The versions go before the item does; their bytes and blobs are reported.
unfoldable pub delete_file_versions : DriveItem → Exec (ℕ × List StorageKey)
delete_file_versions it = do
  versions ← gets (versions_of it.id)
  delete_by_file it.id
  pure (sum_sizes versions, map (λ v. v.storage_key) versions)

-- A blob that a snapshot still reaches stays, for the collector.
unfoldable pub reclaim_blobs : List StorageKey → Exec (Unit {0})
reclaim_blobs [] = pure tt
reclaim_blobs (k ∷ keys) = do
  referenced ← gets (is_referenced_by_snapshot k)
  there ← gets (exists k)
  when (not referenced && there) (delete k)
  reclaim_blobs keys

-- One round of the loop over the descendants.
unfoldable pub delete_child : DriveItem → Exec (ℕ × List StorageKey)
delete_child child = do
  (freed, keys) ← if is_folder child.item_type then pure (0, []) else delete_file_versions child
  delete_shares child.id
  hard_delete child.id
  pure (freed, keys)

unfoldable pub delete_children : List DriveItem → Exec (ℕ × List StorageKey)
delete_children [] = pure (0, [])
delete_children (child ∷ rest) = do
  (freed, keys) ← delete_child child
  (freed', keys') ← delete_children rest
  pure (freed + freed', keys ++ keys')

-- The bytes and blobs below the item: its own versions, or its descendants, the deepest first.
unfoldable pub delete_below : DriveItem → Exec (ℕ × List StorageKey)
delete_below it =
    if is_folder it.item_type
    then (do
      descendants ← query (get_children_recursive it.id)
      delete_children (reverse descendants))
    else delete_file_versions it

unfoldable pub permanent_delete : Time → Uuid → Uuid → Exec (Unit {0})
permanent_delete now user item_id = do
  found ← gets (λ db. get_by_id db item_id)
  it ← required not_found_error found
  guard (it.owner_id == user) forbidden_error
  guard it.is_deleted bad_operation
  (freed, keys) ← delete_below it
  delete_shares item_id
  hard_delete item_id
  reclaim_blobs keys
  when (ltb 0 freed) (subtract_used_bytes now user freed)

-- Items whose folder is not in the trash too.
unfoldable pub top_level : List DriveItem → List DriveItem
top_level deleted =
    keep (λ it. elim it.parent_id [ none ↦ true | some p ↦ not (mem p (map (λ d. d.id) deleted)) ])
      deleted

unfoldable pub delete_all : Time → Uuid → List DriveItem → Exec (Unit {0})
delete_all now user [] = pure tt
delete_all now user (it ∷ items) = do permanent_delete now user it.id; delete_all now user items

unfoldable pub empty_trash : Time → Uuid → Exec (Unit {0})
empty_trash now user = do
  deleted ← gets (get_all_deleted user)
  delete_all now user (top_level deleted)
