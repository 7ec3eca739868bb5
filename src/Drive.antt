-- ===== src/Drive.antt =====
-- DriveService of backend/app/drive/service.py, wired as backend/app/drive/router.py wires it: with
-- the permission service, the activity log and the share repository.
pub mod Checks
pub mod Moves
pub mod Shape
pub mod Writes
pub mod Cycles
pub mod Names
unfoldable pub use Checks.{
  live, get_viewable, get_editable, get_item_any_state, descendant_loop, is_descendant_or_self,
  check_parent, check_destination, ancestors_loop, get_ancestors,
}
use cloud_drive.Prelude.{
  ℕ, zero, suc, ◌+◌, Text, text_eq, Bool, true, false, not, ◌&&◌, Option, none, some, List, [], ◌∷◌,
  ◌++◌, mem, length, ◌==◌, if◌then◌else◌, map,
}
use mathlib.Core.List.{reverse}
use cloud_drive.Model.{
  Uuid, Time, ItemType, is_folder, DriveItem, Action, Db, Error, not_found_error, bad_operation,
  name_conflict_error, diverges,
}
use cloud_drive.Exec.{
  Result, ok, err, Exec, pure, raise, query, gets, required, guard, refuse, bind_result, ◌>>=◌,
  ◌>>◌,
}
use cloud_drive.Items.{get_by_id, create, update_name, update_parent, name_exists_in_parent}
use cloud_drive.Permission.{assert_can_view, assert_can_edit}
use cloud_drive.Naming.{validate_name}
use cloud_drive.Prefs.{upsert_preference, get_starred_ids, log}

unfoldable pub create_folder : Uuid → Time → Uuid → Option Uuid → Text → Exec DriveItem
create_folder new_id now user parent_id raw_name = do
  name ← query (λ _. validate_name raw_name)
  query (check_parent user parent_id)
  taken ← query (name_exists_in_parent name parent_id user none)
  refuse taken name_conflict_error
  it ← create new_id now user parent_id ItemType.folder name user
  log user Action.create (some it.id)
  pure it

unfoldable pub rename : Time → Uuid → Uuid → Text → Exec DriveItem
rename now user item_id raw_name = do
  name ← query (λ _. validate_name raw_name)
  it ← query (get_editable item_id user)
  if text_eq it.name name then pure it else do
    taken ← query (name_exists_in_parent name it.parent_id user (some item_id))
    refuse taken name_conflict_error
    updated ← update_name now item_id name user
    log user Action.rename (some item_id)
    pure updated

unfoldable pub move : Time → Uuid → Uuid → Option Uuid → Exec DriveItem
move now user item_id new_parent_id = do
  it ← query (get_editable item_id user)
  query (check_destination user item_id it new_parent_id)
  taken ← query (name_exists_in_parent it.name new_parent_id user (some item_id))
  refuse taken name_conflict_error
  updated ← update_parent now item_id new_parent_id user
  log user Action.move (some item_id)
  pure updated

unfoldable pub set_starred : Time → Uuid → Uuid → Bool → Exec DriveItem
set_starred now user item_id starred = do
  it ← query (get_viewable item_id user)
  upsert_preference now user item_id starred
  log user Action.star (some item_id)
  pure it
