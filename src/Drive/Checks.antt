-- ===== src/Drive/Checks.antt =====
-- The read-only parts of DriveService: lookups with their permission checks, the checks of a
-- destination, and the two walks up the tree.
use cloud_drive.Prelude.{
  ℕ, zero, suc, ◌+◌, Bool, true, false, Option, none, some, List, [], ◌∷◌, mem, length, ◌==◌,
  if◌then◌else◌,
}
use mathlib.Core.List.{reverse}
use cloud_drive.Model.{Uuid, is_folder, DriveItem, Db, not_found_error, bad_operation, diverges}
use cloud_drive.Exec.{Result, ok, err, bind_result}
use cloud_drive.Read.{Read, pure, gets, required, guard, refuse, ◌>>=◌, ◌>>◌}
use cloud_drive.Items.{get_by_id}
use cloud_drive.Permission.{assert_can_view, assert_can_edit}

-- `item is None or item.is_deleted` raises `NotFoundError`.
abbrev pub live : Option DriveItem → Option DriveItem
live none = none
live (some it) = if it.is_deleted then none else some it

unfoldable pub get_viewable : Uuid → Uuid → Read DriveItem
get_viewable item_id user = do
  found ← gets (λ db. live (get_by_id db item_id))
  it ← required not_found_error found
  assert_can_view user it
  pure it

unfoldable pub get_editable : Uuid → Uuid → Read DriveItem
get_editable item_id user = do
  found ← gets (λ db. live (get_by_id db item_id))
  it ← required not_found_error found
  assert_can_edit user it
  pure it

-- The `while current_id is not None` loop of `_is_descendant_or_self`, on fuel.
unfoldable pub descendant_loop : ℕ → Db → Uuid → List Uuid → Option Uuid → Result Bool
descendant_loop zero db candidate seen current = err diverges
descendant_loop (suc fuel) db candidate seen none = ok false
descendant_loop (suc fuel) db candidate seen (some i) =
    if i == candidate then ok true else if mem i seen then ok false else elim (get_by_id db i) [
      | none ↦ ok false
      | some it ↦ descendant_loop fuel db candidate (i ∷ seen) it.parent_id
    ]

unfoldable pub is_descendant_or_self : Uuid → Uuid → Db → Result Bool
is_descendant_or_self candidate target db =
    descendant_loop (length db.items + 3) db candidate [] (some target)

unfoldable pub get_item_any_state : Uuid → Uuid → Read DriveItem
get_item_any_state user item_id = do
  found ← gets (λ db. get_by_id db item_id)
  it ← required not_found_error found
  assert_can_view user it
  pure it

-- The checks of a parent folder: it is there, may be edited and is a folder.
unfoldable pub check_parent : Uuid → Option Uuid → Read (Unit {0})
check_parent user none = pure tt
check_parent user (some p) = do
  found ← gets (λ db. live (get_by_id db p))
  parent ← required not_found_error found
  assert_can_edit user parent
  guard (is_folder parent.item_type) bad_operation

-- The checks of the destination of a move, up to the test for a cycle.
unfoldable pub check_destination : Uuid → Uuid → DriveItem → Option Uuid → Read (Unit {0})
check_destination user item_id it none = pure tt
check_destination user item_id it (some p) = do
  check_parent user (some p)
  below ← if is_folder it.item_type then (is_descendant_or_self item_id p) else pure false
  refuse below bad_operation

-- The loop of `get_ancestors`: the rows met on the way up, the nearest first.
unfoldable pub ancestors_loop : ℕ → Db → List Uuid → Option Uuid → Result (List DriveItem)
ancestors_loop zero db seen current = err diverges
ancestors_loop (suc fuel) db seen none = ok []
ancestors_loop (suc fuel) db seen (some i) = if mem i seen then ok [] else elim (get_by_id db i) [
  | none ↦ ok []
  | some parent ↦
      bind_result (ancestors_loop fuel db (i ∷ seen) parent.parent_id)
        (λ chain. ok (parent ∷ chain))
]

unfoldable pub get_ancestors : Uuid → Uuid → Read (List DriveItem)
get_ancestors user item_id = do
  it ← get_viewable item_id user
  chain ← (λ db. ancestors_loop (length db.items + 3) db [] it.parent_id)
  pure (reverse chain)
