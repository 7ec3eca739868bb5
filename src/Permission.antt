-- ===== src/Permission.antt =====
-- backend/app/permission: the levels of permission, the lookup of a share (SQLShareRepository), and
-- PermissionService, which walks from an item to the root.
pub mod Best
pub mod Inherit
use cloud_drive.Prelude.{
  ℕ, zero, suc, ◌+◌, Bool, true, false, ◌&&◌, Option, none, some, List, keep, length, ltb, leb,
  ◌==◌, if◌then◌else◌,
}
use cloud_drive.Model.{Uuid, DriveItem, Permission, Share, Db, diverges, forbidden_error}
use cloud_drive.Exec.{Result, ok, err, one_or_none, bind_result}
use cloud_drive.Items.{get_by_id}

-- `_LEVELS`
abbrev pub level : Permission → ℕ
level Permission.viewer = 1
level Permission.downloader = 2
level Permission.editor = 3
level Permission.owner = 4

unfoldable pub has_at_least : Option Permission → Permission → Bool
has_at_least none required = false
has_at_least (some perm) required = leb (level required) (level perm)

unfoldable pub share_rows : Uuid → Uuid → List Share → List Share
share_rows item user = keep (λ s. s.item_id == item && s.target_user_id == user)

unfoldable pub get_by_item_and_user : Uuid → Uuid → Db → Result (Option Share)
get_by_item_and_user item user db = one_or_none (share_rows item user db.shares)

-- The best permission so far, after a share that was found or not.
unfoldable pub better : Option Permission → Option Share → Option Permission
better best none = best
better none (some share) = some share.permission
better (some best) (some share) =
    if ltb (level best) (level share.permission) then some share.permission else some best

-- The `while current is not None` loop, on fuel.
unfoldable pub permission_loop :
    ℕ → Db → Uuid → Option Permission → Option DriveItem → Result (Option Permission)
permission_loop zero db user best current = err diverges
permission_loop (suc fuel) db user best none = ok best
permission_loop (suc fuel) db user best (some it) =
    if it.owner_id == user
    then ok (some Permission.owner)
    else bind_result (get_by_item_and_user it.id user db) (λ share.
      let best' = better best share in
      elim it.parent_id [
        | none ↦ ok best'
        | some p ↦ permission_loop fuel db user best' (get_by_id db p)
      ])

-- The walk passes no row twice, so this fuel is enough in a forest.
unfoldable pub get_permission : Uuid → DriveItem → Db → Result (Option Permission)
get_permission user it db = permission_loop (length db.items + 3) db user none (some it)

unfoldable pub assert_at_least : Permission → Uuid → DriveItem → Db → Result (Unit {0})
assert_at_least required user it db =
    bind_result (get_permission user it db)
      (λ perm. if has_at_least perm required then ok tt else err forbidden_error)

abbrev pub assert_can_view : Uuid → DriveItem → Db → Result (Unit {0})
assert_can_view = assert_at_least Permission.viewer

abbrev pub assert_can_download : Uuid → DriveItem → Db → Result (Unit {0})
assert_can_download = assert_at_least Permission.downloader

abbrev pub assert_can_edit : Uuid → DriveItem → Db → Result (Unit {0})
assert_can_edit = assert_at_least Permission.editor

-- `perm is not Permission.OWNER`
abbrev pub is_owner : Option Permission → Bool
is_owner none = false
is_owner (some perm) = elim perm [ Permission.owner ↦ true | _ ↦ false ]

unfoldable pub assert_is_owner : Uuid → DriveItem → Db → Result (Unit {0})
assert_is_owner user it db =
    bind_result (get_permission user it db)
      (λ perm. if is_owner perm then ok tt else err forbidden_error)
