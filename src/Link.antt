-- ===== src/Link.antt =====
-- Public links: ShareLinkService of backend/app/share/service.py over SQLShareLinkRepository, and the
-- sessions of guests, PublicShareService of backend/app/public_share/service.py.
-- `hash_token`, `hash_password` and `verify` stand for SHA-256 and the password hasher; a token and
-- its secret are numbers.
pub mod Throttle
pub mod Subtree
pub mod Shape
pub mod Writes
pub mod Revoke
mod Manage
unfoldable pub use Manage.{
  link_invalid, password_required, find_link, find_token, update_link, is_expired, is_editor,
  is_viewer, create_link, wrong_password, validate_access, owned_link, delete_link_record,
  deactivate_link,
}
use cloud_drive.Prelude.{
  ℕ, zero, suc, ◌+◌, ◌*◌, Text, Bool, true, false, not, ◌&&◌, ◌||◌, Option, none, some, List, [],
  ◌∷◌, ◌++◌, map, keep, ltb, leb, ◌==◌, if◌then◌else◌, is_some,
}
use cloud_drive.Model.{
  Uuid, Time, ItemType, is_folder, DriveItem, LinkPermission, ShareLink, Db, Error, app_error,
  ErrorCode, not_found_error, forbidden_error, bad_operation, no_result, invalid_operation_error,
}
use cloud_drive.Exec.{
  Result, ok, err, Exec, pure, raise, query, gets, required, guard, refuse, modify, when,
  bind_result, ◌>>=◌, ◌>>◌,
}
use cloud_drive.Items.{get_by_id}
use cloud_drive.Drive
use cloud_drive.Drive.{live}
use cloud_drive.Trash.{trash_item}
use cloud_drive.Upload.{upload_simple}

-- The settings of the throttle, in seconds and attempts.
pub record Throttling : Type 0 where
  pub attempt_limit : ℕ
  pub lockout_seconds : ℕ

-- A window lasts a minute: the count of attempts in it, this one included.
unfoldable pub attempt_window : Time → Option Time → ℕ → Time × ℕ
attempt_window now none count = (now, 1)
attempt_window now (some start) count =
    if leb (start + 60) now then (now, 1) else (start, count + 1)

unfoldable pub lock_after : Throttling → Time → ℕ → Option Time
lock_after t now count = if ltb t.attempt_limit count then some (now + t.lockout_seconds) else none

unfoldable pub register_attempt : Throttling → Time → ShareLink → Exec (Unit {0})
unfolding attempt_window lock_after
register_attempt t now l = do
  let window = attempt_window now l.attempt_window_start l.attempt_count
  let lock = lock_after t now window.1
  modify (λ db. record db {
    links =
        update_link l.id
          (λ row. record row {
            attempt_window_start = some window.0;
            attempt_count = window.1;
            locked_until = lock;
          })
          db.links;
  })
  refuse (is_some lock) link_invalid

abbrev pub is_locked : Option Time → Time → Bool
is_locked none now = false
is_locked (some t) now = ltb now t

-- The check of the password of a link that has one.
unfoldable pub check_password :
    (ℕ → ℕ → Bool) → Throttling → Time → ShareLink → Option ℕ → Option ℕ → Exec (Unit {0})
check_password verify t now l none password = pure tt
check_password verify t now l (some h) none = raise password_required
check_password verify t now l (some h) (some p) = do
  register_attempt t now l
  guard (verify p h) link_invalid

-- What a credential carries: link, shared item, permission and the start of its chain.
pub record Claims : Type 0 where
  pub link_id : Uuid
  pub root_item_id : Uuid
  pub permission : LinkPermission
  pub chain_started_at : Time

unfoldable pub open_session :
    (ℕ → ℕ → Bool) → Throttling → Time → ℕ → Option ℕ → Exec (Claims × DriveItem)
open_session verify t now token_hash password = do
  found ← gets (λ db. find_token db.links token_hash)
  l ← required link_invalid found
  refuse (is_locked l.locked_until now) link_invalid
  guard l.is_active link_invalid
  refuse (is_expired l.expires_at now) link_invalid
  check_password verify t now l l.password_hash password
  item ← gets (λ db. live (get_by_id db l.item_id))
  root ← required link_invalid item
  pure (
    record {
      link_id = l.id;
      root_item_id = l.item_id;
      permission = l.permission;
      chain_started_at = now;
    },
    root,
  )

pub record Authorized : Type 0 where
  pub claims : Claims
  pub root : DriveItem
  pub permission : LinkPermission

-- `_authorize`: the link is read again on every request. `none` is a credential that does not decode.
unfoldable pub authorize : Time → Option Claims → Exec Authorized
authorize now credential = do
  claims ← required link_invalid credential
  found ← gets (λ db. find_link db.links claims.link_id)
  l ← required link_invalid found
  guard l.is_active link_invalid
  refuse (is_expired l.expires_at now) link_invalid
  item ← gets (λ db. live (get_by_id db l.item_id))
  root ← required link_invalid item
  pure (record { claims = claims; root = root; permission = l.permission })

-- A new credential keeps the start of the chain, and none is given past the cap.
unfoldable pub refresh_session : ℕ → Time → Option Claims → Exec Claims
refresh_session max_lifetime_seconds now credential = do
  auth ← authorize now credential
  refuse (leb (auth.claims.chain_started_at + max_lifetime_seconds) now) link_invalid
  pure auth.claims

abbrev pub max_depth : ℕ
max_depth = 64

-- The bounded walk up of `_resolve_in_subtree`.
unfoldable pub below_root : ℕ → Db → Uuid → Option DriveItem → Bool
below_root zero db root current = false
below_root (suc n) db root none = false
below_root (suc n) db root (some it) =
    if it.id == root
    then true
    else elim it.parent_id [ none ↦ false | some p ↦ below_root n db root (get_by_id db p) ]

unfoldable pub resolve_in_subtree : Authorized → Uuid → Exec DriveItem
resolve_in_subtree auth item_id = do
  found ← gets (λ db. live (get_by_id db item_id))
  it ← required link_invalid found
  below ← gets (λ db. below_root max_depth db auth.root.id (some it))
  guard below link_invalid
  pure it

abbrev pub assert_can_edit : Authorized → Exec (Unit {0})
assert_can_edit auth = guard (is_editor auth.permission) forbidden_error

abbrev pub assert_can_download : Authorized → Exec (Unit {0})
assert_can_download auth = refuse (is_viewer auth.permission) forbidden_error

unfoldable pub reload : Uuid → Exec DriveItem
reload i = do found ← gets (λ db. get_by_id db i); required link_invalid found

-- The writes of a guest run as the owner of the shared item.
unfoldable pub create_folder : Uuid → Time → Option Claims → Uuid → Text → Exec DriveItem
create_folder new_id now credential parent_id name = do
  auth ← authorize now credential
  assert_can_edit auth
  parent ← resolve_in_subtree auth parent_id
  guard (is_folder parent.item_type) bad_operation
  made ← Drive.create_folder new_id now auth.root.owner_id (some parent.id) name
  reload made.id

unfoldable pub rename : Time → Option Claims → Uuid → Text → Exec DriveItem
rename now credential item_id name = do
  auth ← authorize now credential
  assert_can_edit auth
  it ← resolve_in_subtree auth item_id
  Drive.rename now auth.root.owner_id it.id name
  reload it.id

unfoldable pub move : Time → Option Claims → Uuid → Uuid → Exec DriveItem
move now credential item_id new_parent_id = do
  auth ← authorize now credential
  assert_can_edit auth
  it ← resolve_in_subtree auth item_id
  parent ← resolve_in_subtree auth new_parent_id
  guard (is_folder parent.item_type) bad_operation
  Drive.move now auth.root.owner_id it.id (some parent.id)
  reload it.id

unfoldable pub trash : Time → Option Claims → Uuid → Exec (Unit {0})
trash now credential item_id = do
  auth ← authorize now credential
  assert_can_edit auth
  it ← resolve_in_subtree auth item_id
  refuse (it.id == auth.root.id) bad_operation
  trash_item now auth.root.owner_id it.id
  pure tt

unfoldable pub upload :
    (List ℕ → ℕ)
    → Uuid
    → Uuid
    → Uuid
    → Time
    → Option Claims
    → Uuid
    → Text
    → List ℕ
    → ℕ
    → Option Text
    → Exec DriveItem
upload sha item_id blob_id version_id now credential parent_id filename content size mime = do
  auth ← authorize now credential
  assert_can_edit auth
  parent ← resolve_in_subtree auth parent_id
  guard (is_folder parent.item_type) bad_operation
  created ←
      upload_simple sha item_id blob_id version_id now auth.root.owner_id (some parent.id) filename
        content size mime
  reload created.id
