-- ===== src/Link/Manage.antt =====
-- Links as their owner manages them: ShareLinkService of backend/app/share/service.py over
-- SQLShareLinkRepository, and what the requests of guests read of a link.
use cloud_drive.Prelude.{
  ℕ, Bool, true, false, not, ◌&&◌, Option, none, some, List, [], ◌∷◌, ◌++◌, keep, ltb, ◌==◌,
  if◌then◌else◌, is_some,
}
use cloud_drive.Model.{
  Uuid, Time, LinkPermission, ShareLink, Error, app_error, ErrorCode, not_found_error,
  forbidden_error, bad_operation, invalid_operation_error,
}
use cloud_drive.Exec.{Exec, pure, gets, required, guard, refuse, modify, ◌>>=◌, ◌>>◌}
use cloud_drive.Items.{get_by_id}

abbrev pub link_invalid : Error
link_invalid = app_error ErrorCode.share_link_invalid 404

abbrev pub password_required : Error
password_required = app_error ErrorCode.share_link_password_required 401

unfoldable pub find_link : List ShareLink → Uuid → Option ShareLink
find_link [] i = none
find_link (l ∷ links) i = if l.id == i then some l else find_link links i

-- The hash of a token is unique.
unfoldable pub find_token : List ShareLink → ℕ → Option ShareLink
find_token [] h = none
find_token (l ∷ links) h = if l.token_hash == h then some l else find_token links h

unfoldable pub update_link : Uuid → (ShareLink → ShareLink) → List ShareLink → List ShareLink
update_link i f [] = []
update_link i f (l ∷ links) = (if l.id == i then f l else l) ∷ update_link i f links

-- `expires_at is not None and expires_at < now`
abbrev pub is_expired : Option Time → Time → Bool
is_expired none now = false
is_expired (some t) now = ltb t now

abbrev pub is_editor : LinkPermission → Bool
is_editor LinkPermission.editor = true
is_editor _ = false

abbrev pub is_viewer : LinkPermission → Bool
is_viewer LinkPermission.viewer = true
is_viewer _ = false

-- An owner's link; an editor link must have an expiry date.
unfoldable pub create_link :
    Uuid → Time → Uuid → Uuid → LinkPermission → ℕ → Option ℕ → Option Time → Exec ShareLink
create_link new_id now actor item_id perm token_hash password_hash expires_at = do
  found ← gets (λ db. get_by_id db item_id)
  it ← required not_found_error found
  guard (it.owner_id == actor) forbidden_error
  refuse (is_editor perm && not (is_some expires_at)) invalid_operation_error
  let l : ShareLink = record {
    id = new_id;
    item_id = item_id;
    token_hash = token_hash;
    permission = perm;
    password_hash = password_hash;
    expires_at = expires_at;
    is_active = true;
    created_by = actor;
    created_at = now;
    attempt_window_start = none;
    attempt_count = 0;
    locked_until = none;
  }
  modify (λ db. record db { links = db.links ++ l ∷ [] })
  pure l

-- `password is None or not verify_password(password, hash)` of a link that has one
abbrev pub wrong_password : (ℕ → ℕ → Bool) → Option ℕ → Option ℕ → Bool
wrong_password verify none password = false
wrong_password verify (some h) none = true
wrong_password verify (some h) (some p) = not (verify p h)

unfoldable pub validate_access : (ℕ → ℕ → Bool) → Time → ℕ → Option ℕ → Exec ShareLink
validate_access verify now token_hash password = do
  found ← gets (λ db. find_token db.links token_hash)
  l ← required not_found_error found
  guard l.is_active bad_operation
  refuse (is_expired l.expires_at now) bad_operation
  refuse (wrong_password verify l.password_hash password) forbidden_error
  pure l

-- Only the owner of the linked item manages the link.
unfoldable pub owned_link : Uuid → Uuid → Exec ShareLink
owned_link actor link_id = do
  found ← gets (λ db. find_link db.links link_id)
  l ← required not_found_error found
  item ← gets (λ db. get_by_id db l.item_id)
  it ← required forbidden_error item
  guard (it.owner_id == actor) forbidden_error
  pure l

unfoldable pub delete_link_record : Uuid → Uuid → Exec (Unit {0})
delete_link_record actor link_id = do
  owned_link actor link_id
  modify (λ db. record db { links = keep (λ l. not (l.id == link_id)) db.links })

unfoldable pub deactivate_link : Uuid → Uuid → Exec (Unit {0})
deactivate_link actor link_id = do
  owned_link actor link_id
  modify (λ db. record db {
    links = update_link link_id (λ l. record l { is_active = false }) db.links;
  })
