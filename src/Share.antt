-- ===== src/Share.antt =====
-- ShareService of backend/app/share/service.py over SQLShareManagementRepository: shares with other
-- users. Listing pages for display are left out.
pub mod Laws
pub mod Removal
use cloud_drive.Prelude.{
  ℕ, Text, text_eq, Bool, true, false, not, ◌&&◌, ◌||◌, Option, none, some, List, [], ◌∷◌, ◌++◌,
  map, keep, any, mem, ltb, ◌==◌, if◌then◌else◌,
}
use cloud_drive.Model.{
  Uuid, Time, DriveItem, Permission, Share, ShareLink, User, Action, Db, not_found_error,
  forbidden_error, bad_operation, no_result,
}
use cloud_drive.Exec.{
  Result, ok, err, Exec, pure, query, gets, required, guard, refuse, modify, ◌>>=◌, ◌>>◌,
}
use cloud_drive.Items.{get_by_id}
use cloud_drive.Permission.{get_by_item_and_user}
use cloud_drive.Prefs.{log}

-- E-mail addresses are unique.
unfoldable pub get_by_email : Text → List User → Option User
get_by_email email [] = none
get_by_email email (u ∷ users) = if text_eq u.email email then some u else get_by_email email users

unfoldable pub assert_owner : Uuid → Uuid → Exec (Unit {0})
assert_owner user item_id = do
  found ← gets (λ db. get_by_id db item_id)
  it ← required not_found_error found
  guard (it.owner_id == user) forbidden_error

unfoldable pub set_permission : Uuid → Permission → Time → List Share → List Share
set_permission i perm now [] = []
set_permission i perm now (s ∷ shares) =
    (if s.id == i then record s { permission = perm; updated_at = now } else s)
    ∷ set_permission i perm now shares

-- The share that is there gets the new permission; otherwise a new row is made.
unfoldable pub put_share : Uuid → Time → Uuid → Uuid → Uuid → Permission → Option Share → Exec Share
unfolding set_permission
put_share new_id now owner item_id target perm none db =
    let s : Share = record {
      id = new_id;
      item_id = item_id;
      owner_id = owner;
      target_user_id = target;
      permission = perm;
      created_at = now;
      updated_at = now;
    } in
    (ok s, record db { shares = db.shares ++ s ∷ [] })
put_share new_id now owner item_id target perm (some s) db = (
  ok (record s { permission = perm; updated_at = now }),
  record db { shares = set_permission s.id perm now db.shares },
)

unfoldable pub share_item : Uuid → Time → Uuid → Uuid → Text → Permission → Exec Share
share_item new_id now actor item_id email perm = do
  assert_owner actor item_id
  found ← gets (λ db. get_by_email email db.users)
  target ← required not_found_error found
  refuse (target.id == actor) bad_operation
  existing ← query (get_by_item_and_user item_id target.id)
  s ← put_share new_id now actor item_id target.id perm existing
  log actor Action.share (some item_id)
  pure s

unfoldable pub delete_share : Uuid → Exec (Unit {0})
delete_share i = modify (λ db. record db { shares = keep (λ s. not (s.id == i)) db.shares })

unfoldable pub remove_share : Uuid → Uuid → Uuid → Exec (Unit {0})
remove_share actor item_id target = do
  assert_owner actor item_id
  found ← query (get_by_item_and_user item_id target)
  s ← required not_found_error found
  delete_share s.id
  log actor Action.unshare (some item_id)

-- `_link_live`
unfoldable pub link_live : ShareLink → Time → Bool
link_live l now = l.is_active && elim l.expires_at [ none ↦ true | some t ↦ ltb now t ]

-- The badges of one item: shared by this owner with users, and with a live public link.
unfoldable pub share_badges : Uuid → Time → Uuid → Db → Bool × Bool
unfolding link_live
share_badges owner now item_id db = (
  any (λ s. s.owner_id == owner && s.item_id == item_id) db.shares,
  any (λ l. l.created_by == owner && (l.item_id == item_id && link_live l now)) db.links,
)
