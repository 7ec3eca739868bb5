-- ===== src/Permission/Inherit.antt =====
-- Grants of a folder and of what lies below it.
use cloud_drive.Prelude.{◌≤◌, ◌≡◌, inl, inr, Option, some, arith}
use cloud_drive.Model.{Uuid, DriveItem, Permission, Db}
use cloud_drive.Exec.{ok}
use cloud_drive.Items.{find}
use cloud_drive.Tree.{IsForest}
use cloud_drive.Permission.{level, has_at_least, get_permission, assert_at_least}
use cloud_drive.Permission.Best.{
  level_of, Above, self, over, IsShareUnique, IsBest, get_permission-IsBest,
}
use cloud_drive.Items.{find}

Above-trans :
    {items : _} {a f it : DriveItem} → Above items f it → Above items a f → Above items a it
Above-trans self v = v
Above-trans (over p e found u) v = over p e found (Above-trans u v)

IsBest-mono :
    (db : Db) (user : Uuid) (f it : DriveItem) (r s : Option Permission)
    → Above db.items f it
    → IsBest db user f r
    → IsBest db user it s
    → level_of r ≤ level_of s
IsBest-mono db user f it r s u best_f best_it = elim best_f.attained [
  | inl e ↦ rw e (omega arith)
  | inr (a, v, e) ↦ omega (arith, best_it.upper a (Above-trans u v))
]

passes :
    (required : Permission) (user : Uuid) (it : DriveItem) (db : Db) (r : Option Permission)
    → get_permission user it db ≡ ok r
    → assert_at_least required user it db ≡ ok tt
    → level required ≤ level_of r
unfolding assert_at_least has_at_least
passes required user it db r e h = ground arith

let_pass :
    (required : Permission) (user : Uuid) (it : DriveItem) (db : Db) (r : Option Permission)
    → get_permission user it db ≡ ok r
    → level required ≤ level_of r
    → assert_at_least required user it db ≡ ok tt
unfolding assert_at_least has_at_least
let_pass required user it db r e h = ground arith

-- In a forest of items, with one share at most for an item and a user: who passes a check of
-- permission on a folder passes it on every item below that folder, at any depth.
pub assert_at_least-Above :
    (db : Db) (user : Uuid) (required : Permission) (f it : DriveItem)
    → IsForest db.items
    → IsShareUnique db
    → find db.items f.id ≡ some f
    → find db.items it.id ≡ some it
    → Above db.items f it
    → assert_at_least required user f db ≡ ok tt
    → assert_at_least required user it db ≡ ok tt
assert_at_least-Above db user required f it forest unique in_f in_it u h =
    let (r, e, best_f) = get_permission-IsBest db user f forest unique in_f in
    let (s, e', best_it) = get_permission-IsBest db user it forest unique in_it in
    let_pass required user it db s e' (
      omega (arith, passes required user f db r e h, IsBest-mono db user f it r s u best_f best_it))
