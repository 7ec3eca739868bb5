-- ===== src/Tests/Trees.antt =====
-- The theorems on the tree, at the small drive.
use cloud_drive.Prelude.{none, ◌≡◌, refl, ◌⊎◌, false, some, true, [], ◌∷◌, keep, Option}
use cloud_drive.Model.{Permission, User, Error}
use cloud_drive.Model.{Db}
use cloud_drive.Trash.{trash_item, restore}
use cloud_drive.Upload.{upload_simple}
use cloud_drive.Trash.Back.{IsBack, restore-IsBack}
use cloud_drive.History.{Reaches, start, next, uploads, trashes, restores, Reaches-IsTree}
use cloud_drive.Share.{get_by_email, share_item, remove_share}
use cloud_drive.Share.Removal.{remove_share-none}
use cloud_drive.Share.Laws.{IsShared, share_item-IsShared}
use cloud_drive.Permission.Best.{IsShareUnique}
use cloud_drive.Exec.{ok, err, IsRefused, one_or_none}
use cloud_drive.Items.{find}
use cloud_drive.Tree.{Avoids}
use cloud_drive.Tree.Shape.{IsTree}
use cloud_drive.Permission.{
  get_permission, assert_at_least, permission_loop, get_by_item_and_user, share_rows, has_at_least,
  better,
}
use cloud_drive.Permission.Best.{IsBest, Above, self, over, get_permission-IsBest}
use cloud_drive.Permission.Inherit.{assert_at_least-Above}
use cloud_drive.Drive.{create_folder, move, is_descendant_or_self}
use cloud_drive.Drive.Cycles.{descendant-Answer}
use cloud_drive.Drive.Shape.{move-IsTree, create_folder-IsTree}
use cloud_drive.Tests.{summer, beach, drive_db, drive-IsTree, drive-IsShareUnique}

-- The folder 1 may not go into the folder 2, which lies in it.
move-IsTree_example : IsTree (move 200 7 1 (some 2) drive_db).1.items
move-IsTree_example = move-IsTree 200 7 1 (some 2) drive_db drive-IsTree

create_folder-IsTree_example : IsTree (create_folder 9 200 7 (some 2) (97 ∷ []) drive_db).1.items
create_folder-IsTree_example =
    create_folder-IsTree 9 200 7 (some 2) (97 ∷ []) drive_db (unfold find in refl) drive-IsTree

descendant-Answer_example :
    (is_descendant_or_self 4 3 drive_db ≡ ok true)
    ⊎ ((is_descendant_or_self 4 3 drive_db ≡ ok false) × Avoids drive_db.items 4 (some 3))
descendant-Answer_example = descendant-Answer drive_db 4 drive-IsTree.forest 3

get_permission-IsBest_example :
    (r : Option Permission) × (get_permission 8 beach drive_db ≡ ok r) × IsBest drive_db 8 beach r
get_permission-IsBest_example =
    get_permission-IsBest drive_db 8 beach drive-IsTree.forest drive-IsShareUnique
      (unfold find in refl)

beach-Above : Above drive_db.items summer beach
unfolding find
beach-Above = over 2 refl refl self

summer_allowed : assert_at_least Permission.downloader 8 summer drive_db ≡ ok tt
unfolding assert_at_least get_permission permission_loop get_by_item_and_user one_or_none share_rows
    keep find has_at_least better
summer_allowed = refl

assert_at_least-Above_example : assert_at_least Permission.downloader 8 beach drive_db ≡ ok tt
assert_at_least-Above_example =
    assert_at_least-Above drive_db 8 Permission.downloader summer beach drive-IsTree.forest
      drive-IsShareUnique (unfold find in refl) (unfold find in refl) beach-Above summer_allowed

-- A file goes into the folder 2, which is trashed, and then restored.
abbrev with_upload : Db
with_upload =
    (upload_simple (λ bytes. 0) 9 90 91 200 7 (some 2) (98 ∷ []) (5 ∷ 6 ∷ []) 2 none drive_db).1

abbrev uploaded_restored : Db
uploaded_restored = (restore 300 7 2 (trash_item 250 7 2 with_upload).1).1

restore-IsBack_example :
    let trashed = (trash_item 250 7 2 drive_db).1 in
    let r = restore 300 7 2 trashed in ((e : Error) × (r.0 ≡ err e)) ⊎ IsBack 7 2 trashed r
restore-IsBack_example = restore-IsBack 300 7 2 (trash_item 250 7 2 drive_db).1

restores_run : Reaches drive_db uploaded_restored
restores_run =
    next
      (next
        (next start (
          uploads (λ bytes. 0) 9 90 91 200 7 (some 2) (98 ∷ []) (5 ∷ 6 ∷ []) 2 none
            (unfold find in refl)))
        (trashes 250 7 2))
      (restores 300 7 2)

Reaches-IsTree_example : IsTree uploaded_restored.items
Reaches-IsTree_example = Reaches-IsTree drive_db uploaded_restored restores_run drive-IsTree

share_item-IsShared_example :
    let r = share_item 51 200 7 2 (8 ∷ []) Permission.editor drive_db in
    IsShareUnique r.1
    × (IsRefused drive_db r
        ⊎ ((target : User) × (get_by_email (8 ∷ []) drive_db.users ≡ some target)
            × IsShared 2 target.id Permission.editor r))
share_item-IsShared_example =
    share_item-IsShared 51 200 7 2 (8 ∷ []) Permission.editor drive_db drive-IsShareUnique

remove_share-none_example :
    let r = remove_share 7 2 8 drive_db in
    IsRefused drive_db r ⊎ ((r.0 ≡ ok tt) × (get_by_item_and_user 2 8 r.1 ≡ ok none))
remove_share-none_example = remove_share-none 7 2 8 drive_db
