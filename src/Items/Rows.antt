-- ===== src/Items/Rows.antt =====
-- What a lookup by id finds after a change of the table.
use cloud_drive.Prelude.{
  ◌≡◌, refl, ◌==◌, if◌then◌else◌, Option, none, some, List, [], ◌∷◌, ◌++◌, arith,
}
use cloud_drive.Model.{Uuid, DriveItem}
use cloud_drive.Items.{find, update_row}

abbrev pub map_row : (DriveItem → DriveItem) → Option DriveItem → Option DriveItem
map_row f none = none
map_row f (some it) = some (f it)

pub find-update_row :
    (f : DriveItem → DriveItem) (i j : Uuid) (items : List DriveItem)
    → ((it : DriveItem) → (f it).id ≡ it.id)
    → find (update_row i f items) j ≡ (if i == j then map_row f (find items j) else find items j)
unfolding find update_row
find-update_row f i j [] same = ground arith
find-update_row f i j (it ∷ items) same = ground (arith, same it, find-update_row f i j items same)

pub find-append :
    (items : List DriveItem) (it : DriveItem) (j : Uuid)
    → find items it.id ≡ none
    → find (items ++ it ∷ []) j ≡ (if it.id == j then some it else find items j)
unfolding find
find-append [] it j new = refl
find-append (x ∷ items) it j new = ground (arith, find-append items it j)

pub find-id :
    (items : List DriveItem) (i : Uuid) (it : DriveItem) → find items i ≡ some it → it.id ≡ i
unfolding find
find-id [] i it h = ground arith
find-id (x ∷ items) i it h = ground (arith, find-id items i it)
