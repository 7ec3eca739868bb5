-- ===== src/Items/Written.antt =====
-- A write of one row of items.
use cloud_drive.Prelude.{◌≡◌, ◌≢◌, ◌⊎◌, none, some, List, [], ◌∷◌, ◌++◌, arith, ==_refl}
use cloud_drive.Model.{Uuid, DriveItem, Db}
use cloud_drive.Exec.{Result}
use cloud_drive.Items.{find, update_row}
use cloud_drive.Items.Rows.{find-append, find-update_row}

-- Every other row is as it was, and the row has a property.
abbrev pub IsWritten : List DriveItem → Uuid → (DriveItem → Type 0) → List DriveItem → Type 0
IsWritten items i P after =
    ((j : Uuid) → i ≢ j → find after j ≡ find items j)
    × (it : DriveItem) × (find after i ≡ some it)
    × P it

-- No row changed, or that one did.
abbrev pub Wrote : {A : Type 0} → Db → Uuid → (DriveItem → Type 0) → Result A × Db → Type 0
Wrote db i P r = (r.1.items ≡ db.items) ⊎ IsWritten db.items i P r.1.items

pub append-IsWritten :
    (P : DriveItem → Type 0) (items : List DriveItem) (it : DriveItem)
    → find items it.id ≡ none
    → P it
    → IsWritten items it.id P (items ++ it ∷ [])
append-IsWritten P items it new h = (
  λ j ne. ground (arith, find-append items it j new),
  it,
  ground (arith, find-append items it it.id new, ==_refl it.id),
  h,
)

pub update_row-IsWritten :
    (P : DriveItem → Type 0) (items : List DriveItem) (i : Uuid) (f : DriveItem → DriveItem)
    (it : DriveItem)
    → ((x : DriveItem) → (f x).id ≡ x.id)
    → find items i ≡ some it
    → P (f it)
    → IsWritten items i P (update_row i f items)
update_row-IsWritten P items i f it same found h = (
  λ j ne. ground (arith, find-update_row f i j items same),
  f it,
  ground (arith, find-update_row f i i items same, ==_refl i),
  h,
)
