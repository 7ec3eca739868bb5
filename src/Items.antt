-- ===== src/Items.antt =====
-- SQLDriveItemRepository of backend/app/drive/repository.py: the table of drive items.
-- `uuid4()` and the clock are the arguments `new_id` and `now`.
pub mod Rows
pub mod Flush
pub mod Written
use cloud_drive.Prelude.{
  ℕ, Text, text_eq, ltb, length, any, ◌||◌, option_eq, ◌==◌, if◌then◌else◌, Bool, true, false, not,
  ◌&&◌, Option, none, some, List, [], ◌∷◌, ◌++◌, keep, is_some,
}
use cloud_drive.Model.{
  Uuid, Time, Error, assertion_failed, data_error, unique_violation, ItemType, DriveItem, Db,
}
use cloud_drive.Exec.{
  Result, ok, err, Exec, pure, raise, query, gets, required, modify, raise_if, one_or_none,
  bind_result, ◌>>=◌, ◌>>◌,
}

-- The id is the primary key, so there is one row at most.
unfoldable pub find : List DriveItem → Uuid → Option DriveItem
find [] i = none
find (it ∷ items) i = if it.id == i then some it else find items i

abbrev pub get_by_id : Db → Uuid → Option DriveItem
get_by_id db i = find db.items i

-- `UPDATE drive_items SET ... WHERE id = i`
unfoldable pub update_row : Uuid → (DriveItem → DriveItem) → List DriveItem → List DriveItem
update_row i f [] = []
update_row i f (it ∷ items) = (if it.id == i then f it else it) ∷ update_row i f items

unfoldable pub new_item : Uuid → Time → Uuid → Option Uuid → ItemType → Text → Uuid → DriveItem
new_item new_id now owner parent item_type name created_by = record {
  id = new_id;
  owner_id = owner;
  parent_id = parent;
  item_type = item_type;
  name = name;
  mime_type = none;
  extension = none;
  size_bytes = 0;
  storage_key = none;
  checksum_sha256 = none;
  is_starred = false;
  is_deleted = false;
  deleted_at = none;
  created_by = created_by;
  updated_by = none;
  created_at = now;
  updated_at = now;
}

-- The columns hold 512 characters of a name and 50 of an extension.
abbrev is_too_long : DriveItem → Bool
is_too_long it =
    ltb 512 (length it.name) || elim it.extension [ none ↦ false | some ext ↦ ltb 50 (length ext) ]

-- The unique index on owner, folder and lower(name) of the live rows; at the root, where the folder is
-- NULL, it holds nothing apart.
unfoldable pub clashes : (Text → Text) → DriveItem → DriveItem → Bool
clashes lower it x =
    not (x.id == it.id)
    && (not x.is_deleted
        && (x.owner_id == it.owner_id
            && (is_some it.parent_id
                && (option_eq x.parent_id it.parent_id && text_eq (lower x.name) (lower it.name)))))

-- What the flush of a row raises.
unfoldable pub row_error : DriveItem → Db → Option Error
row_error it db =
    if is_too_long it
    then some data_error
    else if not it.is_deleted && any (clashes db.lower it) db.items
    then some unique_violation
    else none

unfoldable pub create : Uuid → Time → Uuid → Option Uuid → ItemType → Text → Uuid → Exec DriveItem
create new_id now owner parent item_type name created_by db =
    let it = new_item new_id now owner parent item_type name created_by in
    (do
      raise_if (row_error it db)
      modify (λ db. record db { items = db.items ++ it ∷ [] })
      pure it)
      db

abbrev pub with_name : Text → Uuid → Time → DriveItem → DriveItem
with_name name by now it = record it { name = name; updated_by = some by; updated_at = now }

abbrev pub with_parent : Option Uuid → Uuid → Time → DriveItem → DriveItem
with_parent parent by now it = record it {
  parent_id = parent;
  updated_by = some by;
  updated_at = now;
}

-- Read a row, assert that it is there, change it in place.
unfoldable pub update_item : Uuid → (DriveItem → DriveItem) → Exec DriveItem
update_item i f = do
  found ← gets (λ db. get_by_id db i)
  it ← required assertion_failed found
  refused ← gets (row_error (f it))
  raise_if refused
  modify (λ db. record db { items = update_row i f db.items })
  pure (f it)

unfoldable pub update_name : Time → Uuid → Text → Uuid → Exec DriveItem
update_name now i name by = update_item i (with_name name by now)

unfoldable pub update_parent : Time → Uuid → Option Uuid → Uuid → Exec DriveItem
update_parent now i parent by = update_item i (with_parent parent by now)

-- A live row of this owner, in this folder, with this name.
abbrev pub is_at : Text → Option Uuid → Uuid → DriveItem → Bool
is_at name parent owner it =
    it.owner_id == owner
    && (not it.is_deleted && (text_eq it.name name && option_eq it.parent_id parent))

abbrev pub is_not : Option Uuid → DriveItem → Bool
is_not none it = true
is_not (some i) it = not (it.id == i)

unfoldable pub name_rows : Text → Option Uuid → Uuid → Option Uuid → List DriveItem → List DriveItem
name_rows name parent owner exclude = keep (λ it. is_at name parent owner it && is_not exclude it)

-- More than one such row makes the query raise.
unfoldable pub name_exists_in_parent : Text → Option Uuid → Uuid → Option Uuid → Db → Result Bool
name_exists_in_parent name parent owner exclude db =
    bind_result (one_or_none (name_rows name parent owner exclude db.items)) (λ o. ok (is_some o))
