-- ===== src/Tests.antt =====
-- A small drive that the examples run on: the owner 7 has the folders 1 and 4, the folder 2 lies in
-- 1 and the file 3 in 2; the user 8 may download what lies in the folder 2.
mod Trees
mod Names
mod Links
mod Snapshots
mod Uploads
mod Assistant
mod Downloads
mod Accounts
use cloud_drive.Prelude.{
  ℕ, ◌+◌, ◌≤◌, ◌≡◌, refl, ◌⊎◌, inl, inr, true, false, Option, none, some, List, [], ◌∷◌, ◌++◌,
  arith, length, length-keep, Text,
}
use cloud_drive.Model.{Uuid, Time, ItemType, is_folder, DriveItem, Permission, Share, User, Db}
use cloud_drive.Items.{find}
use cloud_drive.Permission.{share_rows}
use cloud_drive.Permission.Best.{IsShareUnique}
use cloud_drive.Tree.{Walk, root, up, IsForest, parent_of}
use cloud_drive.Tree.Shape.{IsTree, IsTree-append}

abbrev pub row : Uuid → Option Uuid → ItemType → Text → DriveItem
row i parent type name = record {
  id = i;
  owner_id = 7;
  parent_id = parent;
  item_type = type;
  name = name;
  mime_type = none;
  extension = none;
  size_bytes = 10;
  storage_key = none;
  checksum_sha256 = none;
  is_starred = false;
  is_deleted = false;
  deleted_at = none;
  created_by = 7;
  updated_by = none;
  created_at = 100;
  updated_at = 100;
}

abbrev pub photos : DriveItem
photos = row 1 none ItemType.folder (112 ∷ [])

abbrev pub summer : DriveItem
summer = row 2 (some 1) ItemType.folder (115 ∷ [])

abbrev pub beach : DriveItem
beach = row 3 (some 2) ItemType.file (98 ∷ 46 ∷ 106 ∷ [])

abbrev pub notes : DriveItem
notes = row 4 none ItemType.folder (110 ∷ [])

abbrev pub shared : Share
shared = record {
  id = 50;
  item_id = 2;
  owner_id = 7;
  target_user_id = 8;
  permission = Permission.downloader;
  created_at = 100;
  updated_at = 100;
}

-- An active account, whose e-mail is its number and whose password has the hash 0.
abbrev pub account : Uuid → ℕ → User
account i used = record {
  id = i;
  email = i ∷ [];
  username = [];
  password_hash = 0;
  quota_bytes = 1000;
  used_bytes = used;
  is_active = true;
  is_admin = false;
  must_change_password = false;
  created_at = 100;
  updated_at = 100;
}

abbrev pub drive_db : Db
drive_db = record {
  lower = λ name. name;
  items = photos ∷ summer ∷ beach ∷ notes ∷ [];
  prefs = [];
  shares = shared ∷ [];
  links = [];
  versions = [];
  users = account 7 100 ∷ account 8 0 ∷ [];
  tokens = [];
  sessions = [];
  chunks = [];
  snapshots = [];
  entries = [];
  settings = [];
  blobs = [];
  activity = [];
}

no_rows-IsTree : IsTree []
unfolding parent_of find
no_rows-IsTree = record {
  forest = λ i. up root;
  closed = λ i p it h e. absurd (ground arith);
  folders = λ i p it f h e g. absurd (ground arith);
}

pub drive-IsTree : IsTree drive_db.items
unfolding find
drive-IsTree =
    let one = IsTree-append [] photos refl (λ p e. absurd (ground arith)) no_rows-IsTree in
    let two = IsTree-append _ summer refl (λ p e. (photos, ground arith, refl)) one in
    let three = IsTree-append _ beach refl (λ p e. (summer, ground arith, refl)) two in
    IsTree-append _ notes refl (λ p e. absurd (ground arith)) three

pub drive-IsShareUnique : IsShareUnique drive_db
unfolding share_rows
drive-IsShareUnique item user = length-keep _ (shared ∷ [])
