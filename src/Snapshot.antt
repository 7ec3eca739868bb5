-- ===== src/Snapshot.antt =====
-- SnapshotService of backend/app/snapshot/service.py: capture, retention, schedule and collection.
-- Restoring is in the child `Restore`.
mod Rows
mod Garbage
pub mod Collect
pub mod Period
pub mod Retain
pub mod Capture
pub mod Restore
pub mod Lost
unfoldable pub use Rows.{
  owner_items, all_items, of_user, entries_of, delete_snapshot, find_settings, upsert_settings,
  user_quota, sized_entries, used_loop, used_snapshot_bytes, drive_keys, version_keys, entry_keys,
  has_key, referenced_storage_keys,
}
pub use Garbage.{GcOutcome}
unfoldable pub use Garbage.{sweep, collect_garbage}
use cloud_drive.Prelude.{
  ℕ, zero, suc, ◌+◌, ◌-◌, ◌*◌, ◌/◌, ◌%◌, max, Text, text_eq, option_eq, Bool, true, false, not,
  ◌&&◌, ◌||◌, Option, none, some, List, [], ◌∷◌, ◌++◌, map, keep, any, mem, length, ltb, leb, ◌==◌,
  if◌then◌else◌,
}
use mathlib.Core.List.{reverse}
use cloud_drive.Model.{
  Uuid, Time, ItemType, is_folder, StorageKey, DriveItem, Trigger, Snapshot, SnapshotEntry,
  SnapshotSettings, Blob, Db,
}
use cloud_drive.Exec.{Result, ok, err, Exec, pure, gets, modify, when, ◌>>=◌, ◌>>◌}
use cloud_drive.Blobs.{list_objects, delete}

abbrev pub is_pre_restore : Trigger → Bool
is_pre_restore Trigger.pre_restore = true
is_pre_restore _ = false

-- The start of the period, `interval` minutes long and counted from midnight, that holds `now`.
-- Midnights (UTC) are the multiples of 86400 seconds.
unfoldable pub period_start : Time → ℕ → Time
period_start now interval_minutes =
    let interval = max 1 interval_minutes in
    let midnight = now - now % 86400 in
    let elapsed = (now - midnight) / 60 in midnight + elapsed / interval * interval * 60

-- `parent_id if parent_id in captured_ids else None`
unfoldable pub captured_parent : List Uuid → Option Uuid → Option Uuid
captured_parent captured none = none
captured_parent captured (some p) = if mem p captured then some p else none

unfoldable pub to_entry : Uuid → List Uuid → DriveItem → SnapshotEntry
unfolding captured_parent
to_entry snapshot_id captured it = record {
  snapshot_id = snapshot_id;
  item_id = it.id;
  parent_item_id = captured_parent captured it.parent_id;
  name = it.name;
  item_type = it.item_type;
  storage_key = if is_folder it.item_type then none else it.storage_key;
  checksum_sha256 = if is_folder it.item_type then none else it.checksum_sha256;
  size_bytes = if is_folder it.item_type then 0 else it.size_bytes;
}

unfoldable pub capture : Uuid → List DriveItem → List SnapshotEntry
capture snapshot_id items = map (to_entry snapshot_id (map (λ it. it.id) items)) items

unfoldable pub total_bytes : List DriveItem → ℕ
total_bytes [] = 0
total_bytes (it ∷ items) = (if is_folder it.item_type then 0 else it.size_bytes) + total_bytes items

unfoldable pub default_settings : Uuid → SnapshotSettings
default_settings user = record {
  user_id = user;
  retention_n = 50;
  schedule_enabled = true;
  schedule_interval_minutes = 60;
  quota_bytes = none;
}

unfoldable pub get_settings : Uuid → Db → SnapshotSettings
unfolding default_settings
get_settings user db = elim (find_settings user db.settings) [
  | none ↦ default_settings user
  | some s ↦ s
]

unfoldable pub resolve_quota_bytes : SnapshotSettings → Db → ℕ
resolve_quota_bytes s db = elim s.quota_bytes [ some q ↦ q | none ↦ user_quota s.user_id db / 2 ]

-- `_exempt`
abbrev pub is_exempt : Snapshot → Bool
is_exempt s = s.pinned || is_pre_restore s.trigger

-- The first pass, over the snapshots from the newest on: the survivors, and how many went.
unfoldable pub prune_old : ℕ → ℕ → List Snapshot → Exec (List Snapshot × ℕ)
prune_old i retention [] = pure ([], 0)
prune_old i retention (s ∷ snaps) =
    if ltb i retention || is_exempt s
    then (do (kept, n) ← prune_old (i + 1) retention snaps; pure (s ∷ kept, n))
    else (do
      delete_snapshot s.id
      (kept, n) ← prune_old (i + 1) retention snaps
      pure (kept, n + 1))

-- The second pass, over the survivors from the oldest on, until the quota is met.
unfoldable pub prune_quota : Uuid → ℕ → Uuid → List Snapshot → Exec ℕ
prune_quota user quota newest [] = pure 0
prune_quota user quota newest (s ∷ snaps) =
    if s.id == newest || is_exempt s then prune_quota user quota newest snaps else do
      used ← gets (used_snapshot_bytes user)
      if leb used quota
          then pure 0
          else do delete_snapshot s.id; n ← prune_quota user quota newest snaps; pure (n + 1)

unfoldable pub prune_over_quota : Uuid → ℕ → List Snapshot → List Snapshot → Exec ℕ
prune_over_quota user quota [] survivors = pure 0
prune_over_quota user quota (newest ∷ snaps) survivors =
    if ltb 0 quota then prune_quota user quota newest.id (reverse survivors) else pure 0

unfoldable pub prune : Uuid → SnapshotSettings → Exec ℕ
prune user settings = do
  snaps ← gets (of_user user)
  (survivors, deleted) ← prune_old 0 settings.retention_n snaps
  quota ← gets (resolve_quota_bytes settings)
  over ← prune_over_quota user quota snaps survivors
  pure (deleted + over)

unfoldable pub new_snapshot : Uuid → Time → Uuid → Trigger → Text → Bool → List DriveItem → Snapshot
new_snapshot new_id now user trigger label pinned items = record {
  id = new_id;
  user_id = user;
  trigger = trigger;
  label = label;
  item_count = length items;
  total_bytes = total_bytes items;
  pinned = pinned || is_pre_restore trigger;
  created_at = now;
}

-- The table holds the newest snapshot first, which is the order of every listing.
unfoldable pub create : Uuid → Time → Uuid → Trigger → Text → Bool → Exec Snapshot
create new_id now user trigger label pinned = do
  items ← gets (owner_items user)
  let snap = new_snapshot new_id now user trigger label pinned items
  modify (λ db. record db {
    snapshots = snap ∷ db.snapshots;
    entries = db.entries ++ capture new_id items;
  })
  settings ← gets (get_settings user)
  prune user settings
  pure snap

unfoldable pub update_settings : Uuid → ℕ → Bool → ℕ → Option ℕ → Exec SnapshotSettings
update_settings user retention enabled interval quota = do
  let s : SnapshotSettings = record {
    user_id = user;
    retention_n = max 1 retention;
    schedule_enabled = enabled;
    schedule_interval_minutes = max 1 interval;
    quota_bytes = quota;
  }
  upsert_settings s
  prune user s
  pure s

-- Equality of the two signatures: the sets of id, folder, name, type and checksum.
abbrev same_type : ItemType → ItemType → Bool
same_type ItemType.file ItemType.file = true
same_type ItemType.folder ItemType.folder = true
same_type _ _ = false

unfoldable pub same_signature : DriveItem → SnapshotEntry → Bool
same_signature it e =
    it.id == e.item_id
    && (option_eq it.parent_id e.parent_item_id
        && (text_eq it.name e.name
            && (same_type it.item_type e.item_type
                && option_eq it.checksum_sha256 e.checksum_sha256)))

unfoldable pub all : {A : Type 0} → (A → Bool) → List A → Bool
all test [] = true
all test (x ∷ xs) = test x && all test xs

unfoldable pub unchanged : List DriveItem → List SnapshotEntry → Bool
unchanged items entries =
    all (λ it. any (same_signature it) entries) items
    && all (λ e. any (λ it. same_signature it e) items) entries

-- Whether a scheduled snapshot is due.
unfoldable pub is_due : Time → Uuid → Db → Bool
is_due now user db =
    let settings = get_settings user db in
    let items = owner_items user db in
    settings.schedule_enabled
    && (not (elim items [ [] ↦ true | _ ↦ false ]) && elim (of_user user db) [
      | [] ↦ true
      | last ∷ _ ↦
          ltb last.created_at (period_start now settings.schedule_interval_minutes)
          && not (unchanged items (entries_of last.id db))
    ])

unfoldable pub create_if : Bool → Uuid → Time → Text → Uuid → Exec (Option Snapshot)
create_if false new_id now label user = pure none
create_if true new_id now label user = do
  snap ← create new_id now user Trigger.scheduled label false
  pure (some snap)

unfoldable pub run_scheduled_snapshot : Uuid → Time → Text → Uuid → Exec (Option Snapshot)
unfolding create_if
run_scheduled_snapshot new_id now label user = do
  due ← gets (is_due now user)
  create_if due new_id now label user
