-- ===== src/Snapshot/Rows.antt =====
-- SQLSnapshotRepository of backend/app/snapshot/repository.py.
use cloud_drive.Prelude.{
  ℕ, ◌+◌, max, Bool, not, ◌&&◌, Option, none, some, List, [], ◌∷◌, ◌++◌, map, keep, any, mem, ◌==◌,
  if◌then◌else◌,
}
use cloud_drive.Model.{
  Uuid, StorageKey, DriveItem, FileVersion, Snapshot, SnapshotEntry, SnapshotSettings, Db,
}
use cloud_drive.Exec.{Exec, modify}
use cloud_drive.Blobs.{key_eq}
use cloud_drive.Quota.{find_user}

unfoldable pub owner_items : Uuid → Db → List DriveItem
owner_items user db = keep (λ it. it.owner_id == user && not it.is_deleted) db.items

unfoldable pub all_items : Uuid → Db → List DriveItem
all_items user db = keep (λ it. it.owner_id == user) db.items

unfoldable pub of_user : Uuid → Db → List Snapshot
of_user user db = keep (λ s. s.user_id == user) db.snapshots

unfoldable pub entries_of : Uuid → Db → List SnapshotEntry
entries_of i db = keep (λ e. e.snapshot_id == i) db.entries

-- The entries go with the snapshot.
unfoldable pub delete_snapshot : Uuid → Exec (Unit {0})
delete_snapshot i = modify (λ db. record db {
  snapshots = keep (λ s. not (s.id == i)) db.snapshots;
  entries = keep (λ e. not (e.snapshot_id == i)) db.entries;
})

unfoldable pub find_settings : Uuid → List SnapshotSettings → Option SnapshotSettings
find_settings user [] = none
find_settings user (s ∷ rows) = if s.user_id == user then some s else find_settings user rows

unfoldable pub put_settings : SnapshotSettings → List SnapshotSettings → List SnapshotSettings
put_settings s [] = s ∷ []
put_settings s (r ∷ rows) =
    let rest = put_settings s rows in if r.user_id == s.user_id then s ∷ rows else r ∷ rest

unfoldable pub upsert_settings : SnapshotSettings → Exec (Unit {0})
unfolding put_settings
upsert_settings s = modify (λ db. record db { settings = put_settings s db.settings })

unfoldable pub user_quota : Uuid → Db → ℕ
user_quota user db = elim (find_user db.users user) [ none ↦ 0 | some u ↦ u.quota_bytes ]

-- Checksum and size of every entry of the user's snapshots that has a checksum.
unfoldable pub sized_entries : List Uuid → List SnapshotEntry → List (ℕ × ℕ)
sized_entries ids [] = []
sized_entries ids (e ∷ entries) =
    let rest = sized_entries ids entries in
    elim e.checksum_sha256 [
      | none ↦ rest
      | some c ↦ if mem e.snapshot_id ids then (c, e.size_bytes) ∷ rest else rest
    ]

unfoldable pub max_size : ℕ → List (ℕ × ℕ) → ℕ
max_size c [] = 0
max_size c ((d, n) ∷ rows) = max (if d == c then n else 0) (max_size c rows)

-- One row for each checksum: the last one counts, with the greatest size.
unfoldable pub used_loop : List (ℕ × ℕ) → List (ℕ × ℕ) → ℕ
unfolding max_size
used_loop rows [] = 0
used_loop rows ((c, n) ∷ rest) =
    (if any (λ r. r.0 == c) rest then 0 else max_size c rows) + used_loop rows rest

unfoldable pub used_snapshot_bytes : Uuid → Db → ℕ
used_snapshot_bytes user db =
    let rows = sized_entries (map (λ s. s.id) (of_user user db)) db.entries in used_loop rows rows

unfoldable pub drive_keys : List DriveItem → List StorageKey
drive_keys [] = []
drive_keys (it ∷ items) = elim it.storage_key [
  | none ↦ drive_keys items
  | some k ↦ k ∷ drive_keys items
]

unfoldable pub version_keys : List FileVersion → List StorageKey
version_keys = map (λ v. v.storage_key)

unfoldable pub entry_keys : List SnapshotEntry → List StorageKey
entry_keys [] = []
entry_keys (e ∷ entries) = elim e.storage_key [
  | none ↦ entry_keys entries
  | some k ↦ k ∷ entry_keys entries
]

-- The keys of items, versions and snapshot entries.
unfoldable pub referenced_storage_keys : Db → List StorageKey
unfolding drive_keys version_keys entry_keys
referenced_storage_keys db =
    drive_keys db.items ++ (version_keys db.versions ++ entry_keys db.entries)

unfoldable pub has_key : StorageKey → List StorageKey → Bool
has_key k = any (key_eq k)
