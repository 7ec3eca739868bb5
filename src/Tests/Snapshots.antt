-- ===== src/Tests/Snapshots.antt =====
-- The theorems on snapshots and on the collection of garbage, at small data.
use cloud_drive.Prelude.{◌≡◌, ◌*◌, refl, inr, none, false, [], ◌∷◌, any, if◌then◌else◌, keep}
use cloud_drive.Model.{Trigger, Snapshot, Db, file_key}
use cloud_drive.Prelude.{some, true, mem}
use cloud_drive.Model.{ItemType}
use cloud_drive.Exec.{ok}
use cloud_drive.Snapshot.{
  create, entries_of, prune_old, new_snapshot, get_settings, find_settings, delete_snapshot,
  prune_over_quota, resolve_quota_bytes, user_quota, prune_quota, owner_items, total_bytes,
  to_entry, captured_parent,
}
use cloud_drive.Quota.{find_user}
use cloud_drive.Snapshot.Restore.{get_snapshot, restore, RestoreOutcome}
use cloud_drive.Snapshot.Lost.{is_live, restore-live}
use cloud_drive.Blobs.{find_blob}
use cloud_drive.Snapshot.{
  capture, prune, collect_garbage, of_user, default_settings, referenced_storage_keys,
}
use cloud_drive.Snapshot.Collect.{is_collected, find_blob-collect_garbage}
use cloud_drive.Snapshot.Capture.{IsCapture, capture-IsCapture}
use cloud_drive.Snapshot.Retain.{Pruned, prune-Pruned}
use cloud_drive.Tests.{drive_db, summer, beach}

abbrev taken : Snapshot
taken = record {
  id = 70;
  user_id = 7;
  trigger = Trigger.scheduled;
  label = [];
  item_count = 4;
  total_bytes = 10;
  pinned = false;
  created_at = 100;
}

abbrev snapshot_db : Db
snapshot_db = record drive_db {
  snapshots = taken ∷ record taken { id = 71 } ∷ [];
  blobs = record { key = file_key 7 90 1; bytes = 1 ∷ []; modified_at = 100 } ∷ [];
}

find_blob-collect_garbage_example :
    find_blob (file_key 7 90 1) (collect_garbage 60 9000 snapshot_db).1.blobs ≡ (
      if any
        (is_collected (referenced_storage_keys snapshot_db) 9000 (60 * 60) (file_key 7 90 1))
        snapshot_db.blobs
      then none
      else find_blob (file_key 7 90 1) snapshot_db.blobs)
find_blob-collect_garbage_example = find_blob-collect_garbage 60 9000 (file_key 7 90 1) snapshot_db

-- The folder 1 is in the trash: its folder 2 is captured at the root.
capture-IsCapture_example : IsCapture (summer ∷ beach ∷ []) (capture 70 (summer ∷ beach ∷ []))
capture-IsCapture_example = capture-IsCapture 70 (summer ∷ beach ∷ [])

newest : of_user 7 snapshot_db ≡ taken ∷ record taken { id = 71 } ∷ []
unfolding of_user keep
newest = refl

prune-Pruned_example : Pruned 70 (prune 7 (default_settings 7) snapshot_db) snapshot_db
unfolding any default_settings
prune-Pruned_example =
    prune-Pruned 70 7 (default_settings 7) snapshot_db
      (inr (taken, record taken { id = 71 } ∷ [], newest, (refl, (refl, refl))))

-- One snapshot is kept: the safety snapshot pushes the target out.
abbrev full_db : Db
full_db = record drive_db {
  snapshots = taken ∷ [];
  entries =
      record {
        snapshot_id = 70;
        item_id = 1;
        parent_item_id = none;
        name = 112 ∷ [];
        item_type = ItemType.folder;
        storage_key = none;
        checksum_sha256 = none;
        size_bytes = 0;
      }
      ∷ [];
  settings =
      record {
        user_id = 7;
        retention_n = 1;
        schedule_enabled = true;
        schedule_interval_minutes = 60;
        quota_bytes = none;
      }
      ∷ [];
}

abbrev safety : Snapshot
safety = record {
  id = 72;
  user_id = 7;
  trigger = Trigger.pre_restore;
  label = [];
  item_count = 4;
  total_bytes = 10;
  pinned = true;
  created_at = 200;
}

abbrev pushed_out : Db
pushed_out = (create 72 200 7 Trigger.pre_restore [] false full_db).1

made : create 72 200 7 Trigger.pre_restore [] false full_db ≡ (ok safety, pushed_out)
unfolding create prune prune_old of_user keep new_snapshot get_settings find_settings
    delete_snapshot prune_over_quota resolve_quota_bytes user_quota find_user prune_quota
    owner_items total_bytes entries_of
made = refl

gone : entries_of 70 pushed_out ≡ []
unfolding create prune prune_old of_user keep new_snapshot get_settings find_settings
    delete_snapshot prune_over_quota resolve_quota_bytes user_quota find_user prune_quota
    owner_items total_bytes entries_of capture to_entry captured_parent mem
gone = refl

restore-live_example :
    let r = restore 72 200 [] 7 70 none true full_db in
    (out : RestoreOutcome) × (r.0 ≡ ok (some out))
    × ((out.restored ≡ 0) × (any (is_live 7) r.1.items ≡ false))
restore-live_example =
    restore-live 7 72 200 [] 70 taken safety pushed_out full_db (unfold get_snapshot in refl) made
      gone
