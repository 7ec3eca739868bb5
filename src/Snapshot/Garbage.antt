-- ===== src/Snapshot/Garbage.antt =====
-- `collect_garbage` of backend/app/snapshot/service.py.
use cloud_drive.Prelude.{ℕ, ◌+◌, ◌*◌, List, [], ◌∷◌, length, leb, if◌then◌else◌}
use cloud_drive.Model.{Time, StorageKey, Blob}
use cloud_drive.Exec.{Exec, pure, gets, ◌>>=◌, ◌>>◌}
use cloud_drive.Blobs.{list_objects, delete}
use cloud_drive.Snapshot.Rows.{has_key, referenced_storage_keys}

pub record GcOutcome : Type 0 where
  pub deleted : ℕ
  pub freed_bytes : ℕ
  pub skipped_recent : ℕ

-- One blob after the other; `cutoff` is `now - grace` where the clock is past the grace period.
unfoldable pub sweep : List StorageKey → Time → ℕ → List Blob → GcOutcome → Exec GcOutcome
sweep referenced now grace [] out = pure out
sweep referenced now grace (b ∷ blobs) out =
    if has_key b.key referenced
    then sweep referenced now grace blobs out
    else if leb now (b.modified_at + grace)
    then sweep referenced now grace blobs (record out { skipped_recent = out.skipped_recent + 1 })
    else do
      delete b.key
      sweep referenced now grace blobs
          (record out { deleted = out.deleted + 1; freed_bytes = out.freed_bytes + length b.bytes })

unfoldable pub collect_garbage : ℕ → Time → Exec GcOutcome
collect_garbage grace_minutes now = do
  referenced ← gets referenced_storage_keys
  blobs ← gets list_objects
  sweep referenced now (grace_minutes * 60) blobs
      (record { deleted = 0; freed_bytes = 0; skipped_recent = 0 })
