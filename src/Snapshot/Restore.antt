-- ===== src/Snapshot/Restore.antt =====
-- `restore` of backend/app/snapshot/service.py, with its helpers and the two writes of
-- SQLSnapshotRepository that it makes. The id of the safety snapshot, the clock and the text of
-- its label are arguments.
use cloud_drive.Prelude.{
  ℕ, zero, suc, ◌+◌, Text, Bool, true, false, not, ◌&&◌, ◌||◌, Option, none, some, List, [], ◌∷◌,
  ◌++◌, map, keep, any, mem, length, leb, ◌==◌, if◌then◌else◌, is_some,
}
use mathlib.Core.List.{reverse}
use cloud_drive.Model.{
  Uuid, Time, DriveItem, Trigger, Snapshot, SnapshotEntry, Action, foreign_key_violation, diverges,
}
use cloud_drive.Exec.{
  Result, ok, err, Exec, pure, query, gets, modify, refuse, bind_result, ◌>>=◌, ◌>>◌,
}
use cloud_drive.Items.{find, update_row}
use cloud_drive.Prefs.{log}
use cloud_drive.Snapshot.{all_items, entries_of, create}

-- The snapshot with this id, if it is the user's.
unfoldable pub get_snapshot : Uuid → Uuid → List Snapshot → Option Snapshot
get_snapshot user i [] = none
get_snapshot user i (s ∷ snaps) =
    if s.id == i && s.user_id == user then some s else get_snapshot user i snaps

-- `by_parent.get(i, [])`
abbrev pub below : Uuid → List SnapshotEntry → List SnapshotEntry
below i = keep (λ e. elim e.parent_item_id [ none ↦ false | some p ↦ p == i ])

-- The `while stack` loop, on fuel; the top of the stack stands first.
unfoldable pub expand_loop :
    ℕ → List SnapshotEntry → List SnapshotEntry → List SnapshotEntry → Result (List SnapshotEntry)
expand_loop zero entries stack result = err diverges
expand_loop (suc fuel) entries [] result = ok result
expand_loop (suc fuel) entries (e ∷ stack) result =
    if any (λ r. r.item_id == e.item_id) result
    then expand_loop fuel entries stack result
    else expand_loop fuel entries (reverse (below e.item_id entries) ++ stack) (result ++ e ∷ [])

-- Each entry goes on the stack twice at most: as one selected, and below its folder.
unfoldable pub expand_with_descendants :
    List SnapshotEntry → List Uuid → Result (List SnapshotEntry)
expand_with_descendants entries selected =
    expand_loop (suc (length entries + length entries)) entries
      (reverse (keep (λ e. mem e.item_id selected) entries)) []

abbrev pub rehomed_to_root : SnapshotEntry → SnapshotEntry
rehomed_to_root e = record e { parent_item_id = none }

-- `{e.item_id: e for e in entries}`: the last one counts.
unfoldable pub by_id : Uuid → List SnapshotEntry → Option SnapshotEntry
by_id i [] = none
by_id i (e ∷ entries) = elim (by_id i entries) [
  | some f ↦ some f
  | none ↦ if e.item_id == i then some e else none
]

-- The loop of `depth`, on fuel.
unfoldable pub depth_loop : ℕ → List SnapshotEntry → List Uuid → SnapshotEntry → ℕ → Result ℕ
depth_loop zero entries seen cur d = err diverges
depth_loop (suc fuel) entries seen cur d = elim cur.parent_item_id [
  | none ↦ ok d
  | some p ↦ elim (by_id p entries) [
    | none ↦ ok d
    | some parent ↦
        if mem p seen then ok d else depth_loop fuel entries (cur.item_id ∷ seen) parent (d + 1)
  ]
]

unfoldable pub depths : List SnapshotEntry → List SnapshotEntry → Result (List (ℕ × SnapshotEntry))
depths all_entries [] = ok []
depths all_entries (e ∷ entries) =
    bind_result (depth_loop (length all_entries + 2) all_entries [] e 0)
      (λ d. bind_result (depths all_entries entries) (λ rest. ok ((d, e) ∷ rest)))

-- `sorted(entries, key=depth)` is stable.
unfoldable pub insert_by : ℕ × SnapshotEntry → List (ℕ × SnapshotEntry) → List (ℕ × SnapshotEntry)
insert_by x [] = x ∷ []
insert_by x (y ∷ rows) =
    let rest = insert_by x rows in if leb x.0 y.0 then x ∷ y ∷ rows else y ∷ rest

unfoldable pub sort_by : List (ℕ × SnapshotEntry) → List (ℕ × SnapshotEntry)
sort_by [] = []
sort_by (x ∷ rows) = insert_by x (sort_by rows)

unfoldable pub parents_first : List SnapshotEntry → Result (List SnapshotEntry)
parents_first entries =
    bind_result (depths entries entries) (λ rows. ok (map (λ r. r.1) (sort_by rows)))

unfoldable pub recreated : Time → Uuid → SnapshotEntry → DriveItem
recreated now owner e = record {
  id = e.item_id;
  owner_id = owner;
  parent_id = e.parent_item_id;
  item_type = e.item_type;
  name = e.name;
  mime_type = none;
  extension = none;
  size_bytes = e.size_bytes;
  storage_key = e.storage_key;
  checksum_sha256 = e.checksum_sha256;
  is_starred = false;
  is_deleted = false;
  deleted_at = none;
  created_by = owner;
  updated_by = some owner;
  created_at = now;
  updated_at = now;
}

unfoldable pub reverted : Time → SnapshotEntry → DriveItem → DriveItem
reverted now e it = record it {
  parent_id = e.parent_item_id;
  name = e.name;
  size_bytes = e.size_bytes;
  storage_key = e.storage_key;
  checksum_sha256 = e.checksum_sha256;
  is_deleted = false;
  deleted_at = none;
  updated_at = now;
}

-- The foreign key of the table: a parent is a row, or the row itself.
abbrev pub is_dangling : Option Uuid → Uuid → List DriveItem → Bool
is_dangling none i items = false
is_dangling (some p) i items = not (p == i) && not (is_some (find items p))

unfoldable pub put_item :
    Time → Uuid → SnapshotEntry → Option DriveItem → List DriveItem → List DriveItem
unfolding recreated reverted
put_item now owner e none items = items ++ recreated now owner e ∷ []
put_item now owner e (some it) items = update_row e.item_id (reverted now e) items

unfoldable pub upsert_item : Time → Uuid → SnapshotEntry → Exec (Unit {0})
unfolding put_item
upsert_item now owner e = do
  dangling ← gets (λ db. is_dangling e.parent_item_id e.item_id db.items)
  refuse dangling foreign_key_violation
  modify (λ db. record db { items = put_item now owner e (find db.items e.item_id) db.items })

-- `parent is not None and parent not in restorable_ids and parent not in live_ids`
unfoldable pub placed : List Uuid → List Uuid → SnapshotEntry → SnapshotEntry
placed restorable live_ids e = elim e.parent_item_id [
  | none ↦ e
  | some p ↦ if mem p restorable || mem p live_ids then e else rehomed_to_root e
]

unfoldable pub restore_entries : Time → Uuid → List Uuid → List Uuid → List SnapshotEntry → Exec ℕ
restore_entries now user restorable live_ids [] = pure 0
restore_entries now user restorable live_ids (e ∷ entries) = do
  upsert_item now user (placed restorable live_ids e)
  n ← restore_entries now user restorable live_ids entries
  pure (n + 1)

unfoldable pub set_deleted : Time → Uuid → Exec (Unit {0})
set_deleted now i = modify (λ db. record db {
  items = update_row i (λ it. record it { is_deleted = true; deleted_at = some now }) db.items;
})

-- Only inside the restored subtree, unless the whole drive is restored.
abbrev pub is_in_scope : Option (List Uuid) → Option Uuid → Bool
is_in_scope none parent = true
is_in_scope (some ids) none = false
is_in_scope (some ids) (some p) = mem p ids

unfoldable pub mirror : Time → List Uuid → Option (List Uuid) → List DriveItem → Exec ℕ
mirror now entry_ids scope_ids [] = pure 0
mirror now entry_ids scope_ids (it ∷ items) =
    if it.is_deleted || mem it.id entry_ids
    then mirror now entry_ids scope_ids items
    else if not (is_in_scope scope_ids it.parent_id)
    then mirror now entry_ids scope_ids items
    else do set_deleted now it.id; n ← mirror now entry_ids scope_ids items; pure (n + 1)

pub record RestoreOutcome : Type 0 where
  pub pre_restore_snapshot_id : Uuid
  pub restored : ℕ
  pub trashed : ℕ

-- The entries to restore: all, or those selected with their descendants.
unfoldable pub targets : Option (List Uuid) → List SnapshotEntry → Result (List SnapshotEntry)
targets none entries = ok entries
targets (some selected) entries = expand_with_descendants entries selected

unfoldable pub mirror_if : Bool → Time → Uuid → List SnapshotEntry → Option (List Uuid) → Exec ℕ
mirror_if false now user entries scope_ids = pure 0
mirror_if true now user entries scope_ids = do
  items ← gets (all_items user)
  mirror now (map (λ e. e.item_id) entries) scope_ids items

-- `scope` is `none` for the whole drive, and the selected items otherwise.
unfoldable pub restore :
    Uuid → Time → Text → Uuid → Uuid → Option (List Uuid) → Bool → Exec (Option RestoreOutcome)
restore new_id now label user snapshot_id scope exact_mirror = do
  found ← gets (λ db. get_snapshot user snapshot_id db.snapshots)
  elim found [
    | none ↦ pure none
    | some snapshot ↦ do
      pre ← create new_id now user Trigger.pre_restore label false
      all_entries ← gets (entries_of snapshot_id)
      target ← query (λ _. targets scope all_entries)
      let ids = map (λ e. e.item_id) target
      live_items ← gets (all_items user)
      ordered ← query (λ _. parents_first target)
      restored ← restore_entries now user ids (map (λ it. it.id) live_items) ordered
      trashed ←
          mirror_if exact_mirror now user all_entries
            (elim scope [ none ↦ none | some _ ↦ some ids ])
      log user Action.snapshot_restore none
      pure (
          some
            (record { pre_restore_snapshot_id = pre.id; restored = restored; trashed = trashed }))
  ]
