-- ===== src/Snapshot/Lost.antt =====
-- What an exact restore does where the safety snapshot has pushed the snapshot itself out.
use cloud_drive.Prelude.{
  ℕ, ◌+◌, ◌≡◌, refl, ap, sym, ◌∙◌, inl, inr, Text, Bool, true, false, not, ◌&&◌, none, some, List,
  [], ◌∷◌, keep, any, mem, arith, ◌==◌, ==_refl, if◌then◌else◌, Bool-cases,
}
use cloud_drive.Model.{Uuid, Time, DriveItem, Trigger, Snapshot, Db}
use cloud_drive.Exec.{ok}
use cloud_drive.Items.{update_row}
use cloud_drive.Prefs.{log}
use cloud_drive.Snapshot.{all_items, entries_of, create}
use cloud_drive.Snapshot.Restore.{
  get_snapshot, targets, parents_first, depths, sort_by, restore_entries, set_deleted, mirror,
  mirror_if, restore, RestoreOutcome,
}

module _ (user : Uuid) where
  abbrev pub is_live : DriveItem → Bool
  is_live it = it.owner_id == user && not it.is_deleted

  -- The live items of the user whose id is not in the list.
  abbrev is_left : List Uuid → DriveItem → Bool
  is_left ids it = is_live it && not (mem it.id ids)

  abbrev live_ids : List DriveItem → List Uuid
  live_ids [] = []
  live_ids (it ∷ items) = let rest = live_ids items in if it.is_deleted then rest else it.id ∷ rest

  trashed_one :
      (now : Time) (i : Uuid) (ids : List Uuid) (items : List DriveItem)
      → any (is_left (i ∷ ids)) items ≡ false
      → any
          (is_left ids)
          (update_row i (λ it. record it { is_deleted = true; deleted_at = some now }) items)
        ≡ false
  unfolding any update_row mem
  trashed_one now i ids [] h = refl
  trashed_one now i ids (it ∷ items) h = ground (arith, trashed_one now i ids items)

  nothing_left :
      (items : List DriveItem) → any (is_left []) items ≡ false → any is_live items ≡ false
  unfolding any mem
  nothing_left [] h = refl
  nothing_left (it ∷ items) h = ground (arith, nothing_left items)

  mirror-live :
      (now : Time) (rows : List DriveItem) (db : Db)
      → any (is_left (live_ids rows)) db.items ≡ false
      → (n : ℕ) × (after : Db) × (mirror now [] none rows db ≡ (ok n, after))
        × (any is_live after.items ≡ false)
  unfolding mirror mem any set_deleted
  mirror-live now [] db h = (0, db, refl, nothing_left db.items h)
  mirror-live now (it ∷ rows) db h = elim (Bool-cases it.is_deleted) [
    | inl gone ↦
        let same : live_ids (it ∷ rows) ≡ live_ids rows = rw gone refl in
        let (n, after, e, dead) =
          mirror-live now rows db (ap (λ ids. any (is_left ids) db.items) (sym same) ∙ h) in
        (n, after, rw gone e, dead)
    | inr here_ ↦
        let same : live_ids (it ∷ rows) ≡ it.id ∷ live_ids rows = rw here_ refl in
        let (n, after, e, dead) = mirror-live now rows (set_deleted now it.id db).1 (
          trashed_one now it.id (live_ids rows) db.items
            (ap (λ ids. any (is_left ids) db.items) (sym same) ∙ h)) in
        (n + 1, after, rw (here_, e), dead)
  ]

  none_left :
      (ids : List Uuid) (items : List DriveItem)
      → ((j : Uuid)
          → mem j (live_ids (keep (λ it. it.owner_id == user) items)) ≡ true
          → mem j ids ≡ true)
      → any (is_left ids) items ≡ false
  unfolding any keep mem
  none_left ids [] sub = refl
  none_left ids (it ∷ items) sub = elim (Bool-cases (is_live it)) [
    | inr dead ↦ ground (arith, dead, none_left ids items (λ j m. sub j (ground (arith, m))))
    | inl live ↦ ground (
      arith,
      live,
      sub it.id (ground (arith, live, ==_refl it.id)),
      none_left ids items (λ j m. sub j (ground (arith, m))),
    )
  ]

  -- An exact restore of the whole drive to a snapshot of the user that the safety snapshot's pruning
  -- has deleted, with its entries, restores nothing and leaves no live item of the user.
  pub restore-live :
      (new_id : Uuid) (now : Time) (label : Text) (i : Uuid) (s : Snapshot) (pre : Snapshot)
      (mid db : Db)
      → get_snapshot user i db.snapshots ≡ some s
      → create new_id now user Trigger.pre_restore label false db ≡ (ok pre, mid)
      → entries_of i mid ≡ []
      → let r = restore new_id now label user i none true db in
        (out : RestoreOutcome) × (r.0 ≡ ok (some out))
        × ((out.restored ≡ 0) × (any is_live r.1.items ≡ false))
  unfolding restore targets parents_first depths sort_by restore_entries mirror_if log all_items
  restore-live new_id now label i s pre mid db found made gone =
      let (n, after, e, dead) =
        mirror-live now (all_items user mid) mid
          (none_left (live_ids (all_items user mid)) mid.items (λ j m. m)) in
      (
        record { pre_restore_snapshot_id = pre.id; restored = 0; trashed = n },
        rw (found, made, gone, e),
        (refl, rw (found, made, gone, e) dead),
      )
