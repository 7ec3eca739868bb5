-- ===== src/Snapshot/Capture.antt =====
-- What a snapshot holds of a drive.
use cloud_drive.Prelude.{
  ℕ, ◌+◌, ◌≡◌, refl, ap, sym, ◌∙◌, true, Option, none, some, List, [], ◌∷◌, map, mem, All, arith,
  Bool-cases, inl, inr,
}
use mathlib.Core.Path.{subst}
use cloud_drive.Model.{Uuid, DriveItem, SnapshotEntry}
use cloud_drive.Snapshot.{captured_parent, to_entry, capture, total_bytes}

abbrev pub sum_entries : List SnapshotEntry → ℕ
sum_entries [] = 0
sum_entries (e ∷ entries) = e.size_bytes + sum_entries entries

abbrev pub ids_of : List SnapshotEntry → List Uuid
ids_of = map (λ e. e.item_id)

-- One entry for each item, with the total of the sizes, and each parent is an entry too.
pub record IsCapture (items : List DriveItem) (entries : List SnapshotEntry) : Type 0 where
  pub ids : map (λ e. e.item_id) entries ≡ map (λ it. it.id) items
  pub bytes : sum_entries entries ≡ total_bytes items
  pub closed :
      All (λ e. (p : Uuid) → e.parent_item_id ≡ some p → mem p (ids_of entries) ≡ true) entries

module _ (i : Uuid) (captured : List Uuid) where
  ids-entries :
      (items : List DriveItem) → ids_of (map (to_entry i captured) items) ≡ map (λ it. it.id) items
  unfolding to_entry
  ids-entries [] = refl
  ids-entries (it ∷ items) = rw (ids-entries items)

  sum_entries-total_bytes :
      (items : List DriveItem) → sum_entries (map (to_entry i captured) items) ≡ total_bytes items
  unfolding to_entry total_bytes
  sum_entries-total_bytes [] = refl
  sum_entries-total_bytes (it ∷ items) = rw (sum_entries-total_bytes items)

  captured_parent-mem :
      (o : Option Uuid) (p : Uuid) → captured_parent captured o ≡ some p → mem p captured ≡ true
  unfolding captured_parent
  captured_parent-mem none p h = absurd (ground arith)
  captured_parent-mem (some q) p h = elim (Bool-cases (mem q captured)) [
    | inl e ↦ let same : q ≡ p = ground arith in ap (λ x. mem x captured) (sym same) ∙ e
    | inr e ↦ absurd (ground arith)
  ]

  parents-captured :
      (items : List DriveItem)
      → All
          (λ e. (p : Uuid) → e.parent_item_id ≡ some p → mem p captured ≡ true)
          (map (to_entry i captured) items)
  unfolding to_entry
  parents-captured [] = tt
  parents-captured (it ∷ items) =
      (λ p h. captured_parent-mem it.parent_id p h, parents-captured items)

-- A capture has one entry for each item, in their order, the sizes of its entries add up to the size
-- that the snapshot records, and the folder of each entry is an entry of the capture, even where
-- the item's own folder was left out.
pub capture-IsCapture : (i : Uuid) (items : List DriveItem) → IsCapture items (capture i items)
unfolding capture
capture-IsCapture i items =
    let captured = map (λ it. it.id) items in
    record {
      ids = ids-entries i captured items;
      bytes = sum_entries-total_bytes i captured items;
      closed =
          subst
            (λ c.
              All (λ e. (p : Uuid) → e.parent_item_id ≡ some p → mem p c ≡ true)
                (map (to_entry i captured) items))
            (sym (ids-entries i captured items)) (parents-captured i captured items);
    }
