-- ===== src/Tree/Shape.antt =====
-- The shape of the table: no cycle, every parent a row, and that row a folder.
use cloud_drive.Prelude.{
  ◌≡◌, ◌≢◌, true, Option, none, some, List, [], ◌∷◌, ◌++◌, arith, Option-cases, Bool-cases, ◌==◌,
  inl, inr, if◌then◌else◌,
}
use cloud_drive.Model.{Uuid, DriveItem, is_folder}
use cloud_drive.Items.{find, update_row}
use cloud_drive.Items.Rows.{map_row, find-update_row, find-append}
use cloud_drive.Tree.Climb.{Walk, root, IsForest, parent_of, parent_or_none}
use cloud_drive.Tree.Reparent.{Avoids, IsClosed, IsForest-reparent, IsForest-prune, Avoids-missing}

abbrev pub FolderParents : List DriveItem → Type 0
FolderParents items =
    (i p : Uuid) (it f : DriveItem)
    → find items i ≡ some it
    → it.parent_id ≡ some p
    → find items p ≡ some f
    → is_folder f.item_type ≡ true

pub record IsTree (items : List DriveItem) : Type 0 where
  pub forest : IsForest items
  pub closed : IsClosed items
  pub folders : FolderParents items

-- A change of a row that keeps its id, parent and type keeps the shape.
module _ (items : List DriveItem) (i : Uuid) (f : DriveItem → DriveItem)
    (same_id : (it : DriveItem) → (f it).id ≡ it.id)
    (same_type : (it : DriveItem) → (f it).item_type ≡ it.item_type) where
  found_after :
      (j : Uuid)
      → find (update_row i f items) j ≡ (if i == j then map_row f (find items j) else find items j)
  found_after j = find-update_row f i j items same_id

  -- What is a row after the change was a row before, of the same type.
  before :
      (j : Uuid) (it' : DriveItem)
      → find (update_row i f items) j ≡ some it'
      → (it : DriveItem) × (find items j ≡ some it)
        × (it'.item_type ≡ it.item_type)
        × (it' ≡ (if i == j then f it else it))
  before j it' h = elim (Option-cases (find items j)) [
    | inl e ↦ absurd (ground (arith, found_after j))
    | inr (it, e) ↦
        (it, e, ground (arith, found_after j, same_type it), ground (arith, found_after j))
  ]

  still : (j : Uuid) → find items j ≢ none → find (update_row i f items) j ≢ none
  still j h e = h (ground (arith, found_after j))

  pub IsTree-keep :
      ((it : DriveItem) → (f it).parent_id ≡ it.parent_id)
      → IsTree items
      → IsTree (update_row i f items)
  unfolding parent_of
  IsTree-keep same tree = record {
    forest =
        IsForest-prune
          (λ j. inl (ground (arith, found_after j, Option-cases (find items j), parent_same j)))
          tree.forest;
    closed = λ j p it' h up_to.
        let (it, e, _, eq) = before j it' h in
        still p (tree.closed j p it e (ground (arith, same it)));
    folders = λ j p it' g h up_to found.
        let (it, e, _, eq) = before j it' h in
        let (g', e', types, _) = before p g found in
        rw types (tree.folders j p it g' e (ground (arith, same it)) e');
  }
    where
      parent_same :
          (j : Uuid) → parent_or_none (map_row f (find items j)) ≡ parent_or_none (find items j)
      parent_same j = elim (Option-cases (find items j)) [
        | inl e ↦ rw e
        | inr (it, e) ↦ rw e (same it)
      ]

  -- The new parent is a folder of the table from which no walk leads back.
  pub IsTree-reparent :
      (target : Option Uuid)
      → ((it : DriveItem) → (f it).parent_id ≡ target)
      → ((p : Uuid)
          → target ≡ some p
          → (g : DriveItem) × (find items p ≡ some g) × (is_folder g.item_type ≡ true))
      → Avoids items i target
      → find items i ≢ none
      → IsTree items
      → IsTree (update_row i f items)
  unfolding parent_of
  IsTree-reparent target moved goes avoids here_i tree = record {
    forest =
        IsForest-reparent {c = i} (λ j (ne : i ≢ j). ground (arith, found_after j)) tree.forest
          (rw parent_new avoids);
    closed = λ j p it' h up_to.
        let (it, e, _, eq) = before j it' h in
        still p (elim (Bool-cases (i == j)) [
          | inl at ↦ λ gone. let (g, found, _) = goes p (ground (arith, moved it)) in ground arith
          | inr other ↦ tree.closed j p it e (ground arith)
        ]);
    folders = λ j p it' g h up_to found.
        let (it, e, _, eq) = before j it' h in
        let (g', e', types, _) = before p g found in
        rw types (elim (Bool-cases (i == j)) [
          | inl at ↦ let (g2, found2, isf) = goes p (ground (arith, moved it)) in ground arith
          | inr other ↦ tree.folders j p it g' e (ground arith) e'
        ]);
  }
    where
      parent_new : parent_or_none (find (update_row i f items) i) ≡ target
      parent_new = elim (Option-cases (find items i)) [
        | inl e ↦ absurd (here_i e)
        | inr (it, e) ↦ ground (arith, found_after i, moved it)
      ]

pub Walk-option : {items : List DriveItem} → IsForest items → (o : Option Uuid) → Walk items o
Walk-option forest none = root
Walk-option forest (some i) = forest i

-- A new row under a folder of the table, or at the root.
pub IsTree-append :
    (items : List DriveItem) (it : DriveItem)
    → find items it.id ≡ none
    → ((p : Uuid)
        → it.parent_id ≡ some p
        → (g : DriveItem) × (find items p ≡ some g) × (is_folder g.item_type ≡ true))
    → IsTree items
    → IsTree (items ++ it ∷ [])
unfolding parent_of
IsTree-append items it new goes tree = record {
  forest =
      IsForest-reparent {c = it.id} (λ j (ne : it.id ≢ j). ground (arith, found j)) tree.forest
        (rw parent_new (
          Avoids-missing it.id tree.closed new
            (λ p e gone. let (g, there, _) = goes p e in ground arith)
            (Walk-option tree.forest it.parent_id)));
  closed = λ j p x h up_to. elim (Bool-cases (it.id == j)) [
    | inl at ↦ kept p (λ gone. let (g, there, _) = goes p (ground (arith, found j)) in ground arith)
    | inr other ↦ kept p (tree.closed j p x (ground (arith, found j)) up_to)
  ];
  folders = λ j p x g h up_to there. elim (Bool-cases (it.id == j)) [
    | inl at ↦ let (g2, there2, isf) = goes p (ground (arith, found j)) in ground (arith, found p)
    | inr other ↦ elim (Option-cases (find items p)) [
      | inl gone ↦ absurd (tree.closed j p x (ground (arith, found j)) up_to gone)
      | inr (g2, there2) ↦
          let isf = tree.folders j p x g2 (ground (arith, found j)) up_to there2 in
          ground (arith, found p)
    ]
  ];
}
  where
    found : (j : Uuid) → find (items ++ it ∷ []) j ≡ (if it.id == j then some it else find items j)
    found j = find-append items it j new

    kept : (p : Uuid) → find items p ≢ none → find (items ++ it ∷ []) p ≢ none
    kept p h e = h (ground (arith, found p))

    parent_new : parent_or_none (find (items ++ it ∷ []) it.id) ≡ it.parent_id
    parent_new = ground (arith, found it.id)
