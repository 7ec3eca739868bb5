-- ===== src/Tree/Reparent.antt =====
-- What a change of the table does to the walks.
use cloud_drive.Prelude.{
  ◌≡◌, ◌≢◌, ◌⊎◌, inl, inr, ap, Option, none, some, List, arith, Option-cases, Bool-cases, ◌==◌,
}
use cloud_drive.Model.{Uuid, DriveItem}
use cloud_drive.Items.{find}
use cloud_drive.Tree.Climb.{Walk, root, up, IsForest, parent_of}

-- The walk ends and does not meet the row `c`.
pub data Avoids (items : List DriveItem) (c : Uuid) : Option Uuid → Type 0 where
  stop : Avoids items c none
  past : {i : Uuid} → c ≢ i → Avoids items c (parent_of items i) → Avoids items c (some i)

-- Every parent is a row of the table, as the foreign key demands.
abbrev pub IsClosed : List DriveItem → Type 0
IsClosed items =
    (i p : Uuid) (it : DriveItem)
    → find items i ≡ some it
    → it.parent_id ≡ some p
    → find items p ≢ none

module _ {old new : List DriveItem} {c : Uuid}
    (same : (i : Uuid) → c ≢ i → parent_of new i ≡ parent_of old i) where
  Walk-Avoids : {o : Option Uuid} → Avoids old c o → Walk new o
  Walk-Avoids stop = root
  Walk-Avoids (past {i} ne a) = up (rw (same i ne) (Walk-Avoids a))

  Walk-reparent : {o : Option Uuid} → Avoids old c (parent_of new c) → Walk old o → Walk new o
  Walk-reparent a root = root
  Walk-reparent a (up {i} w) = elim (Bool-cases (c == i)) [
    | inl e ↦ let same_id : c ≡ i = ground arith in up (rw (← same_id) (Walk-Avoids a))
    | inr e ↦ up (rw (same i (ground arith)) (Walk-reparent a w))
  ]

  -- A new parent from which the walk does not meet the moved row keeps the forest.
  pub IsForest-reparent : IsForest old → Avoids old c (parent_of new c) → IsForest new
  IsForest-reparent forest a i = Walk-reparent a (forest i)

module _ {old new : List DriveItem}
    (same : (i : Uuid) → (parent_of new i ≡ parent_of old i) ⊎ (parent_of new i ≡ none)) where
  Walk-prune : {o : Option Uuid} → Walk old o → Walk new o
  Walk-prune root = root
  Walk-prune (up {i} w) = elim (same i) [
    | inl e ↦ up (rw e (Walk-prune w))
    | inr e ↦ up (rw e root)
  ]

  -- Parents that stay or go keep the forest.
  pub IsForest-prune : IsForest old → IsForest new
  IsForest-prune forest i = Walk-prune (forest i)

-- Where the parents are rows, no walk from a row meets an id that is no row.
pub Avoids-missing :
    {items : List DriveItem} {o : Option Uuid} (c : Uuid)
    → IsClosed items
    → find items c ≡ none
    → ((p : Uuid) → o ≡ some p → find items p ≢ none)
    → Walk items o
    → Avoids items c o
unfolding parent_of
Avoids-missing c closed gone there root = stop
Avoids-missing {items} c closed gone there (up {i} w) = elim (Option-cases (find items i)) [
  | inl e ↦ absurd (there i (ground arith) e)
  | inr (it, e) ↦
      past (λ eq. absurd (ground (arith, ap (find items) eq)))
        (Avoids-missing c closed gone (λ p q. closed i p it e (ground arith)) w)
]
