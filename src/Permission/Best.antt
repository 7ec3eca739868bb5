-- ===== src/Permission/Best.antt =====
-- The grants on the way from an item to the root, and the result of the walk.
use cloud_drive.Prelude.{
  ℕ, zero, suc, ◌+◌, ◌≤◌, ◌<◌, max, ◌≡◌, refl, ap, sym, ◌⊎◌, inl, inr, false, Option, none, some,
  List, [], ◌∷◌, arith, length, ◌==◌, Bool-cases, Option-cases, if◌then◌else◌,
}
use mathlib.Core.Path.{subst}
use native.Mathlib.Decide.{dec_le}
use cloud_drive.Model.{Uuid, DriveItem, Permission, Share, Db}
use cloud_drive.Exec.{ok, one_or_none}
use cloud_drive.Items.{find}
use cloud_drive.Tree.{
  Walk, IsForest, depth, above, depth-above, depth-eq, depth-le, parent_of, parent_or_none,
}
use cloud_drive.Permission.{
  level, share_rows, get_by_item_and_user, better, permission_loop, get_permission,
}

-- No permission is level 0.
abbrev pub level_of : Option Permission → ℕ
level_of none = 0
level_of (some p) = level p

abbrev max_level : List Share → ℕ
max_level [] = 0
max_level (s ∷ rows) = max (level s.permission) (max_level rows)

-- What one row of the table gives to the user: the owner's level, or the shares of this row.
unfoldable pub granted : Db → Uuid → DriveItem → ℕ
granted db user it = if it.owner_id == user then 4 else max_level (share_rows it.id user db.shares)

-- `a` is the item itself or a folder above it.
pub data Above (items : List DriveItem) (a : DriveItem) : DriveItem → Type 0 where
  self : Above items a a
  over :
      {it f : DriveItem} (p : Uuid)
      → it.parent_id ≡ some p
      → find items p ≡ some f
      → Above items a f
      → Above items a it

-- `(item_id, target_user_id)` names one share at most.
abbrev pub IsShareUnique : Db → Type 0
IsShareUnique db = (item user : Uuid) → length (share_rows item user db.shares) ≤ 1

abbrev AboveOption : List DriveItem → DriveItem → Option DriveItem → Type 0
AboveOption items a none = ⊥
AboveOption items a (some it) = Above items a it

share_level : Option Share → ℕ
share_level none = 0
share_level (some s) = level s.permission

level-better :
    (best : Option Permission) (s : Option Share)
    → level_of (better best s) ≡ max (level_of best) (share_level s)
unfolding better share_level
level-better best none = omega arith
level-better none (some s) = omega arith
level-better (some b) (some s) = ground arith

one_or_none-max_level :
    (rows : List Share)
    → length rows ≤ 1
    → (s : Option Share) × (one_or_none rows ≡ ok s) × (share_level s ≡ max_level rows)
unfolding one_or_none share_level
one_or_none-max_level [] h = (none, refl, refl)
one_or_none-max_level (s ∷ []) h = (some s, refl, omega arith)
one_or_none-max_level (s ∷ t ∷ rows) h = absurd (omega arith)

-- The share that the loop reads, at a row that the user does not own.
share_found :
    (db : Db) (user : Uuid) (it : DriveItem)
    → IsShareUnique db
    → (it.owner_id == user) ≡ false
    → (s : Option Share) × (get_by_item_and_user it.id user db ≡ ok s)
      × (share_level s ≡ granted db user it)
unfolding get_by_item_and_user granted
share_found db user it unique other =
    let (s, found, lev) =
      one_or_none-max_level (share_rows it.id user db.shares) (unique it.id user) in
    (s, found, rw other lev)

-- `r` is the best of `best` and of the grants from `current` up.
record IsBestFrom (db : Db) (user : Uuid) (best : Option Permission) (current : Option DriveItem)
    (r : Option Permission) : Type 0 where
  keeps : level_of best ≤ level_of r
  upper : (a : DriveItem) → AboveOption db.items a current → granted db user a ≤ level_of r
  attained :
      (level_of r ≡ level_of best)
      ⊎ ((a : DriveItem) × AboveOption db.items a current × (granted db user a ≡ level_of r))

max_level-le : (rows : List Share) → max_level rows ≤ 4
max_level-le [] = omega arith
max_level-le (s ∷ rows) = ground (arith, max_level-le rows)

granted-le : (db : Db) (user : Uuid) (it : DriveItem) → granted db user it ≤ 4
unfolding granted
granted-le db user it = ground (arith, max_level-le (share_rows it.id user db.shares))

level_of-le : (p : Option Permission) → level_of p ≤ 4
level_of-le p = ground arith

abbrev next_row : List DriveItem → Option Uuid → Option DriveItem
next_row items none = none
next_row items (some p) = find items p

Above-cases :
    {items : List DriveItem} {a it : DriveItem}
    → Above items a it
    → (a ≡ it) ⊎ AboveOption items a (next_row items it.parent_id)
Above-cases self = inl refl
Above-cases (over p e found rest) = inr (rw (e, found) rest)

Above-next :
    {items : List DriveItem} (a it : DriveItem) (o : Option Uuid) (n : Option DriveItem)
    → it.parent_id ≡ o
    → next_row items o ≡ n
    → AboveOption items a n
    → Above items a it
Above-next a it none none e h u = absurd u
Above-next a it none (some f) e h u = absurd (ground arith)
Above-next a it (some p) none e h u = absurd u
Above-next a it (some p) (some f) e h u = over p e h u

module _ (db : Db) (user : Uuid) where
  -- One round of the loop, given what the rest of the walk returns.
  IsBestFrom-step :
      (best r : Option Permission) (it : DriveItem) (s : Option Share)
      → share_level s ≡ granted db user it
      → IsBestFrom db user (better best s) (next_row db.items it.parent_id) r
      → IsBestFrom db user best (some it) r
  IsBestFrom-step best r it s lev rest = record {
    keeps = omega (arith, rest.keeps, level-better best s);
    upper = λ a u. elim (Above-cases u) [
      | inl e ↦ rw e (omega (arith, rest.keeps, level-better best s))
      | inr v ↦ rest.upper a v
    ];
    attained = elim rest.attained [
      | inl same ↦ elim (dec_le (share_level s) (level_of best)) [
        | yes h ↦ inl (omega (arith, level-better best s))
        | no h ↦ inr (it, self, omega (arith, level-better best s))
      ]
      | inr (a, v, e) ↦ inr (a, Above-next a it it.parent_id _ refl refl v, e)
    ];
  }

  IsBestFrom-none : (b : Option Permission) → IsBestFrom db user b none b
  IsBestFrom-none b = record { keeps = omega arith; upper = λ a u. absurd u; attained = inl refl }

  module _ (forest : IsForest db.items) (unique : IsShareUnique db) where
    from_row :
        (it : DriveItem) (b r : Option Permission) (o : Option Uuid)
        → it.parent_id ≡ o
        → IsBestFrom db user b (next_row db.items o) r
        → IsBestFrom db user b (next_row db.items it.parent_id) r
    from_row it b r o e = subst (λ n. IsBestFrom db user b (next_row db.items n) r) (sym e)

    loop-IsBestFrom :
        (fuel : ℕ) (best : Option Permission) (current : Option DriveItem) {o : Option Uuid}
        (w : Walk db.items o)
        → o ≡ parent_or_none current
        → depth w + 1 < fuel
        → (r : Option Permission) × (permission_loop fuel db user best current ≡ ok r)
          × IsBestFrom db user best current r
    unfolding permission_loop
    loop-IsBestFrom zero best current w e h = absurd (omega arith)
    loop-IsBestFrom (suc fuel) best none w e h = (best, refl, IsBestFrom-none best)
    loop-IsBestFrom (suc fuel) best (some it) w e h = elim (Bool-cases (it.owner_id == user)) [
      | inl own ↦ (
        some Permission.owner,
        rw own refl,
        record {
          keeps = level_of-le best;
          upper = λ a _. granted-le db user a;
          attained = inr (it, self, unfold granted in rw own refl);
        },
      )
      | inr other ↦
          let (s, found, lev) = share_found db user it unique other in
          let b : Option Permission = better best s in
          elim (Option-cases it.parent_id) [
            | inl top ↦
                let stop : IsBestFrom db user b none b = IsBestFrom-none b in
                (
                  b,
                  ground (arith, found),
                  IsBestFrom-step best b it s lev (from_row it b b none top stop),
                )
            | inr (p, top) ↦
                let (r, eq, rest) =
                  loop-IsBestFrom fuel b (find db.items p) (above (forest p))
                    (unfold parent_of in refl)
                    (omega (arith, depth-above (forest p), depth-eq (forest p) w (ground arith))) in
                (
                  r,
                  ground (arith, found, eq),
                  IsBestFrom-step best r it s lev (from_row it b r (some p) top rest),
                )
          ]
    ]

-- The permission that the walk computes is the best grant on the way from the item to the root.
pub record IsBest (db : Db) (user : Uuid) (it : DriveItem) (r : Option Permission) : Type 0 where
  pub upper : (a : DriveItem) → Above db.items a it → granted db user a ≤ level_of r
  pub attained :
      (r ≡ none) ⊎ ((a : DriveItem) × Above db.items a it × (granted db user a ≡ level_of r))

eq-none_of_level : (r : Option Permission) → level_of r ≡ 0 → r ≡ none
eq-none_of_level none h = refl
eq-none_of_level (some r) h = absurd (ground arith)

-- In a forest of items, with one share at most for an item and a user, `get_permission` returns: the
-- best of the grants of the item and of the folders above it, and none only if they grant nothing.
pub get_permission-IsBest :
    (db : Db) (user : Uuid) (it : DriveItem)
    → IsForest db.items
    → IsShareUnique db
    → find db.items it.id ≡ some it
    → (r : Option Permission) × (get_permission user it db ≡ ok r) × IsBest db user it r
unfolding get_permission parent_of
get_permission-IsBest db user it forest unique found =
    let (r, eq, best) =
      loop-IsBestFrom db user forest unique (length db.items + 3) none (some it)
        (above (forest it.id)) (ap parent_or_none found)
        (omega (arith, depth-above (forest it.id), depth-le (forest it.id))) in
    (
      r,
      eq,
      record {
        upper = best.upper;
        attained = elim best.attained [
          | inl e ↦ inl (eq-none_of_level r e)
          | inr grant ↦ inr grant
        ];
      },
    )
