-- ===== src/Naming/Free.antt =====
-- The lemmas on the search for a free name.
use mathlib.Core.List.{append_cancel_left, append_cancel_right}
use cloud_drive.Prelude.{
  ℕ, zero, suc, ◌+◌, ◌≤◌, ◌<◌, ◌≡◌, refl, ap, sym, ◌≢◌, ◌⊎◌, inl, inr, Text, true, false, Option,
  none, List, [], ◌∷◌, ◌++◌, map, drop, arith, length, keep, In, here, there, Distinct, All,
  eq_of_text_eq, Bool-cases, at_most_one-cases, ◌∙◌, length-le_of_Distinct,
}
use native.Mathlib.Numerals.{add-one}
use cloud_drive.Model.{Uuid, DriveItem, Db}
use cloud_drive.Exec.{ok, one_or_none}
use cloud_drive.Items.{is_at, name_rows, name_exists_in_parent}
use cloud_drive.Naming.{numbered, split_name, free_name_loop, free_name}
use cloud_drive.Naming.Decimal.{show, show-injective}

-- An owner has one live row at most for a name in a folder.
abbrev pub IsNameUnique : List DriveItem → Type 0
IsNameUnique items =
    (name : Text) (parent : Option Uuid) (owner : Uuid)
    → length (name_rows name parent owner none items) ≤ 1

numbered-injective : (stem ext : Text) (i j : ℕ) → numbered stem ext i ≡ numbered stem ext j → i ≡ j
unfolding numbered
numbered-injective stem ext i j e =
    let tails =
      append_cancel_left stem (32 ∷ 40 ∷ (show i ++ (41 ∷ ext))) (32 ∷ 40 ∷ (show j ++ (41 ∷ ext)))
        e in
    show-injective i j (append_cancel_right (show i) (show j) (41 ∷ ext) (ap (drop 2) tails))

-- A number below `n` made the name.
abbrev pub Tried : Text → Text → ℕ → Text → Type 0
Tried stem ext n t = (i : ℕ) × (i < n) × (t ≡ numbered stem ext i)

pub All-Tried :
    (stem ext : Text) (n : ℕ) (ts : List Text)
    → All (Tried stem ext n) ts
    → All (Tried stem ext (suc n)) ts
All-Tried stem ext n [] h = tt
All-Tried stem ext n (t ∷ ts) h =
    ((h.0.0, omega (arith, h.0.1), h.0.2), All-Tried stem ext n ts h.1)

pub All-ne-Tried :
    (stem ext : Text) (n : ℕ) (ts : List Text)
    → All (Tried stem ext n) ts
    → All (λ t. numbered stem ext n ≢ t) ts
All-ne-Tried stem ext n [] h = tt
All-ne-Tried stem ext n (t ∷ ts) h = (
  λ e. omega (arith, h.0.1, numbered-injective stem ext n h.0.0 (e ∙ h.0.2)),
  All-ne-Tried stem ext n ts h.1,
)

length-names : (items : List DriveItem) → length (map (λ it. it.name) items) ≡ length items
length-names [] = refl
length-names (it ∷ items) = omega (arith, length-names items)

module _ (parent : Option Uuid) (owner : Uuid) where
  -- A name that is taken is the name of some row.
  In-names :
      (name : Text) (items : List DriveItem) (x : DriveItem) (rows : List DriveItem)
      → name_rows name parent owner none items ≡ x ∷ rows
      → In name (map (λ it. it.name) items)
  unfolding name_rows keep
  In-names name [] x rows h = absurd (ground arith)
  In-names name (it ∷ items) x rows h = elim (Bool-cases (is_at name parent owner it)) [
    | inl e ↦ here (sym (eq_of_text_eq it.name name (ground arith)))
    | inr e ↦ there (In-names name items x rows (ground arith))
  ]

  module _ (db : Db) (unique : IsNameUnique db.items) where
    -- The query does not raise: it says whether there is such a row.
    taken_or_free :
        (name : Text)
        → (name_exists_in_parent name parent owner none db ≡ ok false)
          ⊎ ((name_exists_in_parent name parent owner none db ≡ ok true)
              × In name (map (λ it. it.name) db.items))
    unfolding name_exists_in_parent one_or_none
    taken_or_free name = elim (at_most_one-cases _ (unique name parent owner)) [
      | inl e ↦ inl (rw e)
      | inr (x, e) ↦ inr (rw e, In-names name db.items x [] e)
    ]

    abbrev pub IsFree : Text → Type 0
    IsFree name = name_exists_in_parent name parent owner none db ≡ ok false

    -- Each round that fails adds a taken name, and there are no more of these than rows.
    loop-IsFree :
        (fuel : ℕ) (stem ext : Text) (n : ℕ) (ts : List Text)
        → Distinct ts
        → All (Tried stem ext n) ts
        → All (λ t. In t (map (λ it. it.name) db.items)) ts
        → length db.items < fuel + length ts
        → (r : Text) × (free_name_loop fuel stem ext parent owner (numbered stem ext n) (n + 1) db
            ≡ ok r)
          × IsFree r
    unfolding free_name_loop
    loop-IsFree zero stem ext n ts d tried taken h =
        absurd (omega (arith, length-le_of_Distinct ts _ d taken, length-names db.items))
    loop-IsFree (suc fuel) stem ext n ts d tried taken h =
        elim (taken_or_free (numbered stem ext n)) [
          | inl free ↦ (numbered stem ext n, rw free, free)
          | inr (e, place) ↦
              rw (e, add-one)
                (loop-IsFree fuel stem ext (suc n) (numbered stem ext n ∷ ts)
                  (All-ne-Tried stem ext n ts tried, d)
                  ((n, omega arith, refl), All-Tried stem ext n ts tried) (place, taken)
                  (omega arith))
        ]

    -- Where an owner has one live row at most for each name in a folder, the search for a free name
    -- neither raises nor runs on: it returns a name that no live row of the owner has there, and it
    -- returns the name asked for if that is free.
    pub free_name-IsFree :
        (name : Text)
        → (r : Text) × (free_name name parent owner db ≡ ok r) × IsFree r × (IsFree name → r ≡ name)
    unfolding free_name free_name_loop
    free_name-IsFree name = elim (taken_or_free name) [
      | inl free ↦ (name, rw (free, free_name), free, λ _. refl)
      | inr (e, place) ↦
          let (r, eq, free) =
            loop-IsFree (length db.items + 1) (split_name name).0 (split_name name).1 1 [] tt tt tt
              (omega arith) in
          (r, rw (e, free_name) eq, free, λ h. absurd (ground arith))
    ]
