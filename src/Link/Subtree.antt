-- ===== src/Link/Subtree.antt =====
-- What gives a guest the right to write an item.
use cloud_drive.Prelude.{
  ℕ, zero, suc, ◌≡◌, refl, ap, sym, ◌∙◌, ◌⊎◌, inl, inr, true, false, Option, none, some, arith,
  ◌==◌, Bool-cases, Option-cases,
}
use mathlib.Core.Path.{subst}
use cloud_drive.Model.{Uuid, Time, DriveItem, Db, Error}
use cloud_drive.Exec.{ok, err}
use cloud_drive.Items.{find, get_by_id}
use cloud_drive.Items.Rows.{find-id}
use cloud_drive.Permission.Best.{Above, self, over}
use cloud_drive.Drive.{live}
use cloud_drive.Link.{
  link_invalid, Claims, Authorized, is_editor, below_root, max_depth, resolve_in_subtree,
}
use cloud_drive.Link.Throttle.{IsGood}

below_root-none : (n : ℕ) (db : Db) (i : Uuid) → below_root n db i none ≡ false
unfolding below_root
below_root-none zero db i = refl
below_root-none (suc n) db i = refl

-- The bounded walk finds a way from the item up to the root.
below_root-Above :
    (n : ℕ) (db : Db) (root : DriveItem) (it : DriveItem)
    → find db.items root.id ≡ some root
    → find db.items it.id ≡ some it
    → below_root n db root.id (some it) ≡ true
    → Above db.items root it
unfolding below_root
below_root-Above zero db root it top found h = absurd (ground arith)
below_root-Above (suc n) db root it top found h = elim (Bool-cases (it.id == root.id)) [
  | inl e ↦
      let same : some root ≡ some it = sym top ∙ (ap (find db.items) (ground arith) ∙ found) in
      let eq : root ≡ it = ground arith in subst (λ x. Above db.items root x) eq self
  | inr other ↦ elim (Option-cases it.parent_id) [
    | inl e ↦ absurd (ground arith)
    | inr (p, e) ↦ elim (Option-cases (find db.items p)) [
      | inl gone ↦ absurd (ground (arith, h, below_root-none n db root.id))
      | inr (f, there) ↦
          let same : find db.items f.id ≡ some f =
            ap (find db.items) (find-id db.items p f there) ∙ there in
          over p e there (below_root-Above n db root f top same (ground (arith, h)))
    ]
  ]
]

-- The item is in the tree of a link that is accepted now and that lets its holder edit.
pub record MayWrite (now : Time) (credential : Option Claims) (db : Db) (i : Uuid) : Type 0 where
  pub auth : Authorized
  pub given : credential ≡ some auth.claims
  pub good : IsGood now db auth
  pub editor : is_editor auth.permission ≡ true
  pub item : DriveItem
  pub found : find db.items i ≡ some item
  pub live_item : item.is_deleted ≡ false
  pub below : Above db.items auth.root item

is_live :
    (db : Db) (i : Uuid) (it : DriveItem)
    → find db.items i ≡ some it
    → it.is_deleted ≡ false
    → live (get_by_id db i) ≡ some it
is_live db i it e here_ = ground arith

pub resolved :
    (auth : Authorized) (i : Uuid) (db : Db)
    → find db.items auth.root.id ≡ some auth.root
    → ((e : Error) × (resolve_in_subtree auth i db ≡ (err e, db)))
      ⊎ ((it : DriveItem) × (resolve_in_subtree auth i db ≡ (ok it, db))
          × ((find db.items i ≡ some it) × ((it.is_deleted ≡ false) × Above db.items auth.root it)))
unfolding resolve_in_subtree
resolved auth i db top = elim (Option-cases (find db.items i)) [
  | inl e ↦ inl (link_invalid, rw e)
  | inr (it, e) ↦ elim (Bool-cases it.is_deleted) [
    | inl gone ↦ inl (link_invalid, rw (e, gone))
    | inr here_ ↦ elim (Bool-cases (below_root max_depth db auth.root.id (some it))) [
      | inl yes_ ↦ inr (
        it,
        rw (is_live db i it e here_, yes_),
        (
          e,
          (
            here_,
            below_root-Above max_depth db auth.root it top
                (ap (find db.items) (find-id db.items i it e) ∙ e) yes_,
          ),
        ),
      )
      | inr out ↦ inl (link_invalid, rw (is_live db i it e here_, out))
    ]
  ]
]

pub live-found :
    (db : Db) (i : Uuid) (it : DriveItem)
    → live (get_by_id db i) ≡ some it
    → find db.items it.id ≡ some it
live-found db i it h = elim (Option-cases (find db.items i)) [
  | inl e ↦ absurd (ground (arith, h))
  | inr (x, e) ↦
      let eq : some x ≡ some it = ground (arith, h) in
      let found : find db.items i ≡ some it = e ∙ eq in
      ap (find db.items) (find-id db.items i it found) ∙ found
]
