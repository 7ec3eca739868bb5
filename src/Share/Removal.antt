-- ===== src/Share/Removal.antt =====
-- What removing a share leaves.
use cloud_drive.Prelude.{
  ◌≡◌, refl, ap, ◌∙◌, ◌⊎◌, inl, inr, Bool, not, none, some, List, [], ◌∷◌, keep, arith, ◌==◌,
  ==_refl, Bool-cases, Option-cases,
}
use cloud_drive.Model.{Uuid, Share, Db, not_found_error, forbidden_error}
use cloud_drive.Exec.{Result, ok, one_or_none, IsRefused}
use cloud_drive.Exec.Steps.{step_query, step_required}
use cloud_drive.Items.{get_by_id}
use cloud_drive.Prefs.{log}
use cloud_drive.Permission.{share_rows, get_by_item_and_user}
use cloud_drive.Share.{assert_owner, delete_share, remove_share}

keep_swap :
    (p q : Share → Bool) (shares : List Share) → keep p (keep q shares) ≡ keep q (keep p shares)
unfolding keep
keep_swap p q [] = refl
keep_swap p q (s ∷ shares) = elim (Bool-cases (p s)) [
  | inl a ↦ elim (Bool-cases (q s)) [
    | inl b ↦ ground (arith, keep_swap p q shares)
    | inr b ↦ ground (arith, keep_swap p q shares)
  ]
  | inr a ↦ elim (Bool-cases (q s)) [
    | inl b ↦ ground (arith, keep_swap p q shares)
    | inr b ↦ ground (arith, keep_swap p q shares)
  ]
]

pub the_row : (rows : List Share) (s : Share) → one_or_none rows ≡ ok (some s) → rows ≡ s ∷ []
unfolding one_or_none
the_row [] s h = absurd (ground arith)
the_row (x ∷ []) s h = ground arith
the_row (x ∷ y ∷ rows) s h = absurd (ground arith)

removed :
    (item target : Uuid) (s : Share) (db : Db)
    → get_by_item_and_user item target db ≡ ok (some s)
    → get_by_item_and_user item target (delete_share s.id db).1 ≡ ok none
unfolding get_by_item_and_user delete_share share_rows
removed item target s db h =
    ap one_or_none (
      keep_swap _ (λ x. not (x.id == s.id)) db.shares
      ∙ ap (keep (λ x. not (x.id == s.id))) (the_row (share_rows item target db.shares) s h))
    ∙ unfold keep one_or_none in rw (==_refl s.id)

-- Removing a share raises and nothing changes, or it returns and the item has no share with that
-- user any more.
pub remove_share-none :
    (actor item_id target : Uuid) (db : Db)
    → let r = remove_share actor item_id target db in
      IsRefused db r ⊎ ((r.0 ≡ ok tt) × (get_by_item_and_user item_id target r.1 ≡ ok none))
unfolding remove_share assert_owner log get_by_item_and_user delete_share
remove_share-none actor item_id target db =
    let Q : Result (Unit {0}) × Db → Type 0 =
      λ r. IsRefused db r ⊎ ((r.0 ≡ ok tt) × (get_by_item_and_user item_id target r.1 ≡ ok none)) in
    elim (Option-cases (get_by_id db item_id)) [
      | inl e ↦ inl (not_found_error, rw e)
      | inr (it, e) ↦ elim (Bool-cases (it.owner_id == actor)) [
        | inr no_ ↦ inl (forbidden_error, rw (e, no_))
        | inl own ↦
            rw (e, own)
              (step_query Q db (get_by_item_and_user item_id target db) _ (λ bad _. inl (bad, refl))
                λ found eq.
                  step_required Q db not_found_error found _ (λ _. inl (not_found_error, refl))
                    λ s at. inr (refl, removed item_id target s db (eq ∙ ap ok at)))
      ]
    ]
