-- ===== src/Share/Laws.antt =====
-- What sharing an item leaves in the table of shares.
use cloud_drive.Prelude.{
  ◌+◌, ◌≤◌, ◌≡◌, refl, ap, sym, ◌∙◌, inl, inr, true, ==_refl, ◌⊎◌, Text, ◌&&◌, Option, none, some,
  List, [], ◌∷◌, ◌++◌, arith, keep, length, ◌==◌, if◌then◌else◌, Bool-cases, Option-cases,
}
use mathlib.Core.Path.{subst}
use cloud_drive.Model.{
  Action, Uuid, Time, Permission, Share, User, Db, Error, not_found_error, forbidden_error,
  bad_operation,
}
use cloud_drive.Exec.{Result, ok, err, pure, continue, one_or_none, IsRefused, ◌>>◌}
use cloud_drive.Permission.{share_rows, get_by_item_and_user}
use cloud_drive.Permission.Best.{IsShareUnique}
use cloud_drive.Prefs.{log}
use cloud_drive.Exec.Steps.{step_required, step_refuse, step_query}
use cloud_drive.Items.{get_by_id}
use cloud_drive.Share.Removal.{the_row}
use cloud_drive.Share.{assert_owner, get_by_email, set_permission, put_share, share_item}

length-set_permission :
    (i item user : Uuid) (perm : Permission) (now : Time) (shares : List Share)
    → length (share_rows item user (set_permission i perm now shares))
      ≡ length (share_rows item user shares)
unfolding set_permission share_rows keep
length-set_permission i item user perm now [] = refl
length-set_permission i item user perm now (s ∷ shares) = elim (Bool-cases (s.id == i)) [
  | inl e ↦ ground (arith, length-set_permission i item user perm now shares)
  | inr e ↦ ground (arith, length-set_permission i item user perm now shares)
]

length-share_rows-append :
    (s : Share) (item user : Uuid) (shares : List Share)
    → length (share_rows item user (shares ++ s ∷ []))
      ≡ length (share_rows item user shares)
        + (if s.item_id == item && s.target_user_id == user then 1 else 0)
unfolding share_rows keep
length-share_rows-append s item user [] = ground arith
length-share_rows-append s item user (x ∷ shares) =
    ground (arith, length-share_rows-append s item user shares)

-- No share found: the table has none for the item and the user.
no_rows : (rows : List Share) → one_or_none rows ≡ ok none → length rows ≡ 0
unfolding one_or_none
no_rows [] h = refl
no_rows (x ∷ []) h = absurd (ground arith)
no_rows (x ∷ y ∷ rows) h = absurd (ground arith)

append_unique :
    (s : Share) (shares : List Share)
    → length (share_rows s.item_id s.target_user_id shares) ≡ 0
    → ((item user : Uuid) → length (share_rows item user shares) ≤ 1)
    → (item user : Uuid) → length (share_rows item user (shares ++ s ∷ [])) ≤ 1
append_unique s shares new unique item user =
    elim (Bool-cases (s.item_id == item && s.target_user_id == user)) [
      | inl same ↦
          let at : s.item_id ≡ item = ground arith in
          let to : s.target_user_id ≡ user = ground arith in
          let empty : length (share_rows item user shares) ≡ 0 =
            sym (ap (λ i. length (share_rows i user shares)) at)
            ∙ (sym (ap (λ u. length (share_rows s.item_id u shares)) to) ∙ new) in
          ground (arith, length-share_rows-append s item user shares)
      | inr other ↦ ground (arith, length-share_rows-append s item user shares, unique item user)
    ]

put_share-IsShareUnique :
    (new_id : Uuid) (now : Time) (owner item_id target : Uuid) (perm : Permission)
    (found : Option Share) (db : Db)
    → get_by_item_and_user item_id target db ≡ ok found
    → IsShareUnique db
    → IsShareUnique (put_share new_id now owner item_id target perm found db).1
unfolding put_share get_by_item_and_user
put_share-IsShareUnique new_id now owner item_id target perm (some s) db h unique item user =
    omega (arith, length-set_permission s.id item user perm now db.shares, unique item user)
put_share-IsShareUnique new_id now owner item_id target perm none db h unique item user =
    append_unique _ db.shares (no_rows (share_rows item_id target db.shares) h) unique item user

-- A change of a permission is no change of whose share it is.
share_rows-set_permission :
    (i item user : Uuid) (perm : Permission) (now : Time) (shares : List Share)
    → share_rows item user (set_permission i perm now shares)
      ≡ set_permission i perm now (share_rows item user shares)
unfolding set_permission share_rows keep
share_rows-set_permission i item user perm now [] = refl
share_rows-set_permission i item user perm now (s ∷ shares) = elim (Bool-cases (s.id == i)) [
  | inl e ↦ ground (arith, share_rows-set_permission i item user perm now shares)
  | inr e ↦ ground (arith, share_rows-set_permission i item user perm now shares)
]

share_rows-append :
    (s : Share) (item user : Uuid) (shares : List Share)
    → (s.item_id == item && s.target_user_id == user) ≡ true
    → share_rows item user (shares ++ s ∷ []) ≡ share_rows item user shares ++ s ∷ []
unfolding share_rows keep
share_rows-append s item user [] h = ground (arith, h)
share_rows-append s item user (x ∷ shares) h =
    ground (arith, share_rows-append s item user shares h)

nil_rows : (rows : List Share) → one_or_none rows ≡ ok none → rows ≡ []
unfolding one_or_none
nil_rows [] h = refl
nil_rows (x ∷ []) h = absurd (ground arith)
nil_rows (x ∷ y ∷ rows) h = absurd (ground arith)

-- The share that the call returns is the one that is found afterwards, with the permission asked for.
pub record IsShared (item_id target : Uuid) (perm : Permission) (r : Result Share × Db)
    : Type 0 where
  pub share : Share
  pub returned : r.0 ≡ ok share
  pub granted : share.permission ≡ perm
  pub found : get_by_item_and_user item_id target r.1 ≡ ok (some share)

put_share-IsShared :
    (new_id : Uuid) (now : Time) (owner item_id target : Uuid) (perm : Permission)
    (found : Option Share) (db : Db)
    → get_by_item_and_user item_id target db ≡ ok found
    → IsShared item_id target perm (put_share new_id now owner item_id target perm found db)
unfolding put_share get_by_item_and_user
put_share-IsShared new_id now owner item_id target perm (some s) db h = record {
  share = record s { permission = perm; updated_at = now };
  returned = refl;
  granted = refl;
  found =
      ap one_or_none (
        share_rows-set_permission s.id item_id target perm now db.shares
        ∙ ap (set_permission s.id perm now) (the_row (share_rows item_id target db.shares) s h))
      ∙ unfold set_permission one_or_none in rw (==_refl s.id);
}
put_share-IsShared new_id now owner item_id target perm none db h =
    let s : Share = record {
      id = new_id;
      item_id = item_id;
      owner_id = owner;
      target_user_id = target;
      permission = perm;
      created_at = now;
      updated_at = now;
    } in
    record {
      share = s;
      returned = refl;
      granted = refl;
      found =
          ap one_or_none (
            share_rows-append s item_id target db.shares
              (ground (arith, ==_refl item_id, ==_refl target))
            ∙ ap (λ rows. rows ++ s ∷ []) (nil_rows (share_rows item_id target db.shares) h))
          ∙ unfold one_or_none in refl;
    }

-- The entry of the log leaves the shares alone.
logged :
    (actor item_id : Uuid) (r : Result Share × Db)
    → (continue r.0 (λ s. log actor Action.share (some item_id) >> pure s) r.1).1.shares
      ≡ r.1.shares
unfolding log
logged actor item_id (ok s, db) = refl
logged actor item_id (err e, db) = refl

logged-IsShared :
    (actor item_id target : Uuid) (perm : Permission) (r : Result Share × Db)
    → IsShared item_id target perm r
    → IsShared item_id target perm
        (continue r.0 (λ s. log actor Action.share (some item_id) >> pure s) r.1)
unfolding log get_by_item_and_user
logged-IsShared actor item_id target perm (ok s, db) h = record {
  share = h.share;
  returned = h.returned;
  granted = h.granted;
  found = h.found;
}
logged-IsShared actor item_id target perm (err e, db) h = absurd (ground (arith, h.returned))

-- Where an item has one share at most with a user, sharing it leaves it so, and raises and changes
-- nothing, or returns the share that the item then has with the user of that address, new or there
-- before, with the permission asked for.
pub share_item-IsShared :
    (new_id : Uuid) (now : Time) (actor item_id : Uuid) (email : Text) (perm : Permission) (db : Db)
    → IsShareUnique db
    → let r = share_item new_id now actor item_id email perm db in
      IsShareUnique r.1
      × (IsRefused db r
          ⊎ ((target : User) × (get_by_email email db.users ≡ some target)
              × IsShared item_id target.id perm r))
unfolding share_item assert_owner
share_item-IsShared new_id now actor item_id email perm db unique =
    let Q : Result Share × Db → Type 0 = λ r.
      IsShareUnique r.1
      × (IsRefused db r
          ⊎ ((target : User) × (get_by_email email db.users ≡ some target)
              × IsShared item_id target.id perm r)) in
    let bad : (e : Error) → Q (err e, db) = λ e. (unique, inl (e, refl)) in
    elim (Option-cases (get_by_id db item_id)) [
      | inl e ↦ rw e (bad not_found_error)
      | inr (it, e) ↦ elim (Bool-cases (it.owner_id == actor)) [
        | inr no_ ↦ rw (e, no_) (bad forbidden_error)
        | inl own ↦
            rw (e, own)
              (step_required Q db not_found_error (get_by_email email db.users) _ (λ _. bad _)
                λ target known.
                  step_refuse Q db bad_operation (target.id == actor) _ (λ _. bad _)
                    λ _.
                      step_query Q db (get_by_item_and_user item_id target.id db) _ (λ e _. bad e)
                        λ found eq.
                          let put = put_share new_id now actor item_id target.id perm found db in
                          (
                            λ item user.
                                subst (λ shares. length (share_rows item user shares) ≤ 1)
                                  (sym (logged actor item_id put))
                                  (put_share-IsShareUnique new_id now actor item_id target.id perm
                                    found db eq unique item user),
                            inr (
                              target,
                              known,
                              logged-IsShared actor item_id target.id perm put (
                                  put_share-IsShared new_id now actor item_id target.id perm found
                                    db eq),
                            ),
                          ))
      ]
    ]
