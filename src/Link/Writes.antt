-- ===== src/Link/Writes.antt =====
-- What the writes of a guest change.
use cloud_drive.Prelude.{
  ◌≡◌, refl, ◌⊎◌, inl, inr, ℕ, Text, Option, none, some, true, List, ◌==◌, subst, Bool-cases,
  Option-cases,
}
use cloud_drive.Model.{Uuid, Time, DriveItem, is_folder, Db, bad_operation, Error}
use cloud_drive.Exec.{Result, ok, err, Exec, continue, ◌>>=◌, ◌>>◌}
use cloud_drive.Exec.Steps.{step_guard, step_refuse}
use cloud_drive.Items.{find}
use cloud_drive.Items.Rows.{find-id}
use cloud_drive.Items.Written.{IsWritten, Wrote}
use cloud_drive.Drive
use cloud_drive.Drive.Writes.{
  LiesIn, LiesAsIn, IsTrashed, create_folder-Wrote, rename-Wrote, move-Wrote, trash_item-Wrote,
}
use cloud_drive.Upload.{upload_simple}
use cloud_drive.Upload.Writes.{upload_simple-Wrote}
use cloud_drive.Trash.{trash_item}
use cloud_drive.Link.{
  Claims, Authorized, authorize, is_editor, resolve_in_subtree, assert_can_edit, reload,
  create_folder, rename, move, trash, upload,
}
use cloud_drive.Link.Throttle.{IsGood, authorize-IsGood}
use cloud_drive.Link.Subtree.{MayWrite, resolved, live-found}

-- No row changed, or the guest may write the item `i` and only the row `w` changed, which then has a
-- property.
abbrev pub IsKept :
    {A : Type 0}
    → Time
    → Option Claims
    → Db
    → Uuid
    → Uuid
    → (DriveItem → Type 0)
    → Result A × Db
    → Type 0
IsKept now credential db i w P r =
    (r.1.items ≡ db.items) ⊎ (MayWrite now credential db i × IsWritten db.items w P r.1.items)

module _ {B : Type 0} (Q : Result B × Db → Type 0) (now : Time) (credential : Option Claims)
    (db : Db) (bad : (e : Error) → Q (err e, db)) where
  resolve_step :
      (i : Uuid) (auth : Authorized) (rest : DriveItem → Exec B)
      → credential ≡ some auth.claims
      → IsGood now db auth
      → is_editor auth.permission ≡ true
      → ((it : DriveItem) → it.id ≡ i → MayWrite now credential db i → Q (rest it db))
      → Q ((resolve_in_subtree auth i >>= rest) db)
  resolve_step i auth rest given good editor go =
      elim (resolved auth i db (live-found db good.link.item_id auth.root good.shares)) [
        | inl (e, eq) ↦ rw eq (bad e)
        | inr (it, eq, (found, (here_, below))) ↦ rw eq (
            go it (find-id db.items i it found) (record {
              auth = auth;
              given = given;
              good = good;
              editor = editor;
              item = it;
              found = found;
              live_item = here_;
              below = below;
            }))
      ]

  gate :
      (rest : Authorized → Exec B)
      → ((auth : Authorized)
          → credential ≡ some auth.claims
          → IsGood now db auth
          → is_editor auth.permission ≡ true
          → Q (rest auth db))
      → Q ((do auth ← authorize now credential; assert_can_edit auth; rest auth) db)
  gate rest go = elim (authorize-IsGood now credential db) [
    | inl e ↦ rw e (bad _)
    | inr (auth, eq, (given, good)) ↦ elim (Bool-cases (is_editor auth.permission)) [
      | inl edits ↦ rw (eq, edits) (go auth given good edits)
      | inr not_ ↦ rw (eq, not_) (bad _)
    ]
  ]

module _ (now : Time) (credential : Option Claims) (db : Db) (i w : Uuid) (P : DriveItem → Type 0)
    (may : MayWrite now credential db i) where
  -- What the operation of the owner wrote is what the guest's request wrote.
  allowed :
      (items : List DriveItem)
      → (items ≡ db.items) ⊎ IsWritten db.items w P items
      → (items ≡ db.items) ⊎ (MayWrite now credential db i × IsWritten db.items w P items)
  allowed items (inl same) = inl same
  allowed items (inr written) = inr (may, written)

  reloaded :
      {A : Type 0} (row : A → Uuid) (r : Result A × Db)
      → Wrote db w P r
      → IsKept now credential db i w P (continue r.0 (λ a. reload (row a)) r.1)
  unfolding reload
  reloaded row (ok a, after) h = elim (Option-cases (find after.items (row a))) [
    | inl gone ↦ rw gone (allowed after.items h)
    | inr (it, found) ↦ rw found (allowed after.items h)
  ]
  reloaded row (err e, after) h = allowed after.items h

  dropped :
      {A : Type 0} (r : Result A × Db)
      → Wrote db w P r
      → IsKept now credential db i w P (continue r.0 (λ _ s. (ok tt, s)) r.1)
  dropped (ok a, after) h = allowed after.items h
  dropped (err e, after) h = allowed after.items h

module _ (now : Time) (credential : Option Claims) (db : Db) where
  create_folder-IsKept :
      (p new_id : Uuid) (name : Text)
      → find db.items new_id ≡ none
      → IsKept now credential db p new_id (LiesIn p) (create_folder new_id now credential p name db)
  unfolding create_folder
  create_folder-IsKept p new_id name fresh =
      let Q : Result DriveItem × Db → Type 0 = IsKept now credential db p new_id (LiesIn p) in
      gate Q now credential db (λ _. inl refl) _
        λ auth given good editor.
          resolve_step Q now credential db (λ _. inl refl) p auth _ given good editor
            λ it same may.
              step_guard Q db bad_operation (is_folder it.item_type) _ (λ _. inl refl)
                λ _.
                  let r = Drive.create_folder new_id now auth.root.owner_id (some it.id) name db in
                  reloaded now credential db p new_id (LiesIn p) may (λ made. made.id) r
                    (subst (λ q. Wrote db new_id (LiesIn q) r) same
                      (create_folder-Wrote new_id now auth.root.owner_id it.id name db fresh))

  upload-IsKept :
      (p new_id : Uuid) (name : Text) (sha : List ℕ → ℕ) (blob_id version_id : Uuid)
      (content : List ℕ) (size : ℕ) (mime : Option Text)
      → find db.items new_id ≡ none
      → IsKept now credential db p new_id
          (LiesIn p)
          (upload sha new_id blob_id version_id now credential p name content size mime db)
  unfolding upload
  upload-IsKept p new_id name sha blob_id version_id content size mime fresh =
      let Q : Result DriveItem × Db → Type 0 = IsKept now credential db p new_id (LiesIn p) in
      gate Q now credential db (λ _. inl refl) _
        λ auth given good editor.
          resolve_step Q now credential db (λ _. inl refl) p auth _ given good editor
            λ it same may.
              step_guard Q db bad_operation (is_folder it.item_type) _ (λ _. inl refl)
                λ _.
                  let r =
                    upload_simple sha new_id blob_id version_id now auth.root.owner_id (some it.id)
                      name content size mime db in
                  reloaded now credential db p new_id (LiesIn p) may (λ made. made.id) r
                    (subst (λ q. Wrote db new_id (LiesIn q) r) same
                      (upload_simple-Wrote sha new_id blob_id version_id now auth.root.owner_id
                        it.id name content size mime db fresh))

  rename-IsKept :
      (i : Uuid) (name : Text)
      → IsKept now credential db i i (LiesAsIn db) (rename now credential i name db)
  unfolding rename
  rename-IsKept i name =
      let Q : Result DriveItem × Db → Type 0 = IsKept now credential db i i (LiesAsIn db) in
      gate Q now credential db (λ _. inl refl) _
        λ auth given good editor.
          resolve_step Q now credential db (λ _. inl refl) i auth _ given good editor
            λ it same may.
              let r = Drive.rename now auth.root.owner_id it.id name db in
              reloaded now credential db i i (LiesAsIn db) may (λ _. it.id) r
                (subst (λ q. Wrote db q (LiesAsIn db) r) same
                  (rename-Wrote now auth.root.owner_id it.id name db))

  move-IsKept :
      (i p : Uuid)
      → IsKept now credential db i i (LiesIn p) (move now credential i p db)
        × IsKept now credential db p i (LiesIn p) (move now credential i p db)
  unfolding move
  move-IsKept i p =
      let Q : Result DriveItem × Db → Type 0 = λ r.
        IsKept now credential db i i (LiesIn p) r × IsKept now credential db p i (LiesIn p) r in
      let bad : (e : Error) → Q (err e, db) = λ _. (inl refl, inl refl) in
      gate Q now credential db bad _ λ auth given good editor.
        resolve_step Q now credential db bad i auth _ given good editor λ it same may.
          resolve_step Q now credential db bad p auth _ given good editor λ to there may_too.
            step_guard Q db bad_operation (is_folder to.item_type) _ (λ _. bad bad_operation)
              λ _.
                let r = Drive.move now auth.root.owner_id it.id (some to.id) db in
                let wrote : Wrote db i (LiesIn p) r =
                  subst (λ q. Wrote db q (LiesIn p) r) same
                    (subst (λ q. Wrote db it.id (LiesIn q) r) there
                      (move-Wrote now auth.root.owner_id it.id to.id db)) in
                (
                  reloaded now credential db i i (LiesIn p) may (λ _. it.id) r wrote,
                  reloaded now credential db p i (LiesIn p) may_too (λ _. it.id) r wrote,
                )

  trash-IsKept :
      (i : Uuid) → IsKept now credential db i i (IsTrashed db) (trash now credential i db)
  unfolding trash
  trash-IsKept i =
      let Q : Result (Unit {0}) × Db → Type 0 = IsKept now credential db i i (IsTrashed db) in
      gate Q now credential db (λ _. inl refl) _
        λ auth given good editor.
          resolve_step Q now credential db (λ _. inl refl) i auth _ given good editor
            λ it same may.
              step_refuse Q db bad_operation (it.id == auth.root.id) _ (λ _. inl refl)
                λ _.
                  let r = trash_item now auth.root.owner_id it.id db in
                  dropped now credential db i i (IsTrashed db) may r (
                    subst (λ q. Wrote db q (IsTrashed db) r) same
                      (trash_item-Wrote now auth.root.owner_id it.id db))

-- Whatever a guest does with a credential, if a new id is not that of a row: each write leaves the items
-- as they were, or the link is accepted now and lets its holder edit, and one row changes. A new
-- folder or file lies in the folder asked for, which is in the shared tree; a renamed item is in the
-- shared tree and stays in its folder; a moved item is in it and lies in the destination, which is in
-- it too; a trashed item is in it, stays in its folder and is marked as deleted.
pub writes-MayWrite :
    (now : Time) (credential : Option Claims) (db : Db) (i p new_id : Uuid) (name : Text)
    (sha : List ℕ → ℕ) (blob_id version_id : Uuid) (content : List ℕ) (size : ℕ)
    (mime : Option Text)
    → find db.items new_id ≡ none
    → IsKept now credential db p new_id (LiesIn p) (create_folder new_id now credential p name db)
      × IsKept now credential db p new_id
          (LiesIn p)
          (upload sha new_id blob_id version_id now credential p name content size mime db)
      × IsKept now credential db i i (LiesAsIn db) (rename now credential i name db)
      × (IsKept now credential db i i (LiesIn p) (move now credential i p db)
          × IsKept now credential db p i (LiesIn p) (move now credential i p db))
      × IsKept now credential db i i (IsTrashed db) (trash now credential i db)
writes-MayWrite now credential db i p new_id name sha blob_id version_id content size mime fresh = (
  create_folder-IsKept now credential db p new_id name fresh,
  upload-IsKept now credential db p new_id name sha blob_id version_id content size mime fresh,
  rename-IsKept now credential db i name,
  move-IsKept now credential db i p,
  trash-IsKept now credential db i,
)
