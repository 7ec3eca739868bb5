-- ===== src/Snapshot/Retain.antt =====
-- The lemmas on pruning.
use cloud_drive.Prelude.{
  ℕ, ◌+◌, ◌≡◌, refl, ap, ◌∙◌, ◌⊎◌, inl, inr, Bool, true, false, not, ◌&&◌, ◌||◌, List, [], ◌∷◌,
  arith, keep, any, ltb, leb, ◌==◌, Bool-cases, any-append,
}
use mathlib.Core.List.{reverse, reverse-cons}
use cloud_drive.Model.{Uuid, Snapshot, SnapshotSettings, Db}
use cloud_drive.Exec.{Result, ok}
use cloud_drive.Snapshot.{
  is_exempt, is_pre_restore, of_user, delete_snapshot, used_snapshot_bytes, resolve_quota_bytes,
  prune_old, prune_quota, prune_over_quota, prune,
}

-- The rows of a snapshot.
unfoldable pub rows_of : Uuid → Db → List Snapshot
rows_of i db = keep (λ s. s.id == i) db.snapshots

keep-keep :
    (i j : Uuid) (snaps : List Snapshot)
    → (j == i) ≡ false
    → keep (λ s. s.id == i) (keep (λ s. not (s.id == j)) snaps) ≡ keep (λ s. s.id == i) snaps
unfolding keep
keep-keep i j [] h = refl
keep-keep i j (s ∷ snaps) h = elim (Bool-cases (s.id == j)) [
  | inl e ↦ ground (arith, keep-keep i j snaps h)
  | inr e ↦ elim (Bool-cases (s.id == i)) [
    | inl d ↦ ground (arith, keep-keep i j snaps h)
    | inr d ↦ ground (arith, keep-keep i j snaps h)
  ]
]

-- A snapshot that retention may delete.
abbrev is_open : Uuid → Snapshot → Bool
is_open i s = s.id == i && (not s.pinned && not (is_pre_restore s.trigger))

module _ (i : Uuid) where
  -- What a pass keeps: no survivor is new, and the rows of `i` stay.
  PassKeeps : List Snapshot → Db → Result (List Snapshot × ℕ) × Db → Type 0
  PassKeeps snaps db r =
      (kept : List Snapshot) × (n : ℕ) × (after : Db) × (r ≡ (ok (kept, n), after))
      × ((any (is_open i) kept ≡ false) × (rows_of i after ≡ rows_of i db))

  prune_old-PassKeeps :
      (k retention : ℕ) (snaps : List Snapshot) (db : Db)
      → any (is_open i) snaps ≡ false
      → PassKeeps snaps db (prune_old k retention snaps db)
  unfolding PassKeeps prune_old any delete_snapshot rows_of
  prune_old-PassKeeps k retention [] db h = ([], 0, db, refl, (refl, refl))
  prune_old-PassKeeps k retention (s ∷ snaps) db h =
      elim (Bool-cases (ltb k retention || is_exempt s)) [
        | inl stays ↦
            let (kept, n, after, e, (shut, same)) =
              prune_old-PassKeeps (k + 1) retention snaps db (ground arith) in
            (s ∷ kept, n, after, rw (stays, e), (ground arith, same))
        | inr goes ↦
            let (kept, n, after, e, (shut, same)) =
              prune_old-PassKeeps (k + 1) retention snaps (delete_snapshot s.id db).1
                (ground arith) in
            (
              kept,
              n + 1,
              after,
              rw (goes, e),
              (shut, same ∙ keep-keep i s.id db.snapshots (ground arith)),
            )
      ]

  prune_quota-rows :
      (user : Uuid) (quota : ℕ) (newest : Uuid) (snaps : List Snapshot) (db : Db)
      → (i == newest ≡ true) ⊎ (any (is_open i) snaps ≡ false)
      → (n : ℕ) × (after : Db) × (prune_quota user quota newest snaps db ≡ (ok n, after))
        × (rows_of i after ≡ rows_of i db)
  unfolding prune_quota any delete_snapshot rows_of
  prune_quota-rows user quota newest [] db h = (0, db, refl, refl)
  prune_quota-rows user quota newest (s ∷ snaps) db h =
      elim (Bool-cases (s.id == newest || is_exempt s)) [
        | inl stays ↦
            let (n, after, e, same) =
              prune_quota-rows user quota newest snaps db (rest s snaps newest h) in
            (n, after, rw stays e, same)
        | inr goes ↦ elim (Bool-cases (leb (used_snapshot_bytes user db) quota)) [
          | inl fits ↦ (0, db, rw (goes, fits), refl)
          | inr over ↦
              let (n, after, e, same) =
                prune_quota-rows user quota newest snaps (delete_snapshot s.id db).1
                  (rest s snaps newest h) in
              (
                n + 1,
                after,
                rw (goes, over, e),
                same ∙ keep-keep i s.id db.snapshots (other s snaps newest h goes),
              )
        ]
      ]
    where
      rest :
          (s : Snapshot) (snaps : List Snapshot) (newest : Uuid)
          → (i == newest ≡ true) ⊎ (any (is_open i) (s ∷ snaps) ≡ false)
          → (i == newest ≡ true) ⊎ (any (is_open i) snaps ≡ false)
      rest s snaps newest (inl e) = inl e
      rest s snaps newest (inr e) = inr (ground arith)

      other :
          (s : Snapshot) (snaps : List Snapshot) (newest : Uuid)
          → (i == newest ≡ true) ⊎ (any (is_open i) (s ∷ snaps) ≡ false)
          → (s.id == newest || is_exempt s) ≡ false
          → (s.id == i) ≡ false
      other s snaps newest (inl e) goes = ground arith
      other s snaps newest (inr e) goes = ground arith

  any-reverse :
      (p : Snapshot → Bool) (xs : List Snapshot) → any p xs ≡ false → any p (reverse xs) ≡ false
  unfolding any
  any-reverse p [] h = refl
  any-reverse p (x ∷ xs) h =
      ap (any p) (reverse-cons x xs)
      ∙ ground (arith, any-append p (reverse xs) (x ∷ []), any-reverse p xs)

  prune_over_quota-rows :
      (user : Uuid) (quota : ℕ) (newest : Snapshot) (snaps kept : List Snapshot) (db : Db)
      → (i == newest.id ≡ true) ⊎ (any (is_open i) kept ≡ false)
      → (n : ℕ) × (after : Db) × (prune_over_quota user quota (newest ∷ snaps) kept db
          ≡ (ok n, after))
        × (rows_of i after ≡ rows_of i db)
  unfolding prune_over_quota
  prune_over_quota-rows user quota newest snaps kept db h = elim (Bool-cases (ltb 0 quota)) [
    | inr off ↦ (0, db, rw off, refl)
    | inl on ↦
        let (n, after, e, same) =
          prune_quota-rows user quota newest.id (reverse kept) db (turned h) in
        (n, after, rw on e, same)
  ]
    where
      turned :
          (i == newest.id ≡ true) ⊎ (any (is_open i) kept ≡ false)
          → (i == newest.id ≡ true) ⊎ (any (is_open i) (reverse kept) ≡ false)
      turned (inl e) = inl e
      turned (inr e) = inr (any-reverse (is_open i) kept e)

  prune_over_quota-shut :
      (user : Uuid) (quota : ℕ) (snaps kept : List Snapshot) (db : Db)
      → any (is_open i) kept ≡ false
      → (n : ℕ) × (after : Db) × (prune_over_quota user quota snaps kept db ≡ (ok n, after))
        × (rows_of i after ≡ rows_of i db)
  prune_over_quota-shut user quota [] kept db h = (0, db, unfold prune_over_quota in refl, refl)
  prune_over_quota-shut user quota (s ∷ snaps) kept db h =
      prune_over_quota-rows user quota s snaps kept db (inr h)

  -- The snapshot is not one that retention may delete, or it is the user's newest and no other has its id.
  abbrev pub IsSafe : Uuid → ℕ → Db → Type 0
  IsSafe user retention db =
      (any (is_open i) (of_user user db) ≡ false)
      ⊎ ((s : Snapshot) × (rest : List Snapshot) × (of_user user db ≡ s ∷ rest)
          × (((i == s.id) ≡ true) × ((any (is_open i) rest ≡ false) × (ltb 0 retention ≡ true))))

  abbrev pub Pruned : Result ℕ × Db → Db → Type 0
  Pruned r db = (n : ℕ) × (after : Db) × (r ≡ (ok n, after)) × (rows_of i after ≡ rows_of i db)

  -- Pruning returns, and never deletes a snapshot that is pinned, made before a restore or of another
  -- user, nor the user's newest one where the number to keep is not 0: its rows are as they were.
  pub prune-Pruned :
      (user : Uuid) (settings : SnapshotSettings) (db : Db)
      → IsSafe user settings.retention_n db
      → Pruned (prune user settings db) db
  unfolding prune prune_old any PassKeeps
  prune-Pruned user settings db (inl safe) =
      let (kept, n, mid, e, (shut, same)) =
        prune_old-PassKeeps 0 settings.retention_n (of_user user db) db safe in
      let (m, after, e2, same2) =
        prune_over_quota-shut user (resolve_quota_bytes settings mid) (of_user user db) kept mid
          shut in
      (n + m, after, rw (e, e2), same2 ∙ same)
  prune-Pruned user settings db (inr (s, rest, list, (at, (safe, some_)))) =
      let (kept, n, mid, e, (shut, same)) =
        prune_old-PassKeeps 1 settings.retention_n rest db safe in
      let first : prune_old 0 settings.retention_n (s ∷ rest) db ≡ (ok (s ∷ kept, n), mid) =
        rw (some_, e) in
      let (m, after, e2, same2) =
        prune_over_quota-rows user (resolve_quota_bytes settings mid) s rest (s ∷ kept) mid
          (inl at) in
      (n + m, after, rw (list, first, e2), same2 ∙ same)
