-- ===== src/Drive/Cycles.antt =====
-- The lemmas on the test for a cycle.
use cloud_drive.Prelude.{
  ℕ, zero, suc, ◌+◌, ◌<◌, ◌≡◌, refl, ap, ◌⊎◌, inl, inr, Bool, true, false, Option, none, some, List,
  [], ◌∷◌, arith, mem, length, ◌==◌, Bool-cases, Option-cases,
}
use cloud_drive.Model.{Uuid, DriveItem, is_folder, Db}
use cloud_drive.Exec.{Result, ok}
use cloud_drive.Items.{find}
use cloud_drive.Tree.{
  Walk, root, up, IsForest, depth, above, depth-above, depth-eq, depth-le, parent_of,
  parent_or_none, Avoids, stop, past,
}
use cloud_drive.Tree.Shape.{FolderParents}
use cloud_drive.Drive.{descendant_loop, is_descendant_or_self}

module _ (db : Db) (c : Uuid) where
  -- All ids seen so far lie below the walk that is left.
  abbrev SeenBelow : ℕ → List Uuid → Type 0
  SeenBelow n seen = (j : Uuid) → mem j seen ≡ true → (v : Walk db.items (some j)) → n < depth v

  SeenBelow-cons :
      (i : Uuid) (w : Walk db.items (some i)) (seen : List Uuid)
      → SeenBelow (depth w) seen
      → SeenBelow (depth (above w)) (i ∷ seen)
  unfolding mem
  SeenBelow-cons i w seen h j m v = elim (Bool-cases (j == i)) [
    | inl e ↦ omega (arith, depth-above w, depth-eq w v (ground arith))
    | inr e ↦ omega (arith, depth-above w, h j (ground arith) v)
  ]

  Answer : Result Bool → Option Uuid → Type 0
  Answer r o = (r ≡ ok true) ⊎ ((r ≡ ok false) × Avoids db.items c o)

  -- One step up, where the row is not the candidate.
  Answer-up :
      (fuel : ℕ) (seen : List Uuid) (i : Uuid) (it : DriveItem)
      → (i == c) ≡ false
      → parent_of db.items i ≡ it.parent_id
      → Answer (descendant_loop fuel db c (i ∷ seen) (parent_of db.items i)) (parent_of db.items i)
      → Answer (descendant_loop fuel db c (i ∷ seen) it.parent_id) (some i)
  unfolding Answer
  Answer-up fuel seen i it ne same a = elim a [
    | inl e ↦ inl (rw (← same) e)
    | inr (e, av) ↦ inr (rw (← same) e, past {i = i} (ground arith) av)
  ]

  loop-Answer :
      (fuel : ℕ) (seen : List Uuid) {o : Option Uuid} (w : Walk db.items o)
      → depth w < fuel
      → SeenBelow (depth w) seen
      → Answer (descendant_loop fuel db c seen o) o
  unfolding descendant_loop Answer
  loop-Answer zero seen w h below = absurd (omega arith)
  loop-Answer (suc fuel) seen root h below = inr (refl, stop)
  loop-Answer (suc fuel) seen (up {i} w) h below = elim (Bool-cases (i == c)) [
    | inl e ↦ inl (rw e)
    | inr ne ↦ elim (Bool-cases (mem i seen)) [
      | inl e ↦ absurd (omega (arith, below i e (up w)))
      | inr fresh ↦
          rw (ne, fresh)
            (elim (Option-cases (find db.items i)) [
              | inl e ↦
                  rw e (inr (refl, past {i = i} (ground arith) (unfold parent_of in rw e stop)))
              | inr (it, e) ↦
                  let same : parent_of db.items i ≡ it.parent_id = unfold parent_of in rw e in
                  let v : Walk db.items (parent_of db.items i) = above (up w) in
                  let ih =
                    loop-Answer fuel (i ∷ seen) v (omega (arith, depth-above (up w)))
                      (SeenBelow-cons i (up w) seen below) in
                  rw e (Answer-up fuel seen i it ne same ih)
            ])
    ]
  ]

  -- In a forest of items the test returns, and a no means that the walk from the target to the root does
  -- not meet the candidate.
  pub descendant-Answer :
      (forest : IsForest db.items) (target : Uuid)
      → (is_descendant_or_self c target db ≡ ok true)
        ⊎ ((is_descendant_or_self c target db ≡ ok false) × Avoids db.items c (some target))
  unfolding is_descendant_or_self Answer mem
  descendant-Answer forest target =
      loop-Answer (length db.items + 3) [] (forest target) (omega (arith, depth-le (forest target)))
        (λ j m v. absurd (ground arith))

  -- A walk through folders does not meet a file.
  pub Avoids-file :
      {o : Option Uuid} (it : DriveItem)
      → find db.items c ≡ some it
      → is_folder it.item_type ≡ false
      → FolderParents db.items
      → ((p : Uuid) (f : DriveItem)
          → o ≡ some p
          → find db.items p ≡ some f
          → is_folder f.item_type ≡ true)
      → Walk db.items o
      → Avoids db.items c o
  unfolding parent_of
  Avoids-file it found isf folders fits root = stop
  Avoids-file it found isf folders fits (up {i} w) =
      past {i = i} (λ e. absurd (ground (arith, ap (find db.items) e, fits i it refl)))
        (Avoids-file it found isf folders
          (λ p f e there. next p f e there (Option-cases (find db.items i))) w)
    where
      next :
          (p : Uuid) (f : DriveItem)
          → parent_or_none (find db.items i) ≡ some p
          → find db.items p ≡ some f
          → (find db.items i ≡ none) ⊎ ((a : DriveItem) × (find db.items i ≡ some a))
          → is_folder f.item_type ≡ true
      next p f e there (inl gone) = absurd (ground arith)
      next p f e there (inr (a, ea)) = folders i p a f ea (ground arith) there
