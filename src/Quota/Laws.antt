-- ===== src/Quota/Laws.antt =====
-- The account of a user after a change, and what the check of space finds.
use cloud_drive.Prelude.{
  ℕ, ◌+◌, ◌≤◌, ◌≡◌, inl, inr, none, some, List, [], ◌∷◌, arith, ◌==◌, Bool-cases, Option-cases,
  if◌then◌else◌,
}
use cloud_drive.Model.{Uuid, Time, User, Db}
use cloud_drive.Exec.{ok}
use cloud_drive.Quota.{find_user, update_used, assert_has_space}

pub find_user-update_used :
    (now : Time) (i j : Uuid) (f : ℕ → ℕ) (users : List User)
    → find_user (update_used now i f users) j ≡ (
        if i == j
        then elim (find_user users j) [
          | none ↦ none
          | some u ↦ some (record u { used_bytes = f u.used_bytes; updated_at = now })
        ]
        else find_user users j)
unfolding find_user update_used
find_user-update_used now i j f [] = ground arith
find_user-update_used now i j f (u ∷ users) = elim (Bool-cases (u.id == i)) [
  | inl e ↦ elim (Bool-cases (u.id == j)) [
    | inl d ↦ ground (arith, find_user-update_used now i j f users)
    | inr d ↦ ground (arith, find_user-update_used now i j f users)
  ]
  | inr e ↦ elim (Bool-cases (u.id == j)) [
    | inl d ↦ ground (arith, find_user-update_used now i j f users)
    | inr d ↦ ground (arith, find_user-update_used now i j f users)
  ]
]

pub has_space :
    (i : Uuid) (n : ℕ) (db : Db)
    → assert_has_space i n db ≡ ok tt
    → (u : User) × (find_user db.users i ≡ some u) × (u.used_bytes + n ≤ u.quota_bytes)
unfolding assert_has_space
has_space i n db h = elim (Option-cases (find_user db.users i)) [
  | inl e ↦ absurd (ground arith)
  | inr (u, e) ↦ (u, e, ground arith)
]
