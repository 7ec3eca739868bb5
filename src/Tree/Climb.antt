-- ===== src/Tree/Climb.antt =====
-- Walks from a row up to the root: a derivation, its length, and a bound by the number of rows.
use cloud_drive.Prelude.{
  ℕ, suc, ◌+◌, ◌≤◌, ◌<◌, ◌≡◌, refl, ap, ◌≢◌, inl, inr, Option, none, some, List, [], ◌∷◌, map,
  arith, length, In, here, there, Distinct, All, Option-cases, Bool-cases, is_some,
  length-le_of_Distinct, ◌==◌, if◌then◌else◌,
}
use cloud_drive.Model.{Uuid, DriveItem}
use cloud_drive.Items.{find}

abbrev pub parent_or_none : Option DriveItem → Option Uuid
parent_or_none none = none
parent_or_none (some it) = it.parent_id

-- The `parent_id` of the row; none if there is no row.
unfoldable pub parent_of : List DriveItem → Uuid → Option Uuid
parent_of items i = parent_or_none (find items i)

-- The walk from an optional id comes to an end.
pub data Walk (items : List DriveItem) : Option Uuid → Type 0 where
  root : Walk items none
  up : {i : Uuid} → Walk items (parent_of items i) → Walk items (some i)

-- No cycle: every walk ends.
abbrev pub IsForest : List DriveItem → Type 0
IsForest items = (i : Uuid) → Walk items (some i)

unfoldable pub depth : {items : List DriveItem} {o : Option Uuid} → Walk items o → ℕ
depth root = 0
depth (up w) = suc (depth w)

abbrev pub ids : List DriveItem → List Uuid
ids = map (λ it. it.id)

In-ids :
    (items : List DriveItem) (i : Uuid) (it : DriveItem) → find items i ≡ some it → In i (ids items)
unfolding find
In-ids [] i it h = absurd (ground arith)
In-ids (x ∷ items) i it h = elim (Bool-cases (x.id == i)) [
  | inl e ↦ here (ground arith)
  | inr e ↦ there (In-ids items i it (ground arith))
]

-- The walk after its first step.
pub above :
    {items : List DriveItem} {i : Uuid} → Walk items (some i) → Walk items (parent_of items i)
above (up w) = w

pub depth-above :
    {items : List DriveItem} {i : Uuid} (w : Walk items (some i)) → depth w ≡ suc (depth (above w))
unfolding depth above
depth-above (up w) = refl

-- Equal ids have equal depths.
pub depth-eq :
    {items : List DriveItem} {o p : Option Uuid} (v : Walk items o) (w : Walk items p)
    → o ≡ p
    → depth v ≡ depth w
unfolding depth
depth-eq root root e = refl
depth-eq root (up w) e = absurd (ground arith)
depth-eq (up v) root e = absurd (ground arith)
depth-eq {items} (up {i} v) (up {i = j} w) e =
    let same : i ≡ j = cc in ap suc (depth-eq v w (ap (parent_of items) same))

-- The rows that a walk visits.
chain : {items : List DriveItem} {o : Option Uuid} → Walk items o → List Uuid
chain root = []
chain {items} (up {i} w) = let rest = chain w in if is_some (find items i) then i ∷ rest else []

chain-In :
    {items : List DriveItem} {o : Option Uuid} (w : Walk items o)
    → All (λ y. In y (ids items)) (chain w)
unfolding chain
chain-In root = tt
chain-In {items} (up {i} w) = elim (Option-cases (find items i)) [
  | inl e ↦ rw e tt
  | inr (it, e) ↦ rw e (In-ids items i it e, chain-In w)
]

depth-le-chain :
    {items : List DriveItem} {o : Option Uuid} (w : Walk items o) → depth w ≤ length (chain w) + 1
unfolding chain depth
depth-le-chain root = omega arith
depth-le-chain {items} (up {i} w) = elim (Option-cases (find items i)) [
  | inl e ↦
      let stop : Walk items none = root in
      rw e (omega (arith, depth-eq w stop (unfold parent_of in rw e)))
  | inr (it, e) ↦ rw e (omega (arith, depth-le-chain w))
]

-- `y` is no deeper than `n`.
abbrev Below : List DriveItem → ℕ → Uuid → Type 0
Below items n y = (v : Walk items (some y)) × (depth v ≤ n)

chain-Below :
    {items : List DriveItem} {o : Option Uuid} (w : Walk items o) (n : ℕ)
    → depth w ≤ n
    → All (Below items n) (chain w)
unfolding chain depth
chain-Below root n h = tt
chain-Below {items} (up {i} w) n h = elim (Option-cases (find items i)) [
  | inl e ↦ rw e tt
  | inr (it, e) ↦ rw e ((up w, h), chain-Below w n (omega arith))
]

All-ne-Below :
    {items : List DriveItem} {i : Uuid} (w : Walk items (some i)) (n : ℕ) (ys : List Uuid)
    → n < depth w
    → All (Below items n) ys
    → All (λ y. i ≢ y) ys
All-ne-Below w n [] lt h = tt
All-ne-Below w n (y ∷ ys) lt h =
    (λ e. omega (arith, depth-eq w h.0.0 (ap some e), h.0.1), All-ne-Below w n ys lt h.1)

chain-Distinct : {items : List DriveItem} {o : Option Uuid} (w : Walk items o) → Distinct (chain w)
unfolding chain
chain-Distinct root = tt
chain-Distinct {items} (up {i} w) = elim (Option-cases (find items i)) [
  | inl e ↦ rw e tt
  | inr (it, e) ↦ rw e (
    All-ne-Below (up w) (depth w) (chain w) (unfold depth in omega arith)
        (chain-Below w (depth w) (omega arith)),
    chain-Distinct w,
  )
]

length-ids : (items : List DriveItem) → length (ids items) ≡ length items
length-ids [] = refl
length-ids (x ∷ items) = omega (arith, length-ids items)

-- A walk visits no row twice, so it has at most one step more than there are rows.
pub depth-le :
    {items : List DriveItem} {o : Option Uuid} (w : Walk items o) → depth w ≤ length items + 1
depth-le {items} w = omega (
  arith,
  depth-le-chain w,
  length-ids items,
  length-le_of_Distinct (chain w) (ids items) (chain-Distinct w) (chain-In w),
)
