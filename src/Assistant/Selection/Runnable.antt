-- ===== src/Assistant/Selection/Runnable.antt =====
-- The numbers and dependencies of the steps while a selection is resolved.
use cloud_drive.Prelude.{
  ℕ, zero, suc, ◌+◌, ◌≤◌, ◌<◌, ◌≡◌, refl, subst, inl, inr, false, none, some, List, [], ◌∷◌, ◌++◌,
  map, All, IfSome, IfSome-some, length, arith, any, ◌==◌, any-append, Bool-cases, Option-cases,
}
use cloud_drive.Assistant.Value.{ℤ, pos, negsuc, Fields, any_field, map_fields}
use cloud_drive.Assistant.Steps.{Registry, WorkflowStep, is_bad_dependency}
use cloud_drive.Assistant.Steps.Runnable.{IsRunnable}
use cloud_drive.Assistant.Selection.{
  Renumbering, find_new, new_numbers, remap_deps, selection_arguments, is_each, resolved_value,
  copies, single, expand_step, step_numbers, expand_steps, apply_selection,
}

-- Every step before number `k` has new numbers, all below `n`.
abbrev IsRenumbered : ℕ → ℕ → Renumbering → Type 0
IsRenumbered k n m =
    (i : ℕ) → i < k → (news : List ℕ) × (find_new i m ≡ some news) × All (λ x. x < n) news

-- Dependencies are good at `n`.
abbrev IsGood : ℕ → List ℤ → Type 0
IsGood n ds = any (is_bad_dependency n) ds ≡ false

IsGood-mono : (n k : ℕ) → n ≤ k → (ds : List ℤ) → IsGood n ds → IsGood k ds
unfolding any is_bad_dependency
IsGood-mono n k le [] h = refl
IsGood-mono n k le (pos d ∷ ds) h = ground (arith, IsGood-mono n k le ds)
IsGood-mono n k le (negsuc d ∷ ds) h = ground arith

IsGood-map : (n : ℕ) (news : List ℕ) → All (λ x. x < n) news → IsGood n (map pos news)
unfolding any is_bad_dependency
IsGood-map n [] h = refl
IsGood-map n (x ∷ xs) h = ground (arith, IsGood-map n xs h.1)

IsGood-append : (n : ℕ) (ds es : List ℤ) → IsGood n ds → IsGood n es → IsGood n (ds ++ es)
IsGood-append n ds es h k = rw (any-append (is_bad_dependency n) ds es, h, k) refl

remap_deps-IsGood :
    (k n : ℕ) (m : Renumbering)
    → IsRenumbered k n m
    → (ds : List ℤ) → IsGood k ds
    → IsGood n (remap_deps m ds)
unfolding any is_bad_dependency remap_deps new_numbers
remap_deps-IsGood k n m h [] g = refl
remap_deps-IsGood k n m h (pos d ∷ ds) g =
    let (news, found, below) = h d (ground arith) in
    rw (found, remap_deps)
      (IsGood-append n (map pos news) (remap_deps m ds) (IsGood-map n news below)
        (remap_deps-IsGood k n m h ds (ground arith)))
remap_deps-IsGood k n m h (negsuc d ∷ ds) g = absurd (ground arith)

copies-IsRunnable :
    (items : List Fields) (m : Renumbering) (s : WorkflowStep) (args : Fields) (n i index : ℕ)
    → IsGood index (remap_deps m s.depends_on)
    → IfSome (IsRunnable index) (copies items m s args n i index)
unfolding copies
copies-IsRunnable items m s args zero i index h = tt
copies-IsRunnable items m s args (suc n) i index h =
    let later = IsGood-mono index (suc index) (omega arith) (remap_deps m s.depends_on) h in
    let more = copies-IsRunnable items m s args n (suc i) (suc index) later in
    elim (Option-cases (map_fields (resolved_value items m (some i)) args)) [
      | inl e ↦ rw (e, IfSome) tt
      | inr (resolved, e) ↦ elim (Option-cases (copies items m s args n (suc i) (suc index))) [
        | inl f ↦ rw (e, f, IfSome) tt
        | inr (steps, f) ↦
            rw (e, f, IfSome) (refl, (h, IfSome-some (IsRunnable (suc index)) _ steps f more))
      ]
    ]

expand_step-IsRunnable :
    (registry : Registry) (items : List Fields) (m : Renumbering) (index : ℕ) (s : WorkflowStep)
    → IsGood index (remap_deps m s.depends_on)
    → IfSome (IsRunnable index) (expand_step registry items m index s)
unfolding expand_step single
expand_step-IsRunnable registry items m index s h =
    let args = selection_arguments registry s in
    elim (Bool-cases (any_field is_each args)) [
      | inl e ↦ rw (e, IfSome) (copies-IsRunnable items m s args (length items) 0 index h)
      | inr e ↦ elim (Option-cases (map_fields (resolved_value items m none) args)) [
        | inl f ↦ rw (e, f, IfSome) tt
        | inr (resolved, f) ↦ rw (e, f, IfSome) (refl, (h, tt))
      ]
    ]

All-below : (n k : ℕ) → n ≤ k → (xs : List ℕ) → All (λ x. x < n) xs → All (λ x. x < k) xs
All-below n k le [] h = tt
All-below n k le (x ∷ xs) h = (omega (arith, h.0), All-below n k le xs h.1)

step_numbers-below :
    (n : ℕ) (ss : List WorkflowStep)
    → IsRunnable n ss
    → All (λ x. x < n + length ss) (step_numbers ss)
step_numbers-below n [] h = tt
step_numbers-below n (s ∷ ss) h = (
  ground arith,
  All-below (suc n + length ss) (n + length (s ∷ ss)) (omega arith) _
      (step_numbers-below (suc n) ss h.1.1),
)

IsRunnable-append :
    (n : ℕ) (xs ys : List WorkflowStep)
    → IsRunnable n xs
    → IsRunnable (n + length xs) ys
    → IsRunnable n (xs ++ ys)
IsRunnable-append n [] ys h k = subst (λ i. IsRunnable i ys) (omega arith) k
IsRunnable-append n (x ∷ xs) ys h k =
    let rest : IsRunnable (suc n + length xs) ys = subst (λ i. IsRunnable i ys) (omega arith) k in
    (h.0, (h.1.0, IsRunnable-append (suc n) xs ys h.1.1 rest))

IsRenumbered-step :
    (k n : ℕ) (m : Renumbering) (s : WorkflowStep) (new : List WorkflowStep)
    → IsRenumbered k n m
    → s.index ≡ k
    → IsRunnable n new
    → IsRenumbered (suc k) (n + length new) ((s.index, step_numbers new) ∷ m)
unfolding find_new
IsRenumbered-step k n m s new h same run i lt = elim (Bool-cases (s.index == i)) [
  | inl e ↦ (step_numbers new, rw (e, find_new) refl, step_numbers-below n new run)
  | inr e ↦
      let (news, found, below) = h i (ground arith) in
      (news, rw (e, find_new) found, All-below n (n + length new) (omega arith) news below)
]

expand_steps-IsRunnable :
    (registry : Registry) (items : List Fields) (ss : List WorkflowStep) (k n : ℕ) (m : Renumbering)
    → IsRenumbered k n m
    → IsRunnable k ss
    → IfSome (IsRunnable n) (expand_steps registry items m n ss)
unfolding expand_steps
expand_steps-IsRunnable registry items [] k n m h run = tt
expand_steps-IsRunnable registry items (s ∷ ss) k n m h run =
    let now =
      expand_step-IsRunnable registry items m n s
        (remap_deps-IsGood k n m h s.depends_on run.1.0) in
    elim (Option-cases (expand_step registry items m n s)) [
      | inl e ↦ rw (e, IfSome) tt
      | inr (new, e) ↦
          let fits = IfSome-some (IsRunnable n) _ new e now in
          let after : Renumbering = (s.index, step_numbers new) ∷ m in
          let more =
            expand_steps-IsRunnable registry items ss (suc k) (n + length new) after
              (IsRenumbered-step k n m s new h run.0 fits) run.1.1 in
          elim (Option-cases (expand_steps registry items after (n + length new) ss)) [
            | inl f ↦ rw (e, f, IfSome) tt
            | inr (rest, f) ↦
                rw (e, f, IfSome)
                  (IsRunnable-append n new rest fits
                    (IfSome-some (IsRunnable (n + length new)) _ rest f more))
          ]
    ]

-- Resolving the user's selection in a workflow whose steps are numbered from 0 and depend on earlier steps
-- gives such a workflow again, however many copies of its steps it makes.
pub apply_selection-IsRunnable :
    (registry : Registry) (items : List Fields) (ss out : List WorkflowStep)
    → IsRunnable 0 ss
    → apply_selection ss items registry ≡ some out
    → IsRunnable 0 out
unfolding apply_selection
apply_selection-IsRunnable registry items ss out run e =
    IfSome-some (IsRunnable 0) _ out e
      (expand_steps-IsRunnable registry items ss 0 0 [] (λ i lt. absurd (omega (arith, lt))) run)
