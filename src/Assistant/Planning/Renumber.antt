-- ===== src/Assistant/Planning/Renumber.antt =====
-- The lemmas on the steps that go over into the second plan.
use cloud_drive.Prelude.{
  ℕ, zero, suc, ◌+◌, ◌<◌, ◌≤◌, ◌≡◌, refl, inl, inr, false, none, some, List, [], ◌∷◌, length,
  length-append, ◌++◌, All, IfSome, IfSome-some, subst, arith, any, ◌==◌, Bool-cases, Option-cases,
}
use mathlib.Core.List.{append_assoc}
use cloud_drive.Exec.{Result, ok, err, bind_result, Ensures, Ensures-ok}
use cloud_drive.Assistant.Value.{ℤ, pos, negsuc}
use cloud_drive.Assistant.Steps.{
  Registry, RegisteredSkill, get, PlannedStep, WorkflowStep, is_bad_dependency, classified,
  classify_from, classify_steps,
}
use cloud_drive.Assistant.Planning.{
  position_from, position, renumber_deps, renumber_step, planned_at, renumber_each, renumber_kept,
}

-- Increasing numbers from `n` on.
abbrev pub IsIncreasing : ℕ → List ℕ → Type 0
IsIncreasing n [] = Unit
IsIncreasing n (k ∷ ks) = (n ≤ k) × IsIncreasing (suc k) ks

position_from-below :
    (i n lo : ℕ) (ks : List ℕ) → i < lo → IsIncreasing lo ks → position_from i n ks ≡ none
unfolding position_from
position_from-below i n lo [] lt h = refl
position_from-below i n lo (k ∷ ks) lt h =
    let other : (k == i) ≡ false = ground arith in
    rw other (position_from-below i (suc n) (suc k) ks (omega (arith, lt, h.0)) h.1)

-- A number below those of `olds` stands before them, if it is kept.
position_from-append :
    (i n lo : ℕ) (before olds : List ℕ)
    → i < lo
    → IsIncreasing lo olds
    → IfSome (λ p. p < n + length before) (position_from i n (before ++ olds))
unfolding position_from
position_from-append i n lo [] olds lt h = rw (position_from-below i n lo olds lt h, IfSome) tt
position_from-append i n lo (k ∷ before) olds lt h = elim (Bool-cases (k == i)) [
  | inl e ↦ rw (e, IfSome) (omega arith)
  | inr e ↦
      let more = position_from-append i (suc n) lo before olds lt h in
      rw (e, IfSome)
        (subst (λ b. IfSome (λ p. p < b) (position_from i (suc n) (before ++ olds))) (omega arith)
          more)
]

renumber_deps-good :
    (lo : ℕ) (before olds : List ℕ)
    → IsIncreasing lo olds
    → (ds : List ℤ) → any (is_bad_dependency lo) ds ≡ false
    → any (is_bad_dependency (length before)) (renumber_deps (before ++ olds) ds) ≡ false
unfolding any is_bad_dependency renumber_deps position
renumber_deps-good lo before olds h [] g = refl
renumber_deps-good lo before olds h (pos d ∷ ds) g =
    let more = renumber_deps-good lo before olds h ds (ground arith) in
    let place = position_from-append d 0 lo before olds (ground arith) h in
    elim (Option-cases (position_from d 0 (before ++ olds))) [
      | inl e ↦ rw (e, renumber_deps) more
      | inr (p, e) ↦
          let lt = IfSome-some (λ q. q < 0 + length before) _ p e place in
          rw (e, renumber_deps) (ground (arith, more, lt))
    ]
renumber_deps-good lo before olds h (negsuc d ∷ ds) g = absurd (ground arith)

-- A planned step that may stand at number `n`.
abbrev pub IsFit : Registry → ℕ → PlannedStep → Type 0
IsFit registry n p =
    ((skill : RegisteredSkill) × (get p.skill registry ≡ some skill))
    × (any (is_bad_dependency n) p.depends_on ≡ false)

abbrev pub IsAllFit : Registry → ℕ → List PlannedStep → Type 0
IsAllFit registry n [] = Unit
IsAllFit registry n (p ∷ ps) = IsFit registry n p × IsAllFit registry (suc n) ps

pub fit-classify_from :
    (registry : Registry) (n : ℕ) (ps : List PlannedStep)
    → IsAllFit registry n ps
    → (steps : List WorkflowStep) × (classify_from registry n ps ≡ ok steps)
unfolding classify_from
fit-classify_from registry n [] h = ([], refl)
fit-classify_from registry n (p ∷ ps) h =
    let (skill, found) = h.0.0 in
    let (steps, e) = fit-classify_from registry (suc n) ps h.1 in
    (classified n p skill ∷ steps, rw (found, h.0.1, e, classify_from) refl)

IsAllFit-cons :
    (registry : Registry) (n : ℕ) (p : PlannedStep) (ps : List PlannedStep) (s : WorkflowStep)
    → IsFit registry n p
    → (r : Result (List WorkflowStep)) → Ensures (λ steps. IsAllFit registry (suc n) ps) r
    → Ensures (λ steps. IsAllFit registry n (p ∷ ps)) (bind_result r (λ steps. ok (s ∷ steps)))
IsAllFit-cons registry n p ps s fit (err e) h = tt
IsAllFit-cons registry n p ps s fit (ok steps) h = (fit, h)

pub classify_from-fit :
    (registry : Registry) (n : ℕ) (ps : List PlannedStep)
    → Ensures (λ steps. IsAllFit registry n ps) (classify_from registry n ps)
unfolding classify_from
classify_from-fit registry n [] = tt
classify_from-fit registry n (p ∷ ps) = elim (Option-cases (get p.skill registry)) [
  | inl e ↦ rw (e, Ensures) tt
  | inr (skill, e) ↦ elim (Bool-cases (any (is_bad_dependency n) p.depends_on)) [
    | inl bad ↦ rw (e, bad, Ensures) tt
    | inr good ↦
        rw (e, good, Ensures)
          (IsAllFit-cons registry n p ps _ ((skill, e), good) _
            (classify_from-fit registry (suc n) ps))
  ]
]

planned_at-IsFit :
    (registry : Registry) (n i : ℕ) (ps : List PlannedStep)
    → IsAllFit registry n ps
    → i < length ps
    → (p : PlannedStep) × (planned_at i ps ≡ some p) × IsFit registry (n + i) p
unfolding planned_at
planned_at-IsFit registry n i [] h lt = absurd (omega (arith, lt))
planned_at-IsFit registry n zero (p ∷ ps) h lt =
    (p, refl, subst (λ m. IsFit registry m p) (omega arith) h.0)
planned_at-IsFit registry n (suc i) (p ∷ ps) h lt =
    let (q, found, fit) = planned_at-IsFit registry (suc n) i ps h.1 (omega (arith, lt)) in
    (q, found, subst (λ m. IsFit registry m q) (omega arith) fit)

renumber_each-fit :
    (registry : Registry) (planned : List PlannedStep) (lo : ℕ) (before olds : List ℕ)
    → IsAllFit registry 0 planned
    → IsIncreasing lo olds
    → All (λ i. i < length planned) olds
    → (fresh : List PlannedStep) × (renumber_each planned (before ++ olds) olds ≡ ok fresh)
      × IsAllFit registry (length before) fresh
unfolding renumber_each
renumber_each-fit registry planned lo before [] fits h inside = ([], refl, tt)
renumber_each-fit registry planned lo before (old ∷ olds) fits h inside =
    let (p, found, fit) = planned_at-IsFit registry 0 old planned fits inside.0 in
    let kept = before ++ old ∷ olds in
    let (fresh, e, rest) =
      renumber_each-fit registry planned (suc old) (before ++ old ∷ []) olds fits h.1 inside.1 in
    let same : before ++ old ∷ [] ++ olds ≡ kept = append_assoc before (old ∷ []) olds in
    let e' : renumber_each planned kept olds ≡ ok fresh =
      subst (λ ks. renumber_each planned ks olds ≡ ok fresh) same e in
    let size : length (before ++ old ∷ []) ≡ suc (length before) =
      omega (arith, length-append before (old ∷ [])) in
    let here : any (is_bad_dependency old) p.depends_on ≡ false =
      subst (λ m. any (is_bad_dependency m) p.depends_on ≡ false) (omega arith) fit.1 in
    (
      renumber_step kept p ∷ fresh,
      rw (found, e', renumber_each) refl,
      (
        (fit.0, renumber_deps-good old before (old ∷ olds) (omega arith, h.1) p.depends_on here),
        subst (λ m. IsAllFit registry m fresh) size rest,
      ),
    )

-- When a plan passes the classification and only some of its steps are kept, in their order, then the
-- renumbering of those steps succeeds and gives a plan that passes the classification too: no dependency
-- points at a step that was left out, at a later one or at the step itself.
pub renumber_kept-classify_steps :
    (registry : Registry) (planned : List PlannedStep) (steps : List WorkflowStep) (kept : List ℕ)
    → classify_steps registry planned ≡ ok steps
    → IsIncreasing 0 kept
    → All (λ i. i < length planned) kept
    → (fresh : List PlannedStep) × (renumber_kept planned kept ≡ ok fresh)
      × ((out : List WorkflowStep) × (classify_steps registry fresh ≡ ok out))
unfolding classify_steps renumber_kept
renumber_kept-classify_steps registry planned steps kept h order inside =
    let fits =
      Ensures-ok (λ s. IsAllFit registry 0 planned) _ steps h
        (classify_from-fit registry 0 planned) in
    let (fresh, e, fit) = renumber_each-fit registry planned 0 [] kept fits order inside in
    (fresh, e, fit-classify_from registry 0 fresh fit)
