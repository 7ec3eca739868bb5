-- ===== src/Assistant/Validate/Sound.antt =====
-- The lemmas on plans without problems and their classification.
use cloud_drive.Prelude.{
  ℕ, zero, suc, ◌+◌, ◌≡◌, refl, ◌⊎◌, inl, inr, subst, false, List, [], ◌∷◌, ◌++◌, Text, arith, any,
  length, Option-cases,
}
use cloud_drive.Exec.{Result, ok, Ensures, Ensures-ok, Result-cases}
use cloud_drive.Assistant.Value.{ℤ}
use cloud_drive.Assistant.Steps.{
  Registry, get, PlannedStep, WorkflowStep, is_bad_dependency, classify_steps,
}
use cloud_drive.Assistant.Planning.{PlanResult, reply_or}
use cloud_drive.Assistant.Planning.Renumber.{IsFit, IsAllFit, fit-classify_from, classify_from-fit}
use cloud_drive.Assistant.Validate.{
  PlanProblem, dependency_problems, step_problems, validate_from, validate_plan, ModelAnswer,
  plan_loop, plan,
}

append_nil {ℓ} : {A : Type ℓ} (xs ys : List A) → xs ++ ys ≡ [] → (xs ≡ []) × (ys ≡ [])
append_nil [] ys h = (refl, h)
append_nil (x ∷ xs) ys h = absurd (ground arith)

dependency_problems-good :
    (n : ℕ) (ds : List ℤ) → dependency_problems n ds ≡ [] → any (is_bad_dependency n) ds ≡ false
unfolding dependency_problems any
dependency_problems-good n [] h = refl
dependency_problems-good n (d ∷ ds) h = ground (arith, dependency_problems-good n ds)

step_problems-IsFit :
    (registry : Registry) (all_steps : List PlannedStep) (n : ℕ) (p : PlannedStep)
    → step_problems registry all_steps n p ≡ []
    → IsFit registry n p
unfolding step_problems
step_problems-IsFit registry all_steps n p = elim (Option-cases (get p.skill registry)) [
  | inl e ↦ rw (e, step_problems) (λ h. absurd (ground arith))
  | inr (skill, e) ↦
      rw (e, step_problems)
        (λ h. ((skill, refl), dependency_problems-good n p.depends_on (append_nil _ _ h).0))
]

validate_from-fit :
    (registry : Registry) (all_steps : List PlannedStep) (n : ℕ) (ps : List PlannedStep)
    → validate_from registry all_steps n ps ≡ []
    → IsAllFit registry n ps
unfolding validate_from
validate_from-fit registry all_steps n [] h = tt
validate_from-fit registry all_steps n (p ∷ ps) h =
    let (here, rest) = append_nil (step_problems registry all_steps n p) _ h in
    (
      step_problems-IsFit registry all_steps n p here,
      validate_from-fit registry all_steps (suc n) ps rest,
    )

validate_plan-fit :
    (registry : Registry) (preceding ps : List PlannedStep)
    → validate_plan registry preceding ps ≡ []
    → IsAllFit registry (length preceding) ps
unfolding validate_plan
validate_plan-fit registry preceding ps h =
    validate_from-fit registry (preceding ++ ps) (length preceding) ps h

List-cases {ℓ} : {A : Type ℓ} (xs : List A) → (xs ≡ []) ⊎ ((y : A) × (ys : List A) × (xs ≡ y ∷ ys))
List-cases [] = inl refl
List-cases (x ∷ xs) = inr (x, xs, refl)

IsAllFit-append :
    (registry : Registry) (n : ℕ) (ps qs : List PlannedStep)
    → IsAllFit registry n ps
    → IsAllFit registry (n + length ps) qs
    → IsAllFit registry n (ps ++ qs)
IsAllFit-append registry n [] qs h k = subst (λ m. IsAllFit registry m qs) (omega arith) k
IsAllFit-append registry n (p ∷ ps) qs h k = (
  h.0,
  IsAllFit-append registry (suc n) ps qs h.1 (subst (λ m. IsAllFit registry m qs) (omega arith) k),
)

module _ (llm : List (List PlanProblem) → Result ModelAnswer) (registry : Registry)
    (preceding : List PlannedStep) where
  abbrev FitPlan : PlanResult → Type 0
  FitPlan r = IsAllFit registry (length preceding) r.steps

  plan_loop-fit :
      (n : ℕ) (asked : List (List PlanProblem)) (last_reply : Text)
      → Ensures FitPlan (plan_loop llm registry preceding n asked last_reply)
  unfolding plan_loop
  plan_loop-fit zero asked last_reply = tt
  plan_loop-fit (suc n) asked last_reply = elim (Result-cases (llm asked)) [
    | inl (bad, e) ↦ rw (e, Ensures) tt
    | inr (answer, e) ↦ elim (Option-cases answer.parsed) [
      | inl f ↦ rw (e, f, Ensures) tt
      | inr (r, f) ↦ elim (List-cases (validate_plan registry preceding r.steps)) [
        | inl g ↦ rw (e, f, g, Ensures) (validate_plan-fit registry preceding r.steps g)
        | inr (p, ps, g) ↦
            rw (e, f, g, Ensures)
              (plan_loop-fit n (asked ++ (p ∷ ps) ∷ []) (reply_or r.reply last_reply))
      ]
    ]
  ]

  -- Whatever the model answers, and however often it is asked again, the planner gives steps that can be
  -- classified: after steps that pass the classification, those steps and the planner's together pass it too.
  pub plan-classify_steps :
      (max_repair : ℕ) (r : PlanResult) (before : List WorkflowStep)
      → plan llm registry preceding max_repair ≡ ok r
      → classify_steps registry preceding ≡ ok before
      → (steps : List WorkflowStep) × (classify_steps registry (preceding ++ r.steps) ≡ ok steps)
  unfolding plan classify_steps
  plan-classify_steps max_repair r before planned known =
      let fit = Ensures-ok FitPlan _ r planned (plan_loop-fit (suc max_repair) [] _) in
      let first =
        Ensures-ok (λ s. IsAllFit registry 0 preceding) _ before known
          (classify_from-fit registry 0 preceding) in
      fit-classify_from registry 0 (preceding ++ r.steps) (
        IsAllFit-append registry 0 preceding r.steps first
          (subst (λ m. IsAllFit registry m r.steps) (omega arith) fit))
